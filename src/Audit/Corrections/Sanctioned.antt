-- ===== src/Audit/Corrections/Sanctioned.antt =====
-- audit/module.py: `log_validated_correction`, the only way of a correction into the audit log.
use agentic_governance.Prelude.{
  ℕ, ◌≡◌, refl, sym, ap, ◌∙◌, String, Bool, true, false, Option, none, some, List, contains,
  string_eq, ◌==◌, if◌then◌else◌, Bool-cases, inl, inr, arith,
}
use agentic_governance.Prelude.Dict.{Dict, get}
use agentic_governance.Errors.{Exception, Result, ok, err, runtime_error, Result-cases}
use agentic_governance.Exec.{Exec}
use agentic_governance.Audit.Crypto.{Crypto}
use agentic_governance.Audit.Chain.{Record}
use agentic_governance.Audit.Models.{AuditEvent}
use agentic_governance.Audit.Event.{
  EventEnv, audit_event, sanitized_event, audit_event-sanitized_event,
}
use agentic_governance.Audit.Emit.{plain_event}
use agentic_governance.Audit.Log.{Call, Config, Log, log}
use agentic_governance.Audit.Corrections.{
  FieldValue, text, CorrectionEnv, Correction, permitted_kinds, validate_correction_payload,
}
use agentic_governance.Audit.Corrections.Revalidation.{
  IsClean, to_payload, validated-IsClean, IsClean-validated,
}

-- payload.get("kind") in PERMITTED_KINDS
abbrev pub is_permitted : Option FieldValue → Bool
is_permitted (some (text kind)) = contains kind permitted_kinds
is_permitted _ = false

module _ (c : Crypto) (env : CorrectionEnv) (events : EventEnv c.Metadata)
    (metadata : Correction → c.Metadata) where
  -- The event, as its constructor gets it; `metadata` is the dict of the five fields.
  abbrev pub correction_event : Correction → AuditEvent c.Metadata
  correction_event s = plain_event "governance.operator" none s.kind (metadata s)

  -- The event that was built, marked as sanctioned.
  abbrev pub correction_call : Call c → AuditEvent c.Metadata → Call c
  correction_call call event = record call { event = event; sanctioned = true }

  abbrev pub log_correction :
      Config c → Call c → Result (AuditEvent c.Metadata) → Exec (Log c) (Record c)
  log_correction config call (err e) l = (err e, l)
  log_correction config call (ok event) l = log c config (correction_call call event) l

  abbrev pub log_sanitized : Config c → Call c → Result Correction → Exec (Log c) (Record c)
  log_sanitized config call (err e) l = (err e, l)
  log_sanitized config call (ok s) l =
      log_correction config call (audit_event events (correction_event s)) l

  unfoldable pub log_validated_correction :
      Config c → Call c → Dict String FieldValue → (hmac_key : List ℕ) → Exec (Log c) (Record c)
  log_validated_correction config call payload key l =
      let answer = log_sanitized config call (validate_correction_payload env payload key) l in
      if is_permitted (get payload "kind") then answer else (err runtime_error, l)

  -- A sanctioned event is never refused.
  sanctioned_ok :
      (config : Config c) (call : Call c) (event : AuditEvent c.Metadata) (l : Log c)
      → (r : Record c) × ((log c config (correction_call call event) l).0 ≡ ok r)
  unfolding log
  sanctioned_ok config call event l =
      elim (Result-cases (log c config (correction_call call event) l).0) [
        | inl (r, e) ↦ (r, e)
        | inr (x, e) ↦ elim (never x e) [ ]
      ]
    where
      apart : {r : Record c} {x : Exception} → ◌≡◌ {0} {A = Result (Record c)} (ok r) (err x) → ⊥
      apart h = ground (arith, h)

      never : (x : Exception) → (log c config (correction_call call event) l).0 ≡ err x → ⊥
      never x = elim (Bool-cases (event.kind == "audit.correction")) [
        | inl e ↦ rw (e, log) (λ h. apart h)
        | inr e ↦ rw (e, log) (λ h. apart h)
      ]

  kind_permitted :
      (s : Correction) → IsClean env s → is_permitted (get (to_payload env s) "kind") ≡ true
  unfolding get
  kind_permitted s (_, listed, _, _, _) = listed

  -- The call on a payload with a listed kind that is validated to `s`, by the event of `s`.
  validated_lem :
      (config : Config c) (call : Call c) (payload : Dict String FieldValue) (key : List ℕ)
      (s : Correction) (l : Log c) (made : Result (AuditEvent c.Metadata))
      → is_permitted (get payload "kind") ≡ true
      → validate_correction_payload env payload key ≡ ok s
      → audit_event events (correction_event s) ≡ made
      → log_validated_correction config call payload key l ≡ log_correction config call made l
  unfolding log_validated_correction
  validated_lem config call payload key s l made listed valid built =
      rw (listed, valid, log_validated_correction) refl
      ∙ ap (λ r. log_correction config call r l) built

  -- What `validate_correction_payload` returns for a payload satisfies the allowlist, and
  -- `log_validated_correction` takes it, if the constructor of `AuditEvent` takes its event: it
  -- validates it a second time to the same correction and logs the event without raising.
  pub log_validated_correction-validate :
      (config : Config c) (call : Call c) (payload : Dict String FieldValue) (key : List ℕ)
      (s : Correction) (event : AuditEvent c.Metadata) (l : Log c)
      → validate_correction_payload env payload key ≡ ok s
      → audit_event events (correction_event s) ≡ ok event
      → IsClean env s
        × (log_validated_correction config call (to_payload env s) key l
            ≡ log c config (correction_call call event) l)
        × ((r : Record c) × ((log_validated_correction config call (to_payload env s) key l).0
              ≡ ok r))
  log_validated_correction-validate config call payload key s event l h built =
      let (clean, strong) = validated-IsClean env payload key s h in
      let logged =
        validated_lem config call (to_payload env s) key s l (ok event) (kind_permitted s clean)
          (IsClean-validated env key s clean strong) built in
      let (r, e) = sanctioned_ok config call event l in
      (clean, logged, (r, ap (λ q. q.0) logged ∙ e))

  -- What `log_validated_correction` writes: if it returns, then the payload was validated to a
  -- correction that satisfies the allowlist, the constructor of `AuditEvent` took the event of this
  -- correction, and the log took the sanitized event, with every text of its metadata changed by
  -- `sanitize_string`.
  pub log_validated_correction-IsClean :
      (config : Config c) (call : Call c) (payload : Dict String FieldValue) (key : List ℕ)
      (l : Log c) (r : Record c)
      → (log_validated_correction config call payload key l).0 ≡ ok r
      → (s : Correction) × (validate_correction_payload env payload key ≡ ok s)
        × IsClean env s
        × (audit_event events (correction_event s)
            ≡ ok (sanitized_event events (correction_event s)))
        × ((log_validated_correction config call payload key l).1
            ≡ (log c config
                (correction_call call (sanitized_event events (correction_event s)))
                l).1)
  unfolding log_validated_correction
  log_validated_correction-IsClean config call payload key l r =
      elim (Bool-cases (is_permitted (get payload "kind"))) [
        | inr e ↦ rw (e, log_validated_correction) (λ h. elim (apart h) [ ])
        | inl e ↦ elim (Result-cases (validate_correction_payload env payload key)) [
          | inr (x, f) ↦ rw (e, f, log_validated_correction) (λ h. elim (apart h) [ ])
          | inl (s, f) ↦ elim (Result-cases (audit_event events (correction_event s))) [
            | inr (x, g) ↦ λ h.
                let raised = validated_lem config call payload key s l (err x) e f g in
                elim (apart (sym (ap (λ q. q.0) raised) ∙ h)) [ ]
            | inl (event, g) ↦ λ h.
                let same = audit_event-sanitized_event events (correction_event s) event g in
                let built = g ∙ ap ok same in
                let taken =
                  validated_lem config call payload key s l
                    (ok (sanitized_event events (correction_event s))) e f built in
                (s, f, (validated-IsClean env payload key s f).0, built, ap (λ q. q.1) taken)
          ]
        ]
      ]
    where
      apart : {x : Exception} → ◌≡◌ {0} {A = Result (Record c)} (err x) (ok r) → ⊥
      apart h = ground (arith, h)
