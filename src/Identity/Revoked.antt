-- ===== src/Identity/Revoked.antt =====
-- What revocations do, with and without a chain event: none is ever lifted.
use agentic_governance.Prelude.{
  ℕ, ◌≤◌, ◌≡◌, refl, sym, ap, ◌∙◌, subst, String, Bool, true, false, Option, none, some, default,
  List, [], ◌∷◌, ◌++◌, ◌==◌, string_eq, leb, exists, if◌then◌else◌, arith, Bool-cases, inl, inr,
  ◌⊎◌,
}
use agentic_governance.Prelude.Dict.{get_or-put}
use agentic_governance.Errors.{Result, ok, err, Result-cases}
use agentic_governance.Exec.{◌>>=◌}
use agentic_governance.Audit.Crypto.{Crypto}
use agentic_governance.Audit.Chain.{Record}
use agentic_governance.Audit.Models.{AuditEvent}
use agentic_governance.Audit.Event.{audit_event}
use agentic_governance.Audit.Log.{Call, Log, log}
use agentic_governance.Identity.Revocation.{
  RevocationRecord, RevocationStore, revocations_of, revoke, is_revoked_at, RevokeCall, Revoking,
  seq_or_zero, revoke_with_chain_event, revocation_event, log_built, noted, append_revocation,
}

exists-append :
    (p : RevocationRecord → Bool) (rs ss : List RevocationRecord)
    → exists p rs ≡ true
    → exists p (rs ++ ss) ≡ true
exists-append p [] ss h = elim (clash h) [ ]
  where
    clash : false ≡ true → ⊥
    clash h = ground (arith, h)
exists-append p (r ∷ rs) ss h = elim (Bool-cases (p r)) [
  | inl e ↦ rw e refl
  | inr e ↦ rw e (exists-append p rs ss (rw e at h))
]

exists-last :
    (p : RevocationRecord → Bool) (rs : List RevocationRecord) (r : RevocationRecord)
    → p r ≡ true
    → exists p (rs ++ r ∷ []) ≡ true
exists-last p [] r h = rw h refl
exists-last p (s ∷ rs) r h = elim (Bool-cases (p s)) [
  | inl e ↦ rw e refl
  | inr e ↦ rw e (exists-last p rs r h)
]

module _ (r : RevocationRecord) (s : RevocationStore) where
  revoked_list :
      (fp : String)
      → revocations_of (revoke r s) fp ≡ (
          if r.key_fingerprint == fp
          then revocations_of s r.key_fingerprint ++ r ∷ []
          else revocations_of s fp)
  unfolding revoke
  revoked_list fp =
      get_or-put s.by_fingerprint r.key_fingerprint fp
        (revocations_of s r.key_fingerprint ++ r ∷ []) []

  -- A revocation holds from its number on.
  pub revoke-is_revoked_at :
      (q : ℕ) → r.revoked_at_chain_seq ≤ q → is_revoked_at r.key_fingerprint q (revoke r s) ≡ true
  unfolding is_revoked_at
  revoke-is_revoked_at q h =
      let p : RevocationRecord → Bool = λ t. leb t.revoked_at_chain_seq q in
      ap (exists p) (
        revoked_list r.key_fingerprint
        ∙ rw ((string_eq.beq_iff r.key_fingerprint r.key_fingerprint).1 refl) refl)
      ∙ exists-last p (revocations_of s r.key_fingerprint) r (ground (arith, h))

  -- No revocation lifts another one.
  revoke_keeps :
      (fp : String) (q : ℕ) → is_revoked_at fp q s ≡ true → is_revoked_at fp q (revoke r s) ≡ true
  unfolding is_revoked_at
  revoke_keeps fp q h =
      let p : RevocationRecord → Bool = λ t. leb t.revoked_at_chain_seq q in
      ap (exists p) (revoked_list fp) ∙ elim (Bool-cases (r.key_fingerprint == fp)) [
        | inl e ↦
            let same = (string_eq.beq_iff r.key_fingerprint fp).0 e in
            rw e (
              exists-append p (revocations_of s r.key_fingerprint) (r ∷ [])
                (subst (λ k. exists p (revocations_of s k) ≡ true) (sym same) h))
        | inr e ↦ rw e h
      ]

module _ (c : Crypto) where
  -- What the audit log is asked for.
  abbrev pub revocation_call : RevokeCall c → AuditEvent c.Metadata → Call c
  revocation_call x event = record x.call { event = event }

  abbrev pub revocation_of : RevokeCall c → (chain_event_id : Option ℕ) → RevocationRecord
  revocation_of x chain_event_id = record {
    key_fingerprint = x.key_fingerprint;
    revoked_at_chain_seq = seq_or_zero c x.chain_seq;
    reason = x.reason;
    operator_id = x.operator_id;
    created_at = x.created_at;
    chain_event_id = chain_event_id;
  }

  revoke_with_chain_event-built :
      (x : RevokeCall c) (r : Result (AuditEvent c.Metadata)) (s : Revoking c)
      → audit_event x.env (revocation_event c x) ≡ r
      → revoke_with_chain_event c x s ≡ (log_built c x r >>= append_revocation c x) s
  unfolding revoke_with_chain_event
  revoke_with_chain_event-built x r s h = ap (λ r. (log_built c x r >>= append_revocation c x) s) h

  -- The store is as it was, or has one more revocation.
  abbrev Grows : RevokeCall c → RevocationStore → RevocationStore → Type 0
  Grows x before after =
      (after ≡ before)
      ⊎ ((chain_event_id : Option ℕ) × (after ≡ revoke (revocation_of x chain_event_id) before))

  noted-Grows :
      (x : RevokeCall c) (s : Revoking c) (q : Result (Record c) × Log c)
      → Grows x s.store (((λ (t : Revoking c). noted c x t q) >>= append_revocation c x) s).1.store
  noted-Grows x s (ok done, after) = inr (some done.event_id, refl)
  noted-Grows x s (err e, after) = elim (Bool-cases (default x.strict_chain s.store.strict_chain)) [
    | inl strict ↦ inl (rw strict refl)
    | inr lax ↦ inr (none, rw lax refl)
  ]

  -- Whatever the call raises.
  chained_store :
      (x : RevokeCall c) (s : Revoking c) → Grows x s.store (revoke_with_chain_event c x s).1.store
  chained_store x s = elim (Result-cases (audit_event x.env (revocation_event c x))) [
    | inr (e, h) ↦ inl (ap (λ q. q.1.store) (revoke_with_chain_event-built x (err e) s h))
    | inl (event, h) ↦
        subst (Grows x s.store)
          (sym (ap (λ q. q.1.store) (revoke_with_chain_event-built x (ok event) s h)))
          (noted-Grows x s (log c x.config (revocation_call x event) s.log))
  ]

  pub data RevocationStep : Type 0 where
    plain_step : RevocationRecord → RevocationStep
    chained_step : RevokeCall c → RevocationStep

  -- The two ways to revoke.
  abbrev pub step : RevocationStep → Revoking c → Revoking c
  step (plain_step r) s = record s { store = revoke r s.store }
  step (chained_step x) s = (revoke_with_chain_event c x s).1

  abbrev pub run : List RevocationStep → Revoking c → Revoking c
  run [] s = s
  run (o ∷ os) s = run os (step o s)

  pub run_keeps :
      (os : List RevocationStep) (s : Revoking c) (fp : String) (q : ℕ)
      → is_revoked_at fp q s.store ≡ true
      → is_revoked_at fp q (run os s).store ≡ true
  run_keeps [] s fp q h = h
  run_keeps (plain_step r ∷ os) s fp q h =
      run_keeps os (step (plain_step r) s) fp q (revoke_keeps r s.store fp q h)
  run_keeps (chained_step x ∷ os) s fp q h =
      run_keeps os (step (chained_step x) s) fp q (elim (chained_store x s) [
        | inl same ↦ subst (λ t. is_revoked_at fp q t ≡ true) (sym same) h
        | inr (o, stored) ↦
            subst (λ t. is_revoked_at fp q t ≡ true) (sym stored)
              (revoke_keeps (revocation_of x o) s.store fp q h)
      ])
