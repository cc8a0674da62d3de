-- ===== src/Audit/Corrections/Revalidation.antt =====
-- What a validated correction satisfies, and that the second validation of the sanctioned path accepts
-- it as it is.
use agentic_governance.Prelude.{
  ℕ, ◌≡◌, refl, sym, ap, ◌∙◌, String, Bool, true, false, Option, none, some, List, [], ◌∷◌,
  contains, length, ltb, nat_beq, string_eq, nat_eq, not, Option-cases, subst, inl, inr, arith,
}
use agentic_governance.Prelude.Dict.{Dict, get}
use agentic_governance.Errors.{Exception, Result, ok, err, ◌>>=◌, ◌>>◌}
use agentic_governance.Cost.Numbers.{pos}
use agentic_governance.Audit.Corrections.{
  FieldValue, null, other_value, text, integer, boolean, moment, CorrectionEnv, Correction,
  permitted_kinds, allowed_reasons, reject_if, check_key_strength, check_fields, check_required,
  one_of, validate_seq, validate_seq_bounds, validate_operator_id, unless_forbidden, check_note,
  validate_note, validate_created_at, validate_correction_payload, check_payload, read_kind,
  read_reason, read_operator, read_bounds, read_created, sanitized, required_fields, validate_kind,
  validate_reason,
}
use Prim.Native.String.{count}

-- A chain of checks that returns has passed each of them.
bind_ok :
    {A B : Type 0} (m : Result A) (f : A → Result B) (b : B)
    → (m >>= f) ≡ ok b
    → (a : A) × (m ≡ ok a) × (f a ≡ ok b)
bind_ok (ok a) f b h = (a, refl, h)
bind_ok {B = B} (err e) f b h = elim (apart h) [ ]
  where
    apart : ◌≡◌ {0} {A = Result B} (err e) (ok b) → ⊥
    apart h = ground (arith, h)

failed :
    {A : Type 0} {P : Type 0} (e : Exception) (a : A) → ◌≡◌ {0} {A = Result A} (err e) (ok a) → P
failed {A = A} e a h = elim (apart h) [ ]
  where
    apart : ◌≡◌ {0} {A = Result A} (err e) (ok a) → ⊥
    apart h = ground (arith, h)

reject_if_ok :
    {B : Type 0} (bad : Bool) (field reason : String) (m : Result B) (b : B)
    → (reject_if bad field reason >> m) ≡ ok b
    → (bad ≡ false) × (m ≡ ok b)
reject_if_ok true field reason m b h = failed _ b h
reject_if_ok false field reason m b h = (refl, h)

from_ok : {A : Type 0} (d : A) → Result A → A
from_ok d (ok a) = a
from_ok d (err e) = d

ok_same : {A : Type 0} (a b : A) → ok a ≡ ok b → a ≡ b
unfolding from_ok
ok_same a b h = ap (from_ok a) h

one_of_ok :
    (allowed : List String) (field missing wrong s : String) (o : Option FieldValue)
    → one_of allowed field missing wrong o ≡ ok s
    → contains s allowed ≡ true
one_of_ok allowed field missing wrong s (some (text t)) h =
    let (listed, e) = reject_if_ok (not (contains t allowed)) field wrong (ok t) s h in
    sym (ap (λ u. contains u allowed) (ok_same t s e)) ∙ back (contains t allowed) listed
  where
    back : (b : Bool) → not b ≡ false → b ≡ true
    back true h = refl
    back false h = ground (arith, h)
one_of_ok allowed field missing wrong s none h = failed _ s h
one_of_ok allowed field missing wrong s (some null) h = failed _ s h
one_of_ok allowed field missing wrong s (some other_value) h = failed _ s h
one_of_ok allowed field missing wrong s (some (integer n)) h = failed _ s h
one_of_ok allowed field missing wrong s (some (boolean b)) h = failed _ s h
one_of_ok allowed field missing wrong s (some (moment t)) h = failed _ s h

seq_bounds_ok :
    (start end : Option FieldValue) (s e : ℕ)
    → validate_seq_bounds start end ≡ ok (s, e)
    → ltb e s ≡ false
seq_bounds_ok start end s e h =
    let (a, _, g) = bind_ok (validate_seq "ref_chain_seq_start" start) _ (s, e) h in
    let (b, _, k) = bind_ok (validate_seq "ref_chain_seq_end" end) _ (s, e) g in
    let (ordered, same) =
      reject_if_ok (ltb b a) "ref_chain_seq_end" "end_before_start" (ok (a, b)) (s, e) k in
    let pair = ok_same (a, b) (s, e) same in sym (ap (λ p. ltb p.1 p.0) pair) ∙ ordered

module _ (env : CorrectionEnv) where
  -- The note is short and free of forbidden patterns.
  abbrev pub IsCleanNote : String → Type 0
  IsCleanNote note =
      (ltb 256 (count note) ≡ false) × (env.first_forbidden (env.normalize note) ≡ none)

  -- What the allowlist promises of a correction.
  abbrev pub IsClean : Correction → Type 0
  IsClean c =
      IsCleanNote c.note
      × (contains c.kind permitted_kinds ≡ true)
      × (contains c.reason allowed_reasons ≡ true)
      × (nat_beq (count (env.strip c.operator_id)) 0 ≡ false)
      × (ltb c.ref_chain_seq_end c.ref_chain_seq_start ≡ false)

  check_note_ok : (t s : String) → check_note env t ≡ ok s → IsCleanNote s
  check_note_ok t s h =
      let (short, e) =
        reject_if_ok (ltb 256 (count t)) "note" "over_256_chars"
          (unless_forbidden env t (env.first_forbidden (env.normalize t))) s h in
      let (free, same) = unforbidden (env.first_forbidden (env.normalize t)) e in
      (
        sym (ap (λ u. ltb 256 (count u)) same) ∙ short,
        sym (ap (λ u. env.first_forbidden (env.normalize u)) same) ∙ free,
      )
    where
      unforbidden : (o : Option String) → unless_forbidden env t o ≡ ok s → (o ≡ none) × (t ≡ s)
      unforbidden none e = (refl, ok_same t s e)
      unforbidden (some p) e = failed _ s e

  note_ok : (o : Option FieldValue) (s : String) → validate_note env o ≡ ok s → IsCleanNote s
  note_ok none s h = check_note_ok "" s h
  note_ok (some null) s h = check_note_ok "" s h
  note_ok (some (text t)) s h = check_note_ok t s h
  note_ok (some other_value) s h = failed _ s h
  note_ok (some (integer n)) s h = failed _ s h
  note_ok (some (boolean b)) s h = failed _ s h
  note_ok (some (moment t)) s h = failed _ s h

  operator_ok :
      (o : Option FieldValue) (s : String)
      → validate_operator_id env o ≡ ok s
      → nat_beq (count (env.strip s)) 0 ≡ false
  operator_ok (some (text t)) s h =
      let (filled, e) =
        reject_if_ok (nat_beq (count (env.strip t)) 0) "operator_id" "missing_or_empty" (ok t) s
          h in
      sym (ap (λ u. nat_beq (count (env.strip u)) 0) (ok_same t s e)) ∙ filled
  operator_ok none s h = failed _ s h
  operator_ok (some null) s h = failed _ s h
  operator_ok (some other_value) s h = failed _ s h
  operator_ok (some (integer n)) s h = failed _ s h
  operator_ok (some (boolean b)) s h = failed _ s h
  operator_ok (some (moment t)) s h = failed _ s h

  -- The fields of a sanitized payload.
  abbrev pub created_entry : Option ℕ → Dict String FieldValue
  created_entry none = []
  created_entry (some t) = ("created_at", moment (some t)) ∷ []

  abbrev pub to_payload : Correction → Dict String FieldValue
  to_payload c =
      ("kind", text c.kind)
      ∷ ("reason", text c.reason)
      ∷ ("operator_id", text c.operator_id)
      ∷ ("ref_chain_seq_start", integer (pos c.ref_chain_seq_start))
      ∷ ("ref_chain_seq_end", integer (pos c.ref_chain_seq_end))
      ∷ ("note", text c.note)
      ∷ created_entry c.created_at

  -- A payload that is validated has passed every check.
  pub validated-IsClean :
      (payload : Dict String FieldValue) (key : List ℕ) (c : Correction)
      → validate_correction_payload env payload key ≡ ok c
      → IsClean c × (check_key_strength key ≡ ok tt)
  unfolding validate_correction_payload
  validated-IsClean payload key c h =
      let (note, h1, h2) = bind_ok (check_payload env payload key) (read_kind env payload) c h in
      let (_, h3) =
        reject_if_ok (nat_beq (length payload) 0) "payload" "empty"
          (check_key_strength key
            >> (check_fields payload >> validate_note env (get payload "note")))
          note h1 in
      let (_, strong, h4) =
        bind_ok (check_key_strength key)
          (λ _. check_fields payload >> validate_note env (get payload "note")) note h3 in
      let (_, _, noted) =
        bind_ok (check_fields payload) (λ _. validate_note env (get payload "note")) note h4 in
      let (kind, h5, h6) =
        bind_ok (check_required required_fields payload >> validate_kind (get payload "kind"))
          (read_reason env payload note) c h2 in
      let (_, _, kinded) =
        bind_ok (check_required required_fields payload) (λ _. validate_kind (get payload "kind"))
          kind h5 in
      let (reason, reasoned, h7) =
        bind_ok (validate_reason (get payload "reason")) (read_operator env payload note kind) c
          h6 in
      let (operator_id, operated, h8) =
        bind_ok (validate_operator_id env (get payload "operator_id"))
          (read_bounds env payload note kind reason) c h7 in
      let ((start, end), bounded, h9) =
        bind_ok
          (validate_seq_bounds (get payload "ref_chain_seq_start")
            (get payload "ref_chain_seq_end"))
          (read_created env payload note kind reason operator_id) c h8 in
      let (created_at, _, made) =
        bind_ok (validate_created_at env (get payload "created_at"))
          (sanitized env payload note kind reason operator_id (start, end)) c h9 in
      (
        subst IsClean (ok_same _ c made) (
          note_ok (get payload "note") note noted,
          one_of_ok permitted_kinds "kind" "missing_or_non_string" "kind_not_in_allowlist" kind
              (get payload "kind") kinded,
          one_of_ok allowed_reasons "reason" "missing_or_non_string" "free_text_reason_rejected"
              reason (get payload "reason") reasoned,
          operator_ok (get payload "operator_id") operator_id operated,
          seq_bounds_ok (get payload "ref_chain_seq_start") (get payload "ref_chain_seq_end") start
              end bounded,
        ),
        strong,
      )

  -- A clean correction passes as it is.
  pub IsClean-validated :
      (key : List ℕ) (c : Correction)
      → IsClean c
      → check_key_strength key ≡ ok tt
      → validate_correction_payload env (to_payload c) key ≡ ok c
  unfolding validate_correction_payload check_fields check_required get
  IsClean-validated key c ((short, free), kinded, reasoned, operated, bounded) strong =
      elim (Option-cases c.created_at) [
        | inl e ↦ rw (e, strong, short, free, kinded, reasoned, operated, bounded) refl
        | inr (t, e) ↦ rw (e, strong, short, free, kinded, reasoned, operated, bounded) refl
      ]
