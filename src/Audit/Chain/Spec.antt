-- ===== src/Audit/Chain/Spec.antt =====
-- What a verified chain is, and that the verifiers of audit/module.py decide it.
use agentic_governance.Prelude.{
  ℕ, ◌+◌, ◌≡◌, ◌↔◌, refl, true, Option, none, some, List, [], ◌∷◌, arith, option_eq,
}
use agentic_governance.Errors.{ok}
use agentic_governance.Audit.Crypto.{Crypto}
use agentic_governance.Audit.Chain.{Record, payload, compute_event_hmac, verify_event}
use agentic_governance.Audit.Chain.Verify.{
  hash_eq, check_genesis, check_hmacs, check_links, check_events, verify_chain_records,
}

module _ (c : Crypto) (secret : c.Secret) where
  abbrev pub IsAuthentic : Record c → Type 0
  IsAuthentic r = compute_event_hmac c secret (payload c r) ≡ r.hmac

  -- Each record carries the hash of the one before it, the first one `prev`, and its own HMAC.
  abbrev pub IsChain : Option c.Digest → List (Record c) → Type 0
  IsChain prev [] = Unit
  IsChain prev (r ∷ rs) = (r.prev_hash ≡ prev) × IsAuthentic r × IsChain (some r.hmac) rs

  pub verify_event_iff : (r : Record c) → (verify_event c r secret ≡ true) ↔ IsAuthentic r
  unfolding verify_event
  verify_event_iff r = c.digest_eq.beq_iff _ r.hmac

  check_hmacs-cons :
      (i : ℕ) (r : Record c) (rs : List (Record c))
      → (check_hmacs c secret i (r ∷ rs) ≡ ok tt)
        ↔ (IsAuthentic r × (check_hmacs c secret (i + 1) rs ≡ ok tt))
  unfolding check_hmacs
  check_hmacs-cons i r rs = ground (arith, verify_event_iff r)

  check_links-cons :
      (i : ℕ) (r s : Record c) (rs : List (Record c))
      → (check_links c i (r ∷ s ∷ rs) ≡ ok tt)
        ↔ ((s.prev_hash ≡ some r.hmac) × (check_links c (i + 1) (s ∷ rs) ≡ ok tt))
  unfolding check_links
  check_links-cons i r s rs = ground (arith, (hash_eq c).beq_iff s.prev_hash (some r.hmac))

  pub checks→IsChain :
      (i j : ℕ) (prev : Option c.Digest) (r : Record c) (rs : List (Record c))
      → r.prev_hash ≡ prev
      → check_hmacs c secret i (r ∷ rs) ≡ ok tt
      → check_links c j (r ∷ rs) ≡ ok tt
      → IsChain prev (r ∷ rs)
  checks→IsChain i j prev r [] e h l = (e, ((check_hmacs-cons i r []).0 h).0, tt)
  checks→IsChain i j prev r (s ∷ rs) e h l =
      let (authentic, h') = (check_hmacs-cons i r (s ∷ rs)).0 h in
      let (linked, l') = (check_links-cons j r s rs).0 l in
      (e, authentic, checks→IsChain (i + 1) (j + 1) (some r.hmac) s rs linked h' l')

  pub IsChain→hmacs :
      (i : ℕ) (prev : Option c.Digest) (rs : List (Record c))
      → IsChain prev rs
      → check_hmacs c secret i rs ≡ ok tt
  unfolding check_hmacs
  IsChain→hmacs i prev [] h = refl
  IsChain→hmacs i prev (r ∷ rs) h =
      (check_hmacs-cons i r rs).1 (h.1, IsChain→hmacs (i + 1) (some r.hmac) rs h.2)

  pub IsChain→links :
      (i : ℕ) (prev : Option c.Digest) (rs : List (Record c))
      → IsChain prev rs
      → check_links c i rs ≡ ok tt
  unfolding check_links
  IsChain→links i prev [] h = refl
  IsChain→links i prev (r ∷ []) h = refl
  IsChain→links i prev (r ∷ s ∷ rs) h =
      (check_links-cons i r s rs).1 (h.2.0, IsChain→links (i + 1) (some r.hmac) (s ∷ rs) h.2)

  pub parts→IsChain :
      (rs : List (Record c))
      → check_genesis c rs ≡ ok tt
      → check_hmacs c secret 0 rs ≡ ok tt
      → check_links c 1 rs ≡ ok tt
      → IsChain none rs
  unfolding check_genesis
  parts→IsChain [] g h l = tt
  parts→IsChain (r ∷ rs) g h l = checks→IsChain 0 1 none r rs (ground arith) h l

  pub IsChain→genesis : (rs : List (Record c)) → IsChain none rs → check_genesis c rs ≡ ok tt
  unfolding check_genesis
  IsChain→genesis [] h = refl
  IsChain→genesis (r ∷ rs) h = ground arith

  -- The HMAC pass of `trace_session_chain` accepts what that of `verify_chain_records` does.
  pub check_events-check_hmacs :
      (i : ℕ) (rs : List (Record c))
      → (check_events c secret rs ≡ ok tt) ↔ (check_hmacs c secret i rs ≡ ok tt)
  unfolding check_events check_hmacs
  check_events-check_hmacs i [] = ground arith
  check_events-check_hmacs i (r ∷ rs) = ground (arith, check_events-check_hmacs (i + 1) rs)

-- `verify_chain_records` accepts a list of records exactly if the first has no predecessor, each
-- carries the hash of the one before it, and each carries its own HMAC under the secret.
pub verify_chain_records_iff :
    (c : Crypto) (secret : c.Secret) (rs : List (Record c))
    → (verify_chain_records c secret rs ≡ ok true) ↔ IsChain c secret none rs
unfolding verify_chain_records
verify_chain_records_iff c secret rs = (
  λ h. parts→IsChain c secret rs (ground arith) (ground arith) (ground arith),
  λ h. ground (
    arith,
    IsChain→genesis c secret rs h,
    IsChain→hmacs c secret 0 none rs h,
    IsChain→links c secret 1 none rs h,
  ),
)
