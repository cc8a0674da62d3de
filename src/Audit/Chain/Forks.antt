-- ===== src/Audit/Chain/Forks.antt =====
-- The fork check of `trace_session_chain` never refuses a chain that the other passes accept.
use agentic_governance.Prelude.{
  ℕ, ◌<◌, ◌≡◌, refl, ap, Option, none, some, List, [], ◌∷◌, map, length, true, arith, ◌↔◌, sym, ◌∙◌,
  subst, Option-cases, Bool-cases, inl, inr,
}
use agentic_governance.Prelude.Dict.{Dict, get, put, get-put}
use agentic_governance.Errors.{ok}
use agentic_governance.Audit.Crypto.{Crypto, IsCollisionFree}
use agentic_governance.Audit.Chain.{Record, payload}
use agentic_governance.Audit.Chain.Verify.{
  hash_eq, check_forks, trace_session_chain, verify_chain_records,
}
use agentic_governance.Audit.Chain.Spec.{
  IsChain, verify_chain_records_iff, parts→IsChain, check_events-check_hmacs, IsChain→hmacs,
  IsChain→links, IsChain→genesis,
}
use agentic_governance.Audit.Chain.Commitment.{Back, start, later, Back-unique}

module _ (c : Crypto) (free : IsCollisionFree c) (secret : c.Secret) where
  length-map {ℓ κ} :
      {A : Type ℓ} {B : Type κ} (f : A → B) (xs : List A) → length (map f xs) ≡ length xs
  length-map f [] = refl
  length-map f (x ∷ xs) = omega (arith, length-map f xs)

  -- A hash stands at one depth of the chain.
  Back-depth :
      {h k : Option c.Digest} {rs ss : List (Record c)}
      → Back c secret h rs
      → Back c secret k ss
      → h ≡ k
      → length rs ≡ length ss
  Back-depth {rs = rs} {ss = ss} b b' e = omega (
    arith,
    ap length (Back-unique c free secret b b' e),
    length-map (payload c) rs,
    length-map (payload c) ss,
  )

  -- Every hash in `seen` has a history shorter than `n`.
  abbrev Seen : Dict (Option c.Digest) ℕ → ℕ → Type 0
  Seen seen n =
      (h : Option c.Digest) (first : ℕ)
      → get ⦃e = hash_eq c⦄ seen h ≡ some first
      → (before : List (Record c)) × Back c secret h before × (length before < n)

  unseen :
      (prev : Option c.Digest) (before : List (Record c)) (seen : Dict (Option c.Digest) ℕ)
      → Back c secret prev before
      → Seen seen (length before)
      → get ⦃e = hash_eq c⦄ seen prev ≡ none
  unseen prev before seen b s = elim (Option-cases (get ⦃e = hash_eq c⦄ seen prev)) [
    | inl e ↦ e
    | inr (first, e) ↦
        let (older, back, shorter) = s prev first e in
        absurd (omega (arith, Back-depth back b refl))
  ]

  Seen-put :
      (prev : Option c.Digest) (event : ℕ) (r : Record c) (before : List (Record c))
      (seen : Dict (Option c.Digest) ℕ)
      → Back c secret prev before
      → Seen seen (length before)
      → Seen (put ⦃e = hash_eq c⦄ seen prev event) (length (r ∷ before))
  Seen-put prev event r before seen b s h first found = elim (Bool-cases ((hash_eq c).beq prev h)) [
    | inl same ↦ (
      before,
      subst (λ k. Back c secret k before) (((hash_eq c).beq_iff prev h).0 same) b,
      omega arith,
    )
    | inr other ↦
        let (older, back, shorter) =
          s h first (sym (get-put ⦃e = hash_eq c⦄ seen prev h event ∙ rw other) ∙ found) in
        (older, back, omega arith)
  ]

  check_forks-cons :
      (r : Record c) (rs : List (Record c)) (seen : Dict (Option c.Digest) ℕ)
      → get ⦃e = hash_eq c⦄ seen r.prev_hash ≡ none
      → check_forks c seen (r ∷ rs)
        ≡ check_forks c (put ⦃e = hash_eq c⦄ seen r.prev_hash r.event_id) rs
  unfolding check_forks
  check_forks-cons r rs seen e = ground (arith, e)

  pub IsChain→forks :
      (prev : Option c.Digest) (before rs : List (Record c)) (seen : Dict (Option c.Digest) ℕ)
      → Back c secret prev before
      → Seen seen (length before)
      → IsChain c secret prev rs
      → check_forks c seen rs ≡ ok tt
  unfolding check_forks
  IsChain→forks prev before [] seen b s h = refl
  IsChain→forks prev before (r ∷ rs) seen b s (first, own, rest) =
      let here = subst (λ h. Back c secret h before) (sym first) b in
      check_forks-cons r rs seen (unseen r.prev_hash before seen here s)
      ∙ IsChain→forks (some r.hmac) (r ∷ before) rs _ (later r b first own)
          (Seen-put r.prev_hash r.event_id r before seen here s) rest

-- Unless the serialization or the HMAC collides, `trace_session_chain` returns the events of a
-- session exactly if `verify_chain_records` accepts them: its check for forks refuses nothing more.
pub trace_session_chain_iff :
    (c : Crypto)
    → IsCollisionFree c
    → (secret : c.Secret) (events : List (Record c))
    → (trace_session_chain c secret events ≡ ok events)
      ↔ (verify_chain_records c secret events ≡ ok true)
unfolding trace_session_chain get
trace_session_chain_iff c free secret events = (
  λ h. (verify_chain_records_iff c secret events).1 (
      parts→IsChain c secret events (ground arith)
        ((check_events-check_hmacs c secret 0 events).0 (ground arith)) (ground arith)),
  λ h.
      let chain = (verify_chain_records_iff c secret events).0 h in
      ground (
        arith,
        IsChain→forks c free secret none [] events [] start (λ k e found. cc) chain,
        (check_events-check_hmacs c secret 0 events).1 (IsChain→hmacs c secret 0 none events chain),
        IsChain→genesis c secret events chain,
        IsChain→links c secret 1 none events chain,
      ),
)
