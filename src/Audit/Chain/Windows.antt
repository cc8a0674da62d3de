-- ===== src/Audit/Chain/Windows.antt =====
-- `verify_chain` on a slice of a session.
use agentic_governance.Prelude.{
  ℕ, zero, suc, ◌+◌, ◌≤◌, ◌≡◌, refl, true, Option, none, some, List, [], ◌∷◌, take, drop, default,
  arith, false, is_some, ltb, ◌&&◌,
}
use agentic_governance.Errors.{ok}
use agentic_governance.Audit.Crypto.{Crypto}
use agentic_governance.Audit.Chain.{Record}
use agentic_governance.Audit.Chain.Verify.{verify_chain_records, verify_window, verify_chain}
use agentic_governance.Audit.Chain.Spec.{
  IsChain, IsChain→hmacs, IsChain→links, IsChain→genesis, verify_chain_records_iff,
}

module _ (c : Crypto) (secret : c.Secret) where
  IsChain-take :
      (n : ℕ) (prev : Option c.Digest) (rs : List (Record c))
      → IsChain c secret prev rs
      → IsChain c secret prev (take n rs)
  IsChain-take zero prev rs h = tt
  IsChain-take (suc n) prev [] h = tt
  IsChain-take (suc n) prev (r ∷ rs) h = (h.0, h.1, IsChain-take n (some r.hmac) rs h.2)

  IsChain-drop :
      (n : ℕ) (prev : Option c.Digest) (rs : List (Record c))
      → IsChain c secret prev rs
      → (prev' : Option c.Digest) × IsChain c secret prev' (drop n rs)
  IsChain-drop zero prev rs h = (prev, h)
  IsChain-drop (suc n) prev [] h = (prev, tt)
  IsChain-drop (suc n) prev (r ∷ rs) h = IsChain-drop n (some r.hmac) rs h.2

  -- Outside the head of the chain the genesis check is skipped.
  window_passes :
      (start : ℕ) (rs : List (Record c))
      → IsChain c secret none rs
      → verify_window c secret start (drop start rs) ≡ ok true
  unfolding verify_window
  window_passes zero rs h = ground (
    arith,
    IsChain→genesis c secret rs h,
    IsChain→hmacs c secret 0 none rs h,
    IsChain→links c secret (0 + 1) none rs h,
  )
  window_passes (suc n) rs h =
      let (prev, h') = IsChain-drop (suc n) none rs h in
      ground (
        arith,
        IsChain→hmacs c secret (suc n) prev (drop (suc n) rs) h',
        IsChain→links c secret (suc n + 1) prev (drop (suc n) rs) h',
      )

  in_range :
      (from_seq to_seq : Option ℕ)
      → ((i j : ℕ) → from_seq ≡ some i → to_seq ≡ some j → i ≤ j)
      → (is_some from_seq && is_some to_seq && ltb (default to_seq 0) (default from_seq 0)) ≡ false
  in_range none to_seq h = refl
  in_range (some i) none h = refl
  in_range (some i) (some j) h = let le = h i j refl refl in ground arith

-- If the chain of a session verifies, so does each of its slices `from_seq .. to_seq` with
-- from_seq <= to_seq: a slice that starts later is not held to the genesis check.
pub verify_chain_slice :
    (c : Crypto) (secret : c.Secret) (from_seq to_seq : Option ℕ) (events : List (Record c))
    → ((i j : ℕ) → from_seq ≡ some i → to_seq ≡ some j → i ≤ j)
    → verify_chain_records c secret events ≡ ok true
    → verify_chain c secret from_seq to_seq events ≡ ok true
unfolding verify_chain
verify_chain_slice c secret from_seq to_seq events range h =
    rw (in_range c secret from_seq to_seq range) (
      window_passes c secret (default from_seq 0) _
        (IsChain-take c secret _ none events ((verify_chain_records_iff c secret events).0 h)))
