-- ===== src/Audit/Chain/Commitment.antt =====
-- What a chain of HMACs commits to, when neither the serialization nor the HMAC collides.
use agentic_governance.Prelude.{
  ◌≡◌, refl, sym, ap, ◌∙◌, Option, none, some, List, [], ◌∷◌, map, true,
}
use mathlib.Core.List.{reverse, reverse_aux, reverse-reverse}
use agentic_governance.Audit.Crypto.{Crypto, IsCollisionFree}
use agentic_governance.Audit.Chain.{Record, payload}
use agentic_governance.Errors.{ok}
use agentic_governance.Audit.Chain.Verify.{verify_chain_records}
use agentic_governance.Audit.Chain.Spec.{IsAuthentic, IsChain, verify_chain_records_iff}

module _ (c : Crypto) (free : IsCollisionFree c) (secret : c.Secret) where
  -- Two authentic records with one HMAC have the same fields under it.
  pub authentic_injective :
      (r s : Record c)
      → IsAuthentic c secret r
      → IsAuthentic c secret s
      → r.hmac ≡ s.hmac
      → payload c r ≡ payload c s
  authentic_injective r s hr hs e =
      free.canonical_injective _ _ (free.hexdigest_injective secret _ _ (hr ∙ e ∙ sym hs))

  pub prev_injective :
      (r s : Record c)
      → IsAuthentic c secret r
      → IsAuthentic c secret s
      → r.hmac ≡ s.hmac
      → r.prev_hash ≡ s.prev_hash
  prev_injective r s hr hs e = ap (λ p. p.prev_hash) (authentic_injective r s hr hs e)

-- A chain read from its end: the hash `h` and the records that lead to it, the last one first.
module _ (c : Crypto) (secret : c.Secret) where
  -- The hash that the next record has to carry.
  abbrev pub end_hash : Option c.Digest → List (Record c) → Option c.Digest
  end_hash prev [] = prev
  end_hash prev (r ∷ rs) = end_hash (some r.hmac) rs

  pub data Back : Option c.Digest → List (Record c) → Type 0 where
    start : Back none []
    later :
        {h : Option c.Digest} {rs : List (Record c)} (r : Record c)
        → Back h rs
        → r.prev_hash ≡ h
        → IsAuthentic c secret r
        → Back (some r.hmac) (r ∷ rs)

  pub IsChain→Back :
      (prev : Option c.Digest) (before rs : List (Record c))
      → Back prev before
      → IsChain c secret prev rs
      → Back (end_hash prev rs) (reverse_aux rs before)
  IsChain→Back prev before [] b h = b
  IsChain→Back prev before (r ∷ rs) b h =
      IsChain→Back (some r.hmac) (r ∷ before) rs (later r b h.0 h.1) h.2

module _ (c : Crypto) (free : IsCollisionFree c) (secret : c.Secret) where
  -- A hash has one history.
  pub Back-unique :
      {h k : Option c.Digest} {rs ss : List (Record c)}
      → Back c secret h rs
      → Back c secret k ss
      → h ≡ k
      → map (payload c) rs ≡ map (payload c) ss
  Back-unique start start e = refl
  Back-unique start (later s b p a) e = cc
  Back-unique (later r b p a) start e = cc
  Back-unique (later r b p a) (later s b' p' a') e =
      let same : r.hmac ≡ s.hmac = cc in
      let earlier = Back-unique b b' (sym p ∙ prev_injective c free secret r s a a' same ∙ p') in
      cc (earlier, authentic_injective c free secret r s a a' same)

  map-reverse_aux {ℓ κ} :
      {A : Type ℓ} {B : Type κ} (f : A → B) (xs ys : List A)
      → map f (reverse_aux xs ys) ≡ reverse_aux (map f xs) (map f ys)
  map-reverse_aux f [] ys = refl
  map-reverse_aux f (x ∷ xs) ys = map-reverse_aux f xs (x ∷ ys)

  chains_agree :
      (xs ys : List (Record c))
      → IsChain c secret none xs
      → IsChain c secret none ys
      → end_hash c secret none xs ≡ end_hash c secret none ys
      → map (payload c) xs ≡ map (payload c) ys
  chains_agree xs ys hx hy e =
      let back =
        Back-unique (IsChain→Back c secret none [] xs start hx)
          (IsChain→Back c secret none [] ys start hy) e in
      let turned =
        sym (map-reverse_aux (payload c) xs []) ∙ back ∙ map-reverse_aux (payload c) ys [] in
      sym (reverse-reverse _) ∙ ap reverse turned ∙ reverse-reverse _

-- Two record lists that `verify_chain_records` accepts under one secret, and that end in the same
-- hash (or are both empty), hold the same payloads in the same order, provided that neither the
-- serialization nor the HMAC collides: the last hash commits to the whole history.
pub head_commits :
    (c : Crypto)
    → IsCollisionFree c
    → (secret : c.Secret) (xs ys : List (Record c)) → verify_chain_records c secret xs ≡ ok true
    → verify_chain_records c secret ys ≡ ok true
    → end_hash c secret none xs ≡ end_hash c secret none ys
    → map (payload c) xs ≡ map (payload c) ys
head_commits c free secret xs ys hx hy e =
    chains_agree c free secret xs ys ((verify_chain_records_iff c secret xs).0 hx)
      ((verify_chain_records_iff c secret ys).0 hy) e
