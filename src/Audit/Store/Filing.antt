-- ===== src/Audit/Store/Filing.antt =====
-- How a session's ids are filed: each id finds a record, and the records form a chain.
use agentic_governance.Prelude.{
  ℕ, ◌≡◌, refl, sym, ◌∙◌, Option, none, some, List, [], ◌∷◌, ◌++◌, last?, arith, nat_beq_iff,
  nat_eq, Option-cases, inl, inr,
}
use agentic_governance.Prelude.Dict.{Dict, get, put, get-put}
use agentic_governance.Errors.{Result, ok, err, key_error}
use agentic_governance.Audit.Crypto.{Crypto}
use agentic_governance.Audit.Chain.{Record}
use agentic_governance.Audit.Chain.Spec.{IsAuthentic, IsChain}
use agentic_governance.Audit.Store.{present}

module _ (c : Crypto) (secret : c.Secret) where
  abbrev pub Filed : Dict ℕ (Record c) → Option c.Digest → List ℕ → Type 0
  Filed events prev [] = Unit
  Filed events prev (i ∷ ids) =
      (r : Record c) × (get events i ≡ some r)
      × (r.prev_hash ≡ prev)
      × IsAuthentic c secret r
      × Filed events (some r.hmac) ids

  pub Filed→IsChain :
      (events : Dict ℕ (Record c)) (prev : Option c.Digest) (ids : List ℕ)
      → Filed events prev ids
      → IsChain c secret prev (present c events ids)
  unfolding present
  Filed→IsChain events prev [] h = tt
  Filed→IsChain events prev (i ∷ ids) (r, found, first, own, rest) =
      rw (found, present) (first, own, Filed→IsChain events (some r.hmac) ids rest)

  -- A new record under a new id disturbs no session.
  pub Filed-put :
      (events : Dict ℕ (Record c)) (new : ℕ) (r : Record c) (prev : Option c.Digest) (ids : List ℕ)
      → get events new ≡ none
      → Filed events prev ids
      → Filed (put events new r) prev ids
  Filed-put events new r prev [] fresh h = tt
  Filed-put events new r prev (i ∷ ids) fresh (q, found, first, own, rest) = (
    q,
    ground (arith, get-put events new i r, nat_beq_iff new i, fresh),
    first,
    own,
    Filed-put events new r (some q.hmac) ids fresh rest,
  )

  -- The hash that the last filed record carries.
  abbrev pub hash_at : Dict ℕ (Record c) → Option c.Digest → List ℕ → Result (Option c.Digest)
  hash_at events prev ids = elim (last? ids) [
    | none ↦ ok prev
    | some i ↦ elim (get events i) [ none ↦ err key_error | some r ↦ ok (some r.hmac) ]
  ]

  pub hash_at-put :
      (events : Dict ℕ (Record c)) (prev at : Option c.Digest) (ids : List ℕ) (new : ℕ)
      (r : Record c)
      → get events new ≡ none
      → hash_at events prev ids ≡ ok at
      → hash_at (put events new r) prev ids ≡ ok at
  hash_at-put events prev at ids new r fresh h = elim (Option-cases (last? ids)) [
    | inl e ↦ ground arith
    | inr (i, e) ↦ ground (arith, get-put events new i r, nat_beq_iff new i)
  ]

  last?-cons : (j : ℕ) (ids : List ℕ) → (k : ℕ) × (last? (j ∷ ids) ≡ some k)
  last?-cons j [] = (j, refl)
  last?-cons j (k ∷ ids) = last?-cons k ids

  hash_at-cons :
      (events : Dict ℕ (Record c)) (prev prev' : Option c.Digest) (i j : ℕ) (ids : List ℕ)
      → hash_at events prev (i ∷ j ∷ ids) ≡ hash_at events prev' (j ∷ ids)
  hash_at-cons events prev prev' i j ids = let (k, e) = last?-cons j ids in rw (e, hash_at)

  pub Filed-snoc :
      (events : Dict ℕ (Record c)) (prev at : Option c.Digest) (ids : List ℕ) (new : ℕ)
      (r : Record c)
      → Filed events prev ids
      → hash_at events prev ids ≡ ok at
      → get events new ≡ some r
      → r.prev_hash ≡ at
      → IsAuthentic c secret r
      → Filed events prev (ids ++ new ∷ [])
  Filed-snoc events prev at [] new r h e found first own = (r, found, cc, own, tt)
  Filed-snoc events prev at (i ∷ []) new r (q, here, before, mine, rest) e found first own =
      (q, here, before, mine, (r, found, ground arith, own, tt))
  Filed-snoc events prev at (i ∷ j ∷ ids) new r (q, here, before, mine, rest) e found first own = (
    q,
    here,
    before,
    mine,
    Filed-snoc events (some q.hmac) at (j ∷ ids) new r rest
        (sym (hash_at-cons events prev (some q.hmac) i j ids) ∙ e) found first own,
  )

  -- The lookup of the last hash never fails.
  pub hash_at_total :
      (events : Dict ℕ (Record c)) (prev : Option c.Digest) (ids : List ℕ)
      → Filed events prev ids
      → (at : Option c.Digest) × (hash_at events prev ids ≡ ok at)
  hash_at_total events prev [] h = (prev, refl)
  hash_at_total events prev (i ∷ []) (q, here, before, mine, rest) = (some q.hmac, ground arith)
  hash_at_total events prev (i ∷ j ∷ ids) (q, here, before, mine, rest) =
      let (at, e) = hash_at_total events (some q.hmac) (j ∷ ids) rest in
      (at, hash_at-cons events prev (some q.hmac) i j ids ∙ e)
