-- ===== src/Audit/Store/Reach.antt =====
-- Inserting a record that the chain builder made keeps every session of the store a chain.
use agentic_governance.Prelude.{
  ℕ, ◌≡◌, ◌≢◌, sym, ◌∙◌, subst, ap, Option, none, List, [], ◌∷◌, ◌++◌, arith, nat_beq, nat_beq_iff,
  nat_eq, if◌then◌else◌, ◌⊎◌, Bool-cases, inl, inr, beq_refl,
}
use agentic_governance.Prelude.Dict.{get, put, get-put, get-remove}
use agentic_governance.Errors.{ok, Result-cases}
use agentic_governance.Audit.Crypto.{Crypto}
use agentic_governance.Audit.Chain.{Record}
use agentic_governance.Audit.Chain.Spec.{IsAuthentic}
use agentic_governance.Audit.Store.{
  Store, session_ids, last_hash, append, drop_event, evict_oldest, enforce_cap_before_append,
  insert_with_chain_lock,
}
use agentic_governance.Audit.Store.Eviction.{enforce_cap_same}
use agentic_governance.Audit.Store.Filing.{Filed, Filed-put, Filed-snoc, hash_at-put}

module _ (c : Crypto) where
  -- An insert stops at the hash lookup or at the cap, or it appends.
  insert_cases :
      (s : Store c) (session_id : ℕ) (build : Option c.Digest → Record c)
      → let after = (insert_with_chain_lock c session_id (λ p. ok (build p)) s).1 in
        let room = (enforce_cap_before_append c s).1 in
        (after ≡ s)
        ⊎ (after ≡ room)
        ⊎ ((at : Option c.Digest) × (last_hash c s session_id ≡ ok at)
            × (after ≡ append c session_id (build at) room))
  unfolding insert_with_chain_lock
  insert_cases s session_id build = elim (Result-cases (last_hash c s session_id)) [
    | inr (x, e) ↦ inl (ground arith)
    | inl (at, e) ↦ elim (Result-cases (enforce_cap_before_append c s).0) [
      | inr (x, full) ↦ inr (inl (ground arith))
      | inl (done, room) ↦ inr (inr (at, e, ground arith))
    ]
  ]

module _ (c : Crypto) (secret : c.Secret) where
  abbrev AllFiled : Store c → Type 0
  AllFiled s = (session_id : ℕ) → Filed c secret s.events none (session_ids c s session_id)

  -- As long as nothing was evicted, every session is a chain.
  abbrev pub IsFiled : Store c → Type 0
  IsFiled s = s.evicted_total ≡ 0 → AllFiled s

  session_ids-append :
      (s : Store c) (session_id k : ℕ) (r : Record c)
      → session_ids c (append c session_id r s) k ≡ (
          if nat_beq session_id k
          then session_ids c s session_id ++ r.event_id ∷ []
          else session_ids c s k)
  unfolding append
  session_ids-append s session_id k r =
      ground
        (arith, get-put s.by_session session_id k (session_ids c s session_id ++ r.event_id ∷ []))

  append-AllFiled :
      (s : Store c) (session_id : ℕ) (r : Record c) (at : Option c.Digest)
      → AllFiled s
      → get s.events r.event_id ≡ none
      → last_hash c s session_id ≡ ok at
      → r.prev_hash ≡ at
      → IsAuthentic c secret r
      → AllFiled (append c session_id r s)
  unfolding append last_hash
  append-AllFiled s session_id r at filed fresh e first own k =
      let disturbed = λ (j : ℕ). Filed-put c secret s.events r.event_id r none _ fresh (filed j) in
      let now = Filed c secret (put s.events r.event_id r) none in
      elim (Bool-cases (nat_beq session_id k)) [
        | inl same ↦ subst now (sym (session_ids-append s session_id k r ∙ rw same)) (
            Filed-snoc c secret _ none at _ r.event_id r (disturbed session_id)
              (hash_at-put c secret s.events none at (session_ids c s session_id) r.event_id r fresh
                e)
              (get-put s.events r.event_id r.event_id r ∙ rw (beq_refl r.event_id)) first own)
        | inr other ↦ subst now (sym (session_ids-append s session_id k r ∙ rw other)) (disturbed k)
      ]

  -- What the store is told about the record that a builder returns.
  abbrev pub Builds : (Option c.Digest → Record c) → ℕ → Type 0
  Builds build new =
      (prev : Option c.Digest)
      → ((build prev).event_id ≡ new)
        × ((build prev).prev_hash ≡ prev)
        × IsAuthentic c secret (build prev)

  room-IsFiled : (s : Store c) → IsFiled s → IsFiled (enforce_cap_before_append c s).1
  room-IsFiled s filed z =
      let same = enforce_cap_same c s z in
      subst AllFiled (sym same) (filed (sym (ap (λ t. t.evicted_total) same) ∙ z))

  append_room-IsFiled :
      (s : Store c) (session_id : ℕ) (r : Record c) (at : Option c.Digest)
      → IsFiled s
      → get s.events r.event_id ≡ none
      → last_hash c s session_id ≡ ok at
      → r.prev_hash ≡ at
      → IsAuthentic c secret r
      → IsFiled (append c session_id r (enforce_cap_before_append c s).1)
  append_room-IsFiled s session_id r at filed fresh e first own z =
      let z' : (enforce_cap_before_append c s).1.evicted_total ≡ 0 = unfold append in z in
      let same = enforce_cap_same c s z' in
      subst (λ t. AllFiled (append c session_id r t)) (sym same)
        (append-AllFiled s session_id r at (filed (sym (ap (λ t. t.evicted_total) same) ∙ z')) fresh
          e first own)

  pub insert-IsFiled :
      (s : Store c) (session_id : ℕ) (build : Option c.Digest → Record c) (new : ℕ)
      → Builds build new
      → get s.events new ≡ none
      → IsFiled s
      → IsFiled (insert_with_chain_lock c session_id (λ p. ok (build p)) s).1
  insert-IsFiled s session_id build new built fresh filed =
      elim (insert_cases c s session_id build) [
        | inl e ↦ subst IsFiled (sym e) filed
        | inr (inl e) ↦ subst IsFiled (sym e) (room-IsFiled s filed)
        | inr (inr (at, found, e)) ↦
            let (named, first, own) = built at in
            subst IsFiled (sym e) (
              append_room-IsFiled s session_id (build at) at filed
                (ap (λ i. get s.events i) named ∙ fresh) found first own)
      ]

-- Evicting and appending bring in no other event.
module _ (c : Crypto) where
  evict_oldest_absent :
      (order : List ℕ) (s : Store c) (k : ℕ)
      → get s.events k ≡ none
      → get (evict_oldest c order s).1.events k ≡ none
  unfolding evict_oldest drop_event
  evict_oldest_absent [] s k h = ground arith
  evict_oldest_absent (i ∷ rest) s k h =
      ground (arith, evict_oldest_absent rest (drop_event c i s) k, get-remove s.events i k)

  room_absent :
      (s : Store c) (k : ℕ)
      → get s.events k ≡ none
      → get (enforce_cap_before_append c s).1.events k ≡ none
  unfolding enforce_cap_before_append
  room_absent s k h = ground (arith, evict_oldest_absent s.order s k)

  append_absent :
      (s : Store c) (session_id : ℕ) (r : Record c) (k : ℕ)
      → r.event_id ≢ k
      → get s.events k ≡ none
      → get (append c session_id r s).events k ≡ none
  unfolding append
  append_absent s session_id r k other h =
      ground (arith, get-put s.events r.event_id k r, nat_beq_iff r.event_id k)

  pub insert_absent :
      (s : Store c) (session_id : ℕ) (build : Option c.Digest → Record c) (new k : ℕ)
      → ((prev : Option c.Digest) → (build prev).event_id ≡ new)
      → new ≢ k
      → get s.events k ≡ none
      → get (insert_with_chain_lock c session_id (λ p. ok (build p)) s).1.events k ≡ none
  insert_absent s session_id build new k named other h = elim (insert_cases c s session_id build) [
    | inl e ↦ rw e h
    | inr (inl e) ↦ rw e (room_absent s k h)
    | inr (inr (at, found, e)) ↦ rw e (
        append_absent _ session_id (build at) k (λ same. other (sym (named at) ∙ same))
          (room_absent s k h))
  ]
