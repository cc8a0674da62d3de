-- ===== src/Audit/Store/Bounds.antt =====
-- The in-memory store never holds more events than its cap.
use agentic_governance.Prelude.{
  ℕ, ◌≤◌, ◌<◌, ◌≡◌, ◌∙◌, refl, false, List, [], ◌∷◌, ◌++◌, length, arith, Bool-cases, inl, inr,
  length-append, nat_eq, Option, contains, ◌==◌, leb, ltb, ◌⊎◌, sym, subst, ap,
}
use agentic_governance.Prelude.Dict.{has, get-put}
use agentic_governance.Prelude.Unique.{
  IsUnique, HasKeysIn, remove-IsUnique, remove-HasKeysIn, put-IsUnique, length-HasKeysIn,
}
use agentic_governance.Errors.{ok, Result-cases}
use agentic_governance.Audit.Crypto.{Crypto}
use agentic_governance.Audit.Chain.{Record}
use agentic_governance.Audit.Store.{
  Store, OnFull, drop_event, evict_oldest, enforce_cap_before_append, append,
  insert_with_chain_lock, write_batch, last_hash,
}
use agentic_governance.Audit.Store.Eviction.{evict_oldest_room}

contains-last :
    (i k : ℕ) (ks : List ℕ)
    → contains i (ks ++ k ∷ []) ≡ false
    → (contains i ks ≡ false) × ((k == i) ≡ false)
contains-last i k [] h = ground arith
contains-last i k (x ∷ ks) h = ground (arith, contains-last i k ks)

module _ (c : Crypto) where
  -- The table of events has one entry for an id, and the deque has every id of it.
  abbrev pub IsFiledIn : Store c → Type 0
  IsFiledIn s = IsUnique s.events × HasKeysIn s.events s.order

  -- A cap of at least one event, kept.
  abbrev pub IsBounded : Store c → Type 0
  IsBounded s = (0 < s.max_events) × (length s.order ≤ s.max_events) × IsFiledIn s

  evict_oldest-IsFiledIn :
      (order : List ℕ) (s : Store c)
      → IsUnique s.events
      → HasKeysIn s.events order
      → IsFiledIn (evict_oldest c order s).1
  unfolding evict_oldest drop_event
  evict_oldest-IsFiledIn [] s u h = (u, h)
  evict_oldest-IsFiledIn (oldest ∷ rest) s u h =
      elim (Bool-cases (leb s.max_events (length (oldest ∷ rest)))) [
        | inl full ↦ rw full (
            evict_oldest-IsFiledIn rest (drop_event c oldest s) (remove-IsUnique s.events oldest u)
              (remove-HasKeysIn s.events oldest rest h))
        | inr room ↦ rw room (u, h)
      ]

  -- Making room changes nothing, or evicts.
  enforce_cap_cases :
      (s : Store c)
      → ((enforce_cap_before_append c s).1 ≡ s)
        ⊎ (enforce_cap_before_append c s ≡ evict_oldest c s.order s)
  unfolding enforce_cap_before_append
  enforce_cap_cases s = elim (Bool-cases (ltb (length s.order) s.max_events)) [
    | inl room ↦ inl (rw room refl)
    | inr full ↦ by_mode s.on_full refl full
  ]
    where
      by_mode :
          (mode : OnFull)
          → s.on_full ≡ mode
          → ltb (length s.order) s.max_events ≡ false
          → ((enforce_cap_before_append c s).1 ≡ s)
            ⊎ (enforce_cap_before_append c s ≡ evict_oldest c s.order s)
      by_mode OnFull.refuse e full = inl (simp (full, e, enforce_cap_before_append))
      by_mode OnFull.evict e full = inr (simp (full, e, enforce_cap_before_append))

  enforce_cap-IsFiledIn : (s : Store c) → IsFiledIn s → IsFiledIn (enforce_cap_before_append c s).1
  enforce_cap-IsFiledIn s h = elim (enforce_cap_cases s) [
    | inl same ↦ subst IsFiledIn (sym same) h
    | inr evicts ↦
        subst IsFiledIn (sym (ap (λ r. r.1) evicts)) (evict_oldest-IsFiledIn s.order s h.0 h.1)
  ]

  enforce_cap_fits :
      (s : Store c)
      → 0 < s.max_events
      → length s.order ≤ s.max_events
      → (0 < (enforce_cap_before_append c s).1.max_events)
        × (length (enforce_cap_before_append c s).1.order
            ≤ (enforce_cap_before_append c s).1.max_events)
        × ((enforce_cap_before_append c s).0 ≡ ok tt
            → length (enforce_cap_before_append c s).1.order
              < (enforce_cap_before_append c s).1.max_events)
  unfolding enforce_cap_before_append
  enforce_cap_fits s h most = ground (arith, evict_oldest_room c s.order s h)

  -- Room for one more event is made, or an exception is raised.
  enforce_cap_room :
      (s : Store c)
      → IsBounded s
      → IsBounded (enforce_cap_before_append c s).1
        × ((enforce_cap_before_append c s).0 ≡ ok tt
            → length (enforce_cap_before_append c s).1.order
              < (enforce_cap_before_append c s).1.max_events)
  enforce_cap_room s (some_room, most, filed) =
      let (room, within, spare) = enforce_cap_fits s some_room most in
      ((room, within, enforce_cap-IsFiledIn s filed), spare)

  append-IsBounded :
      (session_id : ℕ) (r : Record c) (s : Store c)
      → IsBounded s
      → length s.order < s.max_events
      → IsBounded (append c session_id r s)
  unfolding append
  append-IsBounded session_id r s (some_room, most, (unique, keys)) h = (
    some_room,
    omega (arith, length-append s.order (r.event_id ∷ [])),
    (
      put-IsUnique s.events r.event_id r unique,
      λ i out.
          let (absent, other) = contains-last i r.event_id s.order out in
          get-put s.events r.event_id i r ∙ rw other (keys i absent),
    ),
  )

  insert-IsBounded :
      (s : Store c) (session_id : ℕ) (build : Option c.Digest → Record c)
      → IsBounded s
      → IsBounded (insert_with_chain_lock c session_id (λ p. ok (build p)) s).1
  unfolding insert_with_chain_lock
  insert-IsBounded s session_id build h = elim (Result-cases (last_hash c s session_id)) [
    | inr (x, e) ↦ rw (e, insert_with_chain_lock) h
    | inl (at, e) ↦ elim (Result-cases (enforce_cap_before_append c s).0) [
      | inr (x, full) ↦ rw (e, full, insert_with_chain_lock) (enforce_cap_room s h).0
      | inl (u, room) ↦
          rw (e, room, insert_with_chain_lock)
            (append-IsBounded session_id (build at) _ (enforce_cap_room s h).0
              ((enforce_cap_room s h).1 room))
    ]
  ]

  write_batch-IsBounded :
      (rs : List (Record c)) (s : Store c) → IsBounded s → IsBounded (write_batch c rs s).1
  unfolding write_batch
  write_batch-IsBounded [] s h = h
  write_batch-IsBounded (r ∷ rs) s h = elim (Bool-cases (has s.events r.event_id)) [
    | inl known ↦ rw (known, write_batch) (write_batch-IsBounded rs s h)
    | inr new ↦ elim (Result-cases (enforce_cap_before_append c s).0) [
      | inr (x, full) ↦ rw (new, full, write_batch) (enforce_cap_room s h).0
      | inl (u, room) ↦
          rw (new, room, write_batch)
            (write_batch-IsBounded rs _ (
              append-IsBounded r.session_id r _ (enforce_cap_room s h).0
                ((enforce_cap_room s h).1 room)))
    ]
  ]

  IsBounded-length : (s : Store c) → IsBounded s → length s.events ≤ s.max_events
  IsBounded-length s (_, most, (unique, keys)) =
      omega (arith, length-HasKeysIn s.events s.order unique keys)

-- The in-memory store never holds more events than its cap. From a store with a cap of at least one
-- event, one entry for an id, every id in its deque and a deque within the cap, each insert and each
-- batch, in either overflow mode and whether it raises or not, leaves such a store, and the table of
-- its events has no more entries than the cap.
pub cap_holds :
    (c : Crypto) (s : Store c) (session_id : ℕ) (build : Option c.Digest → Record c)
    (rs : List (Record c))
    → IsBounded c s
    → let inserted = (insert_with_chain_lock c session_id (λ p. ok (build p)) s).1 in
      let written = (write_batch c rs s).1 in
      (IsBounded c inserted × (length inserted.events ≤ inserted.max_events))
      × (IsBounded c written × (length written.events ≤ written.max_events))
cap_holds c s session_id build rs h =
    let after_insert = insert-IsBounded c s session_id build h in
    let after_batch = write_batch-IsBounded c rs s h in
    (
      (
        after_insert,
        IsBounded-length c (insert_with_chain_lock c session_id (λ p. ok (build p)) s).1
            after_insert,
      ),
      (after_batch, IsBounded-length c (write_batch c rs s).1 after_batch),
    )
