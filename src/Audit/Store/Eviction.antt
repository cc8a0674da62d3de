-- ===== src/Audit/Store/Eviction.antt =====
-- The cap of the in-memory store.
use agentic_governance.Prelude.{
  ℕ, ◌≤◌, ◌<◌, ◌≡◌, refl, List, [], ◌∷◌, length, arith, Bool-cases, inl, inr, leb,
}
use agentic_governance.Errors.{ok}
use agentic_governance.Audit.Crypto.{Crypto}
use agentic_governance.Audit.Store.{Store, drop_event, evict_oldest, enforce_cap_before_append}

module _ (c : Crypto) where
  evict_oldest_total :
      (order : List ℕ) (s : Store c) → s.evicted_total ≤ (evict_oldest c order s).1.evicted_total
  unfolding evict_oldest
  evict_oldest_total [] s = ground arith
  evict_oldest_total (i ∷ rest) s = ground (arith, evict_oldest_total rest (drop_event c i s))

  -- While nothing is counted as evicted, making room has changed nothing.
  evict_oldest_same :
      (order : List ℕ) (s : Store c)
      → (evict_oldest c order s).1.evicted_total ≡ 0
      → (evict_oldest c order s).1 ≡ record s { order = order }
  unfolding evict_oldest
  evict_oldest_same [] s h = refl
  evict_oldest_same (i ∷ rest) s h = elim (Bool-cases (leb s.max_events (length (i ∷ rest)))) [
    | inl full ↦ absurd (ground (arith, evict_oldest_total rest (drop_event c i s)))
    | inr room ↦ ground arith
  ]

  pub enforce_cap_same :
      (s : Store c)
      → (enforce_cap_before_append c s).1.evicted_total ≡ 0
      → (enforce_cap_before_append c s).1 ≡ s
  unfolding enforce_cap_before_append
  enforce_cap_same s h = ground (arith, evict_oldest_same s.order s)

  -- Eviction stops with room for one more event.
  pub evict_oldest_room :
      (order : List ℕ) (s : Store c)
      → 0 < s.max_events
      → ((evict_oldest c order s).0 ≡ ok tt)
        × (length (evict_oldest c order s).1.order < s.max_events)
        × ((evict_oldest c order s).1.max_events ≡ s.max_events)
        × ((evict_oldest c order s).1.on_full ≡ s.on_full)
  unfolding evict_oldest drop_event
  evict_oldest_room [] s h = ground arith
  evict_oldest_room (i ∷ rest) s h = ground (arith, evict_oldest_room rest (drop_event c i s))
