-- ===== src/Presence/Clearance.antt =====
-- Whom the halt switch lets through, for the modules that ask it before an agent acts.
use agentic_governance.Prelude.{
  ℕ, ◌+◌, ◌<◌, ◌≤◌, ◌≡◌, ◌↔◌, ◌⊎◌, String, Option, none, some, arith, string_eq, inl, inr,
  Option-cases, ap, ◌∙◌, sym,
}
use agentic_governance.Prelude.Dict.{get}
use agentic_governance.Prelude.Unique.{IsUnique}
use agentic_governance.Errors.{ok}
use agentic_governance.Presence.{
  Json, Presence, Source, memory, failed, rows, maybe_refresh, assert_not_halted, halt_cache_ttl,
}
use agentic_governance.Presence.Enforcement.{IsExpired}
use agentic_governance.Presence.Halts.{marker_of, get-maybe_refresh}

module _ (j : Json) where
  -- The cache is younger than its limit, at one of the two readings of the clock.
  abbrev pub IsCurrent : (now locked : ℕ) → Presence j → Type 0
  IsCurrent now locked p =
      (now < p.halted_cache_at + halt_cache_ttl) ⊎ (locked < p.halted_cache_at + halt_cache_ttl)

  -- The agent has no marker where a refresh reads them; a query that fails leaves the cache.
  abbrev pub Unmarked : Source → (agent_id : String) → Presence j → Type 0
  Unmarked memory i p = marker_of j p i ≡ none
  Unmarked failed i p = get p.halted_cache i ≡ none
  Unmarked (rows fresh) i p = get fresh i ≡ none

  abbrev pub Clear : (now locked : ℕ) → Source → (agent_id : String) → Presence j → Type 0
  Clear now locked source i p =
      (IsCurrent now locked p × (get p.halted_cache i ≡ none))
      ⊎ (IsExpired j now locked p × Unmarked source i p)

  -- For a module that may have no presence module.
  abbrev pub Cleared :
      (now locked : ℕ) → Source → (agent_id : String) → Option (Presence j) → Type 0
  Cleared now locked source i none = Unit
  Cleared now locked source i (some p) = Clear now locked source i p

  -- The table of agents has one entry for an agent.
  abbrev pub IsTable : Option (Presence j) → Type 0
  IsTable none = Unit
  IsTable (some p) = IsUnique p.agents

  answers_iff :
      (now locked : ℕ) (source : Source) (i : String) (p : Presence j)
      → ((assert_not_halted j now locked source i p).0 ≡ ok tt)
        ↔ (get (maybe_refresh j now locked source p).halted_cache i ≡ none)
  unfolding assert_not_halted
  answers_iff now locked source i p =
      elim (Option-cases (get (maybe_refresh j now locked source p).halted_cache i)) [
        | inl e ↦ ground (arith, e)
        | inr (m, e) ↦ ground (arith, e)
      ]

  current_same :
      (now locked : ℕ) (source : Source) (p : Presence j)
      → IsCurrent now locked p
      → maybe_refresh j now locked source p ≡ p
  unfolding maybe_refresh
  current_same now locked source p h = ground arith

  expired_iff :
      (now locked : ℕ) (source : Source) (i : String) (p : Presence j)
      → IsUnique p.agents
      → IsExpired j now locked p
      → (get (maybe_refresh j now locked source p).halted_cache i ≡ none) ↔ Unmarked source i p
  unfolding maybe_refresh
  expired_iff now locked memory i p h (late, later) =
      ground (arith, get-maybe_refresh j now locked p i h late later)
  expired_iff now locked failed i p h expired = ground arith
  expired_iff now locked (rows fresh) i p h expired = ground arith

  aged : (now at : ℕ) → (now < at) ⊎ (at ≤ now)
  aged now at = omega arith

  age : (now locked : ℕ) (p : Presence j) → IsCurrent now locked p ⊎ IsExpired j now locked p
  age now locked p = elim (aged now (p.halted_cache_at + halt_cache_ttl)) [
    | inl h ↦ inl (inl h)
    | inr late ↦ elim (aged locked (p.halted_cache_at + halt_cache_ttl)) [
      | inl h ↦ inl (inr h)
      | inr later ↦ inr (late, later)
    ]
  ]

  apart : (now locked : ℕ) (p : Presence j) → IsCurrent now locked p → IsExpired j now locked p → ⊥
  apart now locked p h g = omega (arith, h, g)

  -- A check passes exactly for an agent that the halt switch is clear of: the cache is current and does
  -- not list it, or it is expired and there is no marker where the refresh reads.
  pub assert_not_halted-Clear :
      (now locked : ℕ) (source : Source) (i : String) (p : Presence j)
      → IsUnique p.agents
      → ((assert_not_halted j now locked source i p).0 ≡ ok tt) ↔ Clear now locked source i p
  assert_not_halted-Clear now locked source i p unique =
      let answers = answers_iff now locked source i p in
      elim (age now locked p) [
        | inl h ↦
            let same = ap (λ q. get q.halted_cache i) (current_same now locked source p h) in
            (
              λ passed. inl (h, sym same ∙ answers.0 passed),
              λ clear. elim clear [
                | inl (_, absent) ↦ answers.1 (same ∙ absent)
                | inr (old, _) ↦ elim (apart now locked p h old) [ ]
              ],
            )
        | inr old ↦
            let fresh = expired_iff now locked source i p unique old in
            (
              λ passed. inr (old, fresh.0 (answers.0 passed)),
              λ clear. elim clear [
                | inl (h, _) ↦ elim (apart now locked p h old) [ ]
                | inr (_, absent) ↦ answers.1 (fresh.1 absent)
              ],
            )
      ]
