-- ===== src/Presence/Enforcement.antt =====
-- What the halt switch promises to the modules that ask it.
use agentic_governance.Prelude.{
  ℕ, ◌+◌, ◌≤◌, ◌≡◌, ◌↔◌, refl, ◌∙◌, String, Option, none, some, List, [], ◌∷◌, arith, string_eq,
  All, ltb, ◌||◌, if◌then◌else◌,
}
use agentic_governance.Prelude.Dict.{Dict}
use agentic_governance.Prelude.Unique.{IsUnique, put-IsUnique}
use agentic_governance.Errors.{ok, err, agent_halted}
use agentic_governance.Presence.{
  Json, Presence, HaltMeta, Source, memory, failed, rows, halt_memory, maybe_refresh, is_halted,
  assert_not_halted, heartbeat, mark_idle, close_agent, check_stale, heartbeat_memory,
  force_refresh, step, run, AgentCall, halt_cache_ttl,
}
use agentic_governance.Presence.Halts.{
  marker_of, run-marker, run-IsUnique, halt_memory-marker, get-maybe_refresh,
}

module _ (j : Json) where
  halt_memory-IsUnique :
      (now now_dt : ℕ) (i by : String) (reason : Option String) (p : Presence j)
      → IsUnique p.agents
      → IsUnique (halt_memory j now now_dt i by reason p).agents
  unfolding halt_memory
  halt_memory-IsUnique now now_dt i by reason p h = put-IsUnique p.agents i _ h

  -- The cache is at least `_HALT_CACHE_TTL_SECONDS` old, at both readings of the clock.
  abbrev pub IsExpired : (now locked : ℕ) → Presence j → Type 0
  IsExpired now locked p =
      (p.halted_cache_at + halt_cache_ttl ≤ now) × (p.halted_cache_at + halt_cache_ttl ≤ locked)

  assert-marked :
      (now locked : ℕ) (i : String) (p : Presence j) (m : HaltMeta)
      → IsUnique p.agents
      → IsExpired now locked p
      → marker_of j p i ≡ some m
      → (assert_not_halted j now locked memory i p).0
        ≡ err (agent_halted i m.halted_by m.halted_at m.reason)
  unfolding assert_not_halted
  assert-marked now locked i p m h (late, later) e =
      rw (get-maybe_refresh j now locked p i h late later ∙ e, assert_not_halted) refl

  -- A call that finds the database out, or asks it nothing.
  abbrev pub IsOutage : AgentCall j → Type 0
  IsOutage (AgentCall.assert_call now locked s i) = s ≡ failed
  IsOutage (AgentCall.is_halted_call now locked s i) = s ≡ failed
  IsOutage (AgentCall.force_refresh_call now locked s) = s ≡ failed
  IsOutage _ = Unit

  maybe_refresh-failed :
      (now locked : ℕ) (s : Source) (p : Presence j)
      → s ≡ failed
      → (maybe_refresh j now locked s p).halted_cache ≡ p.halted_cache
  unfolding maybe_refresh
  maybe_refresh-failed now locked s p h = ground arith

  step-outage :
      (call : AgentCall j) (p : Presence j)
      → IsOutage call
      → (step j call p).halted_cache ≡ p.halted_cache
  unfolding step assert_not_halted is_halted force_refresh heartbeat heartbeat_memory mark_idle
      close_agent check_stale
  step-outage (AgentCall.assert_call now locked s i) p h =
      ground (arith, maybe_refresh-failed now locked s p h)
  step-outage (AgentCall.is_halted_call now locked s i) p h = maybe_refresh-failed now locked s p h
  step-outage (AgentCall.force_refresh_call now locked s) p h =
      maybe_refresh-failed now locked s _ h
  step-outage (AgentCall.heartbeat_call now i metadata o) p h = ground arith
  step-outage (AgentCall.mark_idle_call i) p h = ground arith
  step-outage (AgentCall.close_call i) p h = ground arith
  step-outage (AgentCall.check_stale_call now t) p h = refl

-- A halt outlives whatever the agent does: after `halt`, and any sequence of heartbeats, idle marks,
-- closes, stale checks, halt checks and forced refreshes, with any database answers, a check of that
-- agent against the in-memory table raises `AgentHaltedError` with the operator's marker as soon as
-- the cache has expired.
pub halt_is_enforced :
    (j : Json) (p : Presence j) (now now_dt : ℕ) (i by : String) (reason : Option String)
    (calls : List (AgentCall j)) (later locked : ℕ)
    → IsUnique p.agents
    → IsExpired j later locked (run j calls (halt_memory j now now_dt i by reason p))
    → (assert_not_halted j later locked memory i
        (run j calls (halt_memory j now now_dt i by reason p))).0
      ≡ err (agent_halted i by (some now) reason)
halt_is_enforced j p now now_dt i by reason calls later locked h expired =
    assert-marked j later locked i _ _
      (run-IsUnique j calls _ (halt_memory-IsUnique j now now_dt i by reason p h)) expired
      (run-marker j calls _ i _ (halt_memory-marker j now now_dt i by reason p))

-- Against the in-memory table and an expired cache, an agent passes the check exactly when it has no
-- marker: no operator's halt is missed, and no agent is stopped without one.
pub assert_not_halted_iff :
    (j : Json) (p : Presence j) (now locked : ℕ) (i : String)
    → IsUnique p.agents
    → IsExpired j now locked p
    → ((assert_not_halted j now locked memory i p).0 ≡ ok tt) ↔ (marker_of j p i ≡ none)
unfolding assert_not_halted
assert_not_halted_iff j p now locked i h (late, later) =
    ground (arith, get-maybe_refresh j now locked p i h late later)

-- While the database is out, every check answers from the last halts that were read: no sequence of
-- calls, each of which finds the database failing or asks it nothing, changes the cache.
pub outage_keeps_cache :
    (j : Json) (calls : List (AgentCall j)) (p : Presence j)
    → All (IsOutage j) calls
    → (run j calls p).halted_cache ≡ p.halted_cache
unfolding run
outage_keeps_cache j [] p h = refl
outage_keeps_cache j (call ∷ calls) p h =
    outage_keeps_cache j calls (step j call p) h.1 ∙ step-outage j call p h.0

-- `force_refresh_halted_cache` reads the database exactly when both clock readings are at least the
-- cache's age limit; on a clock that started less than that ago it leaves the cache as it was.
pub force_refresh_lem :
    (j : Json) (now locked : ℕ) (fresh : Dict String HaltMeta) (p : Presence j)
    → (force_refresh j now locked (rows fresh) p).halted_cache
      ≡ (if ltb now halt_cache_ttl || ltb locked halt_cache_ttl then p.halted_cache else fresh)
unfolding force_refresh maybe_refresh
force_refresh_lem j now locked fresh p = ground arith
