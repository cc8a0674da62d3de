-- ===== src/Presence.antt =====
-- presence/module.py: `PresenceModule` without a database for its writes. Clocks are readings in
-- microseconds; a marker keeps the reading whose ISO text the source keeps.
pub mod Halts
pub mod Enforcement
pub mod Clearance
use agentic_governance.Prelude.{
  ℕ, ◌+◌, ◌*◌, String, Bool, true, false, Option, none, some, List, [], ◌∷◌, ltb, nat_beq, default,
  string_eq, is_some, if◌then◌else◌, ◌&&◌, ◌||◌, not, map,
}
use agentic_governance.Prelude.Dict.{Dict, get, put, remove, has}
use agentic_governance.Errors.{None, Result, ok, err, agent_halted}
use agentic_governance.Exec.{Exec}
use Prim.Native.String.{count}

pub data AgentStatus : Type 0 where
  live idle unresponsive : AgentStatus

abbrev pub is_unresponsive : AgentStatus → Bool
is_unresponsive live = false
is_unresponsive idle = false
is_unresponsive unresponsive = true

pub record HaltMeta : Type 0 where
  pub halted_by : String
  pub halted_at : Option ℕ
  pub reason : Option String

-- The halt cache's age limit, `_HALT_CACHE_TTL_SECONDS`.
abbrev pub halt_cache_ttl : ℕ
halt_cache_ttl = 5000000

-- What a refresh reads: no database, a query that fails, or the rows of a query.
pub data Source : Type 0 where
  memory failed : Source
  rows : Dict String HaltMeta → Source

-- JSON values, and `len(json.dumps(metadata))`.
pub record Json : Type 1 where
  pub Value : Type 0
  pub empty : Value
  pub dumps_len : Value → ℕ

module _ (j : Json) where
  pub record Agent : Type 0 where
    pub status : AgentStatus
    pub last_heartbeat : ℕ
    pub started_at : ℕ
    pub metadata : j.Value
    pub operator_id : Option String
    pub halted_by : Option String
    pub halted_at : Option ℕ
    pub halt_reason : Option String

  pub record Presence : Type 0 where
    pub agents : Dict String Agent
    pub halted_cache : Dict String HaltMeta
    pub halted_cache_at : ℕ

  -- `not agent_id or len(agent_id) > 256`, and the two checks that follow it.
  abbrev pub is_rejected : String → Option j.Value → Option String → Bool
  is_rejected agent_id metadata operator_id =
      nat_beq (count agent_id) 0
      || ltb 256 (count agent_id)
      || elim operator_id [ none ↦ false | some o ↦ ltb 256 (count o) ]
      || elim metadata [ none ↦ false | some m ↦ ltb 65536 (j.dumps_len m) ]

  -- The entry that a heartbeat writes over `existing`.
  abbrev pub beat : ℕ → Option j.Value → Option String → Option Agent → Agent
  beat now metadata operator_id existing = record {
    status = live;
    last_heartbeat = now;
    started_at = elim existing [ none ↦ now | some a ↦ a.started_at ];
    metadata = default metadata j.empty;
    operator_id = operator_id;
    halted_by = elim existing [ none ↦ none | some a ↦ a.halted_by ];
    halted_at = elim existing [ none ↦ none | some a ↦ a.halted_at ];
    halt_reason = elim existing [ none ↦ none | some a ↦ a.halt_reason ];
  }

  unfoldable pub heartbeat_memory :
      (now : ℕ) → String → Option j.Value → Option String → Presence → Presence
  heartbeat_memory now agent_id metadata operator_id p = record p {
    agents = put p.agents agent_id (beat now metadata operator_id (get p.agents agent_id));
  }

  unfoldable pub heartbeat :
      (now : ℕ) → String → Option j.Value → Option String → Presence → Presence
  heartbeat now agent_id metadata operator_id p =
      if is_rejected agent_id metadata operator_id
      then p
      else heartbeat_memory now agent_id metadata operator_id p

  unfoldable pub mark_idle : String → Presence → Presence
  mark_idle agent_id p = elim (get p.agents agent_id) [
    | none ↦ p
    | some a ↦ record p { agents = put p.agents agent_id (record a { status = idle }) }
  ]

  -- existing is not None and existing.get("halted_by") is not None
  abbrev pub has_halt : Option Agent → Bool
  has_halt none = false
  has_halt (some a) = is_some a.halted_by

  unfoldable pub close_agent : String → Presence → Presence
  close_agent agent_id p =
      if has_halt (get p.agents agent_id) then p else record p { agents = remove p.agents agent_id }

  -- The body of the loop of `check_stale`. `now` is not before the heartbeat.
  abbrev pub mark_stale : (now timeout_seconds : ℕ) → Agent → Agent
  mark_stale now timeout_seconds a =
      if ltb (a.last_heartbeat + timeout_seconds * 1000000) now && not (is_unresponsive a.status)
      then record a { status = unresponsive }
      else a

  unfoldable pub mark_all_stale : (now timeout_seconds : ℕ) → Dict String Agent → Dict String Agent
  mark_all_stale now timeout_seconds [] = []
  mark_all_stale now timeout_seconds ((i, a) ∷ d) =
      (i, mark_stale now timeout_seconds a) ∷ mark_all_stale now timeout_seconds d

  unfoldable pub check_stale : (now timeout_seconds : ℕ) → Presence → Presence
  check_stale now timeout_seconds p = record p {
    agents = mark_all_stale now timeout_seconds p.agents;
  }

  -- The minimal row of an agent that has not been seen; `now_dt` is the second clock reading.
  abbrev pub unseen : (now_dt : ℕ) → Agent
  unseen now_dt = record {
    status = live;
    last_heartbeat = now_dt;
    started_at = now_dt;
    metadata = j.empty;
    operator_id = none;
    halted_by = none;
    halted_at = none;
    halt_reason = none;
  }

  unfoldable pub halt_memory :
      (now now_dt : ℕ) → String → (halted_by : String) → Option String → Presence → Presence
  halt_memory now now_dt agent_id halted_by reason p =
      let a = default (get p.agents agent_id) (unseen now_dt) in
      record p {
        agents =
            put p.agents agent_id
              (record a { halted_by = some halted_by; halted_at = some now; halt_reason = reason });
      }

  -- The row of `list_agents`, in the order of the dict.
  pub record Listed : Type 0 where
    pub agent_id : String
    pub status : AgentStatus
    pub last_heartbeat : ℕ
    pub started_at : ℕ
    pub metadata : j.Value
    pub operator_id : Option String

  unfoldable pub list_agents : Presence → List Listed
  list_agents p =
      map
        (λ (i, a). record {
          agent_id = i;
          status = a.status;
          last_heartbeat = a.last_heartbeat;
          started_at = a.started_at;
          metadata = a.metadata;
          operator_id = a.operator_id;
        })
        p.agents

  -- The body of the loop of `_derive_halted_from_memory`.
  abbrev pub note_halt : Dict String HaltMeta → String → Agent → Dict String HaltMeta
  note_halt out i a = elim a.halted_by [
    | none ↦ out
    | some by ↦
        put out i (record { halted_by = by; halted_at = a.halted_at; reason = a.halt_reason })
  ]

  -- The loop of `_derive_halted_from_memory`, with `out` so far.
  unfoldable pub derive_halted : Dict String HaltMeta → Dict String Agent → Dict String HaltMeta
  derive_halted out [] = out
  derive_halted out ((i, a) ∷ d) = derive_halted (note_halt out i a) d

  -- `(now - self._halted_cache_at) < _HALT_CACHE_TTL_SECONDS`
  abbrev pub is_recent : (now : ℕ) → Presence → Bool
  is_recent now p = ltb now (p.halted_cache_at + halt_cache_ttl)

  -- `now` is the reading before the lock, `locked` the one inside it.
  unfoldable pub maybe_refresh : (now locked : ℕ) → Source → Presence → Presence
  maybe_refresh now locked source p =
      if is_recent now p || is_recent locked p then p else elim source [
        | memory ↦ record p { halted_cache = derive_halted [] p.agents; halted_cache_at = locked }
        | failed ↦ record p { halted_cache_at = locked }
        | rows fresh ↦ record p { halted_cache = fresh; halted_cache_at = locked }
      ]

  unfoldable pub is_halted : (now locked : ℕ) → Source → String → Presence → Bool × Presence
  is_halted now locked source agent_id p =
      let after = maybe_refresh now locked source p in (has after.halted_cache agent_id, after)

  unfoldable pub assert_not_halted : (now locked : ℕ) → Source → String → Exec Presence None
  assert_not_halted now locked source agent_id p =
      let after = maybe_refresh now locked source p in
      elim (get after.halted_cache agent_id) [
        | none ↦ (ok tt, after)
        | some m ↦ (err (agent_halted agent_id m.halted_by m.halted_at m.reason), after)
      ]

  unfoldable pub force_refresh : (now locked : ℕ) → Source → Presence → Presence
  force_refresh now locked source p =
      maybe_refresh now locked source (record p { halted_cache_at = 0 })

  -- What the agent's side of the process may call.
  pub data AgentCall : Type 0 where
    heartbeat_call : (now : ℕ) → String → Option j.Value → Option String → AgentCall
    mark_idle_call close_call : String → AgentCall
    check_stale_call : (now timeout_seconds : ℕ) → AgentCall
    assert_call is_halted_call : (now locked : ℕ) → Source → String → AgentCall
    force_refresh_call : (now locked : ℕ) → Source → AgentCall

  unfoldable pub step : AgentCall → Presence → Presence
  step (heartbeat_call now i metadata operator_id) p = heartbeat now i metadata operator_id p
  step (mark_idle_call i) p = mark_idle i p
  step (close_call i) p = close_agent i p
  step (check_stale_call now timeout_seconds) p = check_stale now timeout_seconds p
  step (assert_call now locked source i) p = (assert_not_halted now locked source i p).1
  step (is_halted_call now locked source i) p = (is_halted now locked source i p).1
  step (force_refresh_call now locked source) p = force_refresh now locked source p

  unfoldable pub run : List AgentCall → Presence → Presence
  run [] p = p
  run (call ∷ calls) p = run calls (step call p)
