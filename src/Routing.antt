-- ===== src/Routing.antt =====
-- routing/module.py: `RoutingModule`, with the cost and scope modules that it reads and the audit log
-- that it writes. Not modelled: the persistence of policies in Postgres; without a database there is
-- no engine, and the tasks in flight are those that log an event.
pub mod Models
pub mod Suggest
pub mod Choice
pub mod Proposals
pub mod Advice
pub mod Deferred
use agentic_governance.Prelude.{
  ℕ, ◌+◌, String, Bool, true, false, Option, none, some, List, [], ◌∷◌, ◌++◌, string_eq, is_some,
  if◌then◌else◌,
}
use agentic_governance.Prelude.Dict.{Dict, get, put}
use agentic_governance.Errors.{None, Result, Exception, ok, err}
use agentic_governance.Exec.{Exec, modify}
use agentic_governance.Audit.Crypto.{Crypto}
use agentic_governance.Audit.Models.{AuditEvent}
use agentic_governance.Audit.Log.{Call, Config, Log}
use agentic_governance.Audit.Event.{EventEnv}
use agentic_governance.Audit.Emit.{emit, plain_event}
use agentic_governance.Presence.{Json}
use agentic_governance.Scope.{Scope}
use agentic_governance.Cost.{Cost, Context}
use agentic_governance.Cost.Numbers.{Floats}
use agentic_governance.Routing.Models.{RoutingPolicy}

-- What a routing.suggestion event carries as its metadata.
pub record Suggestion (fl : Floats) : Type 0 where
  pub requested_model : String
  pub selected_model : String
  pub strategy : String
  pub reason : String
  pub session_usd_remaining : Option fl.Float
  pub daily_usd_remaining : Option fl.Float
  pub estimated_cost_requested : fl.Float
  pub estimated_cost_selected : fl.Float

module _ (c : Crypto) (j : Json) (fl : Floats) (S : Type 0) where
  -- `scope` is none where no scope module is given. `pending_tasks` are the audit events that
  -- scheduled tasks will log.
  pub record Routing : Type 0 where
    pub policies : Dict String (RoutingPolicy fl)
    pub cost : Cost c j fl S
    pub scope : Option (Scope c j)
    pub log : Log c
    pub pending_tasks : List (AuditEvent c.Metadata)
    pub pending_upsert_policies : List (RoutingPolicy fl)

  -- What a call reads outside, with the settings of the cost module. `call_at n` is what the n-th event
  -- of the call reads when it is logged.
  pub record Outside : Type 0 where
    pub config : Config c
    pub call_at : ℕ → Call c
    pub cost_context : Context c j fl S
    -- {"strategy": ..., "cheap_model": ..., "mid_model": ..., "expensive_model": ..., "action": "registered"}
    pub policy_metadata : RoutingPolicy fl → c.Metadata
    pub suggestion_metadata : Suggestion fl → c.Metadata
    -- {"requested_model": ..., "error_type": type(exc).__name__}
    pub failed_metadata : (requested_model : String) → Exception → c.Metadata
    pub env : EventEnv c.Metadata

  unfoldable pub has_policies : Routing → Bool
  has_policies s = elim s.policies [ [] ↦ false | p ∷ ps ↦ true ]

  module _ (x : Outside) where
    abbrev pub policy_changed : RoutingPolicy fl → AuditEvent c.Metadata
    policy_changed policy =
        plain_event policy.agent_id none "routing.policy_changed" (x.policy_metadata policy)

    -- `_persist_policy_best_effort`
    abbrev pub persist_policy : (loop_is_running : Bool) → RoutingPolicy fl → Routing → Routing
    persist_policy loop_is_running policy s =
        if loop_is_running
        then record s { pending_tasks = s.pending_tasks ++ policy_changed policy ∷ [] }
        else record s { pending_upsert_policies = s.pending_upsert_policies ++ policy ∷ [] }

    unfoldable pub register : (loop_is_running : Bool) → RoutingPolicy fl → Exec Routing None
    register loop_is_running policy = modify λ s.
        persist_policy loop_is_running policy
          (record s { policies = put s.policies policy.agent_id policy })

    -- try: await self._audit.log(event) / except Exception: (a warning)
    unfoldable pub log_or_warn : (n : ℕ) → AuditEvent c.Metadata → Routing → Routing
    log_or_warn n event s = record s { log = (emit c x.config (x.call_at n) event s.log).1 }

    -- The event loop runs the task that was scheduled first.
    unfoldable pub run_task : Routing → Routing
    unfolding log_or_warn
    run_task s = elim s.pending_tasks [
      | [] ↦ s
      | event ∷ rest ↦ log_or_warn 0 event (record s { pending_tasks = rest })
    ]

    -- The loop over the deferred policies, from the n-th event on.
    unfoldable pub flush : (n : ℕ) → List (RoutingPolicy fl) → Routing → Routing
    unfolding log_or_warn
    flush n [] s = s
    flush n (policy ∷ pending) s = flush (n + 1) pending (log_or_warn n (policy_changed policy) s)

    unfoldable pub flush_pending_upserts : Exec Routing None
    unfolding flush
    flush_pending_upserts =
        modify λ s. flush 0 s.pending_upsert_policies (record s { pending_upsert_policies = [] })
