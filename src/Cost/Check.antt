-- ===== src/Cost/Check.antt =====
-- cost/module.py: `CostModule.check_or_raise`.
pub mod Admits
pub mod Budgets
pub mod Decisions
pub mod Enforcement
use agentic_governance.Prelude.{
  ℕ, ◌+◌, ◌-◌, ◌/◌, String, Bool, true, false, Option, none, some, List, [], ◌∷◌, ltb, contains,
  string_eq, if◌then◌else◌, default, map_some,
}
use agentic_governance.Prelude.Dict.{get}
use agentic_governance.Errors.{
  None, Result, Exception, ok, err, ◌>>=◌, Cap, budget_exceeded, per_session_seconds,
  store_unreachable,
}
use agentic_governance.Exec as Exec
use agentic_governance.Exec.{Exec, raise, ◌>>◌}
use agentic_governance.Audit.Crypto.{Crypto}
use agentic_governance.Audit.Emit.{plain_event}
use agentic_governance.Presence.{Json}
use agentic_governance.Cost.{Cost, Context, audit_event, halt_guard}
use agentic_governance.Cost.Numbers.{Floats}
use agentic_governance.Cost.Policy.{BudgetPolicy, breach}

module _ (c : Crypto) (j : Json) (fl : Floats) (S : Type 0) (x : Context c j fl S) where
  abbrev pub exceeded :
      (agent_id : String)
      → (session_id : ℕ) → Cap
      → (used limit : fl.Float) → Exec (Cost c j fl S) None
  exceeded agent_id session_id cap used limit =
      audit_event c j fl S x (
        plain_event agent_id (some session_id) "budget.exceeded"
          (x.exceeded_metadata cap used limit))
      >> raise (budget_exceeded cap)

  -- The handler for a store that cannot be read.
  abbrev pub unreadable :
      (agent_id : String) → (session_id : ℕ) → Exception → Exec (Cost c j fl S) None
  unreadable agent_id session_id e =
      audit_event c j fl S x (
        plain_event agent_id (some session_id) "budget.check_failed"
          (x.failed_metadata e x.fail_open))
      >> (if x.fail_open then Exec.pure tt else raise (budget_exceeded store_unreachable))

  -- The session's and the day's usage: in one query where the store has it.
  unfoldable pub read_usage :
      (agent_id : String) → (session_id : ℕ) → S → Result ((fl.Float × ℕ) × (fl.Float × ℕ))
  read_usage agent_id session_id s = elim x.ops.get_session_and_daily_usage [
    | some combined ↦ combined x.now agent_id session_id s
    | none ↦ x.ops.get_session_usage agent_id session_id s >>= λ session.
        x.ops.get_agent_daily_usage x.now agent_id s >>= λ daily. ok (session, daily)
  ]

  -- int((now - started).total_seconds()), where the store does not compute it itself
  unfoldable pub read_elapsed : (agent_id : String) → (session_id : ℕ) → S → Result (Option ℕ)
  read_elapsed agent_id session_id s = elim x.ops.get_session_elapsed_seconds [
    | some elapsed ↦ elapsed x.read_at agent_id session_id s
    | none ↦ x.ops.get_session_start_time agent_id session_id s >>= λ started.
        ok (map_some (λ t. (x.read_at - t) / 1000000) started)
  ]

  -- The session's time where it is over the limit; an error of the store lets the call pass here.
  abbrev pub overtime : (limit : Option ℕ) → (elapsed : Result (Option ℕ)) → Option (ℕ × ℕ)
  overtime (some limit) (ok (some elapsed)) =
      if ltb limit elapsed then some (elapsed, limit) else none
  overtime _ _ = none

  unfoldable pub check_seconds :
      (agent_id : String) → (session_id : ℕ) → (limit : Option ℕ) → Exec (Cost c j fl S) None
  check_seconds agent_id session_id limit s =
      elim (overtime limit (read_elapsed agent_id session_id s.store)) [
        | some (elapsed, most) ↦
            exceeded agent_id session_id per_session_seconds (fl.of_nat elapsed) (fl.of_nat most) s
        | none ↦ (ok tt, s)
      ]

  abbrev pub project : (projected_tokens : Option ℕ) → fl.Float × ℕ → fl.Float × ℕ
  project projected_tokens (usd, tokens) = (usd, tokens + default projected_tokens 0)

  unfoldable pub check_usage :
      (agent_id : String)
      → (session_id : ℕ) → (projected_tokens : Option ℕ) → BudgetPolicy fl
      → (fl.Float × ℕ) × (fl.Float × ℕ)
      → Exec (Cost c j fl S) None
  check_usage agent_id session_id projected_tokens policy (session, daily) s =
      elim (breach fl policy (project projected_tokens session) (project projected_tokens daily)) [
        | some (cap, used, limit) ↦ exceeded agent_id session_id cap used limit s
        | none ↦ check_seconds agent_id session_id policy.session_seconds_cap s
      ]

  unfoldable pub check_budget :
      (agent_id : String)
      → (session_id : ℕ) → (projected_tokens : Option ℕ) → Exec (Cost c j fl S) None
  check_budget agent_id session_id projected_tokens s = elim (get s.policies agent_id) [
    | none ↦ (
      ok tt,
      if contains agent_id s.no_policy_warned
          then s
          else record s { no_policy_warned = agent_id ∷ s.no_policy_warned },
    )
    | some policy ↦ elim (read_usage agent_id session_id s.store) [
      | err e ↦ unreadable agent_id session_id e s
      | ok usage ↦ check_usage agent_id session_id projected_tokens policy usage s
    ]
  ]

  unfoldable pub check_or_raise :
      (agent_id : String)
      → (session_id : ℕ) → (projected_tokens : Option ℕ) → Exec (Cost c j fl S) None
  unfolding check_budget
  check_or_raise agent_id session_id projected_tokens =
      halt_guard c j fl S x agent_id >> check_budget agent_id session_id projected_tokens
