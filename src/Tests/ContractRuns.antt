-- ===== src/Tests/ContractRuns.antt =====
-- A contract over the cost, scope and gates modules, on small inputs.
use agentic_governance.Prelude.{ℕ, ◌≡◌, ◌↔◌, true, none, some, [], ◌∷◌, arith, string_eq}
use agentic_governance.Prelude.Dict.{get}
use agentic_governance.Errors.{None, ok}
use agentic_governance.Exec.{Exec}
use agentic_governance.Presence.Clearance.{Cleared}
use agentic_governance.Cost.Store.{Memory}
use agentic_governance.Cost.Check.Budgets.{Affordable}
use agentic_governance.Scope.Decisions.{Permitted}
use agentic_governance.Gates.{empty}
use agentic_governance.Contracts.{
  Contracts, Contract, get_contract, eval_pre, check_hitl_approved, check_pre, enforce,
}
use agentic_governance.Contracts.Hosting.{Sdk, sdk_host}
use agentic_governance.Contracts.Enforcement.{PreHold, PostHold, enforce_iff}
use agentic_governance.Contracts.Meaning.{condition, conditions_mean}
use agentic_governance.Tests.Toy.{toy_json, toy_log, toy}
use agentic_governance.Tests.Cents.{cents, x, spent}
use agentic_governance.Tests.ControlRuns.{scope_of}
use agentic_governance.Tests.ControlRuns as Control

abbrev World : Type 0
World = Sdk toy toy_json cents (Memory cents) ℕ

abbrev sdk : World
sdk = record {
  cost = spent;
  scope = scope_of none;
  gates = empty ℕ;
  presence = none;
  log = toy_log;
}

-- A deletion asks for a human and a budget.
abbrev deletion : Contract
deletion = record {
  agent_id = "billing";
  tool = "delete_invoice";
  pre = condition "hitl_approved" "ask a human" ∷ condition "budget_available" "no budget" ∷ [];
  post = condition "audit_logged" "not logged" ∷ [];
}

abbrev contracts : Contracts toy.Metadata World
contracts = record {
  host =
      sdk_host toy toy_json cents (Memory cents) ℕ x Control.context none 10 (λ metadata. none)
        (λ tool check message. 3);
  contracts = (("billing", "delete_invoice"), deletion) ∷ [];
  custom_checks = [];
}

abbrev tool_call : Exec World None
tool_call s = (ok tt, s)

not_approved : PreHold toy.Metadata World contracts "billing" 1 "delete_invoice" sdk → ⊥
unfolding get_contract get eval_pre check_hitl_approved
not_approved (h, _) = ground arith

enforce_iff_example :
    ((enforce toy.Metadata World contracts "billing" 1 "delete_invoice" tool_call sdk).0 ≡ ok tt)
    ↔ (PreHold toy.Metadata World contracts "billing" 1 "delete_invoice" sdk
        × ((tool_call (check_pre toy.Metadata World contracts "billing" 1 "delete_invoice" sdk).1).0
            ≡ ok tt)
        × PostHold toy.Metadata World contracts "billing" 1 "delete_invoice"
            (tool_call
              (check_pre toy.Metadata World contracts "billing" 1 "delete_invoice" sdk).1).1)
enforce_iff_example =
    enforce_iff toy.Metadata World contracts "billing" 1 "delete_invoice" tool_call sdk

-- The same modules, with a halt in the cache.
abbrev guarded : World
guarded = record sdk { presence = some Control.known_halt }

conditions_mean_example :
    (((eval_pre toy.Metadata World contracts "billing" 1 "delete_invoice"
          (condition "budget_available" "no budget")
          guarded).0
        ≡ ok true)
      ↔ (Cleared toy_json x.halt_now x.halt_locked x.halt_source "billing" (some Control.known_halt)
          × Affordable toy toy_json cents
              (Memory cents)
              x
              "billing"
              1
              none
              (get spent.policies "billing")
              spent.store))
    × (((eval_pre toy.Metadata World contracts "billing" 1 "delete_invoice"
            (condition "scope_allowed" "no budget")
            guarded).0
          ≡ ok true)
        ↔ (Cleared toy_json Control.context.now Control.context.locked Control.context.source
              "billing"
              (some Control.known_halt)
            × Permitted "billing" (some "delete_invoice") none (scope_of none).policies))
conditions_mean_example =
    conditions_mean toy toy_json cents (Memory cents) ℕ x Control.context none 10 (λ metadata. none)
      (λ tool check message. 3) contracts "billing" 1 "delete_invoice" "no budget" guarded tt
