-- ===== src/Contracts/Meaning.antt =====
-- What the conditions on the budget and on the scope mean in the SDK.
use agentic_governance.Prelude.{
  ℕ, ◌≡◌, ◌↔◌, refl, String, Bool, true, false, Option, none, some, Bool-cases, inl, inr, string_eq,
  arith,
}
use agentic_governance.Prelude.Dict.{get}
use agentic_governance.Errors.{None, Result, Exception, ok, err}
use agentic_governance.Audit.Crypto.{Crypto}
use agentic_governance.Presence.{Json}
use agentic_governance.Presence.Clearance.{IsTable, Cleared}
use agentic_governance.Cost as C
use agentic_governance.Cost.Check.Budgets.{Affordable}
use agentic_governance.Cost.Check.Enforcement.{check_or_raise_iff}
use agentic_governance.Cost.Numbers.{Floats}
use agentic_governance.Scope as Sc
use agentic_governance.Scope.Decisions.{Permitted}
use agentic_governance.Scope.Enforcement.{check_ok_iff}
use agentic_governance.Contracts.{
  Condition, Contracts, caught, is_budget_exceeded, is_scope_refusal, check_budget_available,
  check_scope_allowed, eval_pre,
}
use agentic_governance.Contracts.Hosting.{Sdk, sdk_host}

absurd : ok false ≡ ok true → ⊥
absurd h = ground arith

unequal : {A : Type 0} {a : A} {e : Exception} → err e ≡ ok a → ⊥
unequal h = ground arith

module _ (M W : Type 0) where
  caught_iff :
      (these : Exception → Bool) (r : Result None × W)
      → ((caught M W these r).0 ≡ ok true) ↔ (r.0 ≡ ok tt)
  caught_iff these (ok _, w) = (λ h. refl, λ h. refl)
  caught_iff these (err e, w) = elim (Bool-cases (these e)) [
    | inl h ↦ rw h (λ g. elim (absurd g) [ ], λ g. elim (unequal g) [ ])
    | inr h ↦ rw h (λ g. elim (unequal g) [ ], λ g. elim (unequal g) [ ])
  ]

abbrev pub condition : (check message : String) → Condition
condition check message = record { check = check; message = message; callable = none }

module _ (c : Crypto) (j : Json) (fl : Floats) (S J : Type 0) where
  -- The module's calls of the two checks, on the shared log and presence table.
  abbrev pub cost_in : Sdk c j fl S J → C.Cost c j fl S
  cost_in s = record s.cost { presence = s.presence; log = s.log }

  abbrev pub scope_in : Sdk c j fl S J → Sc.Scope c j
  scope_in s = record s.scope { presence = s.presence; log = s.log }

  -- The conditions mean what they say: wired to the modules of the SDK, with at most one entry for an
  -- agent in the presence table, "budget_available" holds exactly when the halt switch is clear of the
  -- agent (no presence module is wired, or the halt cache is current and does not list it, or it is
  -- expired and the refresh finds no marker of it) and the agent can afford a call, and "scope_allowed"
  -- exactly when the halt switch is clear of it and its registered policy permits the tool.
  pub conditions_mean :
      (x : C.Context c j fl S) (y : Sc.Context c j) (has_gates : Option None) (approved_at : ℕ)
      (tool_of : c.Metadata → Option String)
      (violation_metadata : (tool check message : String) → c.Metadata)
      (m : Contracts c.Metadata (Sdk c j fl S J)) (agent_id : String) (session_id : ℕ)
      (tool message : String) (s : Sdk c j fl S J)
      → IsTable j s.presence
      → let wired = record m {
        host = sdk_host c j fl S J x y has_gates approved_at tool_of violation_metadata;
      } in
        (((eval_pre c.Metadata
              (Sdk c j fl S J)
              wired
              agent_id
              session_id
              tool
              (condition "budget_available" message)
              s).0
            ≡ ok true)
          ↔ (Cleared j x.halt_now x.halt_locked x.halt_source agent_id s.presence
              × Affordable c j fl S x agent_id session_id none
                  (get s.cost.policies agent_id)
                  s.cost.store))
        × (((eval_pre c.Metadata
                (Sdk c j fl S J)
                wired
                agent_id
                session_id
                tool
                (condition "scope_allowed" message)
                s).0
              ≡ ok true)
            ↔ (Cleared j y.now y.locked y.source agent_id s.presence
                × Permitted agent_id (some tool) none s.scope.policies))
  unfolding eval_pre check_budget_available check_scope_allowed
  conditions_mean x y has_gates approved_at tool_of violation_metadata m agent_id session_id tool
        message s table =
      let budget = check_or_raise_iff c j fl S x agent_id session_id none (cost_in s) table in
      let scope = check_ok_iff c j y agent_id (some tool) none (scope_in s) table in
      let M = c.Metadata in
      let W = Sdk c j fl S J in
      let in_budget = caught_iff M W is_budget_exceeded _ in
      let permitted = caught_iff M W is_scope_refusal _ in
      (
        (λ h. budget.0 (in_budget.0 h), λ h. in_budget.1 (budget.1 h)),
        (
          λ h. let (a, b, p) = scope.0 (permitted.0 h) in (a, p),
          λ (a, p). permitted.1 (scope.1 (a, refl, p)),
        ),
      )
