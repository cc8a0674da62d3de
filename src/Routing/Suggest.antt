-- ===== src/Routing/Suggest.antt =====
-- routing/module.py: `suggest`, with the two strategies. What it reads of the cost and scope modules
-- does not change them.
use agentic_governance.Prelude.{
  ℕ, ◌/◌, String, Bool, false, Option, none, some, List, [], ◌∷◌, ◌++◌, contains, string_eq, ◌==◌,
  is_some, if◌then◌else◌, ◌&&◌, ◌||◌, not,
}
use agentic_governance.Prelude.Dict.{get}
use agentic_governance.Errors.{None, Result, ok, err}
use agentic_governance.Exec.{Exec, gets, pure, ◌>>=◌, ◌>>◌}
use agentic_governance.Audit.Crypto.{Crypto}
use agentic_governance.Audit.Models.{AuditEvent}
use agentic_governance.Audit.Event.{audit_event}
use agentic_governance.Audit.Emit.{plain_event}
use agentic_governance.Presence.{Json}
use agentic_governance.Scope.{Scope, get_policy}
use agentic_governance.Scope.Policy.{ScopePolicy}
use agentic_governance.Cost.Numbers.{Floats}
use agentic_governance.Cost.Policy.{BudgetSnapshot}
use agentic_governance.Cost.Pricing.{estimate_cost}
use agentic_governance.Cost.Report.{snapshot}
use agentic_governance.Routing.{Suggestion, Routing, Outside, log_or_warn}
use agentic_governance.Routing.Models.{RoutingPolicy, Strategy}

-- `_apply_allowed_models_constraint`, from the models that the scope policy allows; an empty set does
-- not restrict.
unfoldable pub constrain : (allowed_models : List String) → (proposed fallback : String) → String
constrain [] proposed fallback = proposed
constrain (m ∷ ms) proposed fallback =
    if contains proposed (m ∷ ms)
    then proposed
    else if contains fallback (m ∷ ms)
    then fallback
    else fallback

abbrev pub allowed_of : Option ScopePolicy → List String
allowed_of none = []
allowed_of (some policy) = policy.allowed_models

-- name is not None and requested == name
abbrev pub is_tier : (tier : Option String) → (requested : String) → Bool
is_tier none requested = false
is_tier (some m) requested = requested == m

-- The tier as a candidate, unless it is the requested model.
abbrev pub other_tier : (tier : Option String) → (requested : String) → List String
other_tier none requested = []
other_tier (some m) requested = if m == requested then [] else m ∷ []

-- The loop over the candidates: the first that is allowed, or the requested model.
unfoldable pub first_allowed :
    (allowed_models : List String) → (requested : String) → (candidates : List String) → String
first_allowed allowed requested [] = requested
first_allowed allowed requested (candidate ∷ rest) =
    let later = first_allowed allowed requested rest in
    if constrain allowed candidate requested == candidate then candidate else later

module _ (fl : Floats) where
  -- Threshold and remaining budget are set, and the remaining budget is below.
  abbrev pub is_below : (threshold remaining : Option fl.Float) → Bool
  is_below none remaining = false
  is_below (some t) none = false
  is_below (some t) (some r) = fl.lt r t

  abbrev pub is_expensive_tier : RoutingPolicy fl → (requested : String) → Bool
  is_expensive_tier p requested =
      is_tier p.expensive_model requested
      || (not (is_some p.expensive_model) && is_tier p.mid_model requested)

  -- Why the call is routed down, if it is.
  unfoldable pub route_down :
      RoutingPolicy fl → BudgetSnapshot fl → (requested : String) → Option String
  route_down p b requested =
      let low =
        if is_below p.min_session_usd_for_expensive b.session_usd_remaining
        then some "session_budget_low"
        else if is_below p.min_daily_usd_for_expensive b.agent_daily_usd_remaining
        then some "daily_budget_low"
        else none in
      if is_expensive_tier p requested || not (is_some p.expensive_model) then low else none

  abbrev pub candidates : RoutingPolicy fl → (requested : String) → List String
  candidates p requested = other_tier p.mid_model requested ++ other_tier p.cheap_model requested

module _ (c : Crypto) (j : Json) (fl : Floats) (S : Type 0) where
  abbrev pub allowed_models_of : Option (Scope c j) → (agent_id : String) → List String
  allowed_models_of none agent_id = []
  allowed_models_of (some scope) agent_id = allowed_of (get_policy c j scope agent_id)

  abbrev pub apply_allowed_models_constraint :
      Routing c j fl S → (agent_id : String) → (proposed fallback : String) → String
  apply_allowed_models_constraint s agent_id = constrain (allowed_models_of s.scope agent_id)

  module _ (x : Outside c j fl S) (agent_id : String) (session_id : ℕ) (requested : String) where
    abbrev pub suggestion_event : Suggestion fl → AuditEvent c.Metadata
    suggestion_event suggestion =
        record (plain_event agent_id (some session_id) "routing.suggestion"
          (x.suggestion_metadata suggestion)) { model = some suggestion.selected_model }

    abbrev pub emit_built : Result (AuditEvent c.Metadata) → Exec (Routing c j fl S) None
    emit_built (err e) s = (err e, s)
    emit_built (ok event) s = (ok tt, log_or_warn c j fl S x 0 event s)

    -- An event that `AuditEvent` refuses is raised: it is built before the `try`.
    abbrev pub emit_suggestion_event : Suggestion fl → Exec (Routing c j fl S) None
    emit_suggestion_event suggestion = emit_built (audit_event x.env (suggestion_event suggestion))

    -- The event of `_apply_rules`.
    abbrev pub rules_suggestion : (selected reason : String) → Suggestion fl
    rules_suggestion selected reason = record {
      requested_model = requested;
      selected_model = selected;
      strategy = "rules";
      reason = reason;
      session_usd_remaining = none;
      daily_usd_remaining = none;
      estimated_cost_requested = fl.zero_usd;
      estimated_cost_selected = fl.zero_usd;
    }

    abbrev pub apply_target : (target : String) → Exec (Routing c j fl S) String
    apply_target target s =
        let selected = apply_allowed_models_constraint s agent_id target requested in
        let applied =
          (emit_suggestion_event (rules_suggestion selected "rules_match") >> pure selected) s in
        let suppressed =
          (emit_suggestion_event (rules_suggestion selected "allowed_models_constraint")
              >> pure selected)
            s in
        if not (selected == requested)
        then applied
        else if not (selected == target)
        then suppressed
        else (ok selected, s)

    unfoldable pub apply_rules : RoutingPolicy fl → Exec (Routing c j fl S) String
    apply_rules p s = elim (get p.model_rules requested) [
      | none ↦ (ok requested, s)
      | some target ↦ apply_target target s
    ]

    module _ (max_tokens : ℕ) where
      abbrev pub estimate : (model : String) → Exec (Routing c j fl S) fl.Float
      estimate model = gets λ _. estimate_cost fl model (max_tokens / 4) max_tokens false none

      -- The event of `_apply_cost_aware`, and its result.
      abbrev pub emit_selected :
          BudgetSnapshot fl
          → (cost_requested : fl.Float) → (selected reason : String)
          → Exec (Routing c j fl S) String
      emit_selected b cost_requested selected reason = do
        cost_selected ← estimate selected
        emit_suggestion_event (record {
          requested_model = requested;
          selected_model = selected;
          strategy = "cost_aware";
          reason = reason;
          session_usd_remaining = b.session_usd_remaining;
          daily_usd_remaining = b.agent_daily_usd_remaining;
          estimated_cost_requested = cost_requested;
          estimated_cost_selected = cost_selected;
        })
        pure selected

      -- `if not should_route_down:`
      abbrev pub stay :
          BudgetSnapshot fl → (cost_requested : fl.Float) → Exec (Routing c j fl S) String
      stay b cost_requested s =
          let constrained = apply_allowed_models_constraint s agent_id requested requested in
          let moved = emit_selected b cost_requested constrained "allowed_models_constraint" s in
          if not (constrained == requested) then moved else (ok requested, s)

      -- What is selected after the loop, and the reason.
      abbrev pub select : Routing c j fl S → RoutingPolicy fl → (reason : String) → String × String
      select s p reason =
          let allowed = allowed_models_of s.scope agent_id in
          let selected = first_allowed allowed requested (candidates fl p requested) in
          let fallback = constrain allowed requested requested in
          if selected == requested
          then (
            fallback,
            if not (fallback == requested) then "allowed_models_constraint" else reason,
          )
          else (selected, reason)

      abbrev pub move :
          RoutingPolicy fl
          → BudgetSnapshot fl
          → (cost_requested : fl.Float) → (reason : String) → Exec (Routing c j fl S) String
      move p b cost_requested reason s =
          let (selected, why) = select s p reason in
          let moved = emit_selected b cost_requested selected why s in
          let kept = (estimate selected >> pure selected) s in
          if not (selected == requested) then moved else kept

      abbrev pub go_on :
          RoutingPolicy fl
          → BudgetSnapshot fl
          → (cost_requested : fl.Float) → (down : Option String) → Exec (Routing c j fl S) String
      go_on p b cost_requested none = stay b cost_requested
      go_on p b cost_requested (some reason) = move p b cost_requested reason

      unfoldable pub apply_cost_aware : RoutingPolicy fl → Exec (Routing c j fl S) String
      apply_cost_aware p s =
          let b = snapshot c j fl S x.cost_context agent_id session_id s.cost in
          (estimate requested >>= λ cost_requested.
          go_on p b cost_requested (route_down fl p b requested))
            s

      abbrev pub apply_strategy :
          (strategy : Strategy) → RoutingPolicy fl → Exec (Routing c j fl S) String
      apply_strategy Strategy.rules p = apply_rules p
      apply_strategy Strategy.cost_aware p = apply_cost_aware p

      unfoldable pub suggest_impl : Exec (Routing c j fl S) String
      unfolding apply_rules apply_cost_aware
      suggest_impl s = elim (get s.policies agent_id) [
        | none ↦ (ok requested, s)
        | some p ↦ apply_strategy p.strategy p s
      ]

      -- The event of a failure, if `AuditEvent` takes it.
      abbrev pub log_failed : Result (AuditEvent c.Metadata) → Routing c j fl S → Routing c j fl S
      log_failed (err e) s = s
      log_failed (ok event) s = log_or_warn c j fl S x 0 event s

      -- `except Exception` of `suggest`
      abbrev pub or_requested : Result String → Exec (Routing c j fl S) String
      or_requested (ok model) s = (ok model, s)
      or_requested (err e) s =
          let event =
            plain_event agent_id (some session_id) "routing.suggest_failed"
              (x.failed_metadata requested e) in
          (ok requested, log_failed (audit_event x.env event) s)

      unfoldable pub suggest : Exec (Routing c j fl S) String
      unfolding suggest_impl
      suggest s = let (r, after) = suggest_impl s in or_requested r after
