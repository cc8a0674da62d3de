-- ===== src/Routing/Advice.antt =====
-- Where the budget routes a call, its tiers not all being set.
use agentic_governance.Prelude.{
  ℕ, ◌/◌, ◌≡◌, ◌≢◌, refl, sym, ap, ◌∙◌, subst, String, true, false, none, some, List, [], ◌∷◌, ◌++◌,
  string_eq, ◌==◌, Bool-cases, inl, inr,
}
use agentic_governance.Prelude.Dict.{get}
use agentic_governance.Errors.{Result, ok}
use agentic_governance.Exec.{◌>>◌, pure}
use agentic_governance.Audit.Crypto.{Crypto}
use agentic_governance.Audit.Models.{AuditEvent}
use agentic_governance.Audit.Event.{audit_event}
use agentic_governance.Presence.{Json}
use agentic_governance.Cost.Numbers.{Floats}
use agentic_governance.Cost.Policy.{BudgetSnapshot}
use agentic_governance.Cost.Report.{snapshot}
use agentic_governance.Routing.{Suggestion, Routing, Outside}
use agentic_governance.Routing.Models.{RoutingPolicy, Strategy}
use agentic_governance.Routing.Suggest.{
  route_down, candidates, allowed_models_of, suggestion_event, emit_built, select, move, go_on,
  apply_cost_aware, apply_strategy, suggest_impl, or_requested, suggest, other_tier, is_tier,
}
use agentic_governance.Routing.Choice.{is_allowed, pick, estimated, select_lem}

module _ (c : Crypto) (j : Json) (fl : Floats) (S : Type 0) (x : Outside c j fl S)
    (agent_id : String) (session_id : ℕ) (requested : String) (max_tokens : ℕ) where
  -- The event of every suggestion of the model is one that `AuditEvent` takes.
  abbrev pub IsLoggable : (m : String) → Type 0
  IsLoggable m =
      (g : Suggestion fl)
      → g.requested_model ≡ requested
      → g.selected_model ≡ m
      → (event : AuditEvent c.Metadata) × (audit_event x.env
            (suggestion_event c j fl S x agent_id session_id requested g)
          ≡ ok event)

  emitted_ok :
      (m : String) (built : Result (AuditEvent c.Metadata)) (event : AuditEvent c.Metadata)
      (s : Routing c j fl S)
      → built ≡ ok event
      → ((emit_built c j fl S x agent_id session_id requested built >> pure m) s).0 ≡ ok m
  emitted_ok m built event s h =
      ap (λ r. ((emit_built c j fl S x agent_id session_id requested r >> pure m) s).0) h

  -- A selection whose event is taken is returned.
  move_lem :
      (p : RoutingPolicy fl) (b : BudgetSnapshot fl) (cost : fl.Float) (reason : String)
      (s : Routing c j fl S)
      → ((select c j fl S x agent_id session_id requested max_tokens s p reason).0 == requested)
        ≡ false
      → IsLoggable (select c j fl S x agent_id session_id requested max_tokens s p reason).0
      → (move c j fl S x agent_id session_id requested max_tokens p b cost reason s).0
        ≡ ok (select c j fl S x agent_id session_id requested max_tokens s p reason).0
  move_lem p b cost reason s other loggable =
      let selected = (select c j fl S x agent_id session_id requested max_tokens s p reason).0 in
      let (usd, e) = estimated fl selected (max_tokens / 4) max_tokens in
      let (event, built) = loggable _ refl refl in
      rw (other, e) (emitted_ok selected _ event s built)

  suggest-returned :
      (s : Routing c j fl S) (m : String)
      → (suggest_impl c j fl S x agent_id session_id requested max_tokens s).0 ≡ ok m
      → (suggest c j fl S x agent_id session_id requested max_tokens s).0 ≡ ok m
  unfolding suggest
  suggest-returned s m h =
      let after = (suggest_impl c j fl S x agent_id session_id requested max_tokens s).1 in
      ap (λ r. (or_requested c j fl S x agent_id session_id requested max_tokens r after).0) h

  routed_lem :
      (s : Routing c j fl S) (p : RoutingPolicy fl) (reason m : String)
      → get s.policies agent_id ≡ some p
      → p.strategy ≡ Strategy.cost_aware
      → route_down fl p (snapshot c j fl S x.cost_context agent_id session_id s.cost) requested
        ≡ some reason
      → pick (allowed_models_of c j fl S s.scope agent_id) requested (candidates fl p requested) ≡ m
      → (m == requested) ≡ false
      → IsLoggable m
      → (suggest_impl c j fl S x agent_id session_id requested max_tokens s).0 ≡ ok m
  unfolding suggest_impl apply_cost_aware
  routed_lem s p reason m e1 e2 down picked other loggable =
      let b = snapshot c j fl S x.cost_context agent_id session_id s.cost in
      let (usd, e) = estimated fl requested (max_tokens / 4) max_tokens in
      let chosen =
        select_lem c j fl S x agent_id session_id requested max_tokens s p reason ∙ picked in
      rw (e1, suggest_impl)
        (ap (λ k. (apply_strategy c j fl S x agent_id session_id requested max_tokens k p s).0) e2
          ∙ rw (e, apply_cost_aware)
              (ap (λ d. (go_on c j fl S x agent_id session_id requested max_tokens p b usd d s).0)
                  down
                ∙ move_lem p b usd reason s (ap (λ k. k == requested) chosen ∙ other)
                    (subst IsLoggable (sym chosen) loggable)
                ∙ ap ok chosen))

  -- Where a policy has no expensive model and its cheap model is requested, a session budget below the
  -- threshold makes `suggest` return the middle model, if the scope allows it and `AuditEvent` takes
  -- the events of suggestions of it.
  pub suggest-mid_model :
      (s : Routing c j fl S) (p : RoutingPolicy fl) (mid : String) (threshold remaining : fl.Float)
      → get s.policies agent_id ≡ some p
      → p.strategy ≡ Strategy.cost_aware
      → p.cheap_model ≡ some requested
      → p.mid_model ≡ some mid
      → p.expensive_model ≡ none
      → mid ≢ requested
      → p.min_session_usd_for_expensive ≡ some threshold
      → (snapshot c j fl S x.cost_context agent_id session_id s.cost).session_usd_remaining
        ≡ some remaining
      → fl.lt remaining threshold ≡ true
      → is_allowed (allowed_models_of c j fl S s.scope agent_id) mid ≡ true
      → IsLoggable mid
      → (suggest c j fl S x agent_id session_id requested max_tokens s).0 ≡ ok mid
  unfolding route_down
  suggest-mid_model s p mid t r e1 e2 e3 e4 e5 other e6 e7 e8 e9 loggable =
      let allowed = allowed_models_of c j fl S s.scope agent_id in
      suggest-returned s mid (
        routed_lem s p "session_budget_low" mid e1 e2 down
          (ap (λ ms. pick allowed requested (ms ++ other_tier p.cheap_model requested)) first
            ∙ picked (other_tier p.cheap_model requested))
          differ loggable)
    where
      differ : (mid == requested) ≡ false
      differ = elim (Bool-cases (mid == requested)) [
        | inl h ↦ elim (other ((string_eq.beq_iff mid requested).0 h)) [ ]
        | inr h ↦ h
      ]

      down :
          route_down fl p (snapshot c j fl S x.cost_context agent_id session_id s.cost) requested
          ≡ some "session_budget_low"
      down =
          rw (e5, e6, e7, e8, route_down)
            (elim (Bool-cases (is_tier p.mid_model requested)) [
              | inl h ↦ rw h refl
              | inr h ↦ rw h refl
            ])

      first : other_tier p.mid_model requested ≡ mid ∷ []
      first = rw (e4, differ) refl

      picked :
          (ms : List String)
          → pick (allowed_models_of c j fl S s.scope agent_id) requested (mid ∷ ms) ≡ mid
      picked ms = rw e9 refl
