-- ===== src/Tests/RoutingRuns.antt =====
-- Suggestions of a policy with two tiers, and a registration before the start.
use agentic_governance.Prelude.{◌≡◌, refl, ap, none, some, [], ◌∷◌, string_eq, ◌==◌, arith}
use agentic_governance.Prelude.Dict.{get, put}
use agentic_governance.Errors.{ok}
use agentic_governance.Cost.Store.{
  Memory, track_memory, session_usage_of, daily_usage_of, utc_day_start,
}
use agentic_governance.Cost.Store.Ledger.{run}
use agentic_governance.Cost.Report.{snapshot}
use agentic_governance.Cost.Pricing.{estimate_cost, resolve_pricing}
use agentic_governance.Audit.Event.{audit_event, sanitized_event}
use agentic_governance.Routing.{Routing, Outside}
use agentic_governance.Routing.Models.{RoutingPolicy, Strategy, model_post_init}
use agentic_governance.Routing.Suggest.{
  suggest, suggest_impl, apply_cost_aware, route_down, first_allowed, constrain, suggestion_event,
}
use agentic_governance.Routing.Advice.{IsLoggable, suggest-mid_model}
use agentic_governance.Tests.Toy.{toy, toy_json, toy_env, toy_log, toy_config, toy_call}
use agentic_governance.Tests.Cents.{cents, spent, x}

abbrev two_tiers : RoutingPolicy cents
two_tiers = record {
  agent_id = "billing";
  strategy = Strategy.cost_aware;
  cheap_model = some "claude-haiku-4-5";
  mid_model = some "claude-sonnet-4-6";
  expensive_model = none;
  min_session_usd_for_expensive = some (some 100);
  min_daily_usd_for_expensive = none;
  model_rules = [];
}

abbrev routing : Routing toy toy_json cents (Memory cents)
routing = record {
  policies = ("billing", two_tiers) ∷ [];
  cost = spent;
  scope = none;
  log = toy_log;
  pending_tasks = [];
  pending_upsert_policies = [];
}

abbrev outside : Outside toy toy_json cents (Memory cents)
outside = record {
  config = toy_config;
  call_at = λ n. toy_call "routing" 20;
  cost_context = x;
  policy_metadata = λ p. 1;
  suggestion_metadata = λ s. 2;
  failed_metadata = λ requested e. 3;
  env = toy_env;
}

two_tiers_valid : model_post_init cents two_tiers ≡ ok tt
unfolding model_post_init
two_tiers_valid = refl

-- The suggestion is the dearer model.
dearer :
    (suggest toy toy_json cents
      (Memory cents)
      outside
      "billing"
      1
      "claude-haiku-4-5"
      1000
      routing).0
    ≡ ok "claude-sonnet-4-6"
unfolding suggest suggest_impl apply_cost_aware route_down first_allowed constrain get snapshot run
    track_memory put session_usage_of daily_usage_of utc_day_start estimate_cost resolve_pricing
    audit_event
dearer = refl

loggable :
    IsLoggable toy toy_json cents
      (Memory cents)
      outside
      "billing"
      1
      "claude-haiku-4-5"
      1000
      "claude-sonnet-4-6"
unfolding audit_event
loggable g requested selected = (
  sanitized_event toy_env
      (suggestion_event toy toy_json cents (Memory cents) outside "billing" 1 "claude-haiku-4-5" g),
  rw selected refl,
)

suggest-mid_model_example :
    (suggest toy toy_json cents
      (Memory cents)
      outside
      "billing"
      1
      "claude-haiku-4-5"
      1000
      routing).0
    ≡ ok "claude-sonnet-4-6"
unfolding get snapshot run track_memory put session_usage_of daily_usage_of utc_day_start
suggest-mid_model_example =
    suggest-mid_model toy toy_json cents (Memory cents) outside "billing" 1 "claude-haiku-4-5" 1000
      routing two_tiers "claude-sonnet-4-6" (some 100) (some 45) refl refl refl refl refl
      (λ h. ground (arith, ap (λ m. m == "claude-haiku-4-5") h)) refl refl refl refl loggable
