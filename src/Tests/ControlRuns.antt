-- ===== src/Tests/ControlRuns.antt =====
-- The halt switch, the scope checks and the approval store on small inputs.
use agentic_governance.Prelude.{
  ℕ, ◌≡◌, ◌↔◌, refl, true, Option, none, some, List, [], ◌∷◌, String, arith, is_some, ◌||◌,
  string_eq,
}
use agentic_governance.Prelude.Dict.{get}
use agentic_governance.Errors.{
  ok, err, agent_halted, approval_token, already_used, unknown_request_id,
}
use agentic_governance.Presence.{
  Presence, memory, failed, AgentCall, halt_memory, assert_not_halted, run, step, heartbeat,
  heartbeat_memory, mark_idle, close_agent,
}
use agentic_governance.Presence.Clearance.{Cleared}
use agentic_governance.Presence.Enforcement.{halt_is_enforced, IsExpired}
use agentic_governance.Scope.{Scope, Context, check}
use agentic_governance.Scope.Patterns.{api_matches, api_matches_iff, SomeOf, Allows}
use agentic_governance.Scope.Policy.{ScopePolicy}
use agentic_governance.Scope.Decisions.{Permitted}
use agentic_governance.Scope.Enforcement.{check_ok_iff}
use agentic_governance.Gates as G
use agentic_governance.Gates.{
  ApprovalRequest, GatesStore, granted, denied, StoreCall, resolve, get_resolution,
  has_granted_approval, empty, insert_pending,
}
use agentic_governance.Gates.SingleUse.{single_use}
use agentic_governance.Tests.Toy.{toy_json, toy, toy_config, toy_call}
use agentic_governance.Audit.Store.{OnFull, init}

abbrev nobody : Presence toy_json
nobody = record { agents = []; halted_cache = []; halted_cache_at = 0 }

-- The halted agent tries to clear its halt: it closes itself and beats again.
abbrev attempts : List (AgentCall toy_json)
attempts =
    AgentCall.close_call "billing"
    ∷ AgentCall.heartbeat_call 20 "billing" (some 3) none
    ∷ AgentCall.mark_idle_call "billing"
    ∷ []

abbrev halted_then : Presence toy_json
halted_then = run toy_json attempts (halt_memory toy_json 10 10 "billing" "operator" none nobody)

halted_then-IsExpired : IsExpired toy_json 6000000 6000001 halted_then
unfolding run step halt_memory heartbeat heartbeat_memory mark_idle close_agent get
halted_then-IsExpired = (ground arith, ground arith)

halt_is_enforced_example :
    (assert_not_halted toy_json 6000000 6000001 memory "billing" halted_then).0
    ≡ err (agent_halted "billing" "operator" (some 10) none)
halt_is_enforced_example =
    halt_is_enforced toy_json nobody 10 10 "billing" "operator" none attempts 6000000 6000001 tt
      halted_then-IsExpired

abbrev pub known_halt : Presence toy_json
known_halt = record {
  agents = [];
  halted_cache =
      ("billing", record { halted_by = "operator"; halted_at = some 10; reason = none }) ∷ [];
  halted_cache_at = 0;
}

abbrev in_outage : List (AgentCall toy_json)
in_outage =
    AgentCall.assert_call 6000000 6000001 failed "billing"
    ∷ AgentCall.force_refresh_call 7000000 7000001 failed
    ∷ []

abbrev pattern : List String
pattern = "GET https://api.example.com/*" ∷ []

api_matches_iff_example :
    (api_matches "GET https://api.example.com/v1" pattern ≡ true)
    ↔ SomeOf (Allows "GET https://api.example.com/v1") pattern
api_matches_iff_example = api_matches_iff "GET https://api.example.com/v1" pattern

abbrev billing_policy : ScopePolicy
billing_policy = record {
  agent_id = "billing";
  allowed_tools = "read_invoice" ∷ "delete_invoice" ∷ [];
  allowed_apis = pattern;
  hidden_tools = "delete_invoice" ∷ [];
  allowed_models = [];
}

abbrev pub scope_of : Option (Presence toy_json) → Scope toy toy_json
scope_of presence = record {
  policies = ("billing", billing_policy) ∷ [];
  presence = presence;
  log = record {
    primary = init toy 100 OnFull.refuse;
    fallback = init toy 1 OnFull.evict;
    degraded_starts = [];
  };
}

abbrev pub context : Context toy toy_json
context = record {
  config = toy_config;
  call = toy_call "scope" 10;
  now = 6000000;
  locked = 6000001;
  source = memory;
  violation_metadata = λ tool api reason. 1;
}

check_ok_iff_example :
    ((check toy toy_json context "billing"
        (some "read_invoice")
        none
        (scope_of (some known_halt))).0
      ≡ ok tt)
    ↔ (Cleared toy_json context.now context.locked context.source "billing" (some known_halt)
        × ((is_some {A = String} (some "read_invoice") || is_some {A = String} none) ≡ true)
        × Permitted "billing" (some "read_invoice") none (scope_of none).policies)
check_ok_iff_example =
    check_ok_iff toy toy_json context "billing" (some "read_invoice") none
      (scope_of (some known_halt)) tt

not-Permitted : Permitted "mailer" (some "send_email") none (scope_of none).policies → ⊥
unfolding get
not-Permitted (policy, found, _, _) = ground arith

policy_found : get (scope_of none).policies "billing" ≡ some billing_policy
unfolding get
policy_found = refl

abbrev request : ApprovalRequest ℕ
request = record {
  request_id = 3;
  agent_id = "billing";
  kind = "refund";
  action_hash = "a1";
  expires_at = 500;
  payload = 0;
  token = "t";
}

abbrev asked : GatesStore ℕ × ℕ
asked = (record { pending = (3, request) ∷ []; resolutions = []; resolved_requests = [] }, 0)

resolve-asked : (resolve ℕ ℕ 3 granted none asked).0 ≡ ok request
unfolding resolve get
resolve-asked = refl

single_use_example :
    (get_resolution ℕ 3
        (G.run ℕ ℕ (StoreCall.insert_call request ∷ []) (resolve ℕ ℕ 3 granted none asked).1).0
      ≡ some granted)
    × (resolve ℕ ℕ 3 denied none
          (G.run ℕ ℕ (StoreCall.insert_call request ∷ []) (resolve ℕ ℕ 3 granted none asked).1)
        ≡ (
          err (approval_token already_used),
          G.run ℕ ℕ (StoreCall.insert_call request ∷ []) (resolve ℕ ℕ 3 granted none asked).1,
        ))
single_use_example =
    single_use ℕ ℕ 3 granted none asked request (StoreCall.insert_call request ∷ []) denied none
      resolve-asked

resolve_unknown : (resolve ℕ ℕ 4 granted none asked).0 ≡ err (approval_token unknown_request_id)
unfolding resolve get
resolve_unknown = refl
