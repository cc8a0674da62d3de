-- ===== src/Tests/GateRuns.antt =====
-- The gates module on small inputs.
use agentic_governance.Prelude.{ℕ, ◌≡◌, refl, true, none, some, List, [], ◌∷◌, arith, inl, inr}
use agentic_governance.Prelude.Dict.{get}
use agentic_governance.Errors.{ok, err, runtime_error, approval_denied}
use agentic_governance.Audit.Log.{Log}
use agentic_governance.Presence.{memory}
use agentic_governance.Gates.{
  ApprovalRequest, GatesStore, granted, denied, StoreCall, get_resolution, empty,
}
use agentic_governance.Gates.Approvals.{Context, Approvals, memory_backend, new_request}
use agentic_governance.Gates.Approvals.Waiting.{Tick, wait_for}
use agentic_governance.Gates.Approvals.Lifecycle.{on_memory}
use agentic_governance.Gates.Approvals.Verdicts.{HasEnded, wait_for_ends}
use agentic_governance.Gates.Approvals.Races.{others, local_verdict_stands, platform_overrules}
use agentic_governance.Gates.Approvals.Backoff.{Answered}
use agentic_governance.Tests.Toy.{toy_json, toy_log, toy, toy_config, toy_call}
use agentic_governance.Tests.TokenRuns.{unary}

-- Payloads are numbers, and all have the hash "a1".
abbrev context : (at : ℕ) → Context toy toy_json ℕ ℕ (GatesStore ℕ)
context at = record {
  ops = memory_backend ℕ (Log toy);
  env = unary;
  secret = 7;
  accept_v1_until = none;
  enable_v2_tokens = true;
  config = toy_config;
  call = toy_call "gates" at;
  halt_now = 6000000;
  halt_locked = 6000001;
  halt_source = memory;
  request_id = 3;
  hash_action_payload = λ payload. "a1";
  expires_at = 50;
  parsed_at = at;
  checked_at = at;
  requested_metadata = λ req. 1;
  resolved_metadata = λ req by_platform. 2;
}

abbrev idle : Approvals toy toy_json ℕ ℕ (GatesStore ℕ)
idle = record { presence = none; store = empty ℕ; log = toy_log }

abbrev deploy : ApprovalRequest ℕ
deploy = new_request toy toy_json ℕ ℕ (GatesStore ℕ) (context 10) "deploy" "billing" 9

abbrev waiting : Approvals toy toy_json ℕ ℕ (GatesStore ℕ)
waiting = record {
  presence = none;
  store = record { pending = (3, deploy) ∷ []; resolutions = []; resolved_requests = [] };
  log = toy_log;
}

abbrev denied_state : Approvals toy toy_json ℕ ℕ (GatesStore ℕ)
denied_state = record {
  presence = none;
  store = record { pending = []; resolutions = (3, denied) ∷ []; resolved_requests = [] };
  log = toy_log;
}

-- The platform fails in each turn.
abbrev tick : (at : ℕ) → Tick toy toy_json ℕ ℕ (GatesStore ℕ)
tick at = record {
  before = λ s. s;
  during = λ s. s;
  asked_at = at;
  answer = err runtime_error;
  scheduled_at = at;
  draw = 0;
  now = at;
}

wait_for_ends_example :
    HasEnded toy toy_json ℕ ℕ
      (GatesStore ℕ)
      (wait_for toy toy_json ℕ ℕ
        (GatesStore ℕ)
        (context 10)
        true
        3
        10
        5000000
        10
        (tick 10 ∷ tick 6000000 ∷ [])
        waiting).0
wait_for_ends_example =
    wait_for_ends toy toy_json ℕ ℕ (GatesStore ℕ) (context 10) true 3 10 5000000 10
      (tick 10 ∷ tick 6000000 ∷ []) waiting (inr (inl (omega arith)))

abbrev calls : List (StoreCall ℕ (Log toy))
calls = StoreCall.resolve_call 3 granted none ∷ StoreCall.insert_call deploy ∷ []

denied_there : get_resolution ℕ 3 denied_state.store ≡ some denied
unfolding get_resolution get
denied_there = refl

local_verdict_stands_example :
    wait_for toy toy_json ℕ ℕ
      (GatesStore ℕ)
      (on_memory toy toy_json ℕ ℕ (context 10))
      true
      3
      10
      5000000
      10
      (record (tick 10) { before = others toy toy_json ℕ ℕ calls } ∷ [])
      denied_state
    ≡ (some (err (approval_denied 3)), others toy toy_json ℕ ℕ calls denied_state)
local_verdict_stands_example =
    local_verdict_stands toy toy_json ℕ ℕ (context 10) true 3 10 5000000 10 (tick 10) [] calls
      denied_state denied denied_there

platform_overrules_example :
    let (r, after) =
      wait_for toy toy_json ℕ ℕ
        (GatesStore ℕ)
        (on_memory toy toy_json ℕ ℕ (context 10))
        true
        3
        10
        5000000
        10
        (record (tick 10) {
          before = λ u. u;
          during = others toy toy_json ℕ ℕ (StoreCall.resolve_call 3 denied none ∷ []);
          answer = ok (some granted);
        }
          ∷ [])
        waiting in
    (r ≡ some (ok true)) × (get_resolution ℕ 3 after.store ≡ some denied)
unfolding get
platform_overrules_example =
    platform_overrules toy toy_json ℕ ℕ (context 10) 3 10 5000000 10 (tick 10) [] waiting deploy
      refl refl (ground arith)

abbrev failure : (at : ℕ) → Answered
failure at = record { answer = err runtime_error; at = at; draw = 700000 }
