-- ===== src/Tests/LoopRuns.antt =====
-- Loop detection and the store's cap on small inputs.
use agentic_governance.Prelude.{
  ◌≡◌, ◌↔◌, ◌<◌, ◌≤◌, length, nat_eq, string_eq, pair_eq, none, List, [], ◌∷◌, ◌++◌, arith,
}
use agentic_governance.Prelude.Dict.{get, get_or, get-empty}
use agentic_governance.Errors.{err, ok, loop_detected}
use agentic_governance.Audit.Store.{Store, OnFull, init, insert_with_chain_lock, write_batch}
use agentic_governance.Audit.Store.Bounds.{IsBounded, cap_holds}
use agentic_governance.Audit.Log.{build_record}
use agentic_governance.Loop.{Loop, LoopContext, LoopPolicy, Action, Entry, record_call_memory}
use agentic_governance.Loop.Window.{Tracks, times_in_window, record_call_memory_lem}
use agentic_governance.Tests.Toy.{toy, toy_config, toy_call}

abbrev small : Store toy
small = init toy 1 OnFull.evict

cap_holds_example :
    let inserted =
      (insert_with_chain_lock toy 1
        (λ p. ok (build_record toy toy_config (toy_call "a" 10) p))
        small).1 in
    let written =
      (write_batch toy (build_record toy toy_config (toy_call "b" 20) none ∷ []) small).1 in
    (IsBounded toy inserted × (length inserted.events ≤ inserted.max_events))
    × (IsBounded toy written × (length written.events ≤ written.max_events))
cap_holds_example =
    cap_holds toy small 1 (build_record toy toy_config (toy_call "a" 10))
      (build_record toy toy_config (toy_call "b" 20) none ∷ [])
      (ground arith, ground arith, (tt, λ k out. get-empty k))

abbrev strict : LoopPolicy
strict = record {
  agent_id = "billing";
  window_seconds = 60;
  max_calls = 2;
  action = Action.raise_error;
}

abbrev loop_context : LoopContext toy
loop_context = record {
  config = toy_config;
  call = toy_call "loop" 10;
  lower = λ s. s;
  detection_metadata = λ tool_name times policy. 3;
}

-- Two calls in the window, and one of an hour ago in the history alone.
abbrev kept_calls : List Entry
kept_calls = ("read", 3600000001) ∷ ("read", 3600000002) ∷ []

abbrev all_calls : List Entry
all_calls = ("read", 0) ∷ kept_calls

abbrev busy : Loop toy
busy = record {
  policies = [];
  calls = (("billing", 1), kept_calls) ∷ [];
  log = record {
    primary = init toy 100 OnFull.refuse;
    fallback = init toy 1 OnFull.evict;
    degraded_starts = [];
  };
}

busy-Tracks : Tracks 60 3600000002 (get_or busy.calls ("billing", 1) []) all_calls
unfolding get
busy-Tracks tool_name later h = ground arith

record_call_memory_lem_example :
    (((record_call_memory toy loop_context "billing" 1 "read" strict 3600000003 busy).0
        ≡ err (loop_detected "read" (times_in_window "read" 3600000003 60 all_calls)))
      ↔ ((2 < times_in_window "read" 3600000003 60 all_calls)
          × (Action.raise_error ≡ Action.raise_error)))
    × Tracks 60 3600000003
        (get_or
          (record_call_memory toy loop_context "billing" 1 "read" strict 3600000003 busy).1.calls
          ("billing", 1)
          [])
        (all_calls ++ ("read", 3600000003) ∷ [])
record_call_memory_lem_example =
    record_call_memory_lem toy loop_context "billing" 1 "read" strict 3600000002 3600000003 busy
      all_calls (omega arith) busy-Tracks
