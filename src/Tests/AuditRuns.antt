-- ===== src/Tests/AuditRuns.antt =====
-- The audit chain on a session of two events.
use agentic_governance.Prelude.{
  ℕ, ◌≡◌, ◌↔◌, ◌≤◌, String, refl, true, none, some, List, [], ◌∷◌, map, arith, inl, length,
}
use agentic_governance.Prelude.Dict.{get, put, remove}
use agentic_governance.Errors.{ok}
use agentic_governance.Audit.Chain.{Record, payload}
use agentic_governance.Audit.Chain.Verify.{verify_chain_records, trace_session_chain}
use agentic_governance.Audit.Chain.Spec.{verify_chain_records_iff, IsChain}
use agentic_governance.Audit.Chain.Commitment.{head_commits}
use agentic_governance.Audit.Chain.Forks.{trace_session_chain_iff}
use agentic_governance.Audit.Store.{
  OnFull, init, get_session_events, verify_not_truncated, insert_with_chain_lock,
  enforce_cap_before_append, evict_oldest, drop_event, append, last_hash,
}
use agentic_governance.Audit.Log.{
  Call, Log, log, build_record, build_marker, log_unsafe, log_primary, log_event, log_fallback,
}
use agentic_governance.Audit.Log.Chains.{Run, IsFresh, log_chains_verify}
use agentic_governance.Tests.Toy.{toy, toy-IsCollisionFree, toy_config, toy_call}

abbrev first : Record toy
first = build_record toy toy_config (toy_call "task.started" 10) none

abbrev second : Record toy
second = build_record toy toy_config (toy_call "task.done" 20) (some first.hmac)

abbrev two : List (Record toy)
two = first ∷ second ∷ []

two-IsChain : IsChain toy 7 none two
unfolding build_record
two-IsChain = (refl, refl, (refl, refl, tt))

two_verifies : verify_chain_records toy 7 two ≡ ok true
two_verifies = (verify_chain_records_iff toy 7 two).1 two-IsChain

verify_chain_records_iff_example :
    (verify_chain_records toy 7 two ≡ ok true) ↔ IsChain toy 7 none two
verify_chain_records_iff_example = verify_chain_records_iff toy 7 two

head_commits_example : map (payload toy) two ≡ map (payload toy) two
head_commits_example = head_commits toy toy-IsCollisionFree 7 two two two_verifies two_verifies refl

trace_session_chain_iff_example :
    (trace_session_chain toy 7 two ≡ ok two) ↔ (verify_chain_records toy 7 two ≡ ok true)
trace_session_chain_iff_example = trace_session_chain_iff toy toy-IsCollisionFree 7 two

one_to_one : (i j : ℕ) → some 1 ≡ some i → some 1 ≡ some j → i ≤ j
one_to_one i j h g = ground arith

abbrev empty_log : Log toy
empty_log = record {
  primary = init toy 100 OnFull.refuse;
  fallback = init toy 1 OnFull.evict;
  degraded_starts = [];
}

empty_log-IsFresh : IsFresh toy toy_config empty_log.primary 10 11
unfolding get
empty_log-IsFresh = record {
  event_absent = refl;
  marker_absent = refl;
  distinct = λ h. ground arith;
}

fallback-IsFresh : IsFresh toy toy_config empty_log.fallback 12 13
unfolding get
fallback-IsFresh = record {
  event_absent = refl;
  marker_absent = refl;
  distinct = λ h. ground arith;
}

-- The primary is out for the first event of the session, and takes the second one, after a marker.
abbrev lost_call : Call toy
lost_call = record (toy_call "task.started" 10) { event_outage = true }

abbrev after_outage : Log toy
after_outage = (log toy toy_config lost_call empty_log).1

abbrev after : Log toy
after = (log toy toy_config (toy_call "task.done" 20) after_outage).1

recovered-IsFresh : IsFresh toy toy_config after_outage.primary 20 21
unfolding log log_unsafe log_primary log_event log_fallback insert_with_chain_lock get
recovered-IsFresh = record {
  event_absent = refl;
  marker_absent = refl;
  distinct = λ h. ground arith;
}

recovered_fallback-IsFresh : IsFresh toy toy_config after_outage.fallback 22 23
unfolding log log_unsafe log_primary log_event log_fallback insert_with_chain_lock
    enforce_cap_before_append evict_oldest drop_event append last_hash get put remove build_record
    build_marker
recovered_fallback-IsFresh = record {
  event_absent = refl;
  marker_absent = refl;
  distinct = λ h. ground arith;
}

after-Run : Run toy toy_config after
after-Run =
    Run.logged (toy_call "task.done" 20)
      (Run.logged lost_call (Run.start 100 1 OnFull.refuse OnFull.evict) empty_log-IsFresh
        fallback-IsFresh)
      recovered-IsFresh recovered_fallback-IsFresh

-- The marker and the event.
recovered_two : length after.primary.events ≡ 2
unfolding log log_unsafe log_primary log_event log_fallback insert_with_chain_lock
    enforce_cap_before_append append last_hash get put build_record build_marker
recovered_two = refl

after_whole : verify_not_truncated toy after.primary ≡ ok true
unfolding log log_unsafe log_primary log_event log_fallback insert_with_chain_lock
    enforce_cap_before_append append last_hash verify_not_truncated get put build_record
    build_marker
after_whole = refl

log_chains_verify_example :
    verify_chain_records toy 7 (get_session_events toy after.primary 1) ≡ ok true
log_chains_verify_example =
    log_chains_verify toy toy_config after after.primary 1 after-Run (inl refl) after_whole

abbrev correction : String
correction = "audit.correction"
