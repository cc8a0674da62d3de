-- ===== src/Tests/CostRuns.antt =====
-- The cost module on small inputs.
use agentic_governance.Prelude.{
  if◌then◌else◌, ◌==◌, ℕ, ◌+◌, ◌≤◌, ◌≡◌, ◌↔◌, ◌⊎◌, refl, true, false, Option, none, some, List, [],
  ◌∷◌, arith, nat_beq, max, string_eq,
}
use agentic_governance.Prelude.Dict.{get}
use agentic_governance.Errors.{ok, err, runtime_error, per_session_usd}
use agentic_governance.Presence.Clearance.{Cleared}
use agentic_governance.Cost.{Cost, Context}
use agentic_governance.Cost.Numbers.{pos, negsuc}
use agentic_governance.Cost.Store.{Memory, empty, session_usage_of, daily_usage_of, utc_day_start}
use agentic_governance.Cost.Store.Ledger.{run, total, in_session, on_day}
use agentic_governance.Cost.Store.Daily.{store_keeps_ledger}
use agentic_governance.Cost.Policy.{usd_breach}
use agentic_governance.Exec.{Exec}
use agentic_governance.Cost.Delivery.{Address, Urls}
use agentic_governance.Cost.Pricing.{Price, model_pricing, keys, resolve_pricing}
use agentic_governance.Cost.Pricing.Lookup.{IsLongestPrefix, resolve_pricing-IsLongestPrefix}
use agentic_governance.Cost.Check.{read_usage, check_or_raise}
use agentic_governance.Cost.Check.Budgets.{Affordable}
use agentic_governance.Cost.Check.Enforcement.{check_or_raise_iff}
use agentic_governance.Cost.Track.{
  Operation, track_call, reconcile_call, track_usage_call, call, track,
}
use agentic_governance.Cost.Track.Counters.{usage_in, apply_all, on_memory, counters_never_fall}
use agentic_governance.Cost.Track.Reconcile.{reconcile_settles}
use agentic_governance.Cost.Track.Nan.{nan_lifts_cap}
use agentic_governance.Cost.Track.Alarm.{IsSentOnce, call-IsSentOnce}
use agentic_governance.Tests.Toy.{toy_json, toy}
use agentic_governance.Tests.ControlRuns.{known_halt}
use agentic_governance.Tests.Cents.{
  cents, cents-IsStrict, none-IsNan, three_calls, policy, context, x, unreachable, spent,
}

store_keeps_ledger_example :
    (session_usage_of cents "billing" 1 (run cents three_calls (empty cents))
      ≡ total cents (in_session cents "billing" 1) (some 0, 0) three_calls)
    × (daily_usage_of cents 86400000002 "billing" (run cents three_calls (empty cents))
        ≡ total cents (on_day cents "billing" (utc_day_start 86400000002)) (some 0, 0) three_calls)
store_keeps_ledger_example =
    store_keeps_ledger cents three_calls 86400000002 "billing" 1
      (omega arith, (omega arith, (omega arith, omega arith)))

-- The same store, with a halt in the cache.
abbrev guarded : Cost toy toy_json cents (Memory cents)
guarded = record spent { presence = some known_halt }

check_or_raise_iff_example :
    ((check_or_raise toy toy_json cents (Memory cents) x "billing" 1 (some 21) guarded).0 ≡ ok tt)
    ↔ (Cleared toy_json x.halt_now x.halt_locked x.halt_source "billing" (some known_halt)
        × Affordable toy toy_json cents
            (Memory cents)
            x
            "billing"
            1
            (some 21)
            (get spent.policies "billing")
            spent.store)
check_or_raise_iff_example =
    check_or_raise_iff toy toy_json cents (Memory cents) x "billing" 1 (some 21) guarded tt

policy_found : get spent.policies "billing" ≡ some policy
unfolding get
policy_found = refl

read_fails :
    read_usage toy toy_json cents (Memory cents) (context unreachable) "billing" 1 spent.store
    ≡ err runtime_error
unfolding read_usage
read_fails = refl

abbrev calls : List (Context toy toy_json cents (Memory cents) × Operation (Option ℕ))
calls =
    (x, track_call "billing" 1 (pos 50) (some 8) none)
    ∷ (x, reconcile_call "billing" 1 50 20 (some 8) (some 3) none)
    ∷ (x, track_call "billing" 1 (negsuc 4) (some 1) none)
    ∷ (x, track_usage_call "billing" 1 "no-such-model" 5 5)
    ∷ []

counters_never_fall_example :
    (usage_in toy toy_json cents "billing" 1 spent).1
    ≤ (usage_in toy toy_json cents "billing" 1 (apply_all toy toy_json cents calls spent)).1
counters_never_fall_example = counters_never_fall toy toy_json cents calls spent "billing" 1

reconcile_settles_example :
    (usage_in toy toy_json cents "billing" 1 (
      apply_all toy toy_json cents
        ((x, track_call "billing" 1 (pos 50) (some 8) none)
          ∷ (x, reconcile_call "billing" 1 50 70 (some 8) (some 9) none)
          ∷ [])
        spent)).1
    ≡ (usage_in toy toy_json cents "billing" 1 spent).1 + max 50 70
reconcile_settles_example =
    reconcile_settles toy toy_json cents x x "billing" 1 50 70 (some 8) (some 9) none spent
      cents-IsStrict refl

nan_lifts_cap_example :
    usd_breach cents per_session_usd
      (some (some 50))
      (session_usage_of cents "billing" 1 (
        run cents three_calls
          (track toy toy_json cents
            (Memory cents)
            (on_memory toy toy_json cents x)
            "billing"
            1
            (pos 1)
            none
            none
            spent).1.store)).0
    ≡ none
nan_lifts_cap_example =
    nan_lifts_cap toy toy_json cents x none (some 50) "billing" 1 1 none spent three_calls
      none-IsNan

call-IsSentOnce_example :
    IsSentOnce toy toy_json cents
      (Memory cents)
      (call toy toy_json cents
        (Memory cents)
        x
        (track_call "billing" 1 (pos 50) (some 8) none)
        spent).1
call-IsSentOnce_example =
    call-IsSentOnce toy toy_json cents (Memory cents) x
      (track_call "billing" 1 (pos 50) (some 8) none) spent (tt, λ k h. refl)

resolve_pricing-IsLongestPrefix_example :
    ((p : Price) × (get model_pricing "gpt-4o-2024-08-06" ≡ some p)
      × (resolve_pricing model_pricing "gpt-4o-2024-08-06" ≡ some p))
    ⊎ ((get model_pricing "gpt-4o-2024-08-06" ≡ none)
        × IsLongestPrefix model_pricing "gpt-4o-2024-08-06"
            (keys model_pricing)
            (resolve_pricing model_pricing "gpt-4o-2024-08-06"))
resolve_pricing-IsLongestPrefix_example =
    resolve_pricing-IsLongestPrefix model_pricing "gpt-4o-2024-08-06"

abbrev loopback : Address
loopback = record {
  is_private = true;
  is_loopback = true;
  is_link_local = false;
  is_multicast = false;
  is_reserved = false;
  is_unspecified = false;
}

-- The only name that is read as an address is the loopback.
abbrev urls : Urls
urls = record {
  scheme = λ url. "https";
  host = λ url. url;
  ip_address = λ host. if host == "127.0.0.1" then some loopback else none;
}

-- The server counts its requests, and answers 503 to the first one.
abbrev post : Exec ℕ ℕ
post served = (ok (if nat_beq served 0 then 503 else 200), served + 1)
