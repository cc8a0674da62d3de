-- ===== src/Tests/Cents.antt =====
-- Toy floats, as amounts of cents with a NaN, and a small state of the cost module.
use agentic_governance.Prelude.{
  ℕ, ◌+◌, ◌-◌, ◌*◌, ◌/◌, ◌≡◌, refl, Bool, true, false, Option, none, some, List, [], ◌∷◌, arith,
  ltb, leb, nat_beq, string_eq,
}
use agentic_governance.Errors.{err, runtime_error}
use agentic_governance.Presence.{memory}
use agentic_governance.Cost.{Cost, Context}
use agentic_governance.Cost.Numbers.{Floats, IsStrict, IsNan}
use agentic_governance.Cost.Store.{CostStore, Memory, empty, memory_store}
use agentic_governance.Cost.Store.Ledger.{Tracked, run}
use agentic_governance.Cost.Policy.{BudgetPolicy}
use agentic_governance.Tests.Toy.{toy_json, toy_log, toy, toy_config, toy_call}

abbrev pub lift : (ℕ → ℕ → ℕ) → Option ℕ → Option ℕ → Option ℕ
lift f (some a) (some b) = some (f a b)
lift f _ _ = none

abbrev pub compare_with : (ℕ → ℕ → Bool) → Option ℕ → Option ℕ → Bool
compare_with p (some a) (some b) = p a b
compare_with p _ _ = false

abbrev pub cents : Floats
cents = record {
  Float = Option ℕ;
  zero_usd = some 0;
  add = lift (λ a b. a + b);
  sub = lift (λ a b. a - b);
  mul = lift (λ a b. a * b);
  lt = compare_with ltb;
  le = compare_with leb;
  eq = compare_with nat_beq;
  of_nat = λ n. some n;
  div = λ a n. lift (λ x y. x / y) a (some n);
  mills = λ n. some n;
}

cents_irrefl : (a : Option ℕ) → cents.lt a a ≡ false
cents_irrefl none = refl
cents_irrefl (some a) = ground arith

cents_asym : (a b : Option ℕ) → cents.lt a b ≡ true → cents.lt b a ≡ false
cents_asym none none h = refl
cents_asym none (some b) h = refl
cents_asym (some a) none h = refl
cents_asym (some a) (some b) h = ground arith

pub cents-IsStrict : IsStrict cents
cents-IsStrict = record { lt_irrefl = cents_irrefl; lt_asym = cents_asym }

add_none : (a : Option ℕ) → cents.add a none ≡ none
add_none none = refl
add_none (some a) = refl

lt_none : (a : Option ℕ) → cents.lt a none ≡ false
lt_none none = refl
lt_none (some a) = refl

pub none-IsNan : IsNan cents none
none-IsNan = record {
  add_nan = add_none;
  nan_add = λ a. refl;
  nan_lt = λ a. refl;
  lt_nan = lt_none;
}

abbrev pub tracked : (now tokens usd : ℕ) → Tracked (Option ℕ)
tracked now tokens usd = record {
  now = now;
  agent_id = "billing";
  session_id = 1;
  tokens = tokens;
  usd = some usd;
  model = some "gpt-4o";
}

-- Two calls before midnight, and one after it.
abbrev pub three_calls : List (Tracked (Option ℕ))
three_calls = tracked 10 100 5 ∷ tracked 20 50 2 ∷ tracked 86400000001 30 1 ∷ []

abbrev pub policy : BudgetPolicy cents
policy = record {
  agent_id = "billing";
  session_usd_cap = some (some 50);
  session_tokens_cap = some 120;
  daily_usd_cap = some (some 10);
  daily_tokens_cap = none;
  session_seconds_cap = some 600;
  alert_webhook_url = some "https://hooks.example.com/budget";
  alert_webhook_secret = some "secret";
  alert_threshold_pct = 100;
}

abbrev pub cost : Memory cents → Cost toy toy_json cents (Memory cents)
cost store = record {
  policies = ("billing", policy) ∷ [];
  no_policy_warned = [];
  store = store;
  presence = none;
  log = toy_log;
  alert_dedup = [];
  sent = [];
}

abbrev pub context : CostStore (Option ℕ) (Memory cents) → Context toy toy_json cents (Memory cents)
context ops = record {
  ops = ops;
  fail_open = false;
  strict_unknown_models = true;
  unknown_model_fallback = none;
  config = toy_config;
  call = toy_call "budget" 10;
  now = 30;
  tracked_at = 30;
  read_at = 31;
  alert_at = 32;
  halt_now = 6000000;
  halt_locked = 6000001;
  halt_source = memory;
  webhooks_enabled = true;
  exceeded_metadata = λ k used limit. 1;
  failed_metadata = λ e fail_open. 2;
}

abbrev pub x : Context toy toy_json cents (Memory cents)
x = context (memory_store cents)

-- The store when the database cannot be reached.
abbrev pub unreachable : CostStore (Option ℕ) (Memory cents)
unreachable = record (memory_store cents) {
  get_session_usage = λ agent_id session_id s. err runtime_error;
}

abbrev pub spent : Cost toy toy_json cents (Memory cents)
spent = cost (run cents (tracked 10 100 5 ∷ []) (empty cents))
