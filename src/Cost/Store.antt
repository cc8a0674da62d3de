-- ===== src/Cost/Store.antt =====
-- cost/store.py: the operations of `CostStore`, and `InMemoryCostStore`. A lock makes each method one
-- step; a moment is its count of microseconds since a UTC midnight.
pub mod Ledger
pub mod Daily
use agentic_governance.Prelude.{
  ℕ, ◌+◌, ◌*◌, ◌/◌, String, Bool, true, false, Option, none, some, List, [], ◌∷◌, string_eq, nat_eq,
  pair_eq, ◌==◌, ltb, leb, not, ◌&&◌, if◌then◌else◌,
}
use agentic_governance.Prelude.Dict.{Dict, get, get_or, put, has}
use agentic_governance.Errors.{None, Result, ok, err}
use agentic_governance.Exec.{Exec}
use agentic_governance.Cost.Numbers.{Floats}

-- What the module asks of a store of state `S`: the last two fields are the methods that only some
-- stores have (`hasattr`).
pub record CostStore (F S : Type 0) : Type 0 where
  pub track :
      (now : ℕ)
      → (agent_id : String) → (session_id : ℕ) → (tokens : ℕ) → (usd : F) → (model : Option String)
      → Exec S None
  pub get_session_usage : (agent_id : String) → (session_id : ℕ) → S → Result (F × ℕ)
  pub get_agent_daily_usage : (now : ℕ) → (agent_id : String) → S → Result (F × ℕ)
  pub get_session_start_time : (agent_id : String) → (session_id : ℕ) → S → Result (Option ℕ)
  pub get_model_breakdown : (now : ℕ) → (agent_id : String) → S → Result (Dict String (F × F))
  pub get_session_and_daily_usage :
      Option ((now : ℕ) → (agent_id : String) → (session_id : ℕ) → S → Result ((F × ℕ) × (F × ℕ)))
  pub get_session_elapsed_seconds :
      Option ((now : ℕ) → (agent_id : String) → (session_id : ℕ) → S → Result (Option ℕ))

abbrev pub day_length : ℕ
day_length = 86400000000

-- now.replace(hour=0, minute=0, second=0, microsecond=0)
unfoldable pub utc_day_start : ℕ → ℕ
utc_day_start now = (now / day_length) * day_length

module _ (fl : Floats) where
  -- (usd, tokens), and (usd, tokens, day)
  abbrev pub Usage : Type 0
  Usage = fl.Float × ℕ

  abbrev pub Daily : Type 0
  Daily = fl.Float × ℕ × ℕ

  pub record Memory : Type 0 where
    pub session_usage : Dict (String × ℕ) Usage
    pub session_started : Dict (String × ℕ) ℕ
    pub agent_daily : Dict String Daily
    pub model_usage : Dict (String × String) Daily

  abbrev pub empty : Memory
  empty = record { session_usage = []; session_started = []; agent_daily = []; model_usage = [] }

  abbrev pub add_usage : (usd : fl.Float) → (tokens : ℕ) → Usage → Usage
  add_usage usd tokens (u, t) = (fl.add u usd, t + tokens)

  -- What the counters of an earlier day become: `if d_day < day: ...`
  abbrev pub roll : (day : ℕ) → Daily → Daily
  roll day (u, t, d) = if ltb d day then (fl.zero_usd, 0, day) else (u, t, d)

  abbrev pub add_daily : (usd : fl.Float) → (tokens : ℕ) → Daily → Daily
  add_daily usd tokens (u, t, d) = (fl.add u usd, t + tokens, d)

  abbrev pub track_model :
      (day : ℕ)
      → String
      → (tokens : ℕ) → (usd : fl.Float) → Option String
      → Dict (String × String) Daily
      → Dict (String × String) Daily
  track_model day agent_id tokens usd none d = d
  track_model day agent_id tokens usd (some model) d =
      put d (agent_id, model)
        (add_daily usd tokens (roll day (get_or d (agent_id, model) (fl.zero_usd, 0, day))))

  unfoldable pub track_memory :
      (now : ℕ)
      → String
      → (session_id : ℕ) → (tokens : ℕ) → (usd : fl.Float) → Option String
      → Memory
      → Memory
  track_memory now agent_id session_id tokens usd model s =
      let key : String × ℕ = (agent_id, session_id) in
      let day = utc_day_start now in
      record {
        session_started =
            if has s.session_started key then s.session_started else put s.session_started key now;
        session_usage =
            put s.session_usage key
              (add_usage usd tokens (get_or s.session_usage key (fl.zero_usd, 0)));
        agent_daily =
            put s.agent_daily agent_id (
              add_daily usd tokens
                (roll day (get_or s.agent_daily agent_id (fl.zero_usd, 0, day))));
        model_usage = track_model day agent_id tokens usd model s.model_usage;
      }

  unfoldable pub session_usage_of : String → (session_id : ℕ) → Memory → Usage
  session_usage_of agent_id session_id s =
      get_or s.session_usage (agent_id, session_id) (fl.zero_usd, 0)

  abbrev pub today : (day : ℕ) → Daily → Usage
  today day (u, t, d) = if ltb d day then (fl.zero_usd, 0) else (u, t)

  unfoldable pub daily_usage_of : (now : ℕ) → String → Memory → Usage
  daily_usage_of now agent_id s =
      let day = utc_day_start now in today day (get_or s.agent_daily agent_id (fl.zero_usd, 0, day))

  -- The loop of `get_model_breakdown`, with `result` so far.
  unfoldable pub breakdown :
      (day : ℕ)
      → String
      → Dict String (fl.Float × fl.Float)
      → Dict (String × String) Daily
      → Dict String (fl.Float × fl.Float)
  breakdown day agent_id result [] = result
  breakdown day agent_id result (((aid, model), (u, t, d)) ∷ rest) =
      let next =
        if (aid == agent_id) && leb day d then put result model (u, fl.of_nat t) else result in
      breakdown day agent_id next rest

  abbrev pub memory_store : CostStore fl.Float Memory
  memory_store = record {
    track = λ now agent_id session_id tokens usd model s.
        (ok tt, track_memory now agent_id session_id tokens usd model s);
    get_session_usage = λ agent_id session_id s. ok (session_usage_of agent_id session_id s);
    get_agent_daily_usage = λ now agent_id s. ok (daily_usage_of now agent_id s);
    get_session_start_time =
        λ agent_id session_id s. ok (get s.session_started (agent_id, session_id));
    get_model_breakdown =
        λ now agent_id s. ok (breakdown (utc_day_start now) agent_id [] s.model_usage);
    get_session_and_daily_usage = none;
    get_session_elapsed_seconds = none;
  }
