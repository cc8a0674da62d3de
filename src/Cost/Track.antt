-- ===== src/Cost/Track.antt =====
-- cost/module.py: `CostModule.track`, `reconcile` and `track_usage`, with the budget alert. Not modelled:
-- the log lines; `send_budget_alert` is in Cost/Alerts.antt, here the alert is noted.
pub mod Totals
pub mod Counters
pub mod Reconcile
pub mod Nan
pub mod Alarm
use agentic_governance.Prelude.{
  ℕ, ◌+◌, String, Bool, true, false, Option, none, some, List, [], ◌∷◌, is_some, if◌then◌else◌,
  ◌&&◌, ◌||◌, not, nat_eq, ◌==◌, string_eq,
}
use agentic_governance.Prelude.Dict.{get}
use agentic_governance.Errors.{None, Result, ok, err}
use agentic_governance.Exec.{Exec}
use agentic_governance.Audit.Crypto.{Crypto}
use agentic_governance.Presence.{Json}
use agentic_governance.Cost.{Cost, Context}
use agentic_governance.Cost.Numbers.{Floats, ℤ, pos, negsuc, ◌-ℕ◌, is_negative, clamp, max_zero}
use agentic_governance.Cost.Store.{CostStore, utc_day_start}
use agentic_governance.Cost.Policy.{BudgetPolicy}
use agentic_governance.Cost.Pricing.{estimate_cost}
use agentic_governance.Cost.Alerts.{Alert, crossed, mark_if_unfired}

-- A call of the module that changes the counters.
pub data Operation (F : Type 0) : Type 0 where
  track_call :
      (agent_id : String)
      → (session_id : ℕ) → (tokens : ℤ) → (usd : F) → (model : Option String) → Operation F
  reconcile_call :
      (agent_id : String)
      → (session_id projected_tokens actual_tokens : ℕ) → (projected_usd actual_usd : F)
      → (model : Option String) → Operation F
  track_usage_call :
      (agent_id : String)
      → (session_id : ℕ) → (model : String) → (input_tokens output_tokens : ℕ) → Operation F

module _ (c : Crypto) (j : Json) (fl : Floats) (S : Type 0) (x : Context c j fl S) where
  -- usd > 0.0, and a policy with a webhook and a cap for the day
  abbrev pub wants_alert : (usd : fl.Float) → BudgetPolicy fl → Bool
  wants_alert usd p =
      is_some p.alert_webhook_url && is_some p.daily_usd_cap && fl.lt fl.zero_usd usd

  -- The usage before the update, where an alert may follow and the store can be read.
  unfoldable pub pre_usage :
      (agent_id : String)
      → (usd : fl.Float) → Option (BudgetPolicy fl)
      → S
      → Option (BudgetPolicy fl × fl.Float)
  pre_usage agent_id usd none s = none
  pre_usage agent_id usd (some p) s =
      if wants_alert usd p
      then elim (x.ops.get_agent_daily_usage x.now agent_id s) [
        | ok (used, tokens) ↦ some (p, used)
        | err e ↦ none
      ]
      else none

  -- The alert is due: once a day.
  unfoldable pub fire : Alert fl → Cost c j fl S → Cost c j fl S
  fire alert s =
      let (fresh, marked) =
        mark_if_unfired alert.agent_id alert.cap_id alert.period_bucket s.alert_dedup in
      record s { alert_dedup = marked; sent = if fresh then alert ∷ s.sent else s.sent }

  unfoldable pub alert_usage :
      BudgetPolicy fl
      → (url secret : String) → (cap pre_usd post_usd : fl.Float) → Cost c j fl S
      → Cost c j fl S
  alert_usage p url secret cap pre_usd post_usd s =
      let alert : Alert fl = record {
        agent_id = p.agent_id;
        cap_id = "per_agent_usd_daily";
        cap_value = cap;
        used_value = post_usd;
        threshold_pct = p.alert_threshold_pct;
        period_bucket = utc_day_start x.alert_at;
        url = url;
        secret = secret;
      } in
      let after = fire alert s in
      if crossed fl cap p.alert_threshold_pct pre_usd post_usd then after else s

  -- The gates: the flag, and a policy with a URL, a secret and a cap.
  abbrev pub destination :
      (enabled : Bool)
      → (url secret : Option String) → (daily_usd_cap : Option fl.Float)
      → Option (String × String × fl.Float)
  destination true (some url) (some secret) (some limit) = some (url, secret, limit)
  destination _ _ _ _ = none

  unfoldable pub maybe_fire : BudgetPolicy fl → (pre_usd : fl.Float) → Cost c j fl S → Cost c j fl S
  maybe_fire p pre_usd s =
      elim (destination x.webhooks_enabled p.alert_webhook_url p.alert_webhook_secret
        p.daily_usd_cap) [
          | none ↦ s
          | some (url, secret, limit) ↦
              elim (x.ops.get_agent_daily_usage x.read_at p.agent_id s.store) [
                | ok (post_usd, tokens) ↦ alert_usage p url secret limit pre_usd post_usd s
                | err e ↦ s
              ]
        ]

  -- After an update that did not raise.
  abbrev pub alert_after : Option (BudgetPolicy fl × fl.Float) → Cost c j fl S → Cost c j fl S
  alert_after none s = s
  alert_after (some (p, pre_usd)) s = maybe_fire p pre_usd s

  unfoldable pub record_usage :
      (agent_id : String)
      → (session_id tokens : ℕ) → (usd : fl.Float) → (model : Option String) → Cost c j fl S
      → Cost c j fl S
  record_usage agent_id session_id tokens usd model s =
      let pre = pre_usage agent_id usd (get s.policies agent_id) s.store in
      let (r, stored) = x.ops.track x.tracked_at agent_id session_id tokens usd model s.store in
      let updated = record s { store = stored } in
      elim r [ ok _ ↦ alert_after pre updated | err e ↦ updated ]

  unfoldable pub track :
      (agent_id : String)
      → (session_id : ℕ) → (tokens : ℤ) → (usd : fl.Float) → (model : Option String)
      → Exec (Cost c j fl S) None
  track agent_id session_id (negsuc n) usd model s = (ok tt, s)
  track agent_id session_id (pos tokens) usd model s =
      let after = record_usage agent_id session_id tokens usd model s in
      (ok tt, if fl.lt usd fl.zero_usd then s else after)

  -- The deltas to add: neither is negative.
  unfoldable pub deltas : (token_delta : ℤ) → (usd_delta : fl.Float) → ℤ × fl.Float
  deltas token_delta usd_delta =
      if is_negative token_delta || fl.lt usd_delta fl.zero_usd
      then (pos (clamp token_delta), max_zero fl usd_delta)
      else (token_delta, usd_delta)

  abbrev pub is_zero : ℤ → Bool
  is_zero (pos n) = n == 0
  is_zero (negsuc n) = false

  unfoldable pub add_deltas :
      (agent_id : String)
      → (session_id : ℕ) → (model : Option String) → ℤ × fl.Float
      → Exec (Cost c j fl S) None
  add_deltas agent_id session_id model (tokens, usd) s =
      let tracked = track agent_id session_id tokens usd model s in
      if is_zero tokens && fl.eq usd fl.zero_usd then (ok tt, s) else tracked

  unfoldable pub reconcile :
      (agent_id : String)
      → (session_id : ℕ) → (projected_tokens actual_tokens : ℕ)
      → (projected_usd actual_usd : fl.Float) → (model : Option String) → Exec (Cost c j fl S) None
  unfolding deltas
  reconcile agent_id session_id projected_tokens actual_tokens projected_usd actual_usd model =
      add_deltas agent_id session_id model
        (deltas (actual_tokens -ℕ projected_tokens) (fl.sub actual_usd projected_usd))

  unfoldable pub track_usage :
      (agent_id : String)
      → (session_id : ℕ) → (model : String) → (input_tokens output_tokens : ℕ)
      → Exec (Cost c j fl S) None
  track_usage agent_id session_id model input_tokens output_tokens s =
      elim (estimate_cost fl model input_tokens output_tokens x.strict_unknown_models
        x.unknown_model_fallback) [
          | err e ↦ (err e, s)
          | ok usd ↦
              track agent_id session_id (pos (input_tokens + output_tokens)) usd (some model) s
        ]

  unfoldable pub call : Operation fl.Float → Exec (Cost c j fl S) None
  call (track_call agent_id session_id tokens usd model) =
      track agent_id session_id tokens usd model
  call (reconcile_call agent_id session_id projected actual projected_usd actual_usd model) =
      reconcile agent_id session_id projected actual projected_usd actual_usd model
  call (track_usage_call agent_id session_id model input output) =
      track_usage agent_id session_id model input output
