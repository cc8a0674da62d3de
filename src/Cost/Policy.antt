-- ===== src/Cost/Policy.antt =====
-- cost/models.py: budget policies and snapshots, and the test of each cap in cost/module.py. The bounds
-- of pydantic on the fields (caps are not negative) are not repeated. The fields
-- `per_session_usd` and so on are named `session_usd_cap` here, and the caps keep the names.
use agentic_governance.Prelude.{
  ℕ, ◌-◌, String, Option, none, some, ltb, is_some, if◌then◌else◌, ◌&&◌, ◌||◌, not,
}
use agentic_governance.Errors.{
  None, Result, ok, err, value_error, Cap, per_session_usd, per_session_tokens, per_agent_usd_daily,
  per_agent_tokens_daily,
}
use agentic_governance.Cost.Numbers.{Floats, max_zero}

module _ (fl : Floats) where
  pub record BudgetPolicy : Type 0 where
    pub agent_id : String
    pub session_usd_cap : Option fl.Float
    pub session_tokens_cap : Option ℕ
    pub daily_usd_cap : Option fl.Float
    pub daily_tokens_cap : Option ℕ
    pub session_seconds_cap : Option ℕ
    pub alert_webhook_url : Option String
    pub alert_webhook_secret : Option String
    pub alert_threshold_pct : ℕ

  unfoldable pub model_post_init : BudgetPolicy → Result None
  model_post_init p =
      let any_set =
        is_some p.session_usd_cap
        || is_some p.session_tokens_cap
        || is_some p.daily_usd_cap
        || is_some p.daily_tokens_cap
        || is_some p.session_seconds_cap in
      if not any_set || (is_some p.alert_webhook_url && not (is_some p.daily_usd_cap))
      then err value_error
      else ok tt

  -- The cap, what is used of it, and its limit.
  abbrev pub Breach : Type 0
  Breach = Option (Cap × fl.Float × fl.Float)

  abbrev pub usd_breach : Cap → Option fl.Float → (used : fl.Float) → Breach
  usd_breach cap none used = none
  usd_breach cap (some limit) used = if fl.lt limit used then some (cap, used, limit) else none

  abbrev pub tokens_breach : Cap → Option ℕ → (used : ℕ) → Breach
  tokens_breach cap none used = none
  tokens_breach cap (some limit) used =
      if ltb limit used then some (cap, fl.of_nat used, fl.of_nat limit) else none

  -- elif
  abbrev pub or_next : Breach → Breach → Breach
  or_next none next = next
  or_next (some b) next = some b

  -- The chain of tests, on the projected token counts.
  unfoldable pub breach : BudgetPolicy → (session daily : fl.Float × ℕ) → Breach
  breach p (s_usd, s_tokens) (d_usd, d_tokens) =
      or_next (usd_breach per_session_usd p.session_usd_cap s_usd) (
        or_next (tokens_breach per_session_tokens p.session_tokens_cap s_tokens) (
          or_next (usd_breach per_agent_usd_daily p.daily_usd_cap d_usd)
            (tokens_breach per_agent_tokens_daily p.daily_tokens_cap d_tokens)))

  pub record BudgetSnapshot : Type 0 where
    pub agent_id : String
    pub session_usd_used : fl.Float
    pub session_tokens_used : ℕ
    pub agent_daily_usd_used : fl.Float
    pub agent_daily_tokens_used : ℕ
    pub session_usd_remaining : Option fl.Float
    pub session_tokens_remaining : Option ℕ
    pub agent_daily_usd_remaining : Option fl.Float
    pub agent_daily_tokens_remaining : Option ℕ

  abbrev pub remaining_f : (cap : Option fl.Float) → (used : fl.Float) → Option fl.Float
  remaining_f none used = none
  remaining_f (some cap) used = some (max_zero fl (fl.sub cap used))

  -- `-` on ℕ stops at 0, as `max(0, cap - used)` does.
  abbrev pub remaining_i : (cap : Option ℕ) → (used : ℕ) → Option ℕ
  remaining_i none used = none
  remaining_i (some cap) used = some (cap - used)
