-- ===== src/Cost/Check/Admits.antt =====
-- What a budget check decides, and what it writes.
use agentic_governance.Prelude.{
  ℕ, ◌≤◌, ◌≡◌, ◌↔◌, refl, String, true, false, Option, none, some, arith, string_eq, Bool-cases,
  inl, inr, if◌then◌else◌,
}
use agentic_governance.Errors.{
  Result, Exception, ok, err, Cap, budget_exceeded, store_unreachable, per_session_usd,
  per_session_tokens, per_agent_usd_daily, per_agent_tokens_daily,
}
use agentic_governance.Audit.Crypto.{Crypto}
use agentic_governance.Audit.Models.{AuditEvent}
use agentic_governance.Audit.Emit.{plain_event, emit_lem, logged}
use agentic_governance.Presence.{Json}
use agentic_governance.Cost.{Cost, Context}
use agentic_governance.Cost.Check.{exceeded, unreadable, read_usage, read_elapsed, project}
use agentic_governance.Cost.Numbers.{Floats}
use agentic_governance.Cost.Policy.{
  BudgetPolicy, Breach, usd_breach, tokens_breach, or_next, breach,
}

-- What the caps allow, read off the policy.
abbrev pub WithinUsd : (fl : Floats) → (cap : Option fl.Float) → (used : fl.Float) → Type 0
WithinUsd fl none used = Unit
WithinUsd fl (some limit) used = fl.lt limit used ≡ false

abbrev pub WithinTokens : (cap : Option ℕ) → (used : ℕ) → Type 0
WithinTokens none used = Unit
WithinTokens (some limit) used = used ≤ limit

abbrev pub WithinCaps : (fl : Floats) → BudgetPolicy fl → (session daily : fl.Float × ℕ) → Type 0
WithinCaps fl p session daily =
    WithinUsd fl p.session_usd_cap session.0
    × WithinTokens p.session_tokens_cap session.1
    × WithinUsd fl p.daily_usd_cap daily.0
    × WithinTokens p.daily_tokens_cap daily.1

-- A session of unknown length is in time.
abbrev pub InTime : (limit : Option ℕ) → (elapsed : Result (Option ℕ)) → Type 0
InTime none r = Unit
InTime (some limit) (err e) = Unit
InTime (some limit) (ok none) = Unit
InTime (some limit) (ok (some elapsed)) = elapsed ≤ limit

module _ (fl : Floats) where
  usd_breach_iff :
      (cap : Cap) (limit : Option fl.Float) (used : fl.Float)
      → (usd_breach fl cap limit used ≡ none) ↔ WithinUsd fl limit used
  usd_breach_iff cap none used = ground arith
  usd_breach_iff cap (some limit) used = ground arith

  tokens_breach_iff :
      (cap : Cap) (limit : Option ℕ) (used : ℕ)
      → (tokens_breach fl cap limit used ≡ none) ↔ WithinTokens limit used
  tokens_breach_iff cap none used = ground arith
  tokens_breach_iff cap (some limit) used = ground arith

  or_next_iff : (a b : Breach fl) → (or_next fl a b ≡ none) ↔ ((a ≡ none) × (b ≡ none))
  or_next_iff none b = ground arith
  or_next_iff (some a) b = ground arith

  pub breach_iff :
      (p : BudgetPolicy fl) (session daily : fl.Float × ℕ)
      → (breach fl p session daily ≡ none) ↔ WithinCaps fl p session daily
  unfolding breach
  breach_iff p (su, st) (du, dt) = ground (
    arith,
    or_next_iff (usd_breach fl per_session_usd p.session_usd_cap su) (
        or_next fl (tokens_breach fl per_session_tokens p.session_tokens_cap st) (
          or_next fl (usd_breach fl per_agent_usd_daily p.daily_usd_cap du)
            (tokens_breach fl per_agent_tokens_daily p.daily_tokens_cap dt))),
    or_next_iff (tokens_breach fl per_session_tokens p.session_tokens_cap st) (
        or_next fl (usd_breach fl per_agent_usd_daily p.daily_usd_cap du)
          (tokens_breach fl per_agent_tokens_daily p.daily_tokens_cap dt)),
    or_next_iff (usd_breach fl per_agent_usd_daily p.daily_usd_cap du)
        (tokens_breach fl per_agent_tokens_daily p.daily_tokens_cap dt),
    usd_breach_iff per_session_usd p.session_usd_cap su,
    tokens_breach_iff per_session_tokens p.session_tokens_cap st,
    usd_breach_iff per_agent_usd_daily p.daily_usd_cap du,
    tokens_breach_iff per_agent_tokens_daily p.daily_tokens_cap dt,
  )

module _ (c : Crypto) (j : Json) (fl : Floats) (S : Type 0) (x : Context c j fl S) where
  -- The usage as the check reads it admits the call.
  abbrev pub UsageAdmits :
      (agent_id : String) (session_id : ℕ) (projected_tokens : Option ℕ)
      → BudgetPolicy fl
      → S
      → Result ((fl.Float × ℕ) × (fl.Float × ℕ))
      → Type 0
  UsageAdmits agent_id session_id projected_tokens p s (err e) = x.fail_open ≡ true
  UsageAdmits agent_id session_id projected_tokens p s (ok (session, daily)) =
      WithinCaps fl p (project c j fl S x projected_tokens session)
        (project c j fl S x projected_tokens daily)
      × InTime p.session_seconds_cap (read_elapsed c j fl S x agent_id session_id s)

  abbrev pub BudgetAdmits :
      (agent_id : String) (session_id : ℕ) (projected_tokens : Option ℕ)
      → Option (BudgetPolicy fl)
      → S
      → Type 0
  BudgetAdmits agent_id session_id projected_tokens none s = Unit
  BudgetAdmits agent_id session_id projected_tokens (some p) s =
      UsageAdmits agent_id session_id projected_tokens p s
        (read_usage c j fl S x agent_id session_id s)

  abbrev pub with_event : AuditEvent c.Metadata → Cost c j fl S → Cost c j fl S
  with_event event s = record s { log = logged c x.config x.call event s.log }

  pub exceeded_lem :
      (agent_id : String) (session_id : ℕ) (cap : Cap) (used limit : fl.Float) (s : Cost c j fl S)
      → exceeded c j fl S x agent_id session_id cap used limit s ≡ (
        err (budget_exceeded cap),
        with_event
            (plain_event agent_id
              (some session_id)
              "budget.exceeded"
              (x.exceeded_metadata cap used limit))
            s,
      )
  exceeded_lem agent_id session_id cap used limit s = rw (emit_lem c x.config x.call) refl

  pub unreadable_lem :
      (agent_id : String) (session_id : ℕ) (e : Exception) (s : Cost c j fl S)
      → unreadable c j fl S x agent_id session_id e s ≡ (
        (if x.fail_open then ok tt else err (budget_exceeded store_unreachable)),
        with_event
            (plain_event agent_id
              (some session_id)
              "budget.check_failed"
              (x.failed_metadata e x.fail_open))
            s,
      )
  unreadable_lem agent_id session_id e s = elim (Bool-cases x.fail_open) [
    | inl h ↦ rw (h, emit_lem c x.config x.call) refl
    | inr h ↦ rw (h, emit_lem c x.config x.call) refl
  ]
