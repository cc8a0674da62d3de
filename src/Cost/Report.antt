-- ===== src/Cost/Report.antt =====
-- cost/module.py: `CostModule.snapshot` and `model_breakdown`, which never raise.
use agentic_governance.Prelude.{ℕ, String, Option, none, some, [], string_eq}
use agentic_governance.Prelude.Dict.{Dict, get}
use agentic_governance.Errors.{Result, ok, err, ◌>>=◌}
use agentic_governance.Audit.Crypto.{Crypto}
use agentic_governance.Presence.{Json}
use agentic_governance.Cost.{Cost, Context}
use agentic_governance.Cost.Numbers.{Floats}
use agentic_governance.Cost.Policy.{BudgetPolicy, BudgetSnapshot, remaining_f, remaining_i}

module _ (c : Crypto) (j : Json) (fl : Floats) (S : Type 0) (x : Context c j fl S) where
  -- policy.<cap> if policy else None
  abbrev pub cap_of :
      {A : Type 0} → (BudgetPolicy fl → Option A) → Option (BudgetPolicy fl) → Option A
  cap_of cap none = none
  cap_of cap (some p) = cap p

  -- Zeros, where either query raises.
  abbrev pub usage_or_zero :
      (agent_id : String) → (session_id : ℕ) → S → (fl.Float × ℕ) × (fl.Float × ℕ)
  usage_or_zero agent_id session_id s =
      let read : Result ((fl.Float × ℕ) × (fl.Float × ℕ)) =
        x.ops.get_session_usage agent_id session_id s >>= λ session.
        x.ops.get_agent_daily_usage x.now agent_id s >>= λ daily. ok (session, daily) in
      elim read [ ok usage ↦ usage | err e ↦ ((fl.zero_usd, 0), (fl.zero_usd, 0)) ]

  unfoldable pub snapshot :
      (agent_id : String) → (session_id : ℕ) → Cost c j fl S → BudgetSnapshot fl
  snapshot agent_id session_id s =
      let policy = get s.policies agent_id in
      let ((s_usd, s_tok), (d_usd, d_tok)) = usage_or_zero agent_id session_id s.store in
      record {
        agent_id = agent_id;
        session_usd_used = s_usd;
        session_tokens_used = s_tok;
        agent_daily_usd_used = d_usd;
        agent_daily_tokens_used = d_tok;
        session_usd_remaining = remaining_f fl (cap_of (λ p. p.session_usd_cap) policy) s_usd;
        session_tokens_remaining = remaining_i fl (cap_of (λ p. p.session_tokens_cap) policy) s_tok;
        agent_daily_usd_remaining = remaining_f fl (cap_of (λ p. p.daily_usd_cap) policy) d_usd;
        agent_daily_tokens_remaining =
            remaining_i fl (cap_of (λ p. p.daily_tokens_cap) policy) d_tok;
      }

  unfoldable pub model_breakdown :
      (agent_id : String) → Cost c j fl S → Dict String (fl.Float × fl.Float)
  model_breakdown agent_id s = elim (x.ops.get_model_breakdown x.now agent_id s.store) [
    | ok result ↦ result
    | err e ↦ []
  ]
