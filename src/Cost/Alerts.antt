-- ===== src/Cost/Alerts.antt =====
-- cost/webhook.py: the once-a-day record of alerts and what an alert is built from, and the crossing of
-- the threshold in cost/module.py.
use agentic_governance.Prelude.{
  ℕ, String, Bool, true, false, List, ◌∷◌, contains, nat_eq, string_eq, pair_eq, if◌then◌else◌,
  ◌&&◌, Eq,
}
use agentic_governance.Cost.Numbers.{Floats}

-- (agent_id, cap_id, period_bucket); the bucket is the start of the UTC day.
abbrev pub Dedup : Type 0
Dedup = List (String × (String × ℕ))

abbrev pub key_eq : Eq (String × (String × ℕ))
key_eq = pair_eq {A = String} {B = String × ℕ} ⦃f = pair_eq {A = String} {B = ℕ}⦄

unfoldable pub mark_if_unfired : (agent_id cap_id : String) → (bucket : ℕ) → Dedup → Bool × Dedup
mark_if_unfired agent_id cap_id bucket fired =
    let key : String × (String × ℕ) = (agent_id, (cap_id, bucket)) in
    if contains ⦃e = key_eq⦄ key fired then (false, fired) else (true, key ∷ fired)

-- What `build_payload` is called with.
pub record Alert (fl : Floats) : Type 0 where
  pub agent_id : String
  pub cap_id : String
  pub cap_value : fl.Float
  pub used_value : fl.Float
  pub threshold_pct : ℕ
  pub period_bucket : ℕ
  pub url : String
  pub secret : String

-- pre_usd < threshold <= post_usd, with threshold = cap * (pct / 100.0)
abbrev pub crossed : (fl : Floats) → (cap : fl.Float) → (pct : ℕ) → (pre post : fl.Float) → Bool
crossed fl cap pct pre post =
    let threshold = fl.mul cap (fl.div (fl.of_nat pct) 100) in
    fl.lt pre threshold && fl.le threshold post
