-- ===== src/Cost/Track/Totals.antt =====
-- What `track` and `reconcile` make of the counters of an in-memory store.
use agentic_governance.Prelude.{
  ℕ, ◌≡◌, refl, String, Option, none, some, arith, string_eq, Bool-cases, Option-cases, inl, inr,
  if◌then◌else◌,
}
use agentic_governance.Errors.{Result-cases}
use agentic_governance.Audit.Crypto.{Crypto}
use agentic_governance.Presence.{Json}
use agentic_governance.Cost.{Cost, Context}
use agentic_governance.Cost.Numbers.{Floats, pos}
use agentic_governance.Cost.Policy.{BudgetPolicy}
use agentic_governance.Cost.Track.{
  destination, fire, alert_usage, maybe_fire, alert_after, record_usage, track,
}

module _ (c : Crypto) (j : Json) (fl : Floats) (S : Type 0) (x : Context c j fl S) where
  alert_usage-store :
      (p : BudgetPolicy fl) (url secret : String) (cap pre_usd post_usd : fl.Float)
      (s : Cost c j fl S)
      → (alert_usage c j fl S x p url secret cap pre_usd post_usd s).store ≡ s.store
  unfolding alert_usage fire
  alert_usage-store p url secret cap pre_usd post_usd s = ground arith

  maybe_fire-store :
      (p : BudgetPolicy fl) (pre_usd : fl.Float) (s : Cost c j fl S)
      → (maybe_fire c j fl S x p pre_usd s).store ≡ s.store
  unfolding maybe_fire
  maybe_fire-store p pre_usd s =
      elim (Option-cases (
        destination c j fl S x x.webhooks_enabled p.alert_webhook_url p.alert_webhook_secret
          p.daily_usd_cap)) [
            | inl e ↦ rw (e, maybe_fire) refl
            | inr (d, e) ↦
                elim (Result-cases (x.ops.get_agent_daily_usage x.read_at p.agent_id s.store)) [
                  | inl (post, r) ↦
                      rw (e, r, maybe_fire) (alert_usage-store p d.0 d.1 d.2 pre_usd post.0 s)
                  | inr (fault, r) ↦ rw (e, r, maybe_fire) refl
                ]
          ]

  alert_after-store :
      (pre : Option (BudgetPolicy fl × fl.Float)) (s : Cost c j fl S)
      → (alert_after c j fl S x pre s).store ≡ s.store
  alert_after-store none s = refl
  alert_after-store (some (p, pre_usd)) s = maybe_fire-store p pre_usd s

  -- What a store that does not raise makes of the usage is in the module after the update.
  record_usage-store :
      (agent_id : String) (session_id tokens : ℕ) (usd : fl.Float) (model : Option String)
      (s : Cost c j fl S)
      → (record_usage c j fl S x agent_id session_id tokens usd model s).store
        ≡ (x.ops.track x.tracked_at agent_id session_id tokens usd model s.store).1
  unfolding record_usage
  record_usage-store agent_id session_id tokens usd model s =
      elim (Result-cases
        (x.ops.track x.tracked_at agent_id session_id tokens usd model s.store).0) [
          | inl (_, r) ↦ rw (r, record_usage) (alert_after-store _ _)
          | inr (e, r) ↦ rw (r, record_usage) refl
        ]

  pub track-store :
      (agent_id : String) (session_id tokens : ℕ) (usd : fl.Float) (model : Option String)
      (s : Cost c j fl S)
      → (track c j fl S x agent_id session_id (pos tokens) usd model s).1.store ≡ (
          if fl.lt usd fl.zero_usd
          then s.store
          else (x.ops.track x.tracked_at agent_id session_id tokens usd model s.store).1)
  unfolding track
  track-store agent_id session_id tokens usd model s = elim (Bool-cases (fl.lt usd fl.zero_usd)) [
    | inl h ↦ rw (h, track) refl
    | inr h ↦ rw (h, track) (record_usage-store agent_id session_id tokens usd model s)
  ]
