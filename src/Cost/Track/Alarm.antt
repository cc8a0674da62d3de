-- ===== src/Cost/Track/Alarm.antt =====
-- The budget alert: once for each agent, cap and day.
use agentic_governance.Prelude.{
  ℕ, ◌+◌, ◌≡◌, refl, sym, ◌∙◌, String, true, false, Option, none, some, [], ◌∷◌, arith, string_eq,
  Bool-cases, Option-cases, inl, inr, contains, map, ◌&&◌,
}
use agentic_governance.Errors.{Result-cases}
use agentic_governance.Audit.Crypto.{Crypto}
use agentic_governance.Presence.{Json}
use agentic_governance.Cost.{Cost, Context}
use agentic_governance.Cost.Numbers.{Floats, ℤ, pos, negsuc}
use agentic_governance.Cost.Policy.{BudgetPolicy}
use agentic_governance.Cost.Pricing.{estimate_cost}
use agentic_governance.Cost.Alerts.{Alert, Dedup, key_eq, mark_if_unfired, crossed}
use agentic_governance.Cost.Track.{
  Operation, track_call, reconcile_call, track_usage_call, call, destination, fire, alert_usage,
  maybe_fire, alert_after, record_usage, track, is_zero, add_deltas, reconcile, track_usage,
}

abbrev pub alert_key : (fl : Floats) → Alert fl → String × (String × ℕ)
alert_key fl a = (a.agent_id, (a.cap_id, a.period_bucket))

abbrev pub IsDistinct : Dedup → Type 0
IsDistinct [] = Unit
IsDistinct (k ∷ ks) = (contains ⦃e = key_eq⦄ k ks ≡ false) × IsDistinct ks

absurd : false ≡ true → ⊥
absurd h = ground arith

not_contains_cons :
    (k a : String × (String × ℕ)) (xs ys : Dedup)
    → (contains ⦃e = key_eq⦄ k ys ≡ false → contains ⦃e = key_eq⦄ k xs ≡ false)
    → contains ⦃e = key_eq⦄ k (a ∷ ys) ≡ false
    → contains ⦃e = key_eq⦄ k (a ∷ xs) ≡ false
not_contains_cons k a xs ys f h = elim (Bool-cases (key_eq.beq a k)) [
  | inl same ↦ elim (absurd (sym h ∙ rw same refl)) [ ]
  | inr other ↦ rw other (f (sym (rw other refl) ∙ h))
]

module _ (c : Crypto) (j : Json) (fl : Floats) (S : Type 0) where
  abbrev sent_keys : Cost c j fl S → Dedup
  sent_keys s = map (alert_key fl) s.sent

  -- No two alerts that were sent agree in agent, cap and day, and each is in the record.
  abbrev pub IsSentOnce : Cost c j fl S → Type 0
  IsSentOnce s =
      IsDistinct (sent_keys s)
      × ((k : String × (String × ℕ))
          → contains ⦃e = key_eq⦄ k s.alert_dedup ≡ false
          → contains ⦃e = key_eq⦄ k (sent_keys s) ≡ false)

  module _ (x : Context c j fl S) where
    fire-IsSentOnce :
        (alert : Alert fl) (s : Cost c j fl S) → IsSentOnce s → IsSentOnce (fire c j fl S x alert s)
    unfolding fire mark_if_unfired
    fire-IsSentOnce alert s (distinct, recorded) =
        elim (Bool-cases (contains ⦃e = key_eq⦄ (alert_key fl alert) s.alert_dedup)) [
          | inl old ↦ rw (old, fire, mark_if_unfired) (distinct, recorded)
          | inr new ↦
              rw (new, fire, mark_if_unfired)
                (
                  (recorded (alert_key fl alert) new, distinct),
                  λ k h.
                      not_contains_cons k (alert_key fl alert) (sent_keys s) s.alert_dedup
                        (recorded k) h,
                )
        ]

    alert_usage-IsSentOnce :
        (p : BudgetPolicy fl) (url secret : String) (limit pre_usd post_usd : fl.Float)
        (s : Cost c j fl S)
        → IsSentOnce s
        → IsSentOnce (alert_usage c j fl S x p url secret limit pre_usd post_usd s)
    unfolding alert_usage
    alert_usage-IsSentOnce p url secret limit pre_usd post_usd s h =
        elim (Bool-cases (crossed fl limit p.alert_threshold_pct pre_usd post_usd)) [
          | inl yes_crossed ↦ rw (yes_crossed, alert_usage) (fire-IsSentOnce _ s h)
          | inr not_crossed ↦ rw (not_crossed, alert_usage) h
        ]

    maybe_fire-IsSentOnce :
        (p : BudgetPolicy fl) (pre_usd : fl.Float) (s : Cost c j fl S)
        → IsSentOnce s
        → IsSentOnce (maybe_fire c j fl S x p pre_usd s)
    unfolding maybe_fire
    maybe_fire-IsSentOnce p pre_usd s h =
        elim (Option-cases (
          destination c j fl S x x.webhooks_enabled p.alert_webhook_url p.alert_webhook_secret
            p.daily_usd_cap)) [
              | inl e ↦ rw (e, maybe_fire) h
              | inr (d, e) ↦
                  elim (Result-cases (x.ops.get_agent_daily_usage x.read_at p.agent_id s.store)) [
                    | inl (post, r) ↦
                        rw (e, r, maybe_fire)
                          (alert_usage-IsSentOnce p d.0 d.1 d.2 pre_usd post.0 s h)
                    | inr (fault, r) ↦ rw (e, r, maybe_fire) h
                  ]
            ]

    alert_after-IsSentOnce :
        (pre : Option (BudgetPolicy fl × fl.Float)) (s : Cost c j fl S)
        → IsSentOnce s
        → IsSentOnce (alert_after c j fl S x pre s)
    alert_after-IsSentOnce none s h = h
    alert_after-IsSentOnce (some (p, pre_usd)) s h = maybe_fire-IsSentOnce p pre_usd s h

    record_usage-IsSentOnce :
        (agent_id : String) (session_id tokens : ℕ) (usd : fl.Float) (model : Option String)
        (s : Cost c j fl S)
        → IsSentOnce s
        → IsSentOnce (record_usage c j fl S x agent_id session_id tokens usd model s)
    unfolding record_usage
    record_usage-IsSentOnce agent_id session_id tokens usd model s h =
        elim (Result-cases
          (x.ops.track x.tracked_at agent_id session_id tokens usd model s.store).0) [
            | inl (_, r) ↦ rw (r, record_usage) (alert_after-IsSentOnce _ _ h)
            | inr (e, r) ↦ rw (r, record_usage) h
          ]

    track-IsSentOnce :
        (agent_id : String) (session_id : ℕ) (tokens : ℤ) (usd : fl.Float) (model : Option String)
        (s : Cost c j fl S)
        → IsSentOnce s
        → IsSentOnce (track c j fl S x agent_id session_id tokens usd model s).1
    unfolding track
    track-IsSentOnce agent_id session_id (negsuc n) usd model s h = h
    track-IsSentOnce agent_id session_id (pos n) usd model s h =
        elim (Bool-cases (fl.lt usd fl.zero_usd)) [
          | inl e ↦ rw (e, track) h
          | inr e ↦ rw (e, track) (record_usage-IsSentOnce agent_id session_id n usd model s h)
        ]

    add_deltas-IsSentOnce :
        (agent_id : String) (session_id : ℕ) (model : Option String) (d : ℤ × fl.Float)
        (s : Cost c j fl S)
        → IsSentOnce s
        → IsSentOnce (add_deltas c j fl S x agent_id session_id model d s).1
    unfolding add_deltas
    add_deltas-IsSentOnce agent_id session_id model (tokens, usd) s h =
        elim (Bool-cases (is_zero c j fl S x tokens && fl.eq usd fl.zero_usd)) [
          | inl e ↦ rw (e, add_deltas) h
          | inr e ↦ rw (e, add_deltas) (track-IsSentOnce agent_id session_id tokens usd model s h)
        ]

    -- Alerts are sent once: a call of `track`, `reconcile` or `track_usage`, on a store that may raise,
    -- keeps the invariant that no two alerts sent agree in agent, cap and UTC day, and that each of
    -- them is in the record of alerts.
    pub call-IsSentOnce :
        (o : Operation fl.Float) (s : Cost c j fl S)
        → IsSentOnce s
        → IsSentOnce (call c j fl S x o s).1
    unfolding call track_usage reconcile
    call-IsSentOnce (track_call agent_id session_id tokens usd model) s h =
        track-IsSentOnce agent_id session_id tokens usd model s h
    call-IsSentOnce
          (reconcile_call agent_id session_id projected actual projected_usd actual_usd model) s h =
        add_deltas-IsSentOnce agent_id session_id model _ s h
    call-IsSentOnce (track_usage_call agent_id session_id model input output) s h =
        elim (Result-cases
          (estimate_cost fl model input output x.strict_unknown_models x.unknown_model_fallback)) [
            | inl (usd, r) ↦
                rw (r, call, track_usage)
                  (track-IsSentOnce agent_id session_id (pos (input + output)) usd (some model) s h)
            | inr (e, r) ↦ rw (r, call, track_usage) h
          ]
