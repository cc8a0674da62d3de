-- ===== src/Cost/Track/Reconcile.antt =====
-- `reconcile` after the `track` of the projection.
use agentic_governance.Prelude.{
  ℕ, ◌+◌, ◌-◌, ◌≡◌, ap, ◌∙◌, max, String, false, Option, [], ◌∷◌, arith, string_eq, Bool-cases, inl,
  inr, ◌&&◌, ◌==◌, nat_eq,
}
use agentic_governance.Audit.Crypto.{Crypto}
use agentic_governance.Presence.{Json}
use agentic_governance.Cost.{Cost, Context}
use agentic_governance.Cost.Numbers.{Floats, ℤ, pos, ◌-ℕ◌, IsStrict}
use agentic_governance.Cost.Store.{Memory}
use agentic_governance.Cost.Track.{track_call, reconcile_call, call, deltas, add_deltas, reconcile}
use agentic_governance.Cost.Track.Counters.{on_memory, usage_in, apply, apply_all, track_tokens}

module _ (c : Crypto) (j : Json) (fl : Floats) where
  deltas_tokens :
      (x : Context c j fl (Memory fl)) (actual projected : ℕ) (usd : fl.Float)
      → (deltas c j fl (Memory fl) x (actual -ℕ projected) usd).0 ≡ pos (actual - projected)
  unfolding deltas
  deltas_tokens x actual projected usd = ground arith

  deltas_usd :
      (x : Context c j fl (Memory fl)) (tokens : ℤ) (usd : fl.Float)
      → IsStrict fl
      → fl.lt (deltas c j fl (Memory fl) x tokens usd).1 fl.zero_usd ≡ false
  unfolding deltas
  deltas_usd x tokens usd strict =
      ground (arith, strict.lt_irrefl fl.zero_usd, strict.lt_asym fl.zero_usd usd)

  add_deltas_tokens :
      (x : Context c j fl (Memory fl)) (agent_id : String) (session_id : ℕ) (model : Option String)
      (n : ℕ) (usd : fl.Float) (s : Cost c j fl (Memory fl))
      → fl.lt usd fl.zero_usd ≡ false
      → (usage_in c j fl agent_id session_id
          (add_deltas c j fl
            (Memory fl)
            (on_memory c j fl x)
            agent_id
            session_id
            model
            (pos n, usd)
            s).1).1
        ≡ (usage_in c j fl agent_id session_id s).1 + n
  unfolding add_deltas
  add_deltas_tokens x agent_id session_id model n usd s h =
      elim (Bool-cases ((n == 0) && fl.eq usd fl.zero_usd)) [
        | inl g ↦ rw (g, add_deltas) (ground (arith, g))
        | inr g ↦
            rw (g, add_deltas)
              (ap (λ u. u.1) (track_tokens c j fl x agent_id session_id n usd model s h))
      ]

  -- A stream that was tracked with its projection and then reconciled counts for the larger of the two:
  -- for a projected price that is not negative, and on a strict order of the floats, the session's
  -- tokens grow by the maximum of the projected and the actual count.
  pub reconcile_settles :
      (x y : Context c j fl (Memory fl)) (agent_id : String) (session_id projected actual : ℕ)
      (projected_usd actual_usd : fl.Float) (model : Option String) (s : Cost c j fl (Memory fl))
      → IsStrict fl
      → fl.lt projected_usd fl.zero_usd ≡ false
      → (usage_in c j fl agent_id session_id (
          apply_all c j fl
            ((x, track_call agent_id session_id (pos projected) projected_usd model)
              ∷ (
                y,
                reconcile_call agent_id session_id projected actual projected_usd actual_usd model,
              )
              ∷ [])
            s)).1
        ≡ (usage_in c j fl agent_id session_id s).1 + max projected actual
  unfolding apply_all apply call reconcile
  reconcile_settles x y agent_id session_id projected actual projected_usd actual_usd model s strict
        h =
      let tracked =
        (apply c j fl x (track_call agent_id session_id (pos projected) projected_usd model) s).1 in
      let d =
        deltas c j fl (Memory fl) (on_memory c j fl y) (actual -ℕ projected)
          (fl.sub actual_usd projected_usd) in
      let first =
        ap (λ u. u.1)
          (track_tokens c j fl x agent_id session_id projected projected_usd model s h) in
      let next =
        ap
          (λ t.
            (usage_in c j fl agent_id session_id
              (add_deltas c j fl (Memory fl) (on_memory c j fl y) agent_id session_id model (t, d.1)
                tracked).1).1)
          (deltas_tokens (on_memory c j fl y) actual projected (fl.sub actual_usd projected_usd))
        ∙ add_deltas_tokens y agent_id session_id model (actual - projected) d.1 tracked (
            deltas_usd (on_memory c j fl y) (actual -ℕ projected) (fl.sub actual_usd projected_usd)
              strict) in
      next ∙ ap (λ n. n + (actual - projected)) first ∙ ground arith
