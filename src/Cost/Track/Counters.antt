-- ===== src/Cost/Track/Counters.antt =====
-- The counters of the in-memory store under the module's operations.
use agentic_governance.Prelude.{
  ℕ, ◌+◌, ◌≤◌, ◌≡◌, refl, ap, ◌∙◌, String, true, false, Option, some, List, [], ◌∷◌, arith,
  string_eq, Bool-cases, inl, inr, if◌then◌else◌, ◌&&◌, ◌==◌, beq_refl, nat_beq, nat_eq,
}
use agentic_governance.Errors.{None, Result-cases}
use agentic_governance.Exec.{Exec}
use agentic_governance.Audit.Crypto.{Crypto}
use agentic_governance.Presence.{Json}
use agentic_governance.Cost.{Cost, Context}
use agentic_governance.Cost.Numbers.{Floats, ℤ, pos, negsuc}
use agentic_governance.Cost.Store.{Memory, Usage, memory_store, session_usage_of, add_usage}
use agentic_governance.Cost.Store.Ledger.{Tracked, in_session, track-session}
use agentic_governance.Cost.Pricing.{estimate_cost}
use agentic_governance.Cost.Track.{
  Operation, track_call, reconcile_call, track_usage_call, call, track, is_zero, add_deltas,
  reconcile, track_usage,
}
use agentic_governance.Cost.Track.Totals.{track-store}

module _ (c : Crypto) (j : Json) (fl : Floats) where
  -- The module over the in-memory store.
  abbrev pub on_memory : Context c j fl (Memory fl) → Context c j fl (Memory fl)
  on_memory x = record x { ops = memory_store fl }

  abbrev pub usage_in : (agent_id : String) → (session_id : ℕ) → Cost c j fl (Memory fl) → Usage fl
  usage_in agent_id session_id s = session_usage_of fl agent_id session_id s.store

  unfoldable pub apply :
      Context c j fl (Memory fl) → Operation fl.Float → Exec (Cost c j fl (Memory fl)) None
  unfolding call
  apply x = call c j fl (Memory fl) (on_memory x)

  -- Each call has its own readings of the clock and the flag.
  unfoldable pub apply_all :
      List (Context c j fl (Memory fl) × Operation fl.Float)
      → Cost c j fl (Memory fl)
      → Cost c j fl (Memory fl)
  apply_all [] s = s
  apply_all ((x, o) ∷ os) s = apply_all os (apply x o s).1

  module _ (x : Context c j fl (Memory fl)) where
    abbrev entry :
        (agent_id : String)
        → (session_id tokens : ℕ) → (usd : fl.Float) → (model : Option String) → Tracked fl.Float
    entry agent_id session_id tokens usd model = record {
      now = x.tracked_at;
      agent_id = agent_id;
      session_id = session_id;
      tokens = tokens;
      usd = usd;
      model = model;
    }

    pub track-usage_in :
        (agent_id : String) (session_id tokens : ℕ) (usd : fl.Float) (model : Option String)
        (s : Cost c j fl (Memory fl)) (a : String) (i : ℕ)
        → fl.lt usd fl.zero_usd ≡ false
        → usage_in a i
            (track c j fl (Memory fl) (on_memory x) agent_id session_id (pos tokens) usd model s).1
          ≡ (if in_session fl a i (entry agent_id session_id tokens usd model)
              then add_usage fl usd tokens (usage_in a i s)
              else usage_in a i s)
    track-usage_in agent_id session_id tokens usd model s a i h =
        ap (session_usage_of fl a i) (
          track-store c j fl (Memory fl) (on_memory x) agent_id session_id tokens usd model s
          ∙ rw h refl)
        ∙ track-session fl (entry agent_id session_id tokens usd model) s.store a i

    track-refused :
        (agent_id : String) (session_id tokens : ℕ) (usd : fl.Float) (model : Option String)
        (s : Cost c j fl (Memory fl)) (a : String) (i : ℕ)
        → fl.lt usd fl.zero_usd ≡ true
        → usage_in a i
            (track c j fl (Memory fl) (on_memory x) agent_id session_id (pos tokens) usd model s).1
          ≡ usage_in a i s
    track-refused agent_id session_id tokens usd model s a i h = ap (session_usage_of fl a i) (
        track-store c j fl (Memory fl) (on_memory x) agent_id session_id tokens usd model s
        ∙ rw h refl)

    track_grows :
        (agent_id : String) (session_id : ℕ) (tokens : ℤ) (usd : fl.Float) (model : Option String)
        (s : Cost c j fl (Memory fl)) (a : String) (i : ℕ)
        → (usage_in a i s).1
          ≤ (usage_in a i
              (track c j fl (Memory fl) (on_memory x) agent_id session_id tokens usd model s).1).1
    unfolding track
    track_grows agent_id session_id (negsuc n) usd model s a i = omega arith
    track_grows agent_id session_id (pos n) usd model s a i =
        elim (Bool-cases (fl.lt usd fl.zero_usd)) [
          | inl h ↦
              omega (arith, ap (λ u. u.1) (track-refused agent_id session_id n usd model s a i h))
          | inr h ↦
              let e = ap (λ u. u.1) (track-usage_in agent_id session_id n usd model s a i h) in
              ground (arith, e)
        ]

    add_deltas_grows :
        (agent_id : String) (session_id : ℕ) (model : Option String) (d : ℤ × fl.Float)
        (s : Cost c j fl (Memory fl)) (a : String) (i : ℕ)
        → (usage_in a i s).1
          ≤ (usage_in a i
              (add_deltas c j fl (Memory fl) (on_memory x) agent_id session_id model d s).1).1
    unfolding add_deltas
    add_deltas_grows agent_id session_id model (tokens, usd) s a i =
        elim (Bool-cases
          (is_zero c j fl (Memory fl) (on_memory x) tokens && fl.eq usd fl.zero_usd)) [
            | inl h ↦ rw (h, add_deltas) (omega arith)
            | inr h ↦ rw (h, add_deltas) (track_grows agent_id session_id tokens usd model s a i)
          ]

    apply_grows :
        (o : Operation fl.Float) (s : Cost c j fl (Memory fl)) (a : String) (i : ℕ)
        → (usage_in a i s).1 ≤ (usage_in a i (apply x o s).1).1
    unfolding apply call track_usage reconcile
    apply_grows (track_call agent_id session_id tokens usd model) s a i =
        track_grows agent_id session_id tokens usd model s a i
    apply_grows (reconcile_call agent_id session_id projected actual projected_usd actual_usd model)
          s a i =
        add_deltas_grows agent_id session_id model _ s a i
    apply_grows (track_usage_call agent_id session_id model input output) s a i =
        elim (Result-cases
          (estimate_cost fl model input output x.strict_unknown_models x.unknown_model_fallback)) [
            | inl (usd, r) ↦
                rw (r, apply, call, track_usage)
                  (track_grows agent_id session_id (pos (input + output)) usd (some model) s a i)
            | inr (e, r) ↦ rw (r, apply, call, track_usage) (omega arith)
          ]

  -- The tokens of a session never fall: whatever calls of `track`, `reconcile` and `track_usage` follow,
  -- with negative counts, refunds and unknown models among them, at whatever readings of the clock, the
  -- count of every session is at least what it was.
  pub counters_never_fall :
      (calls : List (Context c j fl (Memory fl) × Operation fl.Float)) (s : Cost c j fl (Memory fl))
      (agent_id : String) (session_id : ℕ)
      → (usage_in agent_id session_id s).1 ≤ (usage_in agent_id session_id (apply_all calls s)).1
  unfolding apply_all
  counters_never_fall [] s agent_id session_id = omega arith
  counters_never_fall ((x, o) ∷ calls) s agent_id session_id = omega (
    arith,
    apply_grows x o s agent_id session_id,
    counters_never_fall calls (apply x o s).1 agent_id session_id,
  )

  pub track_tokens :
      (x : Context c j fl (Memory fl)) (agent_id : String) (session_id tokens : ℕ) (usd : fl.Float)
      (model : Option String) (s : Cost c j fl (Memory fl))
      → fl.lt usd fl.zero_usd ≡ false
      → usage_in agent_id session_id
          (track c j fl (Memory fl) (on_memory x) agent_id session_id (pos tokens) usd model s).1
        ≡ add_usage fl usd tokens (usage_in agent_id session_id s)
  track_tokens x agent_id session_id tokens usd model s h =
      let own : ((agent_id == agent_id) && nat_beq session_id session_id) ≡ true =
        rw (beq_refl agent_id, beq_refl session_id) refl in
      track-usage_in x agent_id session_id tokens usd model s agent_id session_id h ∙ rw own refl
