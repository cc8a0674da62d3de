-- ===== src/Cost/Store/Ledger.antt =====
-- The counters of the store against the ledger of all its `track` calls.
use agentic_governance.Prelude.{
  ℕ, ◌≡◌, refl, ap, ◌∙◌, String, Bool, Option, List, [], ◌∷◌, ◌++◌, string_eq, nat_eq, pair_eq,
  ◌==◌, ◌&&◌, if◌then◌else◌, Bool-cases, inl, inr, nat_beq,
}
use agentic_governance.Prelude.Dict.{get_or, get_or-put}
use agentic_governance.Cost.Numbers.{Floats}
use agentic_governance.Cost.Store.{
  Usage, Memory, add_usage, track_memory, session_usage_of, utc_day_start,
}

-- A call of `track`, with the reading of the clock in it.
pub record Tracked (F : Type 0) : Type 0 where
  pub now : ℕ
  pub agent_id : String
  pub session_id : ℕ
  pub tokens : ℕ
  pub usd : F
  pub model : Option String

module _ (fl : Floats) where
  abbrev pub Entry : Type 0
  Entry = Tracked fl.Float

  unfoldable pub run : List Entry → Memory fl → Memory fl
  run [] s = s
  run (t ∷ ts) s = run ts (track_memory fl t.now t.agent_id t.session_id t.tokens t.usd t.model s)

  -- What the entries that pass the test add to `u`, in their order.
  abbrev pub total : (Entry → Bool) → Usage fl → List Entry → Usage fl
  total p u [] = u
  total p u (t ∷ ts) = total p (if p t then add_usage fl t.usd t.tokens u else u) ts

  pub total-append :
      (p : Entry → Bool) (u : Usage fl) (ts : List Entry) (t : Entry)
      → total p u (ts ++ t ∷ [])
        ≡ (if p t then add_usage fl t.usd t.tokens (total p u ts) else total p u ts)
  total-append p u [] t = refl
  total-append p u (s ∷ ts) t =
      total-append p (if p s then add_usage fl s.usd s.tokens u else u) ts t

  abbrev pub in_session : String → ℕ → Entry → Bool
  in_session agent_id session_id t = (t.agent_id == agent_id) && nat_beq t.session_id session_id

  abbrev pub on_day : String → (day : ℕ) → Entry → Bool
  on_day agent_id day t = (t.agent_id == agent_id) && nat_beq (utc_day_start t.now) day

  pub track-session :
      (t : Entry) (s : Memory fl) (agent_id : String) (session_id : ℕ)
      → session_usage_of fl agent_id session_id
          (track_memory fl t.now t.agent_id t.session_id t.tokens t.usd t.model s)
        ≡ (if in_session agent_id session_id t
            then add_usage fl t.usd t.tokens (session_usage_of fl agent_id session_id s)
            else session_usage_of fl agent_id session_id s)
  unfolding session_usage_of track_memory
  track-session t s agent_id session_id =
      let key : String × ℕ = (t.agent_id, t.session_id) in
      let asked : String × ℕ = (agent_id, session_id) in
      let before = λ (k : String × ℕ). get_or s.session_usage k (fl.zero_usd, 0) in
      elim (Bool-cases (in_session agent_id session_id t)) [
        | inl same ↦
            get_or-put s.session_usage key asked (add_usage fl t.usd t.tokens (before key))
              (fl.zero_usd, 0)
            ∙ rw same (
                ap (λ k. add_usage fl t.usd t.tokens (before k))
                  ((pair_eq.beq_iff key asked).0 same))
        | inr other ↦
            get_or-put s.session_usage key asked (add_usage fl t.usd t.tokens (before key))
              (fl.zero_usd, 0)
            ∙ rw other refl
      ]

  pub run-session :
      (ts : List Entry) (s : Memory fl) (agent_id : String) (session_id : ℕ)
      → session_usage_of fl agent_id session_id (run ts s)
        ≡ total (in_session agent_id session_id) (session_usage_of fl agent_id session_id s) ts
  unfolding run
  run-session [] s agent_id session_id = refl
  run-session (t ∷ ts) s agent_id session_id =
      run-session ts _ agent_id session_id
      ∙ ap (λ u. total (in_session agent_id session_id) u ts)
          (track-session t s agent_id session_id)
