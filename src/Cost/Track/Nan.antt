-- ===== src/Cost/Track/Nan.antt =====
-- `track` of a price that is not a number.
use agentic_governance.Prelude.{
  ℕ, ◌+◌, ◌≡◌, refl, ap, ◌∙◌, String, Bool, Option, none, some, List, [], ◌∷◌, string_eq,
  Bool-cases, inl, inr, if◌then◌else◌, nat_eq,
}
use agentic_governance.Audit.Crypto.{Crypto}
use agentic_governance.Presence.{Json}
use agentic_governance.Cost.{Cost, Context}
use agentic_governance.Cost.Numbers.{Floats, pos, IsNan}
use agentic_governance.Cost.Store.{Memory, session_usage_of, add_usage}
use agentic_governance.Cost.Store.Ledger.{Tracked, run, total, in_session, run-session}
use agentic_governance.Cost.Policy.{usd_breach}
use agentic_governance.Cost.Track.{track}
use agentic_governance.Errors.{per_session_usd}
use agentic_governance.Cost.Track.Counters.{on_memory, usage_in, track_tokens}

module _ (c : Crypto) (j : Json) (fl : Floats) where
  nan_total :
      (nan : fl.Float) (calls : List (Tracked fl.Float)) (test : Tracked fl.Float → Bool)
      (tokens : ℕ)
      → IsNan fl nan
      → (total fl test (nan, tokens) calls).0 ≡ nan
  nan_total nan [] test tokens h = refl
  nan_total nan (t ∷ ts) test tokens h =
      let branch = λ (b : Bool).
        (total fl test (if b then add_usage fl t.usd t.tokens (nan, tokens) else (nan, tokens))
          ts).0 in
      elim (Bool-cases (test t)) [
        | inl g ↦
            ap branch g
            ∙ ap (λ f. (total fl test (f, tokens + t.tokens) ts).0) (h.nan_add t.usd)
            ∙ nan_total nan ts test (tokens + t.tokens) h
        | inr g ↦ ap branch g ∙ nan_total nan ts test tokens h
      ]

  -- One NaN lifts the cap: `track` takes it, as `usd < 0.0` does not hold of it, and whatever is tracked
  -- later the session's spending is over no dollar cap.
  pub nan_lifts_cap :
      (x : Context c j fl (Memory fl)) (nan limit : fl.Float) (agent_id : String)
      (session_id tokens : ℕ) (model : Option String) (s : Cost c j fl (Memory fl))
      (calls : List (Tracked fl.Float))
      → IsNan fl nan
      → usd_breach fl per_session_usd
          (some limit)
          (session_usage_of fl agent_id session_id (
            run fl calls
              (track c j fl
                (Memory fl)
                (on_memory c j fl x)
                agent_id
                session_id
                (pos tokens)
                nan
                model
                s).1.store)).0
        ≡ none
  nan_lifts_cap x nan limit agent_id session_id tokens model s calls h =
      let before = usage_in c j fl agent_id session_id s in
      let test = in_session fl agent_id session_id in
      let spent =
        ap (λ u. (total fl test u calls).0)
          (track_tokens c j fl x agent_id session_id tokens nan model s (h.nan_lt fl.zero_usd)
            ∙ ap (λ u. (u, before.1 + tokens)) (h.add_nan before.0))
        ∙ nan_total nan calls test (before.1 + tokens) h in
      ap (λ r. usd_breach fl per_session_usd (some limit) r.0)
        (run-session fl calls _ agent_id session_id)
      ∙ ap (usd_breach fl per_session_usd (some limit)) spent
      ∙ rw (h.lt_nan limit) refl
