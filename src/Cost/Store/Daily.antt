-- ===== src/Cost/Store/Daily.antt =====
-- The counters of the day, and the refinement: the store keeps what the ledger of its calls says.
use agentic_governance.Prelude.{
  ℕ, ◌≤◌, ◌≡◌, refl, sym, ap, ◌∙◌, subst, String, true, false, Option, none, some, List, [], ◌∷◌,
  ◌++◌, append-nil, append_assoc, arith, string_eq, nat_eq, pair_eq, ◌==◌, ltb, if◌then◌else◌,
  Bool-cases, inl, inr, default, ◌<◌, nat_beq, nat_beq_iff,
}
use agentic_governance.Prelude.Dict.{get, get-put}
use agentic_governance.Cost.Numbers.{Floats}
use agentic_governance.Cost.Store.{
  Daily, Memory, empty, add_usage, add_daily, roll, today, track_memory, session_usage_of,
  daily_usage_of, utc_day_start,
}
use agentic_governance.Cost.Store.Ledger.{
  Tracked, Entry, run, total, total-append, in_session, on_day, run-session,
}

module _ (fl : Floats) where
  -- One agent's counters: what a call makes of them.
  abbrev cell_at : (day : ℕ) → Option (Daily fl) → Daily fl
  cell_at day o = default o (fl.zero_usd, 0, day)

  abbrev next_cell : (day : ℕ) → Entry fl → Option (Daily fl) → Daily fl
  next_cell day t o = add_daily fl t.usd t.tokens (roll fl day (cell_at day o))

  -- They are of no later day.
  abbrev pub IsUntil : (day : ℕ) → Option (Daily fl) → Type 0
  IsUntil day none = Unit
  IsUntil day (some (u, n, d)) = d ≤ day

  next_cell_day :
      (day : ℕ) (t : Entry fl) (o : Option (Daily fl)) → IsUntil day o → (next_cell day t o).2 ≡ day
  next_cell_day day t none h = ground arith
  next_cell_day day t (some (u, n, d)) h = ground arith

  today-next_cell :
      (day : ℕ) (t : Entry fl) (o : Option (Daily fl))
      → IsUntil day o
      → today fl day (next_cell day t o)
        ≡ add_usage fl t.usd t.tokens (today fl day (cell_at day o))
  today-next_cell day t none h = ground arith
  today-next_cell day t (some (u, n, d)) h = elim (Bool-cases (ltb d day)) [
    | inl old ↦ rw old (ground arith)
    | inr new ↦ rw new (ground arith)
  ]

  today_over : (day : ℕ) (cell : Daily fl) → cell.2 < day → today fl day cell ≡ (fl.zero_usd, 0)
  today_over day (u, n, d) h = ground arith

  cell_at_over :
      (day later : ℕ) (o : Option (Daily fl))
      → IsUntil day o
      → day < later
      → today fl later (cell_at later o) ≡ (fl.zero_usd, 0)
  cell_at_over day later none h g = ground arith
  cell_at_over day later (some (u, n, d)) h g = ground arith

  -- The state for one agent: its counters are of no later day than the last call, and at every later
  -- moment the day's usage is what the history of that day adds up to.
  abbrev pub Represents :
      (agent_id : String) → Memory fl → (history : List (Entry fl)) → (last : ℕ) → Type 0
  Represents agent_id s history last =
      IsUntil (utc_day_start last) (get s.agent_daily agent_id)
      × ((now : ℕ)
          → last ≤ now
          → daily_usage_of fl now agent_id s
            ≡ total fl (on_day fl agent_id (utc_day_start now)) (fl.zero_usd, 0) history)

  day_mono : (m n : ℕ) → m ≤ n → utc_day_start m ≤ utc_day_start n
  unfolding utc_day_start
  day_mono m n h = omega arith

  IsUntil-mono : (d e : ℕ) (o : Option (Daily fl)) → d ≤ e → IsUntil d o → IsUntil e o
  IsUntil-mono d e none h g = tt
  IsUntil-mono d e (some (u, n, x)) h g = omega arith

  track-daily :
      (t : Entry fl) (s : Memory fl) (agent_id : String)
      → get
          (track_memory fl t.now t.agent_id t.session_id t.tokens t.usd t.model s).agent_daily
          agent_id
        ≡ (if t.agent_id == agent_id
            then some (next_cell (utc_day_start t.now) t (get s.agent_daily t.agent_id))
            else get s.agent_daily agent_id)
  unfolding track_memory
  track-daily t s agent_id =
      get-put s.agent_daily t.agent_id agent_id
        (next_cell (utc_day_start t.now) t (get s.agent_daily t.agent_id))

  -- A call of another agent.
  other-Represents :
      (agent_id : String) (s after : Memory fl) (history : List (Entry fl)) (last : ℕ)
      (t : Entry fl)
      → last ≤ t.now
      → (t.agent_id == agent_id) ≡ false
      → get after.agent_daily agent_id ≡ get s.agent_daily agent_id
      → Represents agent_id s history last
      → Represents agent_id after (history ++ t ∷ []) t.now
  unfolding daily_usage_of
  other-Represents agent_id s after history last t h other same (bound, days) = (
    subst (IsUntil (utc_day_start t.now)) (sym same) (
        IsUntil-mono (utc_day_start last) (utc_day_start t.now) (get s.agent_daily agent_id)
          (day_mono last t.now h) bound),
    λ now g.
        let day = utc_day_start now in
        let test : on_day fl agent_id day t ≡ false = rw other refl in
        ap (λ o. today fl day (cell_at day o)) same
        ∙ days now (omega arith)
        ∙ sym (total-append fl (on_day fl agent_id day) (fl.zero_usd, 0) history t ∙ rw test refl),
  )

  -- A call of the agent.
  own-Represents :
      (agent_id : String) (s after : Memory fl) (history : List (Entry fl)) (last : ℕ)
      (t : Entry fl)
      → last ≤ t.now
      → t.agent_id ≡ agent_id
      → get after.agent_daily agent_id
        ≡ some (next_cell (utc_day_start t.now) t (get s.agent_daily agent_id))
      → Represents agent_id s history last
      → Represents agent_id after (history ++ t ∷ []) t.now
  unfolding daily_usage_of
  own-Represents agent_id s after history last t h own stored (bound, days) =
      let cell = get s.agent_daily agent_id in
      let day = utc_day_start t.now in
      let until : IsUntil day cell =
        IsUntil-mono (utc_day_start last) day cell (day_mono last t.now h) bound in
      let same : (t.agent_id == agent_id) ≡ true = (string_eq.beq_iff t.agent_id agent_id).1 own in
      (
        subst (IsUntil day) (sym stored) (omega (arith, next_cell_day day t cell until)),
        λ now g.
            let there = utc_day_start now in
            let summed = total-append fl (on_day fl agent_id there) (fl.zero_usd, 0) history t in
            ap (λ o. today fl there (cell_at there o)) stored
            ∙ elim (Bool-cases (nat_beq day there)) [
              | inl today_too ↦
                  let e = (nat_beq_iff day there).0 today_too in
                  let test : on_day fl agent_id there t ≡ true = rw (same, today_too) refl in
                  ap (λ d. today fl d (next_cell day t cell)) (sym e)
                  ∙ today-next_cell day t cell until
                  ∙ ap (add_usage fl t.usd t.tokens)
                      (ap (λ d. today fl d (cell_at d cell)) e ∙ days now (omega arith))
                  ∙ sym (summed ∙ rw test refl)
              | inr earlier ↦
                  let past : day < there =
                    ground (arith, day_mono t.now now g, nat_beq_iff day there) in
                  let test : on_day fl agent_id there t ≡ false = rw (same, earlier) refl in
                  today_over there (next_cell day t cell)
                    (omega (arith, next_cell_day day t cell until))
                  ∙ sym (cell_at_over day there cell until past)
                  ∙ days now (omega arith)
                  ∙ sym (summed ∙ rw test refl)
            ],
      )

  track-Represents :
      (agent_id : String) (s : Memory fl) (history : List (Entry fl)) (last : ℕ) (t : Entry fl)
      → last ≤ t.now
      → Represents agent_id s history last
      → Represents agent_id
          (track_memory fl t.now t.agent_id t.session_id t.tokens t.usd t.model s)
          (history ++ t ∷ [])
          t.now
  track-Represents agent_id s history last t h r =
      let after = track_memory fl t.now t.agent_id t.session_id t.tokens t.usd t.model s in
      elim (Bool-cases (t.agent_id == agent_id)) [
        | inr other ↦
            other-Represents agent_id s after history last t h other
              (track-daily t s agent_id ∙ rw other refl) r
        | inl own ↦
            let e = (string_eq.beq_iff t.agent_id agent_id).0 own in
            own-Represents agent_id s after history last t h e
              (track-daily t s agent_id
                ∙ rw own
                    (ap (λ a. some (next_cell (utc_day_start t.now) t (get s.agent_daily a))) e))
              r
      ]

  -- The clock does not run fl backwards from `last` on, and stands at `now` at the latest.
  abbrev pub IsChronological : (last : ℕ) → List (Entry fl) → (now : ℕ) → Type 0
  IsChronological last [] now = last ≤ now
  IsChronological last (t ∷ ts) now = (last ≤ t.now) × IsChronological t.now ts now

  run-daily :
      (ts : List (Entry fl)) (agent_id : String) (s : Memory fl) (history : List (Entry fl))
      (last now : ℕ)
      → Represents agent_id s history last
      → IsChronological last ts now
      → daily_usage_of fl now agent_id (run fl ts s)
        ≡ total fl (on_day fl agent_id (utc_day_start now)) (fl.zero_usd, 0) (history ++ ts)
  unfolding run
  run-daily [] agent_id s history last now r h =
      r.1 now h
      ∙ ap (total fl (on_day fl agent_id (utc_day_start now)) (fl.zero_usd, 0))
          (sym (append-nil history))
  run-daily (t ∷ ts) agent_id s history last now r (h, hs) =
      run-daily ts agent_id _ (history ++ t ∷ []) t.now now
        (track-Represents agent_id s history last t h r) hs
      ∙ ap (total fl (on_day fl agent_id (utc_day_start now)) (fl.zero_usd, 0))
          (append_assoc history (t ∷ []) ts)

  empty-Represents : (agent_id : String) → Represents agent_id (empty fl) [] 0
  unfolding daily_usage_of get
  empty-Represents agent_id = (tt, λ now h. ground arith)

-- The counters are the ledger: after any `track` calls on an empty store, on a clock that does not run fl
-- backwards, the usage of a session is what its calls add up to, in their order, and the usage of an
-- agent on the current UTC day is what its calls of that day add up to. Nothing is lost, and nothing of
-- another session, agent or day is counted.
pub store_keeps_ledger :
    (fl : Floats) (calls : List (Tracked fl.Float)) (now : ℕ) (agent_id : String) (session_id : ℕ)
    → IsChronological fl 0 calls now
    → (session_usage_of fl agent_id session_id (run fl calls (empty fl))
        ≡ total fl (in_session fl agent_id session_id) (fl.zero_usd, 0) calls)
      × (daily_usage_of fl now agent_id (run fl calls (empty fl))
          ≡ total fl (on_day fl agent_id (utc_day_start now)) (fl.zero_usd, 0) calls)
unfolding session_usage_of get
store_keeps_ledger fl calls now agent_id session_id h = (
  run-session fl calls (empty fl) agent_id session_id,
  run-daily fl calls agent_id (empty fl) [] 0 now (empty-Represents fl agent_id) h,
)
