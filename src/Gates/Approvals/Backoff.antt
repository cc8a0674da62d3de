-- ===== src/Gates/Approvals/Backoff.antt =====
-- The pace of the platform poll in `wait_for`.
use agentic_governance.Prelude.{
  ℕ, ◌+◌, ◌≤◌, Option, List, [], ◌∷◌, leb, arith, Bool-cases, inl, inr,
}
use agentic_governance.Errors.{Result, ok, err}
use agentic_governance.Gates.{Resolution}
use agentic_governance.Gates.Approvals.{
  Poll, poll_base, poll_max, latch_seconds, latch_threshold, first_poll, note_answer, schedule,
  after_poll, jittered_interval,
}

-- A poll: its answer, the clock after it, and the jitter.
pub record Answered : Type 0 where
  pub answer : Result (Option Resolution)
  pub at : ℕ
  pub draw : ℕ

unfoldable pub polls : List Answered → Poll → Poll
polls [] p = p
polls (a ∷ rest) p = polls rest (after_poll a.answer a.at a.draw p)

abbrev pub IsPaced : Poll → Type 0
IsPaced p = (poll_base ≤ p.backoff) × (p.backoff ≤ poll_max)

after_poll-IsPaced :
    (answer : Result (Option Resolution)) (at draw : ℕ) (p : Poll)
    → IsPaced p
    → IsPaced (after_poll answer at draw p)
unfolding after_poll
after_poll-IsPaced (ok answer) at draw p h = ground arith
after_poll-IsPaced (err e) at draw p h = ground arith

polls-IsPaced : (rest : List Answered) (p : Poll) → IsPaced p → IsPaced (polls rest p)
unfolding polls
polls-IsPaced [] p h = h
polls-IsPaced (a ∷ rest) p h = polls-IsPaced rest _ (after_poll-IsPaced a.answer a.at a.draw p h)

schedule_lem :
    (at draw : ℕ) (p : Poll)
    → IsPaced p
    → draw ≤ 1000000
    → (at + 1500000 ≤ (schedule at draw p).next_poll_at)
      × ((schedule at draw p).next_poll_at ≤ at + latch_seconds)
unfolding jittered_interval
schedule_lem at draw p h g = elim (Bool-cases (leb latch_threshold p.failures)) [
  | inl e ↦ rw e (ground arith)
  | inr e ↦ rw e (ground arith)
]

-- The platform is not hammered: in one `wait_for`, after any answers and errors, the back-off stays
-- between 2 and 10 seconds, and the next poll comes at least 1.5 and at most 60 seconds after the last
-- one, for a jitter of at most half a second either way.
pub polls_keep_rate :
    (rest : List Answered) (a : Answered) (started : ℕ)
    → a.draw ≤ 1000000
    → let p = after_poll a.answer a.at a.draw (polls rest (first_poll started)) in
      IsPaced p × (a.at + 1500000 ≤ p.next_poll_at) × (p.next_poll_at ≤ a.at + latch_seconds)
unfolding after_poll
polls_keep_rate rest a started h =
    let before = polls rest (first_poll started) in
    let paced = polls-IsPaced rest (first_poll started) (omega arith, omega arith) in
    let noted = after_poll-IsPaced a.answer a.at a.draw before paced in
    let (early, late) = schedule_lem a.at a.draw (note_answer a.answer before) noted h in
    (noted, early, late)
