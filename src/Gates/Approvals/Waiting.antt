-- ===== src/Gates/Approvals/Waiting.antt =====
-- gates/module.py: `wait_for`. One turn of its loop is a tick; the other tasks run before a turn and
-- while the platform is asked.
use agentic_governance.Prelude.{
  ℕ, ◌+◌, Bool, true, Option, none, some, List, [], ◌∷◌, leb, if◌then◌else◌, ◌&&◌,
}
use agentic_governance.Errors.{Result, ok, err, approval_denied, approval_timeout}
use agentic_governance.Audit.Crypto.{Crypto}
use agentic_governance.Presence.{Json}
use agentic_governance.Gates.{Resolution, granted, denied}
use agentic_governance.Gates.Approvals.{
  Context, Approvals, Poll, first_poll, after_poll, sync_platform_resolution,
}

module _ (c : Crypto) (j : Json) (J K S : Type 0) where
  pub record Tick : Type 0 where
    -- What the other tasks make of the state before the turn, and during the poll.
    pub before : Approvals c j J K S → Approvals c j J K S
    pub during : Approvals c j J K S → Approvals c j J K S
    pub asked_at : ℕ
    -- What poll_gate_resolution raises or answers: `none` for a status that is not terminal.
    pub answer : Result (Option Resolution)
    pub scheduled_at : ℕ
    pub draw : ℕ
    pub now : ℕ

  module _ (x : Context c j J K S) (has_platform : Bool) (request_id : ℕ) (deadline : ℕ) where
    abbrev pub verdict : Resolution → Result Bool
    verdict granted = ok true
    verdict denied = err (approval_denied request_id)

    -- An error of the store reads as still pending.
    unfoldable pub read_local : Approvals c j J K S → Option Resolution
    read_local s = elim (x.ops.get_resolution request_id s.store) [
      | ok resolution ↦ resolution
      | err e ↦ none
    ]

    abbrev pub is_due : Tick → Poll → Bool
    is_due t p = has_platform && leb p.next_poll_at t.asked_at

    abbrev pub told : Result (Option Resolution) → Option Resolution
    told (ok answer) = answer
    told (err e) = none

    -- What the platform tells in this turn, if it is asked.
    abbrev pub heard : Tick → Poll → Option Resolution
    heard t p = if is_due t p then told t.answer else none

    abbrev pub next_poll : Tick → Poll → Poll
    next_poll t p = if is_due t p then after_poll t.answer t.scheduled_at t.draw p else p

    abbrev pub waited : Tick → Poll → Approvals c j J K S → Approvals c j J K S
    waited t p s = if is_due t p then t.during s else s

    -- The turns; `none` when the listed turns are over and the call still waits.
    unfoldable pub wait_loop :
        List Tick → Poll → Approvals c j J K S → Option (Result Bool) × Approvals c j J K S
    wait_loop [] p s = (none, s)
    wait_loop (t ∷ ts) p s =
        let here = t.before s in
        let later = waited t p here in
        let rest = wait_loop ts (next_poll t p) later in
        elim (read_local here) [
          | some resolution ↦ (some (verdict resolution), here)
          | none ↦ elim (heard t p) [
            | some resolution ↦ (
              some (verdict resolution),
              sync_platform_resolution c j J K S x request_id resolution later,
            )
            | none ↦
                if leb deadline t.now
                then (some (err (approval_timeout request_id)), later)
                else rest
          ]
        ]

  unfoldable pub wait_for :
      Context c j J K S
      → (has_platform : Bool) → (request_id : ℕ) → (started timeout : ℕ) → (polls_from : ℕ)
      → List Tick
      → Approvals c j J K S
      → Option (Result Bool) × Approvals c j J K S
  unfolding wait_loop read_local
  wait_for x has_platform request_id started timeout polls_from ts s =
      wait_loop x has_platform request_id (started + timeout) ts (first_poll polls_from) s
