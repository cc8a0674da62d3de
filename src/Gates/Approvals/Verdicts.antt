-- ===== src/Gates/Approvals/Verdicts.antt =====
-- What `wait_for` returns, and when.
use agentic_governance.Prelude.{
  ℕ, ◌+◌, ◌≤◌, ◌≡◌, ◌⊎◌, refl, Bool, false, Option, none, some, List, [], ◌∷◌, string_eq, nat_eq,
  leb, Option-cases, Bool-cases, inl, inr, arith,
}
use agentic_governance.Errors.{Result}
use agentic_governance.Audit.Crypto.{Crypto}
use agentic_governance.Presence.{Json}
use agentic_governance.Gates.{Resolution}
use agentic_governance.Gates.Approvals.{
  Context, Approvals, Poll, sync_platform_resolution, first_poll,
}
use agentic_governance.Gates.Approvals.Waiting.{
  Tick, verdict, read_local, heard, waited, wait_loop, wait_for,
}

late : {deadline : ℕ} (now : ℕ) → leb deadline now ≡ false → deadline ≤ now → ⊥
late now g h = ground arith

module _ (c : Crypto) (j : Json) (J K S : Type 0) where
  -- Some turn reads the clock at the deadline or later.
  abbrev pub ReachesDeadline : (deadline : ℕ) → List (Tick c j J K S) → Type 0
  ReachesDeadline deadline [] = ⊥
  ReachesDeadline deadline (t ∷ ts) = (deadline ≤ t.now) ⊎ ReachesDeadline deadline ts

  -- The call has ended.
  abbrev pub HasEnded : Option (Result Bool) → Type 0
  HasEnded none = ⊥
  HasEnded (some r) = Unit

  module _ (x : Context c j J K S) (has_platform : Bool) (request_id : ℕ) (deadline : ℕ) where
    pub wait_loop-decided :
        (t : Tick c j J K S) (ts : List (Tick c j J K S)) (p : Poll) (s : Approvals c j J K S)
        (r : Resolution)
        → read_local c j J K S x has_platform request_id deadline (t.before s) ≡ some r
        → wait_loop c j J K S x has_platform request_id deadline (t ∷ ts) p s
          ≡ (some (verdict c j J K S x has_platform request_id deadline r), t.before s)
    unfolding wait_loop
    wait_loop-decided t ts p s r h = rw (h, wait_loop) refl

    pub wait_loop-told :
        (t : Tick c j J K S) (ts : List (Tick c j J K S)) (p : Poll) (s : Approvals c j J K S)
        (r : Resolution)
        → read_local c j J K S x has_platform request_id deadline (t.before s) ≡ none
        → heard c j J K S x has_platform request_id deadline t p ≡ some r
        → wait_loop c j J K S x has_platform request_id deadline (t ∷ ts) p s ≡ (
          some (verdict c j J K S x has_platform request_id deadline r),
          sync_platform_resolution c j J K S x request_id r
              (waited c j J K S x has_platform request_id deadline t p (t.before s)),
        )
    unfolding wait_loop
    wait_loop-told t ts p s r h g = rw (h, g, wait_loop) refl

    wait_loop-ends :
        (ts : List (Tick c j J K S)) (p : Poll) (s : Approvals c j J K S)
        → ReachesDeadline deadline ts
        → HasEnded (wait_loop c j J K S x has_platform request_id deadline ts p s).0
    unfolding wait_loop
    wait_loop-ends [] p s h = h
    wait_loop-ends (t ∷ ts) p s h =
        elim (Option-cases (read_local c j J K S x has_platform request_id deadline (t.before s))) [
          | inr (r, e) ↦ rw (e, wait_loop) tt
          | inl e ↦ elim (Option-cases (heard c j J K S x has_platform request_id deadline t p)) [
            | inr (r, f) ↦ rw (e, f, wait_loop) tt
            | inl f ↦ elim (Bool-cases (leb deadline t.now)) [
              | inl g ↦ rw (e, f, g, wait_loop) tt
              | inr g ↦
                  rw (e, f, g, wait_loop)
                    (elim h [
                      | inl reached ↦ elim (late t.now g reached) [ ]
                      | inr later ↦ wait_loop-ends ts _ _ later
                    ])
            ]
          ]
        ]

  -- A wait ends: once the clock of some turn has reached the deadline, `wait_for` has returned or
  -- raised, whatever the other tasks, the store and the platform did until then.
  pub wait_for_ends :
      (x : Context c j J K S) (has_platform : Bool) (request_id started timeout polls_from : ℕ)
      (ts : List (Tick c j J K S)) (s : Approvals c j J K S)
      → ReachesDeadline (started + timeout) ts
      → HasEnded (wait_for c j J K S x has_platform request_id started timeout polls_from ts s).0
  unfolding wait_for
  wait_for_ends x has_platform request_id started timeout polls_from ts s h =
      wait_loop-ends x has_platform request_id (started + timeout) ts (first_poll polls_from) s h
