-- ===== src/Audit/Writer/Conservation.antt =====
-- No event that the writer accepted is lost, but for what a return to the buffer leaves out.
use agentic_governance.Prelude.{◌≡◌, ◌⊎◌, subst, List, [], ◌∷◌, ◌++◌, take, inl, inr}
use agentic_governance.Errors.{Result-cases}
use agentic_governance.Audit.Writer.{
  Stage, to_primary, to_fallback, to_requeue, Flight, Stores, Writer, init_writer, enqueue,
  take_batch, space, advance, left_out,
}
use agentic_governance.Audit.Writer.Runs.{
  Reach, here, accepted, refused, flushed, woken, advanced, closed, cancelled,
}
use agentic_governance.Audit.Writer.Held.{
  Has, InFlight, Has-left, Has-right, Has-take, InFlight-left, InFlight-right, InFlight-split,
  InFlight-join, IsKeeping, IsHeld, enqueue-IsHeld, accepted-IsHeld,
}

module _ (E P F : Type 0) (x : Stores E P F) (stored_p : E → P → Type 0) (stored_f : E → F → Type 0)
    (keeping : IsKeeping E P F x stored_p stored_f) where
  take_batch-IsHeld :
      (e : E) (w : Writer E P F)
      → IsHeld E P F x stored_p stored_f e w
      → IsHeld E P F x stored_p stored_f e (take_batch E P F x w)
  unfolding take_batch
  take_batch-IsHeld e w = moved w.buffer
    where
      moved :
          (es : List E)
          → Has e es ⊎ (InFlight e w.flights ⊎ (stored_p e w.primary ⊎ stored_f e w.fallback))
          → IsHeld E P F x stored_p stored_f e (take_batch E P F x (record w { buffer = es }))
      moved [] h = h
      moved (y ∷ ys) (inl h) = inr (
          inl (
            InFlight-right e w.flights (record { stage = to_primary; batch = y ∷ ys } ∷ [])
              (inl h)))
      moved (y ∷ ys) (inr (inl h)) =
          inr
            (inl (InFlight-left e w.flights (record { stage = to_primary; batch = y ∷ ys } ∷ []) h))
      moved (y ∷ ys) (inr (inr h)) = inr (inr h)

  -- Where an event of the flush that goes on is, or another one.
  abbrev Elsewhere : E → List (Flight E) → Writer E P F → Type 0
  Elsewhere e rest w =
      Has e w.buffer ⊎ (InFlight e rest ⊎ (stored_p e w.primary ⊎ stored_f e w.fallback))

  cases_of :
      (e : E) (before : List (Flight E)) (f : Flight E) (after : List (Flight E)) (w : Writer E P F)
      → w.flights ≡ before ++ f ∷ after
      → IsHeld E P F x stored_p stored_f e w
      → Has e f.batch ⊎ Elsewhere e (before ++ after) w
  cases_of e before f after w same (inl h) = inr (inl h)
  cases_of e before f after w same (inr (inl h)) =
      elim (InFlight-split e before f after (subst (InFlight e) same h)) [
        | inl k ↦ inl k
        | inr k ↦ inr (inr (inl k))
      ]
  cases_of e before f after w same (inr (inr h)) = inr (inr (inr h))

  primary-IsHeld :
      (e : E) (before : List (Flight E)) (batch : List E) (after : List (Flight E))
      (w : Writer E P F)
      → Has e batch ⊎ Elsewhere e (before ++ after) w
      → IsHeld E P F x stored_p stored_f e (advance E P F x before to_primary batch after w)
  unfolding advance
  primary-IsHeld e before batch after w h =
      elim (Result-cases (x.write_primary batch w.primary).0) [
        | inl (_, f) ↦
            rw (f, advance)
              (elim h [
                | inl k ↦ inr (inr (inl (keeping.primary_stores batch w.primary e f k)))
                | inr (inl k) ↦ inl k
                | inr (inr (inl k)) ↦ inr (inl k)
                | inr (inr (inr (inl k))) ↦
                    inr (inr (inl (keeping.primary_keeps batch w.primary e k)))
                | inr (inr (inr (inr k))) ↦ inr (inr (inr k))
              ])
        | inr (_, f) ↦
            rw (f, advance)
              (elim h [
                | inl k ↦ inr (
                    inl (
                      InFlight-join e before (record { stage = to_fallback; batch = batch }) after
                        (inl k)))
                | inr (inl k) ↦ inl k
                | inr (inr (inl k)) ↦ inr (
                    inl (
                      InFlight-join e before (record { stage = to_fallback; batch = batch }) after
                        (inr k)))
                | inr (inr (inr (inl k))) ↦
                    inr (inr (inl (keeping.primary_keeps batch w.primary e k)))
                | inr (inr (inr (inr k))) ↦ inr (inr (inr k))
              ])
      ]

  fallback-IsHeld :
      (e : E) (before : List (Flight E)) (batch : List E) (after : List (Flight E))
      (w : Writer E P F)
      → Has e batch ⊎ Elsewhere e (before ++ after) w
      → IsHeld E P F x stored_p stored_f e (advance E P F x before to_fallback batch after w)
  unfolding advance
  fallback-IsHeld e before batch after w h =
      elim (Result-cases (x.write_fallback batch w.fallback).0) [
        | inl (_, f) ↦
            rw (f, advance)
              (elim h [
                | inl k ↦ inr (inr (inr (keeping.fallback_stores batch w.fallback e f k)))
                | inr (inl k) ↦ inl k
                | inr (inr (inl k)) ↦ inr (inl k)
                | inr (inr (inr (inl k))) ↦ inr (inr (inl k))
                | inr (inr (inr (inr k))) ↦
                    inr (inr (inr (keeping.fallback_keeps batch w.fallback e k)))
              ])
        | inr (_, f) ↦
            rw (f, advance)
              (elim h [
                | inl k ↦ inr (
                    inl (
                      InFlight-join e before (record { stage = to_requeue; batch = batch }) after
                        (inl k)))
                | inr (inl k) ↦ inl k
                | inr (inr (inl k)) ↦ inr (
                    inl (
                      InFlight-join e before (record { stage = to_requeue; batch = batch }) after
                        (inr k)))
                | inr (inr (inr (inl k))) ↦ inr (inr (inl k))
                | inr (inr (inr (inr k))) ↦
                    inr (inr (inr (keeping.fallback_keeps batch w.fallback e k)))
              ])
      ]

  requeue-IsHeld :
      (e : E) (before : List (Flight E)) (batch : List E) (after : List (Flight E))
      (w : Writer E P F)
      → Has e batch ⊎ Elsewhere e (before ++ after) w
      → IsHeld E P F x stored_p stored_f e (advance E P F x before to_requeue batch after w)
        ⊎ Has e (left_out E P F x to_requeue batch w)
  unfolding advance
  requeue-IsHeld e before batch after w (inl k) = elim (Has-take e (space E P F x w) batch k) [
    | inl t ↦ inl (inl (Has-right e w.buffer (take (space E P F x w) batch) t))
    | inr d ↦ inr d
  ]
  requeue-IsHeld e before batch after w (inr (inl k)) =
      inl (inl (Has-left e w.buffer (take (space E P F x w) batch) k))
  requeue-IsHeld e before batch after w (inr (inr k)) = inl (inr k)

  advance-IsHeld :
      (e : E) (before : List (Flight E)) (stage : Stage) (batch : List E) (after : List (Flight E))
      (w : Writer E P F)
      → w.flights ≡ before ++ record { stage = stage; batch = batch } ∷ after
      → IsHeld E P F x stored_p stored_f e w
      → IsHeld E P F x stored_p stored_f e (advance E P F x before stage batch after w)
        ⊎ Has e (left_out E P F x stage batch w)
  advance-IsHeld e before to_primary batch after w same h = inl (
      primary-IsHeld e before batch after w
        (cases_of e before (record { stage = to_primary; batch = batch }) after w same h))
  advance-IsHeld e before to_fallback batch after w same h = inl (
      fallback-IsHeld e before batch after w
        (cases_of e before (record { stage = to_fallback; batch = batch }) after w same h))
  advance-IsHeld e before to_requeue batch after w same h =
      requeue-IsHeld e before batch after w
        (cases_of e before (record { stage = to_requeue; batch = batch }) after w same h)

  -- Whatever the order of the calls and of the turns of the flushes, and whichever writes fail, an
  -- event that `enqueue` accepted is in the buffer, in a flush or in a store, or was left out when a
  -- flush whose two writes failed returned its batch to a buffer with too little room, or was in a
  -- flush that `close` cancelled. The stores lose nothing, and keep what they accept.
  pub Reach-IsHeld :
      (p : P) (f : F) (taken lost : List E) (w : Writer E P F) (e : E)
      → Reach E P F x (init_writer E P F x p f) taken lost w
      → Has e taken
      → IsHeld E P F x stored_p stored_f e w ⊎ Has e lost
  Reach-IsHeld p f taken lost w e here h = elim h [ ]
  Reach-IsHeld p f taken lost w e (accepted {w = v} event reach done) (inl same) = inl (
      subst (λ y. IsHeld E P F x stored_p stored_f y (enqueue E P F x event v).1) same
        (accepted-IsHeld E P F x stored_p stored_f keeping event v done))
  Reach-IsHeld p f taken lost w e (accepted {w = v} event reach done) (inr h) =
      elim (Reach-IsHeld p f _ lost v e reach h) [
        | inl k ↦ inl (enqueue-IsHeld E P F x stored_p stored_f keeping event e v k)
        | inr k ↦ inr k
      ]
  Reach-IsHeld p f taken lost w e (refused {w = v} event y reach done) h =
      elim (Reach-IsHeld p f taken lost v e reach h) [
        | inl k ↦ inl (enqueue-IsHeld E P F x stored_p stored_f keeping event e v k)
        | inr k ↦ inr k
      ]
  Reach-IsHeld p f taken lost w e (flushed {w = v} reach) h =
      elim (Reach-IsHeld p f taken lost v e reach h) [
        | inl k ↦ inl (take_batch-IsHeld e v k)
        | inr k ↦ inr k
      ]
  Reach-IsHeld p f taken lost w e (woken {w = v} reach) h =
      elim (Reach-IsHeld p f taken lost v e reach h) [
        | inl k ↦ inl (take_batch-IsHeld e v k)
        | inr k ↦ inr k
      ]
  Reach-IsHeld p f taken lost w e
        (advanced {lost = before_lost} {w = v} before stage batch after reach same) h =
      elim (Reach-IsHeld p f taken before_lost v e reach h) [
        | inl k ↦ elim (advance-IsHeld e before stage batch after v same k) [
          | inl m ↦ inl m
          | inr m ↦ inr (Has-left e (left_out E P F x stage batch v) before_lost m)
        ]
        | inr k ↦ inr (Has-right e (left_out E P F x stage batch v) before_lost k)
      ]
  Reach-IsHeld p f taken lost w e (closed {w = v} reach) h = Reach-IsHeld p f taken lost v e reach h
  Reach-IsHeld p f taken lost w e
        (cancelled {lost = before_lost} {w = v} before flight after reach shut same) h =
      elim (Reach-IsHeld p f taken before_lost v e reach h) [
        | inl k ↦ elim (cases_of e before flight after v same k) [
          | inl m ↦ inr (Has-left e flight.batch before_lost m)
          | inr m ↦ inl m
        ]
        | inr k ↦ inr (Has-right e flight.batch before_lost k)
      ]
