-- ===== src/Audit/Writer/Bounds.antt =====
-- The buffer of a writer stays within its bound, also where flushes return their batches.
use agentic_governance.Prelude.{
  ℕ, zero, suc, ◌+◌, ◌≤◌, ◌≡◌, false, List, [], ◌∷◌, ◌++◌, length, length-append, take, leb, arith,
  Bool-cases, inl, inr,
}
use agentic_governance.Errors.{Result-cases}
use agentic_governance.Audit.Writer.{
  Stage, to_primary, to_fallback, to_requeue, Flight, Stores, Writer, init_writer, enqueue,
  take_batch, space, advance,
}
use agentic_governance.Audit.Writer.Runs.{
  Reach, here, accepted, refused, flushed, woken, advanced, closed, cancelled,
}

module _ (E P F : Type 0) (x : Stores E P F) where
  abbrev pub IsWithin : Writer E P F → Type 0
  IsWithin w = length w.buffer ≤ x.buffer_max

  length-take : (n : ℕ) (es : List E) → length (take n es) ≤ n
  length-take zero es = omega arith
  length-take (suc n) [] = omega arith
  length-take (suc n) (e ∷ es) = omega (arith, length-take n es)

  enqueue-IsWithin :
      (event : E) (w : Writer E P F) → IsWithin w → IsWithin (enqueue E P F x event w).1
  unfolding enqueue
  enqueue-IsWithin event w h = elim (Bool-cases w.is_closed) [
    | inl c ↦ rw (c, enqueue) h
    | inr c ↦ elim (Bool-cases (leb x.buffer_max (length w.buffer))) [
      | inl d ↦ rw (c, d, enqueue) h
      | inr d ↦
          rw (c, d, enqueue)
            (room (length w.buffer) (length (w.buffer ++ event ∷ [])) d
              (length-append w.buffer (event ∷ [])))
    ]
  ]
    where
      room : (n m : ℕ) → leb x.buffer_max n ≡ false → m ≡ n + 1 → m ≤ x.buffer_max
      room n m h e = ground (arith, h, e)

  take_batch-IsWithin : (w : Writer E P F) → IsWithin w → IsWithin (take_batch E P F x w)
  unfolding take_batch
  take_batch-IsWithin w = moved w.buffer
    where
      moved :
          (es : List E)
          → length es ≤ x.buffer_max
          → IsWithin (take_batch E P F x (record w { buffer = es }))
      moved [] h = h
      moved (e ∷ es) h = omega arith

  advance-IsWithin :
      (before : List (Flight E)) (stage : Stage) (batch : List E) (after : List (Flight E))
      (w : Writer E P F)
      → IsWithin w
      → IsWithin (advance E P F x before stage batch after w)
  unfolding advance
  advance-IsWithin before to_primary batch after w h =
      elim (Result-cases (x.write_primary batch w.primary).0) [
        | inl (_, f) ↦ rw (f, advance) h
        | inr (_, f) ↦ rw (f, advance) h
      ]
  advance-IsWithin before to_fallback batch after w h =
      elim (Result-cases (x.write_fallback batch w.fallback).0) [
        | inl (_, f) ↦ rw (f, advance) h
        | inr (_, f) ↦ rw (f, advance) h
      ]
  advance-IsWithin before to_requeue batch after w h =
      let n = space E P F x w in
      omega (arith, h, length-append w.buffer (take n batch), length-take n batch)

  -- Whatever the order of the calls and of the turns of the flushes, and whichever writes fail, the
  -- buffer of a writer never holds more than `buffer_max` events.
  pub Reach-IsWithin :
      (p : P) (f : F) (taken lost : List E) (w : Writer E P F)
      → Reach E P F x (init_writer E P F x p f) taken lost w
      → length w.buffer ≤ x.buffer_max
  Reach-IsWithin p f taken lost w here = omega arith
  Reach-IsWithin p f taken lost w (accepted {taken = t} {w = v} event reach done) =
      enqueue-IsWithin event v (Reach-IsWithin p f t lost v reach)
  Reach-IsWithin p f taken lost w (refused {w = v} event y reach done) =
      enqueue-IsWithin event v (Reach-IsWithin p f taken lost v reach)
  Reach-IsWithin p f taken lost w (flushed {w = v} reach) =
      take_batch-IsWithin v (Reach-IsWithin p f taken lost v reach)
  Reach-IsWithin p f taken lost w (woken {w = v} reach) =
      take_batch-IsWithin v (Reach-IsWithin p f taken lost v reach)
  Reach-IsWithin p f taken lost w
        (advanced {lost = l} {w = v} before stage batch after reach same) =
      advance-IsWithin before stage batch after v (Reach-IsWithin p f taken l v reach)
  Reach-IsWithin p f taken lost w (closed {w = v} reach) = Reach-IsWithin p f taken lost v reach
  Reach-IsWithin p f taken lost w
        (cancelled {lost = l} {w = v} before flight after reach shut same) =
      Reach-IsWithin p f taken l v reach
