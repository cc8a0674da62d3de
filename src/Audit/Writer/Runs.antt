-- ===== src/Audit/Writer/Runs.antt =====
-- The runs of a writer, with the events that it accepted and those that a return to the buffer
-- or a cancelled flush left out.
use agentic_governance.Prelude.{◌≡◌, true, List, [], ◌∷◌, ◌++◌}
use agentic_governance.Errors.{Exception, ok, err}
use agentic_governance.Audit.Writer.{
  Stage, Flight, Stores, Writer, enqueue, take_batch, wake, advance, left_out, close, cancel,
}

module _ (E P F : Type 0) (x : Stores E P F) where
  pub data Reach (start : Writer E P F) : List E → List E → Writer E P F → Type 0 where
    here : Reach start [] [] start
    accepted :
        {taken lost : List E} {w : Writer E P F} (event : E)
        → Reach start taken lost w
        → (enqueue E P F x event w).0 ≡ ok tt
        → Reach start (event ∷ taken) lost (enqueue E P F x event w).1
    refused :
        {taken lost : List E} {w : Writer E P F} (event : E) (e : Exception)
        → Reach start taken lost w
        → (enqueue E P F x event w).0 ≡ err e
        → Reach start taken lost (enqueue E P F x event w).1
    flushed :
        {taken lost : List E} {w : Writer E P F}
        → Reach start taken lost w
        → Reach start taken lost (take_batch E P F x w)
    woken :
        {taken lost : List E} {w : Writer E P F}
        → Reach start taken lost w
        → Reach start taken lost (wake E P F x w)
    advanced :
        {taken lost : List E} {w : Writer E P F} (before : List (Flight E)) (stage : Stage)
        (batch : List E) (after : List (Flight E))
        → Reach start taken lost w
        → w.flights ≡ before ++ record { stage = stage; batch = batch } ∷ after
        → Reach start taken
            (left_out E P F x stage batch w ++ lost)
            (advance E P F x before stage batch after w)
    closed :
        {taken lost : List E} {w : Writer E P F}
        → Reach start taken lost w
        → Reach start taken lost (close E P F x w)
    cancelled :
        {taken lost : List E} {w : Writer E P F} (before : List (Flight E)) (flight : Flight E)
        (after : List (Flight E))
        → Reach start taken lost w
        → w.is_closed ≡ true
        → w.flights ≡ before ++ flight ∷ after
        → Reach start taken (flight.batch ++ lost) (cancel E P F x before after w)
