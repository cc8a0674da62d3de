-- ===== src/Audit/Writer.antt =====
-- audit/store.py: `BatchingWriter`, over a primary and a fallback store. Tasks run between its awaits:
-- a flush takes the buffer under the lock, and what it then waits for is a step of its own.
pub mod Runs
pub mod Held
pub mod Conservation
pub mod Bounds
pub mod Delivery
use agentic_governance.Prelude.{
  ℕ, ◌-◌, Bool, true, false, List, [], ◌∷◌, ◌++◌, length, take, drop, leb, if◌then◌else◌, ◌||◌,
}
use agentic_governance.Errors.{None, Result, ok, err, store_unavailable}
use agentic_governance.Exec.{Exec}

-- What a flush does next with its batch: the write to the primary store, to the fallback, or the
-- return to the buffer.
pub data Stage : Type 0 where
  to_primary to_fallback to_requeue : Stage

module _ (E : Type 0) where
  pub record Flight : Type 0 where
    pub stage : Stage
    pub batch : List E

  -- `AuditStore.write_batch` of the two stores. A timeout is an exception, after any change.
  pub record Stores (P F : Type 0) : Type 0 where
    pub write_primary : List E → Exec P None
    pub write_fallback : List E → Exec F None
    pub batch_size : ℕ
    pub buffer_max : ℕ

  -- `flights` are the flushes that wait, in the order of their start.
  pub record Writer (P F : Type 0) : Type 0 where
    pub primary : P
    pub fallback : F
    pub buffer : List E
    pub flights : List Flight
    pub flush_wanted : Bool
    pub is_closed : Bool
    pub degraded : Bool

  module _ (P F : Type 0) (x : Stores P F) where
    abbrev pub init_writer : P → F → Writer P F
    init_writer primary fallback = record {
      primary = primary;
      fallback = fallback;
      buffer = [];
      flights = [];
      flush_wanted = false;
      is_closed = false;
      degraded = false;
    }

    -- The event spills to the fallback.
    abbrev pub spill : E → Exec (Writer P F) None
    spill event w =
        let (r, f) = x.write_fallback (event ∷ []) w.fallback in (r, record w { fallback = f })

    abbrev pub push_event : E → Writer P F → Writer P F
    push_event event w =
        let buffer = w.buffer ++ event ∷ [] in
        record w {
          buffer = buffer;
          flush_wanted = w.flush_wanted || leb x.batch_size (length buffer);
        }

    unfoldable pub enqueue : E → Exec (Writer P F) None
    enqueue event w =
        if w.is_closed
        then (err store_unavailable, w)
        else if leb x.buffer_max (length w.buffer)
        then spill event w
        else (ok tt, push_event event w)

    -- `_flush_once` up to the release of the lock.
    unfoldable pub take_batch : Writer P F → Writer P F
    take_batch w = elim w.buffer [
      | [] ↦ w
      | e ∷ es ↦ record w {
        buffer = [];
        flights = w.flights ++ record { stage = to_primary; batch = e ∷ es } ∷ [];
      }
    ]

    -- The background loop clears the event and flushes.
    abbrev pub wake : Writer P F → Writer P F
    wake w = record (take_batch w) { flush_wanted = false }

    abbrev pub with_flight : List Flight → Flight → List Flight → Writer P F → Writer P F
    with_flight before flight after w = record w { flights = before ++ flight ∷ after }

    abbrev pub without_flight : List Flight → List Flight → Writer P F → Writer P F
    without_flight before after w = record w { flights = before ++ after }

    abbrev pub settle_primary :
        List Flight → List E → List Flight → Result None → Writer P F → Writer P F
    settle_primary before batch after (ok _) w =
        without_flight before after (record w { degraded = false })
    settle_primary before batch after (err e) w =
        with_flight before (record { stage = to_fallback; batch = batch }) after
          (record w { degraded = true })

    abbrev pub settle_fallback :
        List Flight → List E → List Flight → Result None → Writer P F → Writer P F
    settle_fallback before batch after (ok _) w = without_flight before after w
    settle_fallback before batch after (err e) w =
        with_flight before (record { stage = to_requeue; batch = batch }) after w

    -- self._buffer_max - len(self._buffer); the buffer is never longer
    abbrev pub space : Writer P F → ℕ
    space w = x.buffer_max - length w.buffer

    -- A flush goes on; its turn among the others is given.
    unfoldable pub advance : List Flight → Stage → List E → List Flight → Writer P F → Writer P F
    advance before to_primary batch after w =
        let (r, p) = x.write_primary batch w.primary in
        settle_primary before batch after r (record w { primary = p })
    advance before to_fallback batch after w =
        let (r, f) = x.write_fallback batch w.fallback in
        settle_fallback before batch after r (record w { fallback = f })
    advance before to_requeue batch after w =
        without_flight before after (record w { buffer = w.buffer ++ take (space w) batch })

    -- What the return to the buffer leaves out: batch[space:].
    abbrev pub left_out : Stage → List E → Writer P F → List E
    left_out to_primary batch w = []
    left_out to_fallback batch w = []
    left_out to_requeue batch w = drop (space w) batch

    -- `close` up to its first await.
    abbrev pub close : Writer P F → Writer P F
    close w = record w { is_closed = true; flush_wanted = true }

    -- After two seconds `close` cancels the task of the background loop: the flush that it waits for
    -- ends, and its batch is in no buffer.
    abbrev pub cancel : List Flight → List Flight → Writer P F → Writer P F
    cancel = without_flight
