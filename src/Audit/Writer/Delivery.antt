-- ===== src/Audit/Writer/Delivery.antt =====
-- What becomes of an event that the writer accepted, over any two stores: the writes are watched, and
-- the batches of those that returned are listed.
use agentic_governance.Prelude.{◌≡◌, ◌⊎◌, List, [], ◌++◌, arith}
use agentic_governance.Errors.{None, Result, Exception, ok, err}
use agentic_governance.Exec.{Exec}
use agentic_governance.Audit.Writer.{Stores, Writer, init_writer}
use agentic_governance.Audit.Writer.Runs.{Reach}
use agentic_governance.Audit.Writer.Held.{Has, InFlight, Has-left, Has-right, IsKeeping}
use agentic_governance.Audit.Writer.Conservation.{Reach-IsHeld}

module _ {E S : Type 0} where
  -- The events of the writes that returned, with those of one more if it returned.
  abbrev pub with_batch : (done es : List E) → Result None × S → Result None × (S × List E)
  with_batch done es (ok _, s) = (ok tt, (s, done ++ es))
  with_batch done es (err e, s) = (err e, (s, done))

  abbrev pub watched : (List E → Exec S None) → List E → Exec (S × List E) None
  watched write es (s, done) = with_batch done es (write es s)

  with_batch-stores :
      (done es : List E) (q : Result None × S) (e : E)
      → (with_batch done es q).0 ≡ ok tt
      → Has e es
      → Has e (with_batch done es q).1.1
  with_batch-stores done es (ok _, s) e h k = Has-right e done es k
  with_batch-stores done es (err x, s) e h k = elim (apart h) [ ]
    where
      apart : {x : Exception} → ◌≡◌ {0} {A = Result None} (err x) (ok tt) → ⊥
      apart h = ground (arith, h)

  with_batch-keeps :
      (done es : List E) (q : Result None × S) (e : E)
      → Has e done
      → Has e (with_batch done es q).1.1
  with_batch-keeps done es (ok _, s) e k = Has-left e done es k
  with_batch-keeps done es (err x, s) e k = k

module _ (E P F : Type 0) (x : Stores E P F) where
  -- The same stores, watched.
  abbrev pub watched_stores : Stores E (P × List E) (F × List E)
  watched_stores = record {
    write_primary = watched x.write_primary;
    write_fallback = watched x.write_fallback;
    batch_size = x.batch_size;
    buffer_max = x.buffer_max;
  }

  abbrev Watched : Type 0
  Watched = Writer E (P × List E) (F × List E)

  -- In the buffer, in a flush, or in a write to a store that returned.
  abbrev pub IsDelivered : E → Watched → Type 0
  IsDelivered e w =
      Has e w.buffer ⊎ (InFlight e w.flights ⊎ (Has e w.primary.1 ⊎ Has e w.fallback.1))

  watched-IsKeeping :
      IsKeeping E (P × List E) (F × List E) watched_stores (λ e p. Has e p.1) (λ e f. Has e f.1)
  watched-IsKeeping = record {
    primary_stores = λ es (p, done) e h k. with_batch-stores done es (x.write_primary es p) e h k;
    primary_keeps = λ es (p, done) e k. with_batch-keeps done es (x.write_primary es p) e k;
    fallback_stores = λ es (f, done) e h k. with_batch-stores done es (x.write_fallback es f) e h k;
    fallback_keeps = λ es (f, done) e k. with_batch-keeps done es (x.write_fallback es f) e k;
  }

  -- Over any two stores, whatever the order of the calls and of the turns of the flushes, and
  -- whichever writes fail: an event that `enqueue` accepted is in the buffer or in a flush, or a write
  -- of it to the primary store or to the fallback returned, or it was left out when a flush whose two
  -- writes failed returned its batch to a buffer with too little room, or it was in a flush that
  -- `close` cancelled.
  pub Reach-IsDelivered :
      (p : P) (f : F) (taken lost : List E) (w : Watched) (e : E)
      → Reach E
          (P × List E)
          (F × List E)
          watched_stores
          (init_writer E (P × List E) (F × List E) watched_stores (p, []) (f, []))
          taken
          lost
          w
      → Has e taken
      → IsDelivered e w ⊎ Has e lost
  Reach-IsDelivered p f taken lost w e reach h =
      Reach-IsHeld E (P × List E) (F × List E) watched_stores (λ e p. Has e p.1) (λ e f. Has e f.1)
        watched-IsKeeping (p, []) (f, []) taken lost w e reach h
