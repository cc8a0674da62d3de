-- ===== src/Tests/WriterRuns.antt =====
-- A writer whose two stores fail once each, while its buffer fills again.
use agentic_governance.Prelude.{
  ℕ, ◌≤◌, ◌≡◌, ◌⊎◌, refl, Bool, true, false, List, [], ◌∷◌, length, inl, inr,
}
use agentic_governance.Errors.{None, ok, err, store_unavailable}
use agentic_governance.Exec.{Exec}
use agentic_governance.Audit.Writer.{
  Stage, to_primary, to_fallback, to_requeue, Stores, Writer, init_writer, enqueue, take_batch,
  advance,
}
use agentic_governance.Audit.Writer.Runs.{Reach, here, accepted, flushed, advanced}
use agentic_governance.Audit.Writer.Held.{Has}
use agentic_governance.Audit.Writer.Delivery.{watched_stores, IsDelivered, Reach-IsDelivered}
use agentic_governance.Audit.Writer.Bounds.{Reach-IsWithin}

-- Which of the next writes of a store fail.
abbrev Disk : Type 0
Disk = List Bool

abbrev write : List ℕ → Exec Disk None
write es [] = (ok tt, [])
write es (false ∷ fails) = (ok tt, fails)
write es (true ∷ fails) = (err store_unavailable, fails)

abbrev disks : Stores ℕ Disk Disk
disks = record { write_primary = write; write_fallback = write; batch_size = 2; buffer_max = 2 }

abbrev Side : Type 0
Side = Disk × List ℕ

abbrev stores : Stores ℕ Side Side
stores = watched_stores ℕ Disk Disk disks

abbrev failing : Disk
failing = true ∷ []

abbrev W : Type 0
W = Writer ℕ Side Side

abbrev start : W
start = init_writer ℕ Side Side stores (failing, []) (failing, [])

abbrev put_in : ℕ → W → W
put_in e w = (enqueue ℕ Side Side stores e w).1

-- Two events, a flush that takes them, and two more that fill the buffer.
abbrev waiting : W
waiting = put_in 4 (put_in 3 (take_batch ℕ Side Side stores (put_in 2 (put_in 1 start))))

abbrev turn : Stage → W → W
turn stage w = advance ℕ Side Side stores [] stage (1 ∷ 2 ∷ []) [] w

abbrev returned : W
returned = turn to_requeue (turn to_fallback (turn to_primary waiting))

waiting_reached : Reach ℕ Side Side stores start (4 ∷ 3 ∷ 2 ∷ 1 ∷ []) [] waiting
unfolding enqueue take_batch
waiting_reached =
    accepted 4 (accepted 3 (flushed (accepted 2 (accepted 1 here refl) refl)) refl) refl

-- The buffer has no room for the two events that come back.
returned_reached : Reach ℕ Side Side stores start (4 ∷ 3 ∷ 2 ∷ 1 ∷ []) (1 ∷ 2 ∷ []) returned
unfolding enqueue take_batch advance
returned_reached =
    advanced [] to_requeue (1 ∷ 2 ∷ []) []
      (advanced [] to_fallback (1 ∷ 2 ∷ []) []
        (advanced [] to_primary (1 ∷ 2 ∷ []) [] waiting_reached refl) refl)
      refl

returned_buffer : returned.buffer ≡ 3 ∷ 4 ∷ []
unfolding enqueue take_batch advance
returned_buffer = refl

Reach-IsDelivered_example : IsDelivered ℕ Disk Disk disks 1 returned ⊎ Has {E = ℕ} 1 (1 ∷ 2 ∷ [])
Reach-IsDelivered_example =
    Reach-IsDelivered ℕ Disk Disk disks failing failing (4 ∷ 3 ∷ 2 ∷ 1 ∷ []) (1 ∷ 2 ∷ []) returned 1
      returned_reached (inr (inr (inr (inl refl))))

Reach-IsWithin_example : length returned.buffer ≤ 2
Reach-IsWithin_example =
    Reach-IsWithin ℕ Side Side stores (failing, []) (failing, []) (4 ∷ 3 ∷ 2 ∷ 1 ∷ []) (1 ∷ 2 ∷ [])
      returned returned_reached
