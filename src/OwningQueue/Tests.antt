-- ===== src/OwningQueue/Tests.antt =====
-- A queue of four slots, in which two values are overwritten and one is left to the drop.
use comp2432_project.Prelude.{ℕ, ◌≡◌, refl, List, [], ◌∷◌, done, replicate}
use comp2432_project.RoundQueue as RoundQueue
use comp2432_project.RoundQueue.{over_slots}
use comp2432_project.OwningQueue.{
  zeroed, init, moved, OwningQueue, try_read, write_overwrite, drain, Call, write, read, read_batch,
  call, run,
}

abbrev four : OwningQueue ℕ
four = record { ring = over_slots 4 (replicate 4 zeroed); leaked = [] }

abbrev calls : List (Call ℕ)
calls = write 1 ∷ write 2 ∷ write 3 ∷ write 4 ∷ write 5 ∷ read ∷ read_batch 1 ∷ []

two_overwritten :
    run calls four
    ≡ done (
      record { items = 3 ∷ 4 ∷ []; overwrites = 2 },
      record {
        ring = record {
          buffer = init 5 ∷ init 2 ∷ moved 3 ∷ moved 4 ∷ [];
          capacity = 4;
          read_idx = 0;
          write_idx = 1;
          start_ptr = 0;
          end_ptr = 4;
        };
        leaked = 1 ∷ [];
      },
    )
unfolding run call try_read write_overwrite drain RoundQueue.ptr_read RoundQueue.ptr_write
    RoundQueue.next_index RoundQueue.acquire_read_ptr RoundQueue.commit_read
    RoundQueue.acquire_write_ptr RoundQueue.commit_write
two_overwritten = refl
