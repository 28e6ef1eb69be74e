-- ===== src/RoundQueue/Handles.antt =====
-- The reader and writer handles of os_lib/src/queue.rs. Both hold a raw pointer to the one queue
-- that `split` was called on, so a method is a step of that queue.
use comp2432_project.Prelude.{ℕ, Bool, Option, Outcome}
use comp2432_project.RoundQueue.{
  RwRoundQueue, try_read, len, is_empty, acquire_write_ptr, commit_write, write_overwrite,
}

module _ {ℓ} {T : Type ℓ} where
  unfoldable pub reader_read : RwRoundQueue T → Outcome (Option T × RwRoundQueue T)
  reader_read q = try_read q

  unfoldable pub reader_len : RwRoundQueue T → ℕ
  reader_len q = len q

  unfoldable pub reader_is_empty : RwRoundQueue T → Bool
  reader_is_empty q = is_empty q

  unfoldable pub writer_acquire_ptr : RwRoundQueue T → Option (ℕ × Bool)
  writer_acquire_ptr q = acquire_write_ptr q

  unfoldable pub writer_commit : Bool → RwRoundQueue T → RwRoundQueue T
  writer_commit was_full q = commit_write was_full q

  unfoldable pub writer_write : T → RwRoundQueue T → Outcome (Bool × RwRoundQueue T)
  writer_write value q = write_overwrite value q

  unfoldable pub writer_capacity : RwRoundQueue T → ℕ
  writer_capacity q = q.capacity
