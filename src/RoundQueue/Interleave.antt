-- ===== src/RoundQueue/Interleave.antt =====
-- One reader thread in `QueueReader::read` and one writer thread in `QueueWriter::write`, both of
-- os_lib/src/queue.rs, interleaved between any two accesses to shared memory. Atomic accesses are
-- taken in one order that both threads see.
pub mod Safety
pub mod Halves
pub mod Knows
pub mod Moves
pub mod Order
pub mod Lost
mod Tests
use comp2432_project.Prelude.{
  ℕ, Bool, true, false, ◌||◌, List, [], ◌∷◌, ◌++◌, Outcome, done, ◌>>=◌, if◌then◌else◌, ◌==◌,
}
use comp2432_project.RoundQueue.{RwRoundQueue, next_index, ptr_read, ptr_write}

-- Where the reader stands in `try_read`, with the locals that are live there: before
-- `acquire_read_ptr`, between its two loads, before `ptr::read`, before the load of `commit_read`,
-- before its store.
pub data ReaderPc {ℓ} (T : Type ℓ) : Type ℓ where
  idle : ReaderPc T
  got_read : (read_idx : ℕ) → ReaderPc T
  found : (ptr : ℕ) → ReaderPc T
  holding : (value : T) → ReaderPc T
  committing : (read_idx : ℕ) (value : T) → ReaderPc T

-- Where the writer stands in `write_overwrite`: before `acquire_write_ptr`, between its two loads,
-- before `ptr::write`, before the first load of `commit_write`, behind it, before the store of the
-- read index, before the store of the write index.
pub data WriterPc {ℓ} (T : Type ℓ) : Type ℓ where
  idle : WriterPc T
  got_write : (value : T) (write_idx : ℕ) → WriterPc T
  checked : (value : T) (ptr : ℕ) (was_full : Bool) → WriterPc T
  stored : (value : T) (was_full : Bool) → WriterPc T
  committing : (value : T) (was_full : Bool) (write_idx : ℕ) → WriterPc T
  evicting : (value : T) (write_idx read_idx : ℕ) → WriterPc T
  evicted : (value : T) (write_idx : ℕ) → WriterPc T

-- The ring and the two threads. `taken` and `put` record what the finished calls returned and
-- wrote; `overflowed` records that the writer has found the ring full.
pub record System {ℓ} (T : Type ℓ) : Type ℓ where
  pub ring : RwRoundQueue T
  pub reader : ReaderPc T
  pub writer : WriterPc T
  pub taken : List T
  pub put : List T
  pub overflowed : Bool

-- Whose turn it is; a writer that is idle begins to write the given value.
pub data Turn {ℓ} (T : Type ℓ) : Type ℓ where
  reads : Turn T
  writes : T → Turn T

module _ {ℓ} {T : Type ℓ} where
  -- Both threads before their first call.
  abbrev pub start : RwRoundQueue T → System T
  start q = record {
    ring = q;
    reader = ReaderPc.idle;
    writer = WriterPc.idle;
    taken = [];
    put = [];
    overflowed = false;
  }

  pub reader_step : ReaderPc T → System T → Outcome (System T)
  unfolding ptr_read
  reader_step ReaderPc.idle s = done (record s { reader = ReaderPc.got_read s.ring.read_idx })
  reader_step (ReaderPc.got_read r) s =
      done (record s { reader = if r == s.ring.write_idx then ReaderPc.idle else ReaderPc.found r })
  reader_step (ReaderPc.found ptr) s =
      ptr_read s.ring.buffer ptr >>= (λ v. done (record s { reader = ReaderPc.holding v }))
  reader_step (ReaderPc.holding v) s =
      done (record s { reader = ReaderPc.committing s.ring.read_idx v })
  reader_step (ReaderPc.committing r v) s = done (record s {
    ring = record (s.ring) { read_idx = next_index s.ring r };
    reader = ReaderPc.idle;
    taken = s.taken ++ v ∷ [];
  })

  pub writer_step : WriterPc T → T → System T → Outcome (System T)
  unfolding ptr_write
  writer_step WriterPc.idle x s = done (record s { writer = WriterPc.got_write x s.ring.write_idx })
  writer_step (WriterPc.got_write v w) x s =
      let was_full = next_index s.ring w == s.ring.read_idx in
      done
        (record s { writer = WriterPc.checked v w was_full; overflowed = s.overflowed || was_full })
  writer_step (WriterPc.checked v ptr was_full) x s = ptr_write s.ring.buffer ptr v >>= (λ slots.
      done (record s {
        ring = record (s.ring) { buffer = slots };
        writer = WriterPc.stored v was_full;
      }))
  writer_step (WriterPc.stored v was_full) x s =
      done (record s { writer = WriterPc.committing v was_full s.ring.write_idx })
  writer_step (WriterPc.committing v true w) x s =
      done (record s { writer = WriterPc.evicting v w s.ring.read_idx })
  writer_step (WriterPc.committing v false w) x s = done (record s {
    ring = record (s.ring) { write_idx = next_index s.ring w };
    writer = WriterPc.idle;
    put = s.put ++ v ∷ [];
  })
  writer_step (WriterPc.evicting v w r) x s = done (record s {
    ring = record (s.ring) { read_idx = next_index s.ring r };
    writer = WriterPc.evicted v w;
  })
  writer_step (WriterPc.evicted v w) x s = done (record s {
    ring = record (s.ring) { write_idx = next_index s.ring w };
    writer = WriterPc.idle;
    put = s.put ++ v ∷ [];
  })

  pub step : Turn T → System T → Outcome (System T)
  step reads s = reader_step s.reader s
  step (writes x) s = writer_step s.writer x s

  -- A schedule of both threads.
  pub run : List (Turn T) → System T → Outcome (System T)
  run [] s = done s
  run (t ∷ ts) s = step t s >>= (λ s'. run ts s')
