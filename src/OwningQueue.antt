-- ===== src/OwningQueue.antt =====
-- os_lib/src/queue_noncopy.rs: the ring buffer for elements that are not `Copy`, and its `Drop`. Its
-- indices, `new`, `len` and the two halves of a read and a write are those of RoundQueue, over slots
-- that are `MaybeUninit`. A value that is read out of its slot is moved; `leaked` keeps account of
-- the values whose slot is overwritten or freed while it still owns them.
pub mod Ownership
pub mod Account
pub mod Calls
pub mod Life
mod Tests
use comp2432_project.Prelude.{
  ℕ, zero, suc, ◌+◌, Bool, true, false, Option, none, some, List, [], ◌∷◌, ◌++◌, Outcome, done,
  panic, fault, ◌>>=◌, get_elem?, set,
}
use comp2432_project.RoundQueue.{
  RwRoundQueue, ptr_read, ptr_write, acquire_read_ptr, commit_read, acquire_write_ptr, commit_write,
}

-- A slot as `new` has zeroed it, with a value of its own, and with the bits of a value moved out.
pub data MaybeUninit (T : Type 0) : Type 0 where
  zeroed : MaybeUninit T
  init : T → MaybeUninit T
  moved : T → MaybeUninit T

pub record OwningQueue (T : Type 0) : Type 0 where
  pub ring : RwRoundQueue (MaybeUninit T)
  pub leaked : List T

module _ {T : Type 0} where
  -- Undefined where the slot does not own a value.
  abbrev pub assume_init : MaybeUninit T → Outcome T
  assume_init zeroed = fault
  assume_init (init v) = done v
  assume_init (moved v) = fault

  abbrev pub owned : MaybeUninit T → List T
  owned zeroed = []
  owned (init v) = v ∷ []
  owned (moved v) = []

  abbrev pub owned_by : List (MaybeUninit T) → List T
  owned_by [] = []
  owned_by (slot ∷ slots) = owned slot ++ owned_by slots

  abbrev pub owned_at : Option (MaybeUninit T) → List T
  owned_at none = []
  owned_at (some slot) = owned slot

  -- `ptr::read(ptr).assume_init()`, which moves the value out.
  abbrev pub take_out : RwRoundQueue (MaybeUninit T) → ℕ → T → RwRoundQueue (MaybeUninit T)
  take_out q ptr value = record q { buffer = set q.buffer ptr (moved value) }

  unfoldable pub try_read : OwningQueue T → Outcome (Option T × OwningQueue T)
  unfolding acquire_read_ptr ptr_read commit_read
  try_read q = elim (acquire_read_ptr q.ring) [
    | none ↦ done (none, q)
    | some ptr ↦ ptr_read q.ring.buffer ptr >>= assume_init >>= (λ value.
        done (some value, record q { ring = commit_read (take_out q.ring ptr value) }))
  ]

  unfoldable pub write_overwrite : T → OwningQueue T → Outcome (Bool × OwningQueue T)
  unfolding acquire_write_ptr ptr_write commit_write
  write_overwrite value q = elim (acquire_write_ptr q.ring) [
    | none ↦ panic
    | some (ptr, was_full) ↦ ptr_write q.ring.buffer ptr (init value) >>= (λ slots. done (
      was_full,
      record {
        ring = commit_write was_full (record (q.ring) { buffer = slots });
        leaked = q.leaked ++ owned_at (get_elem? q.ring.buffer ptr);
      },
    ))
  ]

  -- The loop of `read_batch`, which collects the values, and of `drop`, which drops each of them.
  unfoldable pub drain : ℕ → OwningQueue T → Outcome (List T × OwningQueue T)
  unfolding try_read
  drain zero q = done ([], q)
  drain (suc rounds) q = try_read q >>= (λ (item, q'). elim item [
    | none ↦ done ([], q')
    | some v ↦ drain rounds q' >>= (λ (items, q''). done (v ∷ items, q''))
  ])

  -- The values dropped, and those that the deallocation leaves undropped with the leaked ones. A
  -- ring never holds as many elements as it has slots.
  unfoldable pub drop_queue : OwningQueue T → Outcome (List T × List T)
  unfolding drain
  drop_queue q =
      drain q.ring.capacity q
      >>= (λ (dropped, q'). done (dropped, q'.leaked ++ owned_by q'.ring.buffer))

-- What the handles are called for: `QueueWriter::write`, `QueueReader::read` and `read_batch`.
pub data Call (T : Type 0) : Type 0 where
  write : T → Call T
  read : Call T
  read_batch : ℕ → Call T

-- What the caller has got, and how many writes said that they overwrote.
pub record Got (T : Type 0) : Type 0 where
  pub items : List T
  pub overwrites : ℕ

abbrev pub once : Bool → ℕ
once b = elim b [ true ↦ 1 | false ↦ 0 ]

module _ {T : Type 0} where
  abbrev pub items_of : Option T → List T
  items_of none = []
  items_of (some v) = v ∷ []

  unfoldable pub call : Call T → OwningQueue T → Outcome (Got T × OwningQueue T)
  unfolding write_overwrite try_read drain
  call (write v) q =
      write_overwrite v q
      >>= (λ (was_full, q'). done (record { items = []; overwrites = once was_full }, q'))
  call read q =
      try_read q >>= (λ (item, q'). done (record { items = items_of item; overwrites = 0 }, q'))
  call (read_batch max) q =
      drain max q >>= (λ (items, q'). done (record { items = items; overwrites = 0 }, q'))

  unfoldable pub run : List (Call T) → OwningQueue T → Outcome (Got T × OwningQueue T)
  unfolding call
  run [] q = done (record { items = []; overwrites = 0 }, q)
  run (c ∷ cs) q = call c q >>= (λ (got, q'). run cs q' >>= (λ (rest, q''). done (
    record { items = got.items ++ rest.items; overwrites = got.overwrites + rest.overwrites },
    q'',
  )))
