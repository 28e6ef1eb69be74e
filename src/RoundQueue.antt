-- ===== src/RoundQueue.antt =====
-- os_lib/src/queue.rs: the ring buffer `RwRoundQueue<T>` that overwrites its oldest element, with
-- its `QueueReader` and `QueueWriter` handles, each call run to its end before the next.
-- A pointer into the allocation is an index into `buffer`. `usize` is 64 bits wide.
pub mod Fifo
pub mod Bounds
pub mod Window
pub mod Refine
pub mod Power
pub mod New
pub mod Handles
pub mod Trace
pub mod Newest
pub mod Interleave
mod Tests
use Prim.Native.Nat.{bit_and}
use comp2432_project.Prelude.{
  ℕ, zero, suc, ◌+◌, ◌-◌, ◌/◌, ◌%◌, ◌^◌, ◌≡◌, Bool, true, false, Option, none, some, List, [], ◌∷◌,
  Outcome, done, panic, fault, ◌>>=◌, if◌then◌else◌, ◌==◌, ltb, leb, length, get_elem?, set,
}

-- `start_ptr` and `end_ptr` are offsets from `buffer`.
pub record RwRoundQueue {ℓ} (T : Type ℓ) : Type ℓ where
  pub buffer : List T
  pub capacity : ℕ
  pub read_idx : ℕ
  pub write_idx : ℕ
  pub start_ptr : ℕ
  pub end_ptr : ℕ

-- The errors of `new`, by their messages.
pub data NewError : Type 0 where
  zero_capacity : NewError
  not_power_of_two : NewError
  allocation_failed : NewError

pub data NewResult {ℓ} (T : Type ℓ) : Type ℓ where
  ok : RwRoundQueue T → NewResult T
  err : NewError → NewResult T

-- The global allocator and the layout computation, which are not part of the repository:
-- `Layout::array(n)` succeeds or not, and `alloc` gives a null pointer or `n` slots.
pub record Allocator {ℓ} (T : Type ℓ) : Type ℓ where
  pub layout_fits : ℕ → Bool
  pub alloc : ℕ → Option (List T)
  pub alloc_length : (n : ℕ) (slots : List T) → alloc n ≡ some slots → length slots ≡ n

abbrev pub add_usize : ℕ → ℕ → ℕ
add_usize a b = (a + b) % 2 ^ 64

-- `usize::is_power_of_two`: one half at a time, for a number below `2 ^ fuel`.
pub halves_to_one : ℕ → ℕ → Bool
halves_to_one zero n = false
halves_to_one (suc fuel) n =
    let rest = halves_to_one fuel (n / 2) in
    if n == 1 then true else if n % 2 == 0 then rest else false

pub is_power_of_two : ℕ → Bool
unfolding halves_to_one
is_power_of_two n = halves_to_one 64 n

module _ {ℓ} {T : Type ℓ} where
  -- `ptr::read` and `ptr::write` at an offset into the allocation.
  unfoldable pub ptr_read : List T → ℕ → Outcome T
  ptr_read slots i = elim (get_elem? slots i) [ none ↦ fault | some v ↦ done v ]

  unfoldable pub ptr_write : List T → ℕ → T → Outcome (List T)
  ptr_write slots i v = if ltb i (length slots) then done (set slots i v) else fault

  -- `for i in 0..capacity { ptr::write(buffer.add(i), mem::zeroed()) }`, from `i` on, with `left`
  -- rounds to go.
  pub zero_fill : T → ℕ → ℕ → List T → Outcome (List T)
  unfolding ptr_write
  zero_fill zeroed i zero slots = done slots
  zero_fill zeroed i (suc left) slots =
      ptr_write slots i zeroed >>= (λ slots'. zero_fill zeroed (i + 1) left slots')

  -- The queue over a filled allocation.
  abbrev pub over_slots : ℕ → List T → RwRoundQueue T
  over_slots capacity slots = record {
    buffer = slots;
    capacity = capacity;
    read_idx = 0;
    write_idx = 0;
    start_ptr = 0;
    end_ptr = capacity;
  }

  -- `new` past its guards: `alloc`, the null test, the zeroing loop.
  pub allocate : T → ℕ → Option (List T) → Outcome (NewResult T)
  unfolding zero_fill
  allocate zeroed capacity none = done (err allocation_failed)
  allocate zeroed capacity (some slots) =
      zero_fill zeroed 0 capacity slots >>= (λ slots'. done (ok (over_slots capacity slots')))

  pub new : Allocator T → T → ℕ → Outcome (NewResult T)
  unfolding is_power_of_two allocate
  new a zeroed capacity =
      if capacity == 0
      then done (err zero_capacity)
      else if is_power_of_two capacity
      then if a.layout_fits capacity then allocate zeroed capacity (a.alloc capacity) else panic
      else done (err not_power_of_two)

  -- `(current + 1) & (self.capacity - 1)`. `new` rules out capacity 0, where `- 1` would wrap.
  unfoldable pub next_index : RwRoundQueue T → ℕ → ℕ
  next_index q current = bit_and (add_usize current 1) (q.capacity - 1)

  unfoldable pub acquire_read_ptr : RwRoundQueue T → Option ℕ
  acquire_read_ptr q = if q.read_idx == q.write_idx then none else some q.read_idx

  unfoldable pub commit_read : RwRoundQueue T → RwRoundQueue T
  commit_read q = record q { read_idx = next_index q q.read_idx }

  unfoldable pub acquire_write_ptr : RwRoundQueue T → Option (ℕ × Bool)
  acquire_write_ptr q = some (q.write_idx, next_index q q.write_idx == q.read_idx)

  unfoldable pub commit_write : Bool → RwRoundQueue T → RwRoundQueue T
  commit_write was_full q = record q {
    read_idx = if was_full then next_index q q.read_idx else q.read_idx;
    write_idx = next_index q q.write_idx;
  }

  unfoldable pub len : RwRoundQueue T → ℕ
  len q =
      if leb q.read_idx q.write_idx
      then q.write_idx - q.read_idx
      else add_usize (q.capacity - q.read_idx) q.write_idx

  pub is_empty : RwRoundQueue T → Bool
  is_empty q = q.read_idx == q.write_idx

  unfoldable pub try_read : RwRoundQueue T → Outcome (Option T × RwRoundQueue T)
  unfolding acquire_read_ptr ptr_read commit_read
  try_read q = elim (acquire_read_ptr q) [
    | none ↦ done (none, q)
    | some ptr ↦ ptr_read q.buffer ptr >>= (λ value. done (some value, commit_read q))
  ]

  unfoldable pub write_overwrite : T → RwRoundQueue T → Outcome (Bool × RwRoundQueue T)
  unfolding acquire_write_ptr ptr_write commit_write
  write_overwrite value q = elim (acquire_write_ptr q) [
    | none ↦ panic
    | some (ptr, was_full) ↦
        ptr_write q.buffer ptr value
        >>= (λ slots. done (was_full, commit_write was_full (record q { buffer = slots })))
  ]

  -- `QueueReader::read_batch`: the loop over `0..max` that breaks at an empty queue. The vector
  -- grows at its end, so the rest of the rounds stand behind the item.
  pub read_batch : ℕ → RwRoundQueue T → Outcome (List T × RwRoundQueue T)
  read_batch zero q = done ([], q)
  read_batch (suc max) q = try_read q >>= (λ (item, q'). elim item [
    | none ↦ done ([], q')
    | some v ↦ read_batch max q' >>= (λ (items, q''). done (v ∷ items, q''))
  ])
