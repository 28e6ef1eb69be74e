-- ===== src/Gateway/Buffer.antt =====
-- gateway/src/sensor_buffer.rs: `SharedBuffer`, the bounded queue between the reader threads and the
-- aggregation workers. An operation is cut where it waits and so gives up the lock: each pass of
-- `push` and of `pop_timeout` is one function. A counter is 64 bits wide.
pub mod Endings
pub mod Schedule
pub mod Kept
pub mod Stops
use comp2432_project.Prelude.{
  ℕ, zero, suc, ◌+◌, ◌%◌, ◌^◌, Bool, true, false, ◌&&◌, Option, none, some, List, [], ◌∷◌, ◌++◌,
  leb, if◌then◌else◌, length,
}
use comp2432_project.Gateway.Readings.{SensorReading}

pub record SharedBuffer (F : Type 0) : Type 0 where
  pub queue : List (SensorReading F)
  pub poisoned : Bool
  pub capacity : ℕ
  pub fail_on_full : Bool
  pub pushed_total : ℕ
  pub popped_total : ℕ
  pub full_waits_total : ℕ

-- How a pass of `push` ends: it is done, it waits on `not_full`, or it panics.
pub data PushPass : Type 0 where
  pushed : PushPass
  waits_not_full : PushPass
  push_panics : PushPass

-- How a pass of `pop_timeout` ends: with a result, waiting on `not_empty`, or it panics.
pub data PopPass (F : Type 0) : Type 0 where
  returned : Option (SensorReading F) → PopPass F
  waits_not_empty : PopPass F
  pop_panics : PopPass F

abbrev pub fetch_add : ℕ → ℕ → ℕ
fetch_add total n = (total + n) % 2 ^ 64

module _ {F : Type 0} where
  abbrev pub new_with_policy : ℕ → Bool → SharedBuffer F
  new_with_policy capacity fail_on_full = record {
    queue = [];
    poisoned = false;
    capacity = capacity;
    fail_on_full = fail_on_full;
    pushed_total = 0;
    popped_total = 0;
    full_waits_total = 0;
  }

  abbrev pub is_full : SharedBuffer F → Bool
  is_full b = leb b.capacity (length b.queue)

  -- The loop on `not_full`: its first test and the test after each wake-up. `wait` and `lock` give
  -- an error, and `unwrap` panics, once the mutex is poisoned.
  unfoldable pub push_pass : SensorReading F → SharedBuffer F → SharedBuffer F × PushPass
  push_pass reading b =
      if b.poisoned
      then (b, push_panics)
      else if is_full b
      then (record b { full_waits_total = fetch_add b.full_waits_total 1 }, waits_not_full)
      else (
        record b { queue = b.queue ++ reading ∷ []; pushed_total = fetch_add b.pushed_total 1 },
        pushed,
      )

  -- The call: the overflow panics with the lock held, which poisons the mutex.
  unfoldable pub push_start : SensorReading F → SharedBuffer F → SharedBuffer F × PushPass
  unfolding push_pass
  push_start reading b =
      if b.poisoned
      then (b, push_panics)
      else if b.fail_on_full && is_full b
      then (record b { poisoned = true }, push_panics)
      else push_pass reading b

  -- `wait_timeout_while`: the first test, each test after a wake-up, and the one at the end of the
  -- timeout, for which `expired` is true.
  unfoldable pub pop_pass : Bool → SharedBuffer F → SharedBuffer F × PopPass F
  pop_pass expired b = if b.poisoned then (b, pop_panics) else elim b.queue [
    | [] ↦ (b, if expired then returned none else waits_not_empty)
    | val ∷ rest ↦
        (record b { queue = rest; popped_total = fetch_add b.popped_total 1 }, returned (some val))
  ]

  -- `none`: the lock is poisoned, and `unwrap` panics.
  unfoldable pub len : SharedBuffer F → Option ℕ
  len b = if b.poisoned then none else some (length b.queue)

  pub totals : SharedBuffer F → ℕ × ℕ
  totals b = (b.pushed_total, b.popped_total)

-- The threads around one buffer. `blocked` holds the readings of the producers that wait on
-- `not_full`, each on its thread; `took` is what the consumers got, in order.
pub record Threads (F : Type 0) : Type 0 where
  pub buffer : SharedBuffer F
  pub blocked : List (SensorReading F)
  pub took : List (SensorReading F)
  pub panicked : ℕ

-- A step of the schedule: a producer calls `push`, the blocked producer at a place of `blocked`
-- wakes, by a notice or without, a consumer makes a pass of `pop_timeout`.
pub data Step (F : Type 0) : Type 0 where
  push_called : SensorReading F → Step F
  producer_woken : ℕ → Step F
  pop_passes : Bool → Step F

module _ {F : Type 0} where
  -- The `i`-th reading and the others.
  unfoldable pub pick :
      ℕ → List (SensorReading F) → Option (SensorReading F × List (SensorReading F))
  pick i [] = none
  pick zero (r ∷ rs) = some (r, rs)
  pick (suc i) (r ∷ rs) = elim (pick i rs) [ none ↦ none | some (x, others) ↦ some (x, r ∷ others) ]

  abbrev pub after_push : SensorReading F → SharedBuffer F × PushPass → Threads F → Threads F
  after_push reading (b, pushed) t = record t { buffer = b }
  after_push reading (b, waits_not_full) t = record t {
    buffer = b;
    blocked = t.blocked ++ reading ∷ [];
  }
  after_push reading (b, push_panics) t = record t { buffer = b; panicked = suc t.panicked }

  abbrev pub after_pop : SharedBuffer F × PopPass F → Threads F → Threads F
  after_pop (b, returned none) t = record t { buffer = b }
  after_pop (b, returned (some val)) t = record t { buffer = b; took = t.took ++ val ∷ [] }
  after_pop (b, waits_not_empty) t = record t { buffer = b }
  after_pop (b, pop_panics) t = record t { buffer = b; panicked = suc t.panicked }

  unfoldable pub step : Step F → Threads F → Threads F
  unfolding push_start push_pass pop_pass pick
  step (push_called reading) t = after_push reading (push_start reading t.buffer) t
  step (producer_woken i) t = elim (pick i t.blocked) [
    | none ↦ t
    | some (reading, others) ↦
        after_push reading (push_pass reading t.buffer) (record t { blocked = others })
  ]
  step (pop_passes expired) t = after_pop (pop_pass expired t.buffer) t

  unfoldable pub run : List (Step F) → Threads F → Threads F
  unfolding step
  run [] t = t
  run (s ∷ ss) t = run ss (step s t)
