-- ===== src/Sensor.antt =====
-- sensor_sim/src: a simulated sensor with its generator thread and its ring of readings. The three
-- sensors differ in their reading only, which is the type `R`. A turn of the thread runs up to its
-- next look at `running` or through one reading; `stop` is cut where it joins the thread.
pub mod Runs
pub mod Waiting
mod Tests
use Prim.Native.String.{String}
use comp2432_project.Prelude.{
  ℕ, ◌+◌, ◌%◌, ◌^◌, Bool, true, false, ◌&&◌, ◌||◌, Option, none, some, List, [], ◌∷◌, Outcome, done,
  panic, ◌>>=◌, if◌then◌else◌, ◌==◌, ltb,
}
use comp2432_project.RoundQueue.{
  RwRoundQueue, Allocator, NewResult, ok, err, new, len, try_read, write_overwrite,
}

abbrev pub max_queue_size : ℕ
max_queue_size = 128

-- Where the generator thread is: before its look at `running`, before a reading, at its end, or panicked.
pub data Generator : Type 0 where
  looking : Generator
  measuring : Generator
  returned : Generator
  crashed : Generator

-- `writer` says whether the sensor holds the writer, `handle` is the thread that was started.
pub record Sensor (R : Type 0) : Type 0 where
  pub id : String
  pub rate_per_sec : ℕ
  pub queue : RwRoundQueue R
  pub writer : Bool
  pub running : Bool
  pub handle : Option Generator
  pub notify_seq : ℕ

-- `1000 / rate_per_sec` panics for 0.
abbrev pub after_sleep : ℕ → Generator
after_sleep rate_per_sec = if rate_per_sec == 0 then crashed else looking

module _ {R : Type 0} where
  abbrev pub over_queue : String → ℕ → NewResult R → Outcome (Sensor R)
  over_queue id rate_per_sec (err e) = panic
  over_queue id rate_per_sec (ok queue) = done (record {
    id = id;
    rate_per_sec = rate_per_sec;
    queue = queue;
    writer = true;
    running = true;
    handle = none;
    notify_seq = 0;
  })

  pub new_sensor : Allocator R → R → String → ℕ → Outcome (Sensor R)
  new_sensor a zeroed id rate_per_sec = new a zeroed max_queue_size >>= over_queue id rate_per_sec

  pub start_thread : Sensor R → Outcome (Sensor R)
  start_thread s = elim s.handle [
    | some thread ↦ done s
    | none ↦
        if s.writer
        then done (record s { running = true; writer = false; handle = some looking })
        else panic
  ]

  -- A turn of the thread; `reading` is what it measures next.
  unfoldable pub generate : R → Sensor R → Outcome (Sensor R)
  generate reading s = elim s.handle [
    | none ↦ done s
    | some looking ↦ done (record s { handle = some (if s.running then measuring else returned) })
    | some measuring ↦ write_overwrite reading s.queue >>= (λ (was_full, queue). done (record s {
      queue = queue;
      notify_seq = (s.notify_seq + 1) % 2 ^ 64;
      handle = some (after_sleep s.rate_per_sec);
    }))
    | some returned ↦ done s
    | some crashed ↦ done s
  ]

  unfoldable pub stop : Sensor R → Sensor R
  stop s = record s { running = false }

  -- `handle.join()`: the caller waits while the thread runs.
  unfoldable pub stop_join : Sensor R → Outcome (Sensor R)
  stop_join s = elim s.handle [
    | none ↦ done s
    | some returned ↦ done (record s { handle = none; writer = true })
    | some crashed ↦ panic
    | some looking ↦ done s
    | some measuring ↦ done s
  ]

  unfoldable pub read : Sensor R → Outcome (Option R × Sensor R)
  read s = try_read s.queue >>= (λ (item, queue). done (item, record s { queue = queue }))

  unfoldable pub available : Sensor R → ℕ
  available s = len s.queue

  -- Whether `wait_for_data` goes on waiting, when `last` is the `notify_seq` that it saw first.
  pub keeps_waiting : ℕ → Sensor R → Bool
  keeps_waiting last s = s.notify_seq == last && available s == 0

-- What happens to a sensor, in order.
pub data Event (R : Type 0) : Type 0 where
  started : Event R
  generated : R → Event R
  stop_called : Event R
  joined : Event R
  read_called : Event R

module _ {R : Type 0} where
  unfoldable pub step : Event R → Sensor R → Outcome (Sensor R)
  unfolding start_thread generate stop stop_join read
  step started s = start_thread s
  step (generated reading) s = generate reading s
  step stop_called s = done (stop s)
  step joined s = stop_join s
  step read_called s = read s >>= (λ (item, s'). done s')

  pub run : List (Event R) → Sensor R → Outcome (Sensor R)
  unfolding step
  run [] s = done s
  run (e ∷ es) s = step e s >>= run es
