-- ===== src/Sensor/Waiting.antt =====
-- sensor_sim/src: `wait_for_data` of a sensor against its generator thread, cut at each access to what
-- they share. The generator takes no lock when it notifies, so it can come between the waiter's test
-- and its sleep. A test of the count and of the queue is one turn; no wake-up is spurious.
pub mod Late
mod Tests
use comp2432_project.Prelude.{
  ℕ, ◌+◌, ◌%◌, ◌^◌, Bool, true, false, List, [], ◌∷◌, Outcome, done, ◌>>=◌, if◌then◌else◌, ltb,
}
use comp2432_project.RoundQueue.{write_overwrite}
use comp2432_project.Sensor.{Sensor, available, keeps_waiting}

-- The generator: before it writes, before it counts up, before it notifies.
pub data NotifierPc : Type 0 where
  writing : NotifierPc
  counting : NotifierPc
  notifying : NotifierPc

-- The waiter: before its first look, before it loads the count, before a test in
-- `wait_timeout_while`, with a test behind it that tells it to wait, asleep, behind
-- `wait_timeout_while`, and with its answer.
pub data WaiterPc : Type 0 where
  entered : WaiterPc
  loading : WaiterPc
  testing : (last : ℕ) → WaiterPc
  dozing : (last : ℕ) → WaiterPc
  asleep : (last : ℕ) → WaiterPc
  looking_again : WaiterPc
  answered : Bool → WaiterPc

pub record Waiting (R : Type 0) : Type 0 where
  pub sensor : Sensor R
  pub notifier : NotifierPc
  pub waiter : WaiterPc

pub data Event (R : Type 0) : Type 0 where
  notifier_turn : R → Event R
  waiter_turn : Event R
  timeout : Event R

abbrev pub woken : WaiterPc → WaiterPc
woken (asleep last) = testing last
woken entered = entered
woken loading = loading
woken (testing last) = testing last
woken (dozing last) = dozing last
woken looking_again = looking_again
woken (answered b) = answered b

abbrev pub timed_out : WaiterPc → WaiterPc
timed_out (asleep last) = looking_again
timed_out entered = entered
timed_out loading = loading
timed_out (testing last) = testing last
timed_out (dozing last) = dozing last
timed_out looking_again = looking_again
timed_out (answered b) = answered b

module _ {R : Type 0} where
  unfoldable pub notifier_step : NotifierPc → R → Waiting R → Outcome (Waiting R)
  notifier_step writing reading w = write_overwrite reading w.sensor.queue >>= (λ (was_full, queue).
      done (record w { sensor = record (w.sensor) { queue = queue }; notifier = counting }))
  notifier_step counting reading w = done (record w {
    sensor = record (w.sensor) { notify_seq = (w.sensor.notify_seq + 1) % 2 ^ 64 };
    notifier = notifying;
  })
  notifier_step notifying reading w =
      done (record w { notifier = writing; waiter = woken w.waiter })

  unfoldable pub waiter_step : WaiterPc → Sensor R → WaiterPc
  waiter_step entered s = if ltb 0 (available s) then answered true else loading
  waiter_step loading s = testing s.notify_seq
  waiter_step (testing last) s = if keeps_waiting last s then dozing last else looking_again
  waiter_step (dozing last) s = asleep last
  waiter_step (asleep last) s = asleep last
  waiter_step looking_again s = answered (ltb 0 (available s))
  waiter_step (answered b) s = answered b

  unfoldable pub step : Event R → Waiting R → Outcome (Waiting R)
  unfolding notifier_step waiter_step
  step (notifier_turn reading) w = notifier_step w.notifier reading w
  step waiter_turn w = done (record w { waiter = waiter_step w.waiter w.sensor })
  step timeout w = done (record w { waiter = timed_out w.waiter })

  unfoldable pub run : List (Event R) → Waiting R → Outcome (Waiting R)
  unfolding step
  run [] w = done w
  run (e ∷ es) w = step e w >>= run es
