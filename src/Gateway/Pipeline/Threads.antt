-- ===== src/Gateway/Pipeline/Threads.antt =====
-- What one turn of a reader thread does to the buffer, to what the thread holds, and to the sensor.
pub mod Turn
pub mod Kinds
use Prim.Native.String.{String}
use comp2432_project.Prelude.{
  ℕ, ◌≡◌, refl, ap, ◌∙◌, Bool, true, false, Option, none, some, List, [], ◌∷◌, ◌++◌, append-nil,
  arith, Outcome, done, ◌>>=◌, if◌then◌else◌, ◌==◌,
}
use comp2432_project.RoundQueue.{try_read}
use comp2432_project.RoundQueue.Fifo as Fifo
use comp2432_project.RoundQueue.Refine.{contents, Refines, try_read-Refines}
use comp2432_project.Sensor.{
  Sensor, Generator, looking, measuring, returned, crashed, available, generate, read, stop,
  stop_join, generated, stop_called, joined,
}
use comp2432_project.Sensor as Sensor
use comp2432_project.Sensor.Runs.{IsSound, step-Returns}
use comp2432_project.Gateway.Readings.{SensorReading, accel, force, thermo}
use comp2432_project.Gateway.Buffer.{SharedBuffer, PushPass, push_start, push_pass}
use comp2432_project.Gateway.Buffer.Endings.{
  PushEnding, after_poison, while_full, with_room, push_pass-Ending, StartEnding, overflows, passes,
  push_start-Ending,
}
use comp2432_project.Gateway.Reader.{
  ReaderPc, outer_test, observing, inner_test, draining, reading_at, pushing, blocked, stopping,
  joining, ended, panicked, Reader, after_pass, after_read, reader_turn_at,
}
use comp2432_project.Gateway.Reader as Reader
use comp2432_project.Gateway.Pipeline.{
  ReaderThread, thermometer, accelerometer, force_sensor, Measured, Common, with_common, pc_of,
  left_by, took, turned,
}
use comp2432_project.Gateway.Pipeline as Pipeline

module _ {F : Type 0} where
  -- The reading that the thread holds.
  abbrev pub held : ReaderPc F → List (SensorReading F)
  held (pushing r) = r ∷ []
  held (blocked r) = r ∷ []
  held _ = []

  -- A thread that has ended does nothing more.
  abbrev pub Rests :
      ReaderPc F → List (SensorReading F) → ReaderPc F → List (SensorReading F) → Type 0
  Rests ended q pc' q' = (pc' ≡ ended) × (q' ≡ q)
  Rests _ q pc' q' = Unit {0}

  abbrev pub IsCalm : ReaderPc F → Type 0
  IsCalm panicked = ⊥
  IsCalm _ = Unit {0}

  pub choice-IsCalm :
      (b : Bool) (p q : ReaderPc F) → IsCalm p → IsCalm q → IsCalm (if b then p else q)
  choice-IsCalm true p q h k = h
  choice-IsCalm false p q h k = k

  pub choice_is_empty-held :
      (b : Bool) (p q : ReaderPc F) → held p ≡ [] → held q ≡ [] → held (if b then p else q) ≡ []
  choice_is_empty-held true p q h k = h
  choice_is_empty-held false p q h k = k

module _ {F R : Type 0} where
  -- The sensor is sound, and so is the lock of a buffer that blocks when it is full.
  pub record IsOpen (t : Reader F R) : Type 0 where
    pub sensor_sound : IsSound t.sensor
    pub sound : t.shared.poisoned ≡ false
    pub waits : t.shared.fail_on_full ≡ false

  -- A turn from `pc` returns, and the buffer and the thread together have got just what it took.
  pub record Turned (pc : ReaderPc F) (t : Reader F R) (turned : Outcome (Reader F R))
      : Type 0 where
    pub after : Reader F R
    pub result : turned ≡ done after
    pub stays : IsOpen after
    same : after.shared.queue ++ held after.pc ≡ t.shared.queue ++ (held pc ++ took pc after.pc)
    pub rests : Rests pc t.shared.queue after.pc after.shared.queue
    pub calm : IsCalm pc → IsCalm after.pc

  pub quiet-Turned :
      (pc : ReaderPc F) (t : Reader F R) (turned : Outcome (Reader F R)) (after : Reader F R)
      → turned ≡ done after
      → IsOpen after
      → held after.pc ≡ []
      → held pc ≡ []
      → took pc after.pc ≡ []
      → after.shared.queue ≡ t.shared.queue
      → Rests pc t.shared.queue after.pc after.shared.queue
      → (IsCalm pc → IsCalm after.pc)
      → Turned pc t turned
  quiet-Turned pc t turned after e o a b k q r c = record {
    after = after;
    result = e;
    stays = o;
    same = rw (a, b, k, q) refl;
    rests = r;
    calm = c;
  }
