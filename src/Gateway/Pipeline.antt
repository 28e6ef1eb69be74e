-- ===== src/Gateway/Pipeline.antt =====
-- gateway/src/main.rs, sensor_buffer.rs and aggregation.rs together: the sensors' generators, their
-- reader threads, the workers and `main` from its loop to the end of its two shutdowns. One schedule
-- interleaves their turns. A notice or a sleep changes nothing that they look at, so it is no turn.
pub mod Threads
pub mod Turns
pub mod Phases
pub mod Steps
pub mod Keeping
pub mod Shutdown
mod Tests
use comp2432_project.Prelude.{
  ℕ, zero, suc, Bool, true, false, Option, none, some, List, [], ◌∷◌, ◌++◌, get_elem?, set, length,
  Outcome, done, panic, ◌>>=◌, if◌then◌else◌,
}
use comp2432_project.Prelude.Floats.{FloatOps}
use comp2432_project.Sensor.{generate}
use comp2432_project.Gateway.Readings.{
  AccelReading, ForceReading, ThermoReading, SensorReading, accel, force, thermo,
}
use comp2432_project.Gateway.Buffer.{SharedBuffer}
use comp2432_project.Gateway.Manager.{PerSensor}
use comp2432_project.Gateway.Reader as Reader
use comp2432_project.Gateway.Reader.{Reader, ReaderPc, reading_at, pushing, ended, reader_turn_at}
use comp2432_project.Gateway.Aggregation.Workers as Workers
use comp2432_project.Gateway.Aggregation.Workers.{
  Settings, WorkerPc, exited, Engine, worker_turn, shutdown_called,
}

-- The three kinds of sensor that `main` registers.
pub data ReaderThread (F : Type 0) : Type 0 where
  thermometer : Reader F (ThermoReading F) → ReaderThread F
  accelerometer : Reader F (AccelReading F) → ReaderThread F
  force_sensor : Reader F (ForceReading F) → ReaderThread F

-- What a generator would measure, by its kind.
pub record Measured (F : Type 0) : Type 0 where
  pub thermo_reading : ThermoReading F
  pub accel_reading : AccelReading F
  pub force_reading : ForceReading F

-- What the reader threads share.
pub record Common (F : Type 0) : Type 0 where
  pub shared : SharedBuffer F
  pub per_sensor : PerSensor
  pub running : Bool

-- `main`: in its loop, in `SensorBufferManager::shutdown` with so many handles to join, before
-- `AggregationEngine::shutdown`, in it with so many handles to join, and behind it.
pub data MainPc : Type 0 where
  monitoring : MainPc
  joining_readers : ℕ → MainPc
  stopping_engine : MainPc
  joining_workers : ℕ → MainPc
  finished : MainPc

-- `taken` is the record of the readings that the reader threads have taken out of the rings.
pub record Pipeline (F : Type 0) : Type 0 where
  pub readers : List (ReaderThread F)
  pub per_sensor : PerSensor
  pub running : Bool
  pub engine : Engine F
  pub main_pc : MainPc
  pub taken : List (SensorReading F)

pub data Event (F : Type 0) : Type 0 where
  generator_turns : ℕ → Measured F → Event F
  reader_turns : (i : ℕ) → (now_ms : ℕ) → Event F
  worker_turns : (i : ℕ) → (now_ms : ℕ) → (expired : Bool) → Event F
  main_turns : Event F

module _ {F : Type 0} where
  abbrev pub common_of : Pipeline F → Common F
  common_of p = record {
    shared = p.engine.shared.buffer;
    per_sensor = p.per_sensor;
    running = p.running;
  }

  abbrev pub with_common : {R : Type 0} → Common F → Reader F R → Reader F R
  with_common c t = record t { shared = c.shared; per_sensor = c.per_sensor; running = c.running }

  abbrev pub pc_of : ReaderThread F → ReaderPc F
  pc_of (thermometer t) = t.pc
  pc_of (accelerometer t) = t.pc
  pc_of (force_sensor t) = t.pc

  -- What a thread left when its turn was over.
  abbrev pub left_by : ReaderThread F → SharedBuffer F × PerSensor
  left_by (thermometer t) = (t.shared, t.per_sensor)
  left_by (accelerometer t) = (t.shared, t.per_sensor)
  left_by (force_sensor t) = (t.shared, t.per_sensor)

  unfoldable pub generated : Measured F → ReaderThread F → Outcome (ReaderThread F)
  generated m (thermometer t) =
      generate m.thermo_reading t.sensor >>= (λ s. done (thermometer (record t { sensor = s })))
  generated m (accelerometer t) =
      generate m.accel_reading t.sensor >>= (λ s. done (accelerometer (record t { sensor = s })))
  generated m (force_sensor t) =
      generate m.force_reading t.sensor >>= (λ s. done (force_sensor (record t { sensor = s })))

  unfoldable pub turned : ℕ → Common F → ReaderThread F → Outcome (ReaderThread F)
  turned now c (thermometer t) =
      reader_turn_at thermo t.pc now (with_common c t) >>= (λ t'. done (thermometer t'))
  turned now c (accelerometer t) =
      reader_turn_at accel t.pc now (with_common c t) >>= (λ t'. done (accelerometer t'))
  turned now c (force_sensor t) =
      reader_turn_at force t.pc now (with_common c t) >>= (λ t'. done (force_sensor t'))

  abbrev pub took : ReaderPc F → ReaderPc F → List (SensorReading F)
  took (reading_at n) (pushing r) = r ∷ []
  took _ _ = []

  abbrev pub with_buffer : SharedBuffer F → Engine F → Engine F
  with_buffer b e = record e { shared = record (e.shared) { buffer = b } }

  abbrev pub put_back : ℕ → ReaderThread F → ReaderThread F → Pipeline F → Pipeline F
  put_back i before after p = record p {
    readers = set p.readers i after;
    per_sensor = (left_by after).1;
    engine = with_buffer (left_by after).0 p.engine;
    taken = p.taken ++ took (pc_of before) (pc_of after);
  }

  -- `handle.join().unwrap()` of the last thread that is not joined yet.
  abbrev pub join_reader : ℕ → ReaderPc F → Outcome MainPc
  join_reader left ended = done (joining_readers left)
  join_reader left Reader.panicked = panic
  join_reader left _ = done (joining_readers (suc left))

  abbrev pub join_worker : ℕ → WorkerPc F → Outcome MainPc
  join_worker left exited = done (joining_workers left)
  join_worker left Workers.panicked = panic
  join_worker left _ = done (joining_workers (suc left))

  abbrev pub moved_on : Pipeline F → Outcome MainPc → Outcome (Pipeline F)
  moved_on p next = next >>= (λ pc. done (record p { main_pc = pc }))

module _ {F : Type 0} (f : FloatOps F) (cfg : Settings F) where
  -- The stop signal is there when `main` leaves its loop.
  unfoldable pub main_turn : MainPc → Pipeline F → Outcome (Pipeline F)
  main_turn monitoring p =
      done (record p { running = false; main_pc = joining_readers (length p.readers) })
  main_turn (joining_readers zero) p = done (record p { main_pc = stopping_engine })
  main_turn (joining_readers (suc left)) p = elim (get_elem? p.readers left) [
    | none ↦ done p
    | some thread ↦ moved_on p (join_reader left (pc_of thread))
  ]
  main_turn stopping_engine p = done (record p {
    engine = Workers.step f cfg shutdown_called p.engine;
    main_pc = joining_workers (length p.engine.workers);
  })
  main_turn (joining_workers zero) p = done (record p { main_pc = finished })
  main_turn (joining_workers (suc left)) p = elim (get_elem? p.engine.workers left) [
    | none ↦ done p
    | some pc ↦ moved_on p (join_worker left pc)
  ]
  main_turn finished p = done p

  unfoldable pub step : Event F → Pipeline F → Outcome (Pipeline F)
  unfolding generated turned main_turn
  step (generator_turns i m) p = elim (get_elem? p.readers i) [
    | none ↦ done p
    | some thread ↦
        generated m thread >>= (λ after. done (record p { readers = set p.readers i after }))
  ]
  step (reader_turns i now_ms) p = elim (get_elem? p.readers i) [
    | none ↦ done p
    | some thread ↦
        turned now_ms (common_of p) thread >>= (λ after. done (put_back i thread after p))
  ]
  step (worker_turns i now_ms expired) p =
      done (record p { engine = Workers.step f cfg (worker_turn i now_ms expired) p.engine })
  step main_turns p = main_turn p.main_pc p

  unfoldable pub run : List (Event F) → Pipeline F → Outcome (Pipeline F)
  unfolding step
  run [] p = done p
  run (e ∷ es) p = step e p >>= run es
