-- ===== src/Gateway/Pipeline/Threads/Kinds.antt =====
-- The turns of the reader thread and of the generator of any of the three kinds of sensor.

use comp2432_project.Prelude.{ℕ, ◌≡◌, refl, false, ◌++◌, Outcome, done, ◌>>=◌}
use comp2432_project.Sensor.{
  Sensor, Generator, looking, measuring, returned, crashed, available, generate, read, stop,
  stop_join, generated, stop_called, joined,
}
use comp2432_project.Sensor as Sensor
use comp2432_project.Sensor.Runs.{IsSound, step-Returns}
use comp2432_project.Gateway.Readings.{accel, force, thermo}
use comp2432_project.Gateway.Reader.{ReaderPc, Reader}
use comp2432_project.Gateway.Pipeline.{
  ReaderThread, thermometer, accelerometer, force_sensor, Measured, Common, with_common, pc_of,
  left_by, took, turned,
}
use comp2432_project.Gateway.Pipeline as Pipeline
use comp2432_project.Gateway.Pipeline.Threads.{held, Rests, IsCalm, Turned}
use comp2432_project.Gateway.Pipeline.Threads.Turn.{turn-Turned}

module _ {F : Type 0} where
  abbrev pub IsThreadSound : ReaderThread F → Type 0
  IsThreadSound (thermometer t) = IsSound t.sensor
  IsThreadSound (accelerometer t) = IsSound t.sensor
  IsThreadSound (force_sensor t) = IsSound t.sensor

  -- A turn of one of the threads, over what they share.
  pub record ThreadTurned (pc : ReaderPc F) (c : Common F) (turned : Outcome (ReaderThread F))
      : Type 0 where
    pub after : ReaderThread F
    pub result : turned ≡ done after
    pub thread_sound : IsThreadSound after
    pub sound : (left_by after).0.poisoned ≡ false
    pub waits : (left_by after).0.fail_on_full ≡ false
    pub same :
        (left_by after).0.queue ++ held (pc_of after)
        ≡ c.shared.queue ++ (held pc ++ took pc (pc_of after))
    pub rests : Rests pc c.shared.queue (pc_of after) (left_by after).0.queue
    pub calm : IsCalm pc → IsCalm (pc_of after)

  of_kind-ThreadTurned :
      {R : Type 0} (kind : Reader F R → ReaderThread F) (c : Common F) (t : Reader F R)
      (pc : ReaderPc F) (turned : Outcome (Reader F R))
      → ((x : Reader F R) → pc_of (kind x) ≡ x.pc)
      → ((x : Reader F R) → left_by (kind x) ≡ (x.shared, x.per_sensor))
      → ((x : Reader F R) → IsSound x.sensor → IsThreadSound (kind x))
      → Turned pc (with_common c t) turned
      → ThreadTurned pc c (turned >>= (λ t'. done (kind t')))
  of_kind-ThreadTurned kind c t pc turned at left sounds r = record {
    after = kind r.after;
    result = rw r.result refl;
    thread_sound = sounds r.after r.stays.sensor_sound;
    sound = rw (left r.after) r.stays.sound;
    waits = rw (left r.after) r.stays.waits;
    same = rw (left r.after, at r.after) r.same;
    rests = rw (left r.after, at r.after) r.rests;
    calm = rw (at r.after) r.calm;
  }

  pub turned-ThreadTurned :
      (now : ℕ) (c : Common F) (thread : ReaderThread F)
      → IsThreadSound thread
      → c.shared.poisoned ≡ false
      → c.shared.fail_on_full ≡ false
      → ThreadTurned (pc_of thread) c (turned now c thread)
  unfolding turned
  turned-ThreadTurned now c (thermometer t) s p w =
      of_kind-ThreadTurned thermometer c t t.pc _ (λ x. refl) (λ x. refl) (λ x sound. sound)
        (turn-Turned thermo t.pc now (with_common c t) refl
          (record { sensor_sound = s; sound = p; waits = w }))
  turned-ThreadTurned now c (accelerometer t) s p w =
      of_kind-ThreadTurned accelerometer c t t.pc _ (λ x. refl) (λ x. refl) (λ x sound. sound)
        (turn-Turned accel t.pc now (with_common c t) refl
          (record { sensor_sound = s; sound = p; waits = w }))
  turned-ThreadTurned now c (force_sensor t) s p w =
      of_kind-ThreadTurned force_sensor c t t.pc _ (λ x. refl) (λ x. refl) (λ x sound. sound)
        (turn-Turned force t.pc now (with_common c t) refl
          (record { sensor_sound = s; sound = p; waits = w }))

  -- A turn of a generator: the thread stands where it stood.
  pub record GeneratorTurned (thread : ReaderThread F) (turned : Outcome (ReaderThread F))
      : Type 0 where
    pub after : ReaderThread F
    pub result : turned ≡ done after
    pub thread_sound : IsThreadSound after
    pub stands : pc_of after ≡ pc_of thread

  pub generated-GeneratorTurned :
      (m : Measured F) (thread : ReaderThread F)
      → IsThreadSound thread
      → GeneratorTurned thread (Pipeline.generated m thread)
  unfolding Pipeline.generated Sensor.step
  generated-GeneratorTurned m (thermometer t) s =
      let r = step-Returns (generated m.thermo_reading) t.sensor s in
      record {
        after = thermometer (record t { sensor = r.after });
        result = rw r.result refl;
        thread_sound = r.sound;
        stands = refl;
      }
  generated-GeneratorTurned m (accelerometer t) s =
      let r = step-Returns (generated m.accel_reading) t.sensor s in
      record {
        after = accelerometer (record t { sensor = r.after });
        result = rw r.result refl;
        thread_sound = r.sound;
        stands = refl;
      }
  generated-GeneratorTurned m (force_sensor t) s =
      let r = step-Returns (generated m.force_reading) t.sensor s in
      record {
        after = force_sensor (record t { sensor = r.after });
        result = rw r.result refl;
        thread_sound = r.sound;
        stands = refl;
      }
