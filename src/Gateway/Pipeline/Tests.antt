-- ===== src/Gateway/Pipeline/Tests.antt =====
-- A gateway of two sensors and one worker, from the first readings to the end of `main`.
use Prim.Native.String.{String}
use comp2432_project.Prelude.{
  ℕ, ◌+◌, ◌≡◌, refl, true, false, some, List, [], ◌∷◌, ◌++◌, replicate, inl, inr, arith, Outcome,
  done, panic, fault,
}
use comp2432_project.Prelude.Samples.{whole}
use comp2432_project.Prelude.Sort.{All}
use comp2432_project.RoundQueue as RoundQueue
use comp2432_project.RoundQueue.{over_slots}
use comp2432_project.Sensor as Sensor
use comp2432_project.Gateway.Manager.{observe}
use comp2432_project.Gateway.Aggregation.Workers as Workers
use comp2432_project.Gateway.Aggregation.{
  window_start_of, entry_push, bucket, file_reading, claim_ready,
}
use comp2432_project.RoundQueue.New.{over_slots-Fresh}
use comp2432_project.Sensor.{Sensor, looking}
use comp2432_project.Sensor.Runs.{IsSound}
use comp2432_project.Gateway.Readings.{ThermoReading, ForceReading, timestamp_millis, sensor_id}
use comp2432_project.Gateway.Buffer.{new_with_policy, push_start, push_pass, pop_pass, len}
use comp2432_project.Gateway.Reader.{Reader, outer_test, reader_turn_at}
use comp2432_project.Gateway.Stats.Counts.{frame_weight}
use comp2432_project.Gateway.Aggregation.Weights.{total}
use comp2432_project.Gateway.Aggregation.Workers.{Settings, at_top}
use comp2432_project.Gateway.Pipeline.{
  thermometer, force_sensor, Measured, Pipeline, Event, generator_turns, reader_turns, worker_turns,
  main_turns, monitoring, finished, generated, turned, main_turn, step, run,
}
use comp2432_project.Gateway.Pipeline.Phases.{
  HasEnded, IsSteady, readings_weight, pipeline_weight, Kept,
}
use comp2432_project.Gateway.Pipeline.Shutdown.{run-Kept, shutdown_loses_nothing}

abbrev settings : Settings ℕ
settings = record { window_ms = 1_000; grace_ms = 500; anomaly_threshold = 3 }

abbrev cold : ThermoReading ℕ
cold = record { temperature_celsius = 0 }

abbrev still : ForceReading ℕ
still = record { force_x = 0; force_y = 0; force_z = 0 }

abbrev measured : Measured ℕ
measured = record {
  thermo_reading = record { temperature_celsius = 21 };
  accel_reading = record { acceleration_x = 1; acceleration_y = 2; acceleration_z = 3 };
  force_reading = record { force_x = 4; force_y = 5; force_z = 6 };
}

-- A sensor whose generator has just started.
abbrev started : {R : Type 0} → String → R → Sensor R
started id zeroed = record {
  id = id;
  rate_per_sec = 50;
  queue = over_slots 128 (replicate 128 zeroed);
  writer = false;
  running = true;
  handle = some looking;
  notify_seq = 0;
}

started-IsSound : {R : Type 0} → (id : String) (zeroed : R) → IsSound (started id zeroed)
started-IsSound id zeroed = record {
  valid = (over_slots-Fresh zeroed 128 7 refl (omega arith)).valid;
  size = refl;
  paced = omega arith;
  handled = tt;
}

abbrev reader_of : {R : Type 0} → Sensor R → Reader ℕ R
reader_of sensor = record {
  sensor = sensor;
  shared = new_with_policy 8 false;
  per_sensor = [];
  running = true;
  pc = outer_test;
}

abbrev gateway : Pipeline ℕ
gateway = record {
  readers =
      thermometer (reader_of (started "thermo-1" cold))
      ∷ force_sensor (reader_of (started "force-1" still))
      ∷ [];
  per_sensor = [];
  running = true;
  engine = record {
    shared = record {
      buffer = new_with_policy 8 false;
      shutdown = false;
      pending = [];
      frame_id = 0;
      written = [];
    };
    workers = at_top ∷ [];
  };
  main_pc = monitoring;
  taken = [];
}

gateway-IsSteady : IsSteady gateway
gateway-IsSteady = record {
  threads = ((started-IsSound "thermo-1" cold, tt), ((started-IsSound "force-1" still, tt), tt));
  workers = (tt, tt);
  waits = refl;
  attended = record {
    sound = refl;
    staffed = omega arith;
    minded = inl refl;
    unfinished = inr refl;
  };
  phase = record { untold = refl; early = refl };
}

abbrev generator : ℕ → Event ℕ
generator i = generator_turns i measured

-- Both sensors measure, and both readings reach the buffer; `main` joins the readers, and then the
-- worker, which has files to write.
abbrev schedule : List (Event ℕ)
schedule =
    generator 0 ∷ generator 1 ∷ generator 0 ∷ generator 1 ∷ []
    ++ (replicate 6 (reader_turns 0 1_200)
        ++ (replicate 6 (reader_turns 1 1_300)
            ++ (main_turns ∷ replicate 3 (reader_turns 0 1_400)
                ++ (replicate 3 (reader_turns 1 1_400)
                    ++ (generator 0 ∷ generator 1 ∷ reader_turns 0 1_500 ∷ reader_turns 1 1_500 ∷ []
                        ++ (replicate 4 main_turns
                            ++ (replicate 15 (worker_turns 0 1_600 true)
                                ++ replicate 2 main_turns)))))))

abbrev or_else : Pipeline ℕ → Outcome (Pipeline ℕ) → Pipeline ℕ
or_else p (done q) = q
or_else p panic = p
or_else p fault = p

abbrev after : Pipeline ℕ
after = or_else gateway (run whole settings schedule gateway)

run-Kept_example :
    Kept whole settings "thermo-1" 1_000 gateway (run whole settings schedule gateway)
run-Kept_example = run-Kept whole settings "thermo-1" 1_000 schedule gateway gateway-IsSteady

returned : (o : Outcome (Pipeline ℕ)) (q : Pipeline ℕ) → o ≡ done q → o ≡ done (or_else gateway o)
returned o q e = rw e refl

returns_after : run whole settings schedule gateway ≡ done after
returns_after = returned (run whole settings schedule gateway) kept.after kept.result
  where
    kept : Kept whole settings "thermo-1" 1_000 gateway (run whole settings schedule gateway)
    kept = run-Kept whole settings "thermo-1" 1_000 schedule gateway gateway-IsSteady

after_is_finished : after.main_pc ≡ finished
unfolding run Sensor.generate Sensor.available Sensor.read Sensor.stop Sensor.stop_join
    reader_turn_at RoundQueue.ptr_read RoundQueue.ptr_write RoundQueue.next_index
    RoundQueue.acquire_read_ptr RoundQueue.commit_read RoundQueue.acquire_write_ptr
    RoundQueue.commit_write RoundQueue.len RoundQueue.try_read RoundQueue.write_overwrite observe
    push_start push_pass pop_pass len file_reading bucket entry_push claim_ready window_start_of
    timestamp_millis sensor_id Workers.step Workers.turn generated turned main_turn step
after_is_finished = refl

shutdown_loses_nothing_example :
    All HasEnded after.readers
    × (after.engine.shared.buffer.queue ≡ [])
    × (after.engine.shared.pending ≡ [])
    × (total (frame_weight "thermo-1" 1_000) after.engine.shared.written
          + readings_weight whole settings "thermo-1" 1_000 gateway.taken
        ≡ pipeline_weight whole settings "thermo-1" 1_000 gateway
          + readings_weight whole settings "thermo-1" 1_000 after.taken)
shutdown_loses_nothing_example =
    shutdown_loses_nothing whole settings "thermo-1" 1_000 schedule gateway after gateway-IsSteady
      returns_after after_is_finished
