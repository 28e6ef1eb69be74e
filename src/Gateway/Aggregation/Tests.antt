-- ===== src/Gateway/Aggregation/Tests.antt =====
-- An engine of two workers that is shut down while both hold a reading.
use comp2432_project.Prelude.{
  true, length, ◌≤◌, ℕ, ◌≡◌, refl, false, List, [], ◌∷◌, inl, inr, arith,
}
use comp2432_project.Prelude.Samples.{whole}
use comp2432_project.Gateway.Readings.{SensorReading, thermo, sensor_id, timestamp_millis}
use comp2432_project.Gateway.Buffer.{SharedBuffer, new_with_policy, pop_pass, len}
use comp2432_project.Gateway.Stats.Counts.{frame_weight}
use comp2432_project.Gateway.Aggregation.{
  window_start_of, entry_push, bucket, file_reading, claim_ready,
}
use comp2432_project.Gateway.Aggregation.Weights.{total}
use comp2432_project.Gateway.Aggregation.Workers.{
  Settings, Engine, Turn, worker_turn, shutdown_called, at_top, pulling, turn, step, run,
}
use comp2432_project.Gateway.Aggregation.Workers.Turns.{engine_weight, run_weight}
use comp2432_project.Gateway.Aggregation.Workers.Ends.{
  IsBusy, turns_first, at_rest, turns_left, shutdown_ends,
}
use comp2432_project.Gateway.Aggregation.Workers.Drained.{
  IsAttended, AllExited, exited_engine_drained,
}

abbrev settings : Settings ℕ
settings = record { window_ms = 1_000; grace_ms = 500; anomaly_threshold = 3 }

abbrev reading : ℕ → SensorReading ℕ
reading ts = thermo (record { temperature_celsius = 20 }) "thermo-1" ts 1

abbrev loaded : SharedBuffer ℕ
loaded = record (new_with_policy 8 false) {
  queue = reading 1_200 ∷ reading 1_700 ∷ [];
  pushed_total = 2;
}

abbrev engine : Engine ℕ
engine = record {
  shared = record { buffer = loaded; shutdown = false; pending = []; frame_id = 0; written = [] };
  workers = at_top ∷ at_top ∷ [];
}

abbrev first : Turn
first = worker_turn 0 1_800 false

abbrev second : Turn
second = worker_turn 1 9_000 false

-- The second worker files its reading when the first has taken the windows to close.
abbrev turns : List Turn
turns =
    first ∷ second ∷ shutdown_called ∷ first ∷ second ∷ first ∷ first ∷ first ∷ first ∷ first
    ∷ second ∷ first ∷ first ∷ second ∷ second ∷ second ∷ second ∷ second ∷ second ∷ []

engine-IsAttended : IsAttended engine
engine-IsAttended = record {
  sound = refl;
  staffed = omega arith;
  minded = inl refl;
  unfinished = inr refl;
}

turns-AllExited : AllExited whole settings (run whole settings turns engine).workers
unfolding run step turn pop_pass len file_reading bucket entry_push claim_ready window_start_of
    timestamp_millis sensor_id
turns-AllExited = (refl, (refl, tt))

run_weight_example :
    engine_weight whole settings "thermo-1" 1_000 (run whole settings turns engine)
    ≡ engine_weight whole settings "thermo-1" 1_000 engine
run_weight_example = run_weight whole settings "thermo-1" 1_000 turns engine

exited_engine_drained_example :
    (run whole settings turns engine).shared.buffer.queue ≡ []
    × (run whole settings turns engine).shared.pending ≡ []
    × total (frame_weight "thermo-1" 1_000) (run whole settings turns engine).shared.written
      ≡ engine_weight whole settings "thermo-1" 1_000 engine
exited_engine_drained_example =
    exited_engine_drained whole settings "thermo-1" 1_000 turns engine engine-IsAttended
      turns-AllExited

-- The same engine after the shutdown.
abbrev stopping : Engine ℕ
stopping = record engine { shared = record (engine.shared) { shutdown = true } }

abbrev busy_turns : List Turn
busy_turns = worker_turn 0 1_800 true ∷ worker_turn 0 1_900 true ∷ worker_turn 1 1_900 true ∷ []

busy_turns-IsBusy : IsBusy whole settings busy_turns stopping
unfolding step turn pop_pass len
busy_turns-IsBusy =
    turns_first 0 1_800 at_top refl (λ h. h)
      (turns_first 0 1_900 pulling refl (λ h. h) (turns_first 1 1_900 at_top refl (λ h. h) at_rest))

shutdown_ends_example : length busy_turns ≤ turns_left stopping
shutdown_ends_example = shutdown_ends whole settings busy_turns stopping refl refl busy_turns-IsBusy
