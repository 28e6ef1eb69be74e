-- ===== src/Gateway/Tests.antt =====
-- Runs of the gateway's parts on small inputs, and the theorems at them.
use mathlib.Core.List.{Perm}
use comp2432_project.Prelude.{
  done, none, ◌<◌, ℕ, ◌≡◌, refl, true, false, List, [], ◌∷◌, ◌++◌, map, arith,
}
use comp2432_project.Gateway.Readings.{SensorReading, thermo}
use comp2432_project.Gateway.Buffer.{
  SharedBuffer, new_with_policy, Threads, Step, push_called, producer_woken, pop_passes, run, step,
  pick, push_start, push_pass, pop_pass,
}
use comp2432_project.Gateway.Buffer.Schedule.{IsSound, accepted, run-IsSound}
use comp2432_project.Gateway.Buffer.Kept.{known, called, run_loses_nothing}
use Prim.Native.String.{String}
use comp2432_project.Gateway.Readings as Readings
use comp2432_project.RoundQueue.{RwRoundQueue}
use comp2432_project.RoundQueue.Bounds.{IsValid}
use comp2432_project.Sensor.{Sensor}
use comp2432_project.Gateway.Reader.{Reader, outer_test, reader_run}
use comp2432_project.Gateway.Reader.Moves.{IsReady, line_up, reader_run_keeps}
use comp2432_project.Gateway.Rates.{
  parse_rates, rate_for_index, IsChoice, rates_choose, split_whitespace, split_words, scan_digits,
  parse_u32, positive_rates,
}
use comp2432_project.Gateway.Manager.{PerSensor, sensor_internal_buffers_snapshot}
use comp2432_project.Gateway.Manager.Telemetry.{Reports, snapshot-Reports}
use comp2432_project.Prelude.Samples.{whole}
use comp2432_project.Gateway.Buffer.Endings.{poison}
use comp2432_project.Gateway.Buffer.Stops.{overflow_stops, wakes_free_nobody}

abbrev sample : ℕ → SensorReading ℕ
sample ts = thermo (record { temperature_celsius = 20 }) "thermo-1" ts 1

-- Room for two.
abbrev fresh_buffer : SharedBuffer ℕ
fresh_buffer = new_with_policy 2 false

abbrev idle : Threads ℕ
idle = record { buffer = fresh_buffer; blocked = []; took = []; panicked = 0 }

-- The third push waits until a pop makes room.
abbrev contended : List (Step ℕ)
contended =
    push_called (sample 1)
    ∷ push_called (sample 2)
    ∷ push_called (sample 3)
    ∷ pop_passes false
    ∷ producer_woken 0
    ∷ []

third_waits :
    (run contended idle).took ≡ sample 1 ∷ []
    × (run contended idle).buffer.queue ≡ sample 2 ∷ sample 3 ∷ []
unfolding run step pick push_start push_pass pop_pass
third_waits = (refl, refl)

idle-IsSound : IsSound idle
idle-IsSound = record { few = omega arith; pushes = refl; pops = refl }

run-IsSound_example :
    IsSound (run contended idle)
    × (run contended idle).buffer.capacity ≡ idle.buffer.capacity
    × (newly : List (SensorReading ℕ)) × accepted (run contended idle) ≡ accepted idle ++ newly
run-IsSound_example = run-IsSound contended idle idle-IsSound

run_loses_nothing_example :
    Perm (known (run contended idle)) (called contended ++ known idle)
    × (run contended idle).panicked ≡ idle.panicked
run_loses_nothing_example = run_loses_nothing contended idle (record { waits = refl; sound = refl })

-- Full, in the mode that panics.
abbrev brittle : Threads ℕ
brittle = record idle {
  buffer = record fresh_buffer {
    queue = sample 1 ∷ sample 2 ∷ [];
    fail_on_full = true;
    pushed_total = 2;
  };
}

overflow_stops_example :
    (run (push_called (sample 3) ∷ pop_passes false ∷ []) brittle).buffer ≡ poison brittle.buffer
    × (run (push_called (sample 3) ∷ pop_passes false ∷ []) brittle).took ≡ []
overflow_stops_example = overflow_stops (sample 3) (pop_passes false ∷ []) brittle refl refl refl

-- Full, with two producers waiting.
abbrev crowded : Threads ℕ
crowded = record idle {
  buffer = record fresh_buffer {
    queue = sample 1 ∷ sample 2 ∷ [];
    pushed_total = 2;
    full_waits_total = 2;
  };
  blocked = sample 3 ∷ sample 4 ∷ [];
}

wakes_free_nobody_example :
    (run (map producer_woken (0 ∷ 0 ∷ [])) crowded).buffer.queue ≡ crowded.buffer.queue
    × Perm (run (map producer_woken (0 ∷ 0 ∷ [])) crowded).blocked crowded.blocked
wakes_free_nobody_example = wakes_free_nobody (0 ∷ 0 ∷ []) crowded refl refl

-- "50 3x +7": the second token is no number.
abbrev spec : List ℕ
spec = 53 ∷ 48 ∷ 32 ∷ 51 ∷ 120 ∷ 32 ∷ 43 ∷ 55 ∷ []

two_rates : parse_rates spec 100 ≡ 50 ∷ 7 ∷ []
unfolding parse_rates split_whitespace split_words scan_digits parse_u32 positive_rates
two_rates = refl

rates_choose_example :
    0 < rate_for_index (parse_rates spec 100) 4
    × IsChoice (parse_rates spec 100) 4 (rate_for_index (parse_rates spec 100) 4)
rates_choose_example = rates_choose spec 100 4 (omega arith)

-- One sensor is full and one nearly so.
abbrev queues : PerSensor
queues =
    ("thermo-2", record { current_len = 127; peak_len = 127 })
    ∷ ("accel-1", record { current_len = 120; peak_len = 121 })
    ∷ ("force-1", record { current_len = 0; peak_len = 3 })
    ∷ []

abbrev number : ℕ → String
number n = "n"

snapshot-Reports_example :
    Reports whole number 127 0 queues (sensor_internal_buffers_snapshot whole number 127 0 queues)
snapshot-Reports_example = snapshot-Reports whole number 127 0 queues

-- What `main` wraps a reading of a thermometer in, and the number back.
abbrev wrap : ℕ → String → ℕ → ℕ → SensorReading ℕ
wrap n id ts len = thermo (record { temperature_celsius = n }) id ts len

abbrev unwrap : SensorReading ℕ → ℕ
unwrap (thermo v id ts len) = v.temperature_celsius
unwrap (Readings.accel v id ts len) = v.acceleration_x
unwrap (Readings.force v id ts len) = v.force_x

abbrev two_readings : RwRoundQueue ℕ
two_readings = record {
  buffer = 20 ∷ 21 ∷ 0 ∷ 0 ∷ [];
  capacity = 4;
  read_idx = 0;
  write_idx = 2;
  start_ptr = 0;
  end_ptr = 4;
}

abbrev thermometer : Sensor ℕ
thermometer = record {
  id = "thermo-1";
  rate_per_sec = 50;
  queue = two_readings;
  writer = true;
  running = false;
  handle = none;
  notify_seq = 2;
}

abbrev reader : Reader ℕ ℕ
reader = record {
  sensor = thermometer;
  shared = fresh_buffer;
  per_sensor = [];
  running = true;
  pc = outer_test;
}

two_readings-IsValid : IsValid two_readings
two_readings-IsValid = record {
  exponent = 2;
  power = refl;
  small = omega arith;
  slots = refl;
  read_in = omega arith;
  write_in = omega arith;
}

reader-IsReady : IsReady wrap unwrap reader
reader-IsReady = record { valid = two_readings-IsValid; sound = refl; waits = refl; handled = refl }

reader_run_keeps_example :
    (after : Reader ℕ ℕ) × (reader_run wrap (1 ∷ 2 ∷ 3 ∷ 4 ∷ 5 ∷ 6 ∷ []) reader ≡ done after)
    × IsReady wrap unwrap after
    × (line_up wrap unwrap after ≡ line_up wrap unwrap reader)
reader_run_keeps_example =
    reader_run_keeps wrap unwrap (λ r id ts n. refl) (1 ∷ 2 ∷ 3 ∷ 4 ∷ 5 ∷ 6 ∷ []) reader
      reader-IsReady
