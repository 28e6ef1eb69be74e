-- ===== src/Gateway/Benchmark/Sampling/Tests.antt =====
-- Two turns of the sampling loop, which see one frame twice, and the summary's rows.

use comp2432_project.Prelude.{ℕ, ◌+◌, ◌*◌, ◌≡◌, refl, min, true, false, some, List, [], ◌∷◌}
use comp2432_project.Prelude.Samples.{whole}
use comp2432_project.Models.{AggregatedFrame, SensorStats}
use comp2432_project.Gateway.Benchmark.Sampling.{
  SamplingConfig, Fetched, Tick, Sampler, CpuSampler, served, max_u64, sample_row, sampling_loop,
  first_sampler,
}
use comp2432_project.Gateway.Benchmark.Sampling.Counted.{
  turns, frames_shown, first_seen, total_count, processing_counted_once,
}

abbrev cfg : SamplingConfig
cfg = record { warmup_secs = 1; measure_secs = 2; cooldown_secs = 1 }

abbrev stats : ℕ → SensorStats ℕ
stats n = record { count = n; min = 0; max = 9; sum = 9; sum_sq = 81; avg = 3; stddev = 0 }

abbrev frame : ℕ → ℕ → AggregatedFrame ℕ
frame id n = record {
  frame_id = id;
  window_start = 1_000 * id;
  window_end = 1_000 * id + 1_000;
  sensor_stats = ("accel-1", stats n) ∷ ("thermo-1", stats 2) ∷ [];
  anomalies = [];
  sensor_internal_buffer_max = [];
}

abbrev answer : List (AggregatedFrame ℕ) → ℕ → Fetched ℕ
answer frames end = record {
  buffer = record { sensors = []; any_near_full = false; any_full = false; warnings = [] };
  stats = record { total_frames = 2; latest_window_end = some end };
  throughput = record {
    buffer_len = 0;
    buffer_capacity = 100;
    pushed_total = 40;
    popped_total = 40;
    pushed_per_sec = 20;
    popped_per_sec = 20;
    full_waits_total = 0;
  };
  latest_frames = frames;
}

abbrev tick : ℕ → List (AggregatedFrame ℕ) → ℕ → Tick ℕ
tick elapsed frames end = record {
  tested_at = elapsed;
  elapsed = elapsed;
  fetched = some (answer frames end);
  now_ms = 10_000 + elapsed * 1_000;
  http = served 5;
  proc_jiffies = some 20;
  total_jiffies = some 200;
  row_written = true;
}

abbrev ticks : List (Tick ℕ)
ticks =
    tick 1 (frame 1 4 ∷ []) 2_000
    ∷ tick 2 (frame 2 3 ∷ frame 1 4 ∷ []) 3_000
    ∷ tick 4 (frame 3 9 ∷ []) 4_000
    ∷ []

abbrev cpu : CpuSampler
cpu = record { last_proc_jiffies = 10; last_total_jiffies = 100 }

processing_counted_once_example :
    (s' : Sampler ℕ) × (sampling_loop whole cfg ticks (first_sampler 10_000 cpu) ≡ some s')
    × (s'.processing_total_readings
        ≡ min (total_count (first_seen [] (frames_shown (turns cfg ticks)))) max_u64)
processing_counted_once_example = processing_counted_once whole cfg cpu 10_000 ticks (
  (answer (frame 1 4 ∷ []) 2_000, refl, refl),
  ((answer (frame 2 3 ∷ frame 1 4 ∷ []) 3_000, refl, refl), tt),
)

two_turns : total_count (first_seen [] (frames_shown (turns cfg ticks))) ≡ 11
two_turns = refl

abbrev first_row : Sampler ℕ
first_row = (sample_row whole cfg (tick 1 [] 2_000) (answer [] 2_000) (first_sampler 10_000 cpu)).0

abbrev ended : Sampler ℕ
ended = record first_row {
  samples =
      (sample_row whole cfg (tick 1 [] 2_000) (answer [] 2_000) (first_sampler 10_000 cpu)).1 ∷ [];
}
