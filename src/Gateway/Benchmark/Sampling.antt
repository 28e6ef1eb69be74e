-- ===== src/Gateway/Benchmark/Sampling.antt =====
-- gateway/src/benchmark/collector.rs: the sampling loop. A tick is what one turn of the loop is told:
-- the clocks, the four answers of the dashboard, the load workers' counter and the processor times.
pub mod Counted
pub mod Window
mod Tests
use comp2432_project.Prelude.{
  ℕ, zero, suc, ◌+◌, ◌-◌, ◌%◌, ◌^◌, min, max, Bool, true, false, ◌&&◌, ◌||◌, Option, none, some,
  List, [], ◌∷◌, ◌++◌, map, if◌then◌else◌, ltb, ◌==◌, length,
}
use Prim.Native.String.{String}
use comp2432_project.Prelude.Floats.{FloatOps}
use comp2432_project.Prelude.Sort.{retain}
use comp2432_project.Models.{
  AggregatedFrame, SensorStats, SensorBufferStatus, BufferTelemetrySnapshot,
  ThroughputTelemetrySnapshot,
}

pub record SamplingConfig : Type 0 where
  pub warmup_secs : ℕ
  pub measure_secs : ℕ
  pub cooldown_secs : ℕ

pub data Phase : Type 0 where
  warmup : Phase
  measure : Phase
  cooldown : Phase

pub record SampleRow (F : Type 0) : Type 0 where
  pub ts_ms : ℕ
  pub phase : Phase
  pub any_full : Bool
  pub any_near_full : Bool
  pub peak_sensor_utilization : F
  pub peak_sensor_peak_utilization : F
  pub total_frames : ℕ
  pub frame_tps_interval : F
  pub latest_window_end : ℕ
  pub pipeline_latency_ms : ℕ
  pub ingest_readings_per_sec : F
  pub ingest_total_pushed : ℕ
  pub ingest_total_popped : ℕ
  pub processing_readings_per_sec : F
  pub processing_total_readings : ℕ
  pub serving_http_rps_interval : F
  pub serving_http_success_total : ℕ
  pub cpu_pct : F

pub record SamplingResult (F : Type 0) : Type 0 where
  pub samples : List (SampleRow F)
  pub total_samples : ℕ
  pub measured_samples : ℕ
  pub range_processing_readings_total : Option ℕ

pub record StatsResponse : Type 0 where
  pub total_frames : ℕ
  pub latest_window_end : Option ℕ

-- What the dashboard answers to one turn.
pub record Fetched (F : Type 0) : Type 0 where
  pub buffer : BufferTelemetrySnapshot F
  pub stats : StatsResponse
  pub throughput : ThroughputTelemetrySnapshot
  pub latest_frames : List (AggregatedFrame F)

-- The load workers' `success`, if there is a load and its lock is not poisoned.
pub data ServedCount : Type 0 where
  no_load : ServedCount
  poisoned : ServedCount
  served : ℕ → ServedCount

pub record Tick (F : Type 0) : Type 0 where
  pub tested_at : ℕ
  pub elapsed : ℕ
  pub fetched : Option (Fetched F)
  pub now_ms : ℕ
  pub http : ServedCount
  pub proc_jiffies : Option ℕ
  pub total_jiffies : Option ℕ
  pub row_written : Bool

pub record CpuSampler : Type 0 where
  pub last_proc_jiffies : ℕ
  pub last_total_jiffies : ℕ

-- The variables of the loop.
pub record Sampler (F : Type 0) : Type 0 where
  pub samples : List (SampleRow F)
  pub cpu : CpuSampler
  pub seen_frame_ids : List ℕ
  pub processing_total_readings : ℕ
  pub prev_sample_ts_ms : ℕ
  pub prev_total_frames : ℕ
  pub prev_http_success : ℕ
  pub measure_window_end_min : Option ℕ
  pub measure_window_end_max : Option ℕ

abbrev pub max_u64 : ℕ
max_u64 = 2 ^ 64 - 1

abbrev pub saturating_add : ℕ → ℕ → ℕ
saturating_add a b = min (a + b) max_u64

abbrev pub contains : List ℕ → ℕ → Bool
contains [] id = false
contains (x ∷ xs) id = x == id || contains xs id

unfoldable pub phase_of : SamplingConfig → ℕ → Phase
phase_of cfg elapsed =
    if ltb elapsed cfg.warmup_secs
    then warmup
    else if ltb elapsed ((cfg.warmup_secs + cfg.measure_secs) % 2 ^ 64)
    then measure
    else cooldown

abbrev pub total_duration : SamplingConfig → ℕ
total_duration cfg = ((cfg.warmup_secs + cfg.measure_secs) % 2 ^ 64 + cfg.cooldown_secs) % 2 ^ 64

abbrev pub is_measure : Phase → Bool
is_measure measure = true
is_measure _ = false

abbrev pub or_zero : Option ℕ → ℕ
or_zero none = 0
or_zero (some n) = n

-- The `?` operator.
abbrev pub and_then {ℓ κ} : {A : Type ℓ} {B : Type κ} → Option A → (A → Option B) → Option B
and_then none next = none
and_then (some x) next = next x

-- `map_or(end, |m| m.min(end))`, and the same for `max`.
abbrev pub join_with : (ℕ → ℕ → ℕ) → Option ℕ → ℕ → ℕ
join_with choose none end = end
join_with choose (some m) end = choose m end

module _ {F : Type 0} where
  abbrev pub stats_count : List (String × SensorStats F) → ℕ
  stats_count [] = 0
  stats_count ((id, s) ∷ rest) = (s.count + stats_count rest) % 2 ^ 64

  -- `frame.sensor_stats.values().map(|s| s.count as u64).sum()`
  abbrev pub frame_count : AggregatedFrame F → ℕ
  frame_count frame = stats_count frame.sensor_stats

  -- The loop over the latest frames: the ids seen and the new readings.
  unfoldable pub count_new : List (AggregatedFrame F) → List ℕ → ℕ → List ℕ × ℕ
  count_new [] seen new_readings = (seen, new_readings)
  count_new (frame ∷ frames) seen new_readings =
      let skipped = count_new frames seen new_readings in
      let counted =
        count_new frames (frame.frame_id ∷ seen)
          (saturating_add new_readings (frame_count frame)) in
      if contains seen frame.frame_id then skipped else counted

  pub sum_counts : List (AggregatedFrame F) → ℕ
  sum_counts [] = 0
  sum_counts (frame ∷ frames) = (frame_count frame + sum_counts frames) % 2 ^ 64

  -- `get_range` asks `/api/range`, which may fail.
  pub fetch_range_reading_total :
      Option ℕ → Option ℕ → (ℕ → ℕ → Option (List (AggregatedFrame F))) → Option ℕ
  unfolding sum_counts
  fetch_range_reading_total (some from) (some to) get_range = elim (get_range from to) [
    | none ↦ none
    | some frames ↦ some (sum_counts frames)
  ]
  fetch_range_reading_total _ _ get_range = none

  abbrev pub in_measure : SampleRow F → Bool
  in_measure row = is_measure row.phase

  -- The variables before the loop; `cpu` is what `CpuSampler::new` has read.
  abbrev pub first_sampler : ℕ → CpuSampler → Sampler F
  first_sampler now cpu = record {
    samples = [];
    cpu = cpu;
    seen_frame_ids = [];
    processing_total_readings = 0;
    prev_sample_ts_ms = now;
    prev_total_frames = 0;
    prev_http_success = 0;
    measure_window_end_min = none;
    measure_window_end_max = none;
  }

  abbrev pub sampling_result :
      (ℕ → ℕ → Option (List (AggregatedFrame F))) → Sampler F → SamplingResult F
  sampling_result get_range s = record {
    samples = s.samples;
    total_samples = length s.samples;
    measured_samples = length (retain in_measure s.samples);
    range_processing_readings_total =
        fetch_range_reading_total s.measure_window_end_min s.measure_window_end_max get_range;
  }

module _ {F : Type 0} (f : FloatOps F) where
  -- `CpuSampler::sample`; `none` where a file of `/proc` cannot be read.
  unfoldable pub sample_cpu : Option ℕ → Option ℕ → CpuSampler → CpuSampler × Option F
  sample_cpu (some cur_proc) (some cur_total) cpu =
      let d_proc = cur_proc - cpu.last_proc_jiffies in
      let d_total = cur_total - cpu.last_total_jiffies in
      (
        record { last_proc_jiffies = cur_proc; last_total_jiffies = cur_total },
        some (
            if d_total == 0
            then f.of_nat 0
            else f.mul (f.div (f.of_nat d_proc) (f.of_nat d_total)) (f.of_nat 100)),
      )
  sample_cpu _ _ cpu = (cpu, none)

  -- `.fold(0.0, f64::max)`
  unfoldable pub fold_max : F → List F → F
  fold_max best [] = best
  fold_max best (x ∷ xs) = fold_max (f.max_of best x) xs

  -- `(delta as f64 * 1000.0) / dt_ms as f64`
  abbrev pub per_interval : ℕ → ℕ → F
  per_interval delta dt_ms = f.div (f.mul (f.of_nat delta) (f.of_nat 1_000)) (f.of_nat dt_ms)

  -- The total that the row shows, the rate of the interval and the next `prev_http_success`.
  abbrev pub serving : ServedCount → ℕ → ℕ → ℕ × F × ℕ
  serving no_load prev dt_ms = (0, f.of_nat 0, prev)
  serving poisoned prev dt_ms = (0, f.of_nat 0, prev)
  serving (served success_total) prev dt_ms =
      (success_total, per_interval (success_total - prev) dt_ms, success_total)

  abbrev pub or_none : Option F → F
  or_none none = f.of_nat 0
  or_none (some x) = x

  -- One turn of the loop, once the dashboard has answered; the row is not pushed if it cannot be
  -- written to the file.
  unfoldable pub sample_row :
      SamplingConfig → Tick F → Fetched F → Sampler F → Sampler F × SampleRow F
  unfolding phase_of count_new sample_cpu fold_max
  sample_row cfg tick got s =
      let phase = phase_of cfg tick.elapsed in
      let latest_window_end = or_zero got.stats.latest_window_end in
      let measured = is_measure phase && ltb 0 latest_window_end in
      let dt_ms = max (tick.now_ms - s.prev_sample_ts_ms) 1 in
      let (seen, new_readings) = count_new got.latest_frames s.seen_frame_ids 0 in
      let total = saturating_add s.processing_total_readings new_readings in
      let (success_total, rps, prev_success) = serving tick.http s.prev_http_success dt_ms in
      let (cpu, pct) = sample_cpu tick.proc_jiffies tick.total_jiffies s.cpu in
      (
        record s {
          cpu = cpu;
          seen_frame_ids = seen;
          processing_total_readings = total;
          prev_sample_ts_ms = tick.now_ms;
          prev_total_frames = got.stats.total_frames;
          prev_http_success = prev_success;
          measure_window_end_min =
              if measured
              then some (join_with min s.measure_window_end_min latest_window_end)
              else s.measure_window_end_min;
          measure_window_end_max =
              if measured
              then some (join_with max s.measure_window_end_max latest_window_end)
              else s.measure_window_end_max;
        },
        record {
          ts_ms = tick.now_ms;
          phase = phase;
          any_full = got.buffer.any_full;
          any_near_full = got.buffer.any_near_full;
          peak_sensor_utilization =
              fold_max (f.of_nat 0) (map (λ b. b.utilization_ratio) got.buffer.sensors);
          peak_sensor_peak_utilization =
              fold_max (f.of_nat 0) (map (λ b. b.peak_utilization_ratio) got.buffer.sensors);
          total_frames = got.stats.total_frames;
          frame_tps_interval = per_interval (got.stats.total_frames - s.prev_total_frames) dt_ms;
          latest_window_end = latest_window_end;
          pipeline_latency_ms = tick.now_ms - latest_window_end;
          ingest_readings_per_sec = f.of_nat got.throughput.pushed_per_sec;
          ingest_total_pushed = got.throughput.pushed_total;
          ingest_total_popped = got.throughput.popped_total;
          processing_readings_per_sec = per_interval new_readings dt_ms;
          processing_total_readings = total;
          serving_http_rps_interval = rps;
          serving_http_success_total = success_total;
          cpu_pct = or_none pct;
        },
      )

  -- `none`: the loop leaves `run_sampling` with an error.
  unfoldable pub sample_tick : SamplingConfig → Tick F → Sampler F → Option (Sampler F)
  sample_tick cfg tick s = elim tick.fetched [
    | none ↦ none
    | some got ↦
        let (s', row) = sample_row cfg tick got s in
        if tick.row_written then some (record s' { samples = s.samples ++ row ∷ [] }) else none
  ]

  -- `while start.elapsed().as_secs() < total_duration`; after the last tick the time is up.
  unfoldable pub sampling_loop : SamplingConfig → List (Tick F) → Sampler F → Option (Sampler F)
  sampling_loop cfg [] s = some s
  sampling_loop cfg (tick ∷ ticks) s =
      let onward = and_then (sample_tick cfg tick s) (λ s'. sampling_loop cfg ticks s') in
      if ltb tick.tested_at (total_duration cfg) then onward else some s

  pub run_sampling :
      SamplingConfig
      → Option CpuSampler
      → ℕ
      → List (Tick F)
      → (ℕ → ℕ → Option (List (AggregatedFrame F)))
      → Option (SamplingResult F)
  unfolding sampling_loop
  run_sampling cfg none now ticks get_range = none
  run_sampling cfg (some cpu) now ticks get_range =
      elim (sampling_loop cfg ticks (first_sampler now cpu)) [
        | none ↦ none
        | some s ↦ some (sampling_result get_range s)
      ]
