-- ===== src/Gateway/Benchmark/Report.antt =====
-- gateway/src/benchmark/report.rs: the figures of a scenario and the checks that it has to pass.
pub mod Percentile
pub mod Passed
mod Tests
use Prim.Native.String.{String, ◌++◌ as ◌⋯◌}
use comp2432_project.Prelude.{
  ℕ, zero, suc, ◌+◌, ◌-◌, ◌*◌, ◌%◌, ◌^◌, ◌≤◌, min, Bool, true, false, not, ◌&&◌, Option, none, some,
  List, [], ◌∷◌, ◌++◌, map, Outcome, done, panic, ◌>>=◌, if◌then◌else◌, ltb, leb, ◌==◌, length,
  get_elem?,
}
use comp2432_project.Prelude.Floats.{FloatOps}
use comp2432_project.Prelude.Sort.{retain, sort_by}
use comp2432_project.Gateway.Main.{Text}
use comp2432_project.Gateway.Benchmark.{HttpLoadMetrics, default_metrics}
use comp2432_project.Gateway.Benchmark.Scenario.{
  SensorScenarioConfig, ScenarioConfig, Thresholds, expected_ingest_per_sec,
}
use comp2432_project.Gateway.Benchmark.Sampling.{
  SampleRow, SamplingResult, in_measure, fold_max, max_u64,
}

pub record ScenarioSummary (F : Type 0) : Type 0 where
  pub scenario_id : Text
  pub measured_samples : ℕ
  pub overflow_events : ℕ
  pub near_full_samples : ℕ
  pub near_full_ratio : F
  pub peak_sensor_utilization : F
  pub peak_sensor_peak_utilization : F
  pub ingest_throughput_avg_rps : F
  pub ingest_throughput_p95_rps : F
  pub processing_throughput_avg_rps : F
  pub processing_throughput_p95_rps : F
  pub serving_throughput_avg_rps : F
  pub serving_throughput_p95_rps : F
  pub frame_tps_avg : F
  pub frame_tps_stddev : F
  pub ingest_total_pushed_end : ℕ
  pub ingest_total_popped_end : ℕ
  pub processing_total_readings_end : ℕ
  pub processing_total_readings_range : Option ℕ
  pub pipeline_latency_avg_ms : F
  pub pipeline_latency_p95_ms : F
  pub cpu_avg_pct : F
  pub cpu_peak_pct : F
  pub http_success : ℕ
  pub http_fail : ℕ
  pub http_error_rate : F
  pub http_rps : F
  pub http_latency_p50_ms : F
  pub http_latency_p95_ms : F
  pub http_latency_p99_ms : F
  pub ingest_expected_measure_total : ℕ
  pub ingest_delta_measure : ℕ
  pub ingest_measure_ratio : F

pub record CheckResult : Type 0 where
  pub name : String
  pub passed : Bool
  pub actual : String
  pub target : String

-- `iter().sum::<u64>()`
abbrev pub sum_u64 : List ℕ → ℕ
sum_u64 [] = 0
sum_u64 (n ∷ ns) = (n + sum_u64 ns) % 2 ^ 64

-- `first` and `last` of a slice.
abbrev pub first_of {ℓ} : {A : Type ℓ} → List A → Option A
first_of [] = none
first_of (x ∷ xs) = some x

abbrev pub last_of {ℓ} : {A : Type ℓ} → List A → Option A
last_of [] = none
last_of (x ∷ []) = some x
last_of (x ∷ y ∷ xs) = last_of (y ∷ xs)

abbrev pub saturating_mul : ℕ → ℕ → ℕ
saturating_mul a b = min (a * b) max_u64

abbrev pub is_empty {ℓ} : {A : Type ℓ} → List A → Bool
is_empty [] = true
is_empty (x ∷ xs) = false

-- Indexing a slice panics out of bounds.
abbrev pub index {ℓ} : {A : Type ℓ} → List A → ℕ → Outcome A
index xs i = elim (get_elem? xs i) [ none ↦ panic | some x ↦ done x ]

module _ {F : Type 0} where
  abbrev pub last_count : (SampleRow F → ℕ) → List (SampleRow F) → ℕ
  last_count field rows = elim (last_of rows) [ none ↦ 0 | some row ↦ field row ]

module _ {F : Type 0} (f : FloatOps F) where
  unfoldable pub ratio : F → F → F
  ratio a b = if f.less_or_equal b (f.of_nat 0) then f.of_nat 0 else f.div a b

  -- `iter().sum::<f64>()`
  unfoldable pub sum_from : F → List F → F
  sum_from total [] = total
  sum_from total (x ∷ xs) = sum_from (f.add total x) xs

  unfoldable pub average_u64 : List ℕ → F
  average_u64 v =
      if is_empty v then f.of_nat 0 else f.div (f.of_nat (sum_u64 v)) (f.of_nat (length v))

  unfoldable pub average_f64 : List F → F
  unfolding sum_from
  average_f64 v =
      if is_empty v then f.of_nat 0 else f.div (sum_from (f.of_nat 0) v) (f.of_nat (length v))

  -- The index of the percentile `p` among `n` sorted values.
  abbrev pub rank : ℕ → F → ℕ
  rank n p = min (f.round_to_nat (f.mul (f.div p (f.of_nat 100)) (f.of_nat (n - 1)))) (n - 1)

  unfoldable pub percentile_u64 : List ℕ → F → Outcome F
  percentile_u64 v p =
      let s = sort_by leb v in
      if is_empty v
      then done (f.of_nat 0)
      else index s (rank (length s) p) >>= (λ n. done (f.of_nat n))

  -- `partial_cmp` is `Greater` where the second is less; the order of a list with a NaN is not told.
  abbrev pub float_order : F → F → Bool
  float_order a b = not (f.less b a)

  unfoldable pub percentile_f64 : List F → F → Outcome F
  percentile_f64 v p =
      let s = sort_by float_order v in
      if is_empty v then done (f.of_nat 0) else index s (rank (length s) p)

  unfoldable pub stddev_f64 : List F → F
  unfolding sum_from average_f64
  stddev_f64 v =
      let mean = average_f64 v in
      let squares = map (λ x. f.mul (f.sub x mean) (f.sub x mean)) v in
      if is_empty v
      then f.of_nat 0
      else f.sqrt (f.div (sum_from (f.of_nat 0) squares) (f.of_nat (length v)))

  -- The readings pushed between the first and the last measured row, and their share of `expected`.
  abbrev pub ingest_measure : Option (SampleRow F) → Option (SampleRow F) → ℕ → ℕ × F
  ingest_measure (some first) (some last) expected =
      let delta = last.ingest_total_pushed - first.ingest_total_pushed in
      (delta, ratio (f.of_nat delta) (f.of_nat expected))
  ingest_measure _ _ expected = (0, f.of_nat 0)

  -- The summary with its seven percentiles at hand.
  abbrev pub summary_of :
      ScenarioConfig F
      → SamplingResult F
      → HttpLoadMetrics
      → (ingest_p95 processing_p95 serving_p95 pipeline_p95 http_p50 http_p95 http_p99 : F)
      → ScenarioSummary F
  summary_of scenario sampling http ingest_p95 processing_p95 serving_p95 pipeline_p95 http_p50
        http_p95 http_p99 =
      let measured = retain in_measure sampling.samples in
      let near_full_samples = length (retain (λ r. r.any_near_full) measured) in
      let cpu_values = map (λ r. r.cpu_pct) measured in
      let total_http = (http.success + http.fail) % 2 ^ 64 in
      let expected =
        saturating_mul scenario.measure_secs (expected_ingest_per_sec scenario.sensors) in
      let (delta, share) = ingest_measure (first_of measured) (last_of measured) expected in
      record {
        scenario_id = scenario.id;
        measured_samples = length measured;
        overflow_events = length (retain (λ r. r.any_full) measured);
        near_full_samples = near_full_samples;
        near_full_ratio = ratio (f.of_nat near_full_samples) (f.of_nat (length measured));
        peak_sensor_utilization =
            fold_max f (f.of_nat 0) (map (λ r. r.peak_sensor_utilization) measured);
        peak_sensor_peak_utilization =
            fold_max f (f.of_nat 0) (map (λ r. r.peak_sensor_peak_utilization) measured);
        ingest_throughput_avg_rps = average_f64 (map (λ r. r.ingest_readings_per_sec) measured);
        ingest_throughput_p95_rps = ingest_p95;
        processing_throughput_avg_rps =
            average_f64 (map (λ r. r.processing_readings_per_sec) measured);
        processing_throughput_p95_rps = processing_p95;
        serving_throughput_avg_rps = average_f64 (map (λ r. r.serving_http_rps_interval) measured);
        serving_throughput_p95_rps = serving_p95;
        frame_tps_avg = average_f64 (map (λ r. r.frame_tps_interval) measured);
        frame_tps_stddev = stddev_f64 (map (λ r. r.frame_tps_interval) measured);
        ingest_total_pushed_end = last_count (λ r. r.ingest_total_pushed) measured;
        ingest_total_popped_end = last_count (λ r. r.ingest_total_popped) measured;
        processing_total_readings_end = last_count (λ r. r.processing_total_readings) measured;
        processing_total_readings_range = sampling.range_processing_readings_total;
        pipeline_latency_avg_ms = average_u64 (map (λ r. r.pipeline_latency_ms) measured);
        pipeline_latency_p95_ms = pipeline_p95;
        cpu_avg_pct = average_f64 cpu_values;
        cpu_peak_pct = fold_max f (f.of_nat 0) cpu_values;
        http_success = http.success;
        http_fail = http.fail;
        http_error_rate = ratio (f.of_nat http.fail) (f.of_nat total_http);
        http_rps = ratio (f.of_nat http.success) (f.of_nat scenario.measure_secs);
        http_latency_p50_ms = http_p50;
        http_latency_p95_ms = http_p95;
        http_latency_p99_ms = http_p99;
        ingest_expected_measure_total = expected;
        ingest_delta_measure = delta;
        ingest_measure_ratio = share;
      }

  -- The metrics of the load from their file: default ones if there is none, `none` if it cannot be
  -- read.
  abbrev pub http_metrics : Option (Option HttpLoadMetrics) → Option HttpLoadMetrics
  http_metrics none = some default_metrics
  http_metrics (some parsed) = parsed

  abbrev pub summarize :
      ScenarioConfig F → SamplingResult F → HttpLoadMetrics → Outcome (ScenarioSummary F)
  summarize scenario sampling http =
      let measured = retain in_measure sampling.samples in
      let lat_ms = map (λ v. f.div (f.of_nat v) (f.of_nat 1_000)) http.latencies_us in
      do
        pipeline_p95 ← percentile_u64 (map (λ r. r.pipeline_latency_ms) measured) (f.of_nat 95)
        ingest_p95 ← percentile_f64 (map (λ r. r.ingest_readings_per_sec) measured) (f.of_nat 95)
        processing_p95 ←
            percentile_f64 (map (λ r. r.processing_readings_per_sec) measured) (f.of_nat 95)
        serving_p95 ← percentile_f64 (map (λ r. r.serving_http_rps_interval) measured) (f.of_nat 95)
        http_p50 ← percentile_f64 lat_ms (f.of_nat 50)
        http_p95 ← percentile_f64 lat_ms (f.of_nat 95)
        http_p99 ← percentile_f64 lat_ms (f.of_nat 99)
        done (
            summary_of scenario sampling http ingest_p95 processing_p95 serving_p95 pipeline_p95
              http_p50 http_p95 http_p99)

  -- `none` where the file of the load's metrics is there and cannot be read.
  pub build_summary :
      ScenarioConfig F
      → SamplingResult F
      → Option (Option HttpLoadMetrics)
      → Outcome (Option (ScenarioSummary F))
  build_summary scenario sampling http_file = elim (http_metrics http_file) [
    | none ↦ done none
    | some http ↦ summarize scenario sampling http >>= (λ summary. done (some summary))
  ]

-- `unwrap_or`
abbrev pub or_else : Option ℕ → ℕ → ℕ
or_else none n = n
or_else (some m) n = m

-- `print` is what `{}` prints of a number, `print_to` what `{:.n}` prints of a float.
module _ {F : Type 0} (f : FloatOps F) (print : ℕ → String) (print_to : ℕ → F → String) where
  abbrev pub at_most : String → F → F → ℕ → CheckResult
  at_most name value limit places = record {
    name = name;
    passed = f.less_or_equal value limit;
    actual = print_to places value;
    target = "<= " ⋯ print_to places limit;
  }

  abbrev pub base_checks : Thresholds F → ScenarioSummary F → List CheckResult
  base_checks t s =
      let processing_total =
        or_else s.processing_total_readings_range s.processing_total_readings_end in
      record {
        name = "zero_data_loss_overflow";
        passed = s.overflow_events == 0;
        actual = print s.overflow_events;
        target = "0";
      }
      ∷ at_most "near_full_ratio" s.near_full_ratio t.max_near_full_ratio 4
      ∷ at_most "http_error_rate" s.http_error_rate t.max_http_error_rate 4
      ∷ at_most "http_latency_p95_ms" s.http_latency_p95_ms t.max_api_p95_ms 2
      ∷ at_most "http_latency_p99_ms" s.http_latency_p99_ms t.max_api_p99_ms 2
      ∷ at_most "cpu_avg_pct" s.cpu_avg_pct t.max_cpu_avg_pct 2
      ∷ at_most "cpu_peak_pct" s.cpu_peak_pct t.max_cpu_peak_pct 2
      ∷ record {
        name = "processing_not_exceed_ingest";
        passed = leb processing_total s.ingest_total_pushed_end;
        actual =
            "processing_total="
            ⋯ print processing_total
            ⋯ " ingest_total="
            ⋯ print s.ingest_total_pushed_end;
        target = "processing_total <= ingest_total (uses /api/range sum when available)";
      }
      ∷ []

  abbrev pub ingest_check : Thresholds F → ScenarioSummary F → CheckResult
  ingest_check t s = record {
    name = "ingest_meets_expected";
    passed = f.less_or_equal t.min_ingest_ratio s.ingest_measure_ratio;
    actual =
        "ratio "
        ⋯ print_to 4 s.ingest_measure_ratio
        ⋯ " (delta "
        ⋯ print s.ingest_delta_measure
        ⋯ " / expected "
        ⋯ print s.ingest_expected_measure_total
        ⋯ ")";
    target = ">= " ⋯ print_to 4 t.min_ingest_ratio;
  }

  unfoldable pub build_checks : ScenarioConfig F → ScenarioSummary F → List CheckResult
  build_checks scenario s =
      let t = scenario.thresholds in
      if f.less (f.of_nat 0) t.min_ingest_ratio && ltb 0 s.ingest_expected_measure_total
      then base_checks t s ++ ingest_check t s ∷ []
      else base_checks t s

-- `passed_n == total_n`
unfoldable pub scenario_ok : List CheckResult → Bool
scenario_ok checks = length (retain (λ c. c.passed) checks) == length checks
