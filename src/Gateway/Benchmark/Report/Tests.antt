-- ===== src/Gateway/Benchmark/Report/Tests.antt =====
-- The median of five latencies, and the report of a run with one measured row.

use mathlib.Core.List.{Perm}
use comp2432_project.Prelude.{
  ℕ, ◌≤◌, ◌≡◌, refl, true, false, none, some, List, [], ◌∷◌, ◌++◌, done, length,
}
use comp2432_project.Prelude.Samples.{whole}
use comp2432_project.Prelude.Sort.{All, retain, sort_by}
use comp2432_project.Gateway.Main.{codes}
use comp2432_project.Gateway.Benchmark.Scenario.{ScenarioConfig, expected_ingest_per_sec}
use comp2432_project.Gateway.Benchmark.Scenario.Defaults.{default_thresholds}
use comp2432_project.Gateway.Benchmark.Sampling.{
  SampleRow, SamplingResult, measure, warmup, fold_max,
}
use comp2432_project.Gateway.Benchmark.Report.{
  ScenarioSummary, rank, percentile_u64, percentile_f64, last_count, or_else, build_summary,
  summary_of, build_checks, scenario_ok, stddev_f64, ratio, average_f64,
}
use comp2432_project.Gateway.Benchmark.Report.Percentile.{percentile_ranks}
use comp2432_project.Gateway.Benchmark.Report.Passed.{rows_of, passed_means}

percentile_ranks_example :
    (x : ℕ) × (front : List ℕ) × (back : List ℕ) × (percentile_u64 whole (30 ∷ 10 ∷ 20 ∷ []) 100
      ≡ done x)
    × Perm (front ++ x ∷ back) (30 ∷ 10 ∷ 20 ∷ [])
    × (length front ≡ rank whole 3 100)
    × All (λ y. y ≤ x) front
    × All (λ y. x ≤ y) back
percentile_ranks_example = percentile_ranks whole 30 (10 ∷ 20 ∷ []) 100

greatest : percentile_u64 whole (30 ∷ 10 ∷ 20 ∷ []) 100 ≡ done 30
unfolding percentile_u64 sort_by
greatest = refl

abbrev row : SampleRow ℕ
row = record {
  ts_ms = 12_000;
  phase = measure;
  any_full = false;
  any_near_full = false;
  peak_sensor_utilization = 0;
  peak_sensor_peak_utilization = 0;
  total_frames = 2;
  frame_tps_interval = 1;
  latest_window_end = 11_000;
  pipeline_latency_ms = 1_000;
  ingest_readings_per_sec = 20;
  ingest_total_pushed = 40;
  ingest_total_popped = 40;
  processing_readings_per_sec = 19;
  processing_total_readings = 38;
  serving_http_rps_interval = 5;
  serving_http_success_total = 5;
  cpu_pct = 10;
}

abbrev sampling : SamplingResult ℕ
sampling = record {
  samples = record row { phase = warmup; any_full = true } ∷ row ∷ [];
  total_samples = 2;
  measured_samples = 1;
  range_processing_readings_total = some 39;
}

abbrev scenario : ScenarioConfig ℕ
scenario = record {
  id = codes "small";
  description = codes "One thermometer";
  warmup_secs = 1;
  measure_secs = 2;
  cooldown_secs = 1;
  buffer_capacity = 100;
  sensors = record {
    thermo_count = 1;
    thermo_rates_per_sec = codes "20";
    accel_count = 0;
    accel_rates_per_sec = codes "";
    force_count = 0;
    force_rates_per_sec = codes "";
  };
  http_load = none;
  thresholds = default_thresholds whole;
}

abbrev report : ScenarioSummary ℕ
report =
    summary_of whole scenario sampling (record { success = 0; fail = 0; latencies_us = [] }) 20 19 5
      1_000 0 0 0

made : build_summary whole scenario sampling none ≡ done (some report)
unfolding build_summary percentile_u64 percentile_f64 sort_by retain
made = refl

passes : scenario_ok (build_checks whole (λ _. "n") (λ _ _. "x") scenario report) ≡ true
unfolding scenario_ok build_checks retain stddev_f64 fold_max expected_ingest_per_sec ratio
    average_f64
passes = refl

passed_means_example :
    All (λ r. r.any_full ≡ false) (rows_of sampling)
    × (or_else sampling.range_processing_readings_total
          (last_count (λ r. r.processing_total_readings) (rows_of sampling))
        ≤ last_count (λ r. r.ingest_total_pushed) (rows_of sampling))
    × (whole.less_or_equal report.near_full_ratio 0 ≡ true)
    × (whole.less_or_equal report.http_error_rate 0 ≡ true)
    × (whole.less_or_equal report.http_latency_p95_ms 200 ≡ true)
    × (whole.less_or_equal report.http_latency_p99_ms 500 ≡ true)
    × (whole.less_or_equal report.cpu_avg_pct 75 ≡ true)
    × (whole.less_or_equal report.cpu_peak_pct 90 ≡ true)
passed_means_example =
    passed_means whole scenario sampling (λ _. "n") (λ _ _. "x") none report made passes
