-- ===== src/Gateway/Benchmark/Report/Passed.antt =====
-- What it means that a scenario passes its checks.
use comp2432_project.Prelude.{
  ℕ, suc, ◌≤◌, ◌≡◌, refl, sym, ◌∙◌, Bool, true, false, ◌&&◌, Option, none, some, List, [], ◌∷◌,
  ◌++◌, map, Outcome, done, length, leb, ltb, ◌==◌, Bool-cases, inl, inr, arith,
}
use Prim.Native.String.{String}
use mathlib.Core.Path.{subst, subst₂}
use comp2432_project.Prelude.Floats.{FloatOps}
use comp2432_project.Prelude.Sort.{All, retain}
use comp2432_project.Gateway.Benchmark.{HttpLoadMetrics}
use comp2432_project.Gateway.Benchmark.Scenario.{ScenarioConfig}
use comp2432_project.Gateway.Benchmark.Sampling.{SampleRow, SamplingResult, in_measure}
use comp2432_project.Gateway.Benchmark.Report.{
  ScenarioSummary, CheckResult, last_count, summary_of, http_metrics, build_summary, or_else,
  base_checks, ingest_check, build_checks, scenario_ok,
}
use comp2432_project.Gateway.Benchmark.Report.Percentile.{
  percentile_u64-returns, percentile_f64-returns,
}

length-retain {ℓ} :
    {A : Type ℓ} (keep : A → Bool) (xs : List A) → length (retain keep xs) ≤ length xs
unfolding retain
length-retain keep [] = omega arith
length-retain keep (x ∷ xs) = elim (Bool-cases (keep x)) [
  | inl e ↦ rw e (omega (arith, length-retain keep xs))
  | inr e ↦ rw e (omega (arith, length-retain keep xs))
]

retain_whole {ℓ} :
    {A : Type ℓ} (keep : A → Bool) (xs : List A)
    → length (retain keep xs) ≡ length xs
    → All (λ x. keep x ≡ true) xs
unfolding retain
retain_whole keep [] h = tt
retain_whole keep (x ∷ xs) h = elim (Bool-cases (keep x)) [
  | inl e ↦
      let h' : suc (length (retain keep xs)) ≡ suc (length xs) = rw e at h in
      (e, retain_whole keep xs (omega arith))
  | inr e ↦
      let h' : length (retain keep xs) ≡ suc (length xs) = rw e at h in
      absurd (omega (arith, length-retain keep xs))
]

retain_none {ℓ} :
    {A : Type ℓ} (keep : A → Bool) (xs : List A)
    → length (retain keep xs) ≡ 0
    → All (λ x. keep x ≡ false) xs
unfolding retain
retain_none keep [] h = tt
retain_none keep (x ∷ xs) h = elim (Bool-cases (keep x)) [
  | inl e ↦ let h' : suc (length (retain keep xs)) ≡ 0 = rw e at h in absurd (omega arith)
  | inr e ↦ let h' : length (retain keep xs) ≡ 0 = rw e at h in (e, retain_none keep xs h')
]

ok-All : (checks : List CheckResult) → scenario_ok checks ≡ true → All (λ c. c.passed ≡ true) checks
unfolding scenario_ok
ok-All checks h = retain_whole (λ c. c.passed) checks (ground arith)

All-front {ℓ κ} :
    {A : Type ℓ} (P : A → Type κ) (xs ys : List A) → All P (xs ++ ys) → All P xs × All P ys
All-front P [] ys h = (tt, h)
All-front P (x ∷ xs) ys h = let (front, back) = All-front P xs ys h.1 in ((h.0, front), back)

le_of_leb : (a b : ℕ) → leb a b ≡ true → a ≤ b
le_of_leb a b h = ground arith

eq_of_test : (a b : ℕ) → (a == b) ≡ true → a ≡ b
eq_of_test a b h = ground arith

abbrev pub rows_of : {F : Type 0} → SamplingResult F → List (SampleRow F)
rows_of sampling = retain in_measure sampling.samples

module _ {F : Type 0} (f : FloatOps F) (scenario : ScenarioConfig F)
    (sampling : SamplingResult F) where
  -- The summary is made, whatever the samples: no percentile panics.
  record SummaryMade (http_file : Option (Option HttpLoadMetrics)) : Type 0 where
    summary : ScenarioSummary F
    made : build_summary f scenario sampling http_file ≡ done (some summary)
    overflow : summary.overflow_events ≡ length (retain (λ r. r.any_full) (rows_of sampling))
    range : summary.processing_total_readings_range ≡ sampling.range_processing_readings_total
    processed :
        summary.processing_total_readings_end
        ≡ last_count (λ r. r.processing_total_readings) (rows_of sampling)
    pushed :
        summary.ingest_total_pushed_end ≡ last_count (λ r. r.ingest_total_pushed) (rows_of sampling)

  summarized :
      (http : HttpLoadMetrics) (http_file : Option (Option HttpLoadMetrics))
      → http_metrics f http_file ≡ some http
      → SummaryMade http_file
  unfolding build_summary
  summarized http http_file e =
      let lat_ms = map (λ v. f.div (f.of_nat v) (f.of_nat 1_000)) http.latencies_us in
      let (a, ea) =
        percentile_u64-returns f (map (λ r. r.pipeline_latency_ms) (rows_of sampling))
          (f.of_nat 95) in
      let (b, eb) =
        percentile_f64-returns f (map (λ r. r.ingest_readings_per_sec) (rows_of sampling))
          (f.of_nat 95) in
      let (c, ec) =
        percentile_f64-returns f (map (λ r. r.processing_readings_per_sec) (rows_of sampling))
          (f.of_nat 95) in
      let (d, ed) =
        percentile_f64-returns f (map (λ r. r.serving_http_rps_interval) (rows_of sampling))
          (f.of_nat 95) in
      let (p50, e50) = percentile_f64-returns f lat_ms (f.of_nat 50) in
      let (p95, e95) = percentile_f64-returns f lat_ms (f.of_nat 95) in
      let (p99, e99) = percentile_f64-returns f lat_ms (f.of_nat 99) in
      record {
        summary = summary_of f scenario sampling http b c d a p50 p95 p99;
        made = rw (e, build_summary) (rw ea (rw eb (rw ec (rw ed (rw e50 (rw e95 (rw e99)))))));
        overflow = refl;
        range = refl;
        processed = refl;
        pushed = refl;
      }

  read_metrics :
      (http_file : Option (Option HttpLoadMetrics)) (o : Option HttpLoadMetrics)
      → {s : ScenarioSummary F} → http_metrics f http_file ≡ o
      → build_summary f scenario sampling http_file ≡ done (some s)
      → (http : HttpLoadMetrics) × (http_metrics f http_file ≡ some http)
  unfolding build_summary
  read_metrics http_file (some http) e h = (http, e)
  read_metrics http_file none {s} e h =
      let h' : ◌≡◌ {A = Outcome (Option (ScenarioSummary F))} (done none) (done (some s)) =
        rw (e, build_summary) at h in
      cc

  summarized_of :
      (http_file : Option (Option HttpLoadMetrics)) {s : ScenarioSummary F}
      → build_summary f scenario sampling http_file ≡ done (some s)
      → (z : SummaryMade http_file) × (z.summary ≡ s)
  summarized_of http_file {s} h =
      let (http, e) = read_metrics http_file (http_metrics f http_file) refl h in
      let z = summarized http http_file e in
      let same : done (some z.summary) ≡ done (some s) = sym z.made ∙ h in (z, cc)

  module _ (print : ℕ → String) (print_to : ℕ → F → String) where
    base_pass :
        (s : ScenarioSummary F)
        → scenario_ok (build_checks f print print_to scenario s) ≡ true
        → All (λ c. c.passed ≡ true) (base_checks f print print_to scenario.thresholds s)
    unfolding build_checks
    base_pass s h =
        elim (Bool-cases (
          f.less (f.of_nat 0) scenario.thresholds.min_ingest_ratio
          && ltb 0 s.ingest_expected_measure_total)) [
            | inl e ↦
                (All-front (λ c. c.passed ≡ true)
                  (base_checks f print print_to scenario.thresholds s)
                  (ingest_check f print print_to scenario.thresholds s ∷ [])
                  (ok-All
                    (base_checks f print print_to scenario.thresholds s
                      ++ ingest_check f print print_to scenario.thresholds s ∷ [])
                    (rw e at h))).0
            | inr e ↦ ok-All (base_checks f print print_to scenario.thresholds s) (rw e at h)
          ]

    -- When a summary is made and the scenario passes its checks, no row of the measuring phase saw a
    -- full sensor buffer, no more readings were processed than had been pushed at the last of these
    -- rows (the range total counts where there is one), and the ratio of nearly full rows, the error
    -- rate, the two latencies and the two processor loads are within the scenario's thresholds.
    pub passed_means :
        (http_file : Option (Option HttpLoadMetrics)) (s : ScenarioSummary F)
        → build_summary f scenario sampling http_file ≡ done (some s)
        → scenario_ok (build_checks f print print_to scenario s) ≡ true
        → All (λ row. row.any_full ≡ false) (rows_of sampling)
          × (or_else sampling.range_processing_readings_total
                (last_count (λ r. r.processing_total_readings) (rows_of sampling))
              ≤ last_count (λ r. r.ingest_total_pushed) (rows_of sampling))
          × (f.less_or_equal s.near_full_ratio scenario.thresholds.max_near_full_ratio ≡ true)
          × (f.less_or_equal s.http_error_rate scenario.thresholds.max_http_error_rate ≡ true)
          × (f.less_or_equal s.http_latency_p95_ms scenario.thresholds.max_api_p95_ms ≡ true)
          × (f.less_or_equal s.http_latency_p99_ms scenario.thresholds.max_api_p99_ms ≡ true)
          × (f.less_or_equal s.cpu_avg_pct scenario.thresholds.max_cpu_avg_pct ≡ true)
          × (f.less_or_equal s.cpu_peak_pct scenario.thresholds.max_cpu_peak_pct ≡ true)
    passed_means http_file s h ok =
        let (z, same) = summarized_of http_file h in
        let checks = base_pass s ok in
        let made = base_pass z.summary (
          subst (λ u. scenario_ok (build_checks f print print_to scenario u) ≡ true) (sym same)
            ok) in
        let within = le_of_leb _ _ made.1.1.1.1.1.1.1.0 in
        let within' : or_else sampling.range_processing_readings_total
              z.summary.processing_total_readings_end
            ≤ z.summary.ingest_total_pushed_end =
          subst
            (λ o.
              or_else o z.summary.processing_total_readings_end ≤ z.summary.ingest_total_pushed_end)
            z.range within in
        (
          retain_none (λ r. r.any_full) (rows_of sampling)
              (sym z.overflow ∙ eq_of_test z.summary.overflow_events 0 made.0),
          subst₂ (λ a b. or_else sampling.range_processing_readings_total a ≤ b) z.processed
              z.pushed within',
          checks.1.0,
          checks.1.1.0,
          checks.1.1.1.0,
          checks.1.1.1.1.0,
          checks.1.1.1.1.1.0,
          checks.1.1.1.1.1.1.0,
        )
