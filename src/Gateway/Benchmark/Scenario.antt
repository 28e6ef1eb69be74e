-- ===== src/Gateway/Benchmark/Scenario.antt =====
-- gateway/src/benchmark/mod.rs: a scenario, what it gives to the gateway that it starts, and the
-- readings that it expects.
pub mod Expected
pub mod Defaults
mod Tests
use comp2432_project.Prelude.{
  ℕ, zero, suc, ◌+◌, ◌*◌, ◌%◌, ◌^◌, min, Bool, true, false, Option, none, some, List, [], ◌∷◌, ◌++◌,
  if◌then◌else◌,
}
use comp2432_project.Prelude.Decimal.{print_nat}
use comp2432_project.Gateway.Rates.{parse_rates, rate_for_index}
use comp2432_project.Gateway.Main.{Text, codes}

pub record SensorScenarioConfig : Type 0 where
  pub thermo_count : ℕ
  pub thermo_rates_per_sec : Text
  pub accel_count : ℕ
  pub accel_rates_per_sec : Text
  pub force_count : ℕ
  pub force_rates_per_sec : Text

pub record HttpLoadConfig : Type 0 where
  pub enabled : Bool
  pub endpoint : Text
  pub endpoints : List Text
  pub concurrency : ℕ
  pub timeout_ms : ℕ

pub record Thresholds (F : Type 0) : Type 0 where
  pub max_http_error_rate : F
  pub max_api_p95_ms : F
  pub max_api_p99_ms : F
  pub max_cpu_avg_pct : F
  pub max_cpu_peak_pct : F
  pub max_near_full_ratio : F
  pub min_ingest_ratio : F

pub record ScenarioConfig (F : Type 0) : Type 0 where
  pub id : Text
  pub description : Text
  pub warmup_secs : ℕ
  pub measure_secs : ℕ
  pub cooldown_secs : ℕ
  pub buffer_capacity : ℕ
  pub sensors : SensorScenarioConfig
  pub http_load : Option HttpLoadConfig
  pub thresholds : Thresholds F

-- `for i in 0..count { sum += rate_for_index(&rates, i) as u64; }`, with `left` turns to come.
unfoldable pub add_rates : ℕ → List ℕ → ℕ → ℕ → ℕ
add_rates sum rates i zero = sum
add_rates sum rates i (suc left) =
    add_rates ((sum + rate_for_index rates i) % 2 ^ 64) rates (i + 1) left

unfoldable pub expected_ingest_per_sec : SensorScenarioConfig → ℕ
unfolding add_rates
expected_ingest_per_sec sensors =
    let thermo = parse_rates sensors.thermo_rates_per_sec 50 in
    let accel = parse_rates sensors.accel_rates_per_sec 100 in
    let force = parse_rates sensors.force_rates_per_sec 75 in
    let sum = add_rates 0 thermo 0 sensors.thermo_count in
    add_rates (add_rates sum accel 0 sensors.accel_count) force 0 sensors.force_count

pub render_gateway_config : {F : Type 0} → ScenarioConfig F → Text → Text
render_gateway_config s dashboard_addr =
    codes "[sensors]\nthermo_count = "
    ++ (print_nat s.sensors.thermo_count
        ++ (codes "\nthermo_rates_per_sec = \""
            ++ (s.sensors.thermo_rates_per_sec
                ++ (codes "\"\naccel_count = "
                    ++ (print_nat s.sensors.accel_count
                        ++ (codes "\naccel_rates_per_sec = \""
                            ++ (s.sensors.accel_rates_per_sec
                                ++ (codes "\"\nforce_count = "
                                    ++ (print_nat s.sensors.force_count
                                        ++ (codes "\nforce_rates_per_sec = \""
                                            ++ (s.sensors.force_rates_per_sec
                                                ++ (codes "\"\n\n[buffer]\ncapacity = "
                                                    ++ (print_nat s.buffer_capacity
                                                        ++ (codes "\n\n[dashboard]\naddr = \""
                                                            ++ (dashboard_addr
                                                            ++ codes "\"\n")))))))))))))))

-- The port of the scenario at `idx`: `u16` arithmetic that stops at the greatest port.
pub scenario_port : ℕ → ℕ → ℕ → ℕ
scenario_port base_port port_step idx =
    min (base_port + min (idx % 2 ^ 16 * port_step) 65_535) 65_535

-- The paths that the load workers ask for, if there is a load.
pub load_paths : Option HttpLoadConfig → Option (List Text)
load_paths none = none
load_paths (some h) =
    let paths : List Text = elim h.endpoints [ [] ↦ h.endpoint ∷ [] | e ∷ es ↦ e ∷ es ] in
    if h.enabled then some paths else none
