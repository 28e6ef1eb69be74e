-- ===== src/Gateway/Benchmark/Scenario/Tests.antt =====
-- A scenario with three sensors, and the built-in ones.
use comp2432_project.Prelude.{ℕ, ◌%◌, ◌^◌, ◌≡◌, refl, none, some, length}
use comp2432_project.Prelude.Samples.{whole}
use comp2432_project.Gateway.Rates.{parse_rates, rate_for_index}
use comp2432_project.Gateway.Main.{
  Text, codes, GatewayConfig, default_config, load_gateway_config, register_all,
}
use comp2432_project.Gateway.Benchmark.Scenario.{
  ScenarioConfig, expected_ingest_per_sec, render_gateway_config,
}
use comp2432_project.Gateway.Benchmark.Scenario.Defaults.{default_thresholds, default_scenarios}
use comp2432_project.Gateway.Benchmark.Scenario.Expected.{
  total_rate, gateway_sensors, child_makes_expected,
}

abbrev small : ScenarioConfig ℕ
small = record {
  id = codes "small";
  description = codes "Three sensors";
  warmup_secs = 1;
  measure_secs = 10;
  cooldown_secs = 1;
  buffer_capacity = 100;
  sensors = record {
    thermo_count = 2;
    thermo_rates_per_sec = codes "50 30";
    accel_count = 0;
    accel_rates_per_sec = codes "";
    force_count = 1;
    force_rates_per_sec = codes "7";
  };
  http_load = none;
  thresholds = default_thresholds whole;
}

-- What `toml` makes of the rendered text.
abbrev child : GatewayConfig ℕ
child = record (default_config whole) {
  sensors = gateway_sensors small.sensors;
  buffer_capacity = 100;
  dashboard_addr = codes "127.0.0.1:5900";
}

abbrev rendered : Text
rendered = render_gateway_config small (codes "127.0.0.1:5900")

child_makes_expected_example :
    total_rate (
        register_all
          (load_gateway_config whole
            (some (codes "gateway_config.toml"))
            (λ _. some rendered)
            (λ _. some child)).sensors)
      % 2 ^ 64
    ≡ expected_ingest_per_sec small.sensors
child_makes_expected_example =
    child_makes_expected whole small (codes "gateway_config.toml") (codes "127.0.0.1:5900")
      (λ _. some rendered) (λ _. some child) child refl refl refl

small_expects : expected_ingest_per_sec small.sensors ≡ 87
unfolding expected_ingest_per_sec parse_rates rate_for_index
small_expects = refl

built_in : length (default_scenarios whole) ≡ 7
unfolding default_scenarios
built_in = refl
