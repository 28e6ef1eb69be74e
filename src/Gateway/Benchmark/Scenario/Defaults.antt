-- ===== src/Gateway/Benchmark/Scenario/Defaults.antt =====
-- gateway/src/benchmark: the defaults of mod.rs and the scenarios of scenarios.rs.
use comp2432_project.Prelude.{true, some, List, [], ◌∷◌}
use comp2432_project.Prelude.Floats.{FloatOps}
use comp2432_project.Gateway.Main.{codes}
use comp2432_project.Gateway.Benchmark.Scenario.{Thresholds, ScenarioConfig}

module _ {F : Type 0} (f : FloatOps F) where
  -- 0.01 is the quotient of 1 and 100, correctly rounded.
  abbrev pub default_thresholds : Thresholds F
  default_thresholds = record {
    max_http_error_rate = f.div (f.of_nat 1) (f.of_nat 100);
    max_api_p95_ms = f.of_nat 200;
    max_api_p99_ms = f.of_nat 500;
    max_cpu_avg_pct = f.of_nat 75;
    max_cpu_peak_pct = f.of_nat 90;
    max_near_full_ratio = f.div (f.of_nat 1) (f.of_nat 100);
    min_ingest_ratio = f.of_nat 0;
  }

  unfoldable pub default_scenarios : List (ScenarioConfig F)
  default_scenarios =
      record {
        id = codes "baseline";
        description = codes "Functional baseline with light HTTP load";
        warmup_secs = 20;
        measure_secs = 120;
        cooldown_secs = 10;
        buffer_capacity = 5000;
        sensors = record {
          thermo_count = 2;
          thermo_rates_per_sec = codes "50 30";
          accel_count = 2;
          accel_rates_per_sec = codes "50 50";
          force_count = 1;
          force_rates_per_sec = codes "50";
        };
        http_load = some (record {
          enabled = true;
          endpoint = codes "/api/latest";
          endpoints = codes "/api/latest" ∷ codes "/api/stats" ∷ codes "/api/sensor/thermo-1" ∷ [];
          concurrency = 1;
          timeout_ms = 1000;
        });
        thresholds = default_thresholds;
      }
      ∷ record {
        id = codes "data_loss_normal";
        description = codes "Data loss verification under normal sustained load";
        warmup_secs = 20;
        measure_secs = 180;
        cooldown_secs = 10;
        buffer_capacity = 6000;
        sensors = record {
          thermo_count = 4;
          thermo_rates_per_sec = codes "20 20 20 20";
          accel_count = 4;
          accel_rates_per_sec = codes "20 20 20 20";
          force_count = 4;
          force_rates_per_sec = codes "20 20 20 20";
        };
        http_load = some (record {
          enabled = true;
          endpoint = codes "/api/stats";
          endpoints = [];
          concurrency = 10;
          timeout_ms = 1000;
        });
        thresholds = default_thresholds;
      }
      ∷ record {
        id = codes "perf_http_100";
        description = codes "Performance with high HTTP concurrency";
        warmup_secs = 20;
        measure_secs = 180;
        cooldown_secs = 10;
        buffer_capacity = 6000;
        sensors = record {
          thermo_count = 2;
          thermo_rates_per_sec = codes "60 60";
          accel_count = 2;
          accel_rates_per_sec = codes "60 60";
          force_count = 2;
          force_rates_per_sec = codes "60 60";
        };
        http_load = some (record {
          enabled = true;
          endpoint = codes "/api/latest";
          endpoints = [];
          concurrency = 100;
          timeout_ms = 1200;
        });
        thresholds = default_thresholds;
      }
      ∷ record {
        id = codes "scalability_12_sensors";
        description = codes "Scalability with 12 sensors at fixed rates";
        warmup_secs = 20;
        measure_secs = 180;
        cooldown_secs = 10;
        buffer_capacity = 9000;
        sensors = record {
          thermo_count = 4;
          thermo_rates_per_sec = codes "50 50 50 50";
          accel_count = 4;
          accel_rates_per_sec = codes "50 50 50 50";
          force_count = 4;
          force_rates_per_sec = codes "50 50 50 50";
        };
        http_load = some (record {
          enabled = true;
          endpoint = codes "/api/stats";
          endpoints = [];
          concurrency = 20;
          timeout_ms = 1000;
        });
        thresholds = default_thresholds;
      }
      ∷ record {
        id = codes "scalability_18_sensors";
        description = codes "Scalability with 18 sensors at fixed rates";
        warmup_secs = 20;
        measure_secs = 180;
        cooldown_secs = 10;
        buffer_capacity = 12000;
        sensors = record {
          thermo_count = 6;
          thermo_rates_per_sec = codes "45 45 45 45 45 45";
          accel_count = 6;
          accel_rates_per_sec = codes "45 45 45 45 45 45";
          force_count = 6;
          force_rates_per_sec = codes "45 45 45 45 45 45";
        };
        http_load = some (record {
          enabled = true;
          endpoint = codes "/api/stats";
          endpoints = [];
          concurrency = 24;
          timeout_ms = 1000;
        });
        thresholds = default_thresholds;
      }
      ∷ record {
        id = codes "scalability_24_sensors";
        description = codes "Scalability with 24 sensors at fixed rates";
        warmup_secs = 25;
        measure_secs = 180;
        cooldown_secs = 10;
        buffer_capacity = 16000;
        sensors = record {
          thermo_count = 8;
          thermo_rates_per_sec = codes "40 40 40 40 40 40 40 40";
          accel_count = 8;
          accel_rates_per_sec = codes "40 40 40 40 40 40 40 40";
          force_count = 8;
          force_rates_per_sec = codes "40 40 40 40 40 40 40 40";
        };
        http_load = some (record {
          enabled = true;
          endpoint = codes "/api/stats";
          endpoints = [];
          concurrency = 32;
          timeout_ms = 1200;
        });
        thresholds = default_thresholds;
      }
      ∷ record {
        id = codes "stress_mixed";
        description = codes "Mixed stress with high ingest and HTTP concurrency";
        warmup_secs = 20;
        measure_secs = 300;
        cooldown_secs = 20;
        buffer_capacity = 12000;
        sensors = record {
          thermo_count = 4;
          thermo_rates_per_sec = codes "120 120 120 120";
          accel_count = 4;
          accel_rates_per_sec = codes "120 120 120 120";
          force_count = 4;
          force_rates_per_sec = codes "120 120 120 120";
        };
        http_load = some (record {
          enabled = true;
          endpoint = codes "/api/latest";
          endpoints = [];
          concurrency = 200;
          timeout_ms = 1500;
        });
        thresholds = default_thresholds;
      }
      ∷ []
