-- ===== src/Gateway/Main/Tests.antt =====
-- The default configuration, and a machine that does not tell its processors.
use comp2432_project.Prelude.{◌+◌, ◌<◌, ◌≡◌, refl, true, some, length}
use comp2432_project.Prelude.Samples.{whole}
use comp2432_project.Prelude.Sort.{All, AllPairs}
use comp2432_project.Gateway.Main.{
  codes, SensorsConfig, default_config, register_all, aggregation_workers, flag_set,
  dashboard_address,
}
use comp2432_project.Gateway.Main.Ids.{HasOtherId, registered_apart}

abbrev sensors : SensorsConfig
sensors = record {
  thermo_count = 2;
  thermo_rates_per_sec = codes "50 x";
  accel_count = 1;
  accel_rates_per_sec = codes "";
  force_count = 12;
  force_rates_per_sec = codes "10 0 20";
}

registered_apart_example :
    (length (register_all sensors) ≡ 2 + (1 + 12))
    × AllPairs HasOtherId (register_all sensors)
    × All (λ r. 0 < r.rate) (register_all sensors)
registered_apart_example = registered_apart sensors

workers_of_default : aggregation_workers (default_config whole).sensors (some 3) ≡ some 3
unfolding aggregation_workers
workers_of_default = refl

debug_flag : flag_set (some "TRUE") ≡ true
unfolding flag_set
debug_flag = refl

blank_address :
    dashboard_address
      (record (default_config whole) { dashboard_addr = codes "  " })
      (some (codes "a"))
    ≡ codes "a"
unfolding dashboard_address
blank_address = refl
