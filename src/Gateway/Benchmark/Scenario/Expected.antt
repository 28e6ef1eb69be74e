-- ===== src/Gateway/Benchmark/Scenario/Expected.antt =====
-- The readings that a scenario expects, against the sensors that the gateway registers for it.
use native.Mathlib.Nat.{mod-lt, mod-eq_of_lt, lt_trans}
use comp2432_project.Prelude.{
  ℕ, zero, suc, ◌+◌, ◌*◌, ◌%◌, ◌^◌, ◌≤◌, ◌<◌, ◌≡◌, sym, ap, ◌∙◌, Option, some, List, [], ◌∷◌, ◌++◌,
  arith,
}
use comp2432_project.Prelude.Floats.{FloatOps}
use comp2432_project.Gateway.Rates.{parse_rates, rate_for_index}
use comp2432_project.Gateway.Main.{
  Text, codes, SensorsConfig, GatewayConfig, load_gateway_config, Family, thermometers,
  accelerometers, force_sensors, Registered, register_from, register_all,
}
use comp2432_project.Gateway.Benchmark.Kept.{add-nothing}
use comp2432_project.Gateway.Benchmark.Scenario.{
  SensorScenarioConfig, ScenarioConfig, add_rates, expected_ingest_per_sec, render_gateway_config,
  scenario_port,
}

-- The readings that the registered sensors are to make in a second.
abbrev pub total_rate : List Registered → ℕ
total_rate [] = 0
total_rate (r ∷ rs) = r.rate + total_rate rs

total_rate-append :
    (xs ys : List Registered) → total_rate (xs ++ ys) ≡ total_rate xs + total_rate ys
total_rate-append [] ys = omega arith
total_rate-append (x ∷ xs) ys = omega (arith, total_rate-append xs ys)

-- The fields that `render_gateway_config` writes, under the names that the gateway reads.
abbrev pub gateway_sensors : SensorScenarioConfig → SensorsConfig
gateway_sensors s = record {
  thermo_count = s.thermo_count;
  thermo_rates_per_sec = s.thermo_rates_per_sec;
  accel_count = s.accel_count;
  accel_rates_per_sec = s.accel_rates_per_sec;
  force_count = s.force_count;
  force_rates_per_sec = s.force_rates_per_sec;
}

add_rates_lem :
    (family : Family) (prefix : Text) (rates : List ℕ) (sum i left : ℕ)
    → sum < 2 ^ 64
    → add_rates sum rates i left
      ≡ (sum + total_rate (register_from family prefix rates i left)) % 2 ^ 64
unfolding add_rates register_from
add_rates_lem family prefix rates sum i zero h = add-nothing sum (2 ^ 64) h
add_rates_lem family prefix rates sum i (suc left) h =
    let rate = rate_for_index rates i in
    let rest = total_rate (register_from family prefix rates (i + 1) left) in
    add_rates_lem family prefix rates ((sum + rate) % 2 ^ 64) (i + 1) left
      (mod-lt (sum + rate) (omega arith))
    ∙ omega arith

expected-total :
    (s : SensorScenarioConfig)
    → expected_ingest_per_sec s ≡ total_rate (register_all (gateway_sensors s)) % 2 ^ 64
unfolding expected_ingest_per_sec register_all
expected-total s =
    let thermo = parse_rates s.thermo_rates_per_sec 50 in
    let accel = parse_rates s.accel_rates_per_sec 100 in
    let force = parse_rates s.force_rates_per_sec 75 in
    let first = add_rates 0 thermo 0 s.thermo_count in
    let second = add_rates first accel 0 s.accel_count in
    let thermos = register_from thermometers (codes "thermo-") thermo 0 s.thermo_count in
    let accels = register_from accelerometers (codes "accel-") accel 0 s.accel_count in
    let forces = register_from force_sensors (codes "force-") force 0 s.force_count in
    let e1 = add_rates_lem thermometers (codes "thermo-") thermo 0 0 s.thermo_count (omega arith) in
    let b1 : first < 2 ^ 64 = omega arith in
    let e2 = add_rates_lem accelerometers (codes "accel-") accel first 0 s.accel_count b1 in
    let b2 : second < 2 ^ 64 = omega arith in
    let e3 = add_rates_lem force_sensors (codes "force-") force second 0 s.force_count b2 in
    omega (
      arith,
      e1,
      e2,
      e3,
      total_rate-append thermos (accels ++ forces),
      total_rate-append accels forces,
    )

loaded_config :
    {F : Type 0} (f : FloatOps F) (path text : Text)
    → (read : Text → Option Text) (parse : Text → Option (GatewayConfig F)) (cfg : GatewayConfig F)
    → read path ≡ some text
    → parse text ≡ some cfg
    → load_gateway_config f (some path) read parse ≡ cfg
unfolding load_gateway_config
loaded_config f path text read parse cfg r p = ground (arith, r, p)

-- Where the gateway finds what `render_gateway_config` has written for a scenario, and `toml` reads
-- that text back with the six sensor fields as they were written, the rates of the sensors that the
-- gateway registers sum, modulo 2^64, to what the benchmark expects in a second.
pub child_makes_expected :
    {F : Type 0} (f : FloatOps F) (s : ScenarioConfig F) (path addr : Text)
    → (read : Text → Option Text) (parse : Text → Option (GatewayConfig F)) (cfg : GatewayConfig F)
    → read path ≡ some (render_gateway_config s addr)
    → parse (render_gateway_config s addr) ≡ some cfg
    → cfg.sensors ≡ gateway_sensors s.sensors
    → total_rate (register_all (load_gateway_config f (some path) read parse).sensors) % 2 ^ 64
      ≡ expected_ingest_per_sec s.sensors
child_makes_expected f s path addr read parse cfg r p e =
    let loaded = loaded_config f path (render_gateway_config s addr) read parse cfg r p in
    ap (λ c. total_rate (register_all c.sensors) % 2 ^ 64) loaded
    ∙ ap (λ c. total_rate (register_all c) % 2 ^ 64) e
    ∙ sym (expected-total s.sensors)

product_apart : (i j n : ℕ) → i < j → i * n + n ≤ j * n
product_apart i j n h = grind arith

-- Scenarios at different places in the list get different ports, as long as there are at most 65,536
-- of them, the step is positive and no port passes 65,535.
pub ports_differ :
    (base_port port_step i j : ℕ)
    → i < j
    → j < 2 ^ 16
    → 0 < port_step
    → base_port + j * port_step ≤ 65_535
    → scenario_port base_port port_step i < scenario_port base_port port_step j
unfolding scenario_port
ports_differ base_port port_step i j h k p le =
    rw (mod-eq_of_lt (lt_trans h k))
      (rw (mod-eq_of_lt k) (omega (arith, product_apart i j port_step h)))
