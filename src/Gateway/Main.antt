-- ===== src/Gateway/Main.antt =====
-- gateway/src/main.rs: the configuration, the sensors that `main` registers and the number of workers.
-- A text is the list of its characters' numbers, save where it is only compared.
pub mod Ids
mod Tests
use Prim.Native.Char.{code}
use Prim.Native.String.{String}
use Prim.Native.String as String
use comp2432_project.Prelude.{
  ℕ, zero, suc, ◌+◌, ◌%◌, ◌^◌, min, max, Bool, true, false, ◌||◌, Option, none, some, List, [], ◌∷◌,
  ◌++◌, length, if◌then◌else◌, ltb, ◌==◌,
}
use comp2432_project.Prelude.Texts.{same_text}
use comp2432_project.Prelude.Floats.{FloatOps}
use comp2432_project.Prelude.Decimal.{print_nat}
use comp2432_project.Gateway.Rates.{is_whitespace, parse_rates, rate_for_index}

abbrev pub Text : Type 0
Text = List ℕ

abbrev pub codes : String → Text
codes String.[] = []
codes (String.◌∷◌ c s) = code c ∷ codes s

pub record SensorInternalBufferConfig (F : Type 0) : Type 0 where
  pub usable_capacity : ℕ
  pub near_full_ratio : F

pub record SensorsConfig : Type 0 where
  pub thermo_count : ℕ
  pub thermo_rates_per_sec : Text
  pub accel_count : ℕ
  pub accel_rates_per_sec : Text
  pub force_count : ℕ
  pub force_rates_per_sec : Text

pub record GatewayConfig (F : Type 0) : Type 0 where
  pub sensors : SensorsConfig
  pub buffer_capacity : ℕ
  pub dashboard_addr : Text
  pub sensor_internal_buffer : SensorInternalBufferConfig F

module _ {F : Type 0} (f : FloatOps F) where
  -- 0.85 is the quotient of 85 and 100, correctly rounded.
  abbrev pub default_internal_buffer : SensorInternalBufferConfig F
  default_internal_buffer = record {
    usable_capacity = 127;
    near_full_ratio = f.div (f.of_nat 85) (f.of_nat 100);
  }

  abbrev pub default_config : GatewayConfig F
  default_config = record {
    sensors = record {
      thermo_count = 2;
      thermo_rates_per_sec = codes "50 50";
      accel_count = 2;
      accel_rates_per_sec = codes "100 100";
      force_count = 1;
      force_rates_per_sec = codes "75";
    };
    buffer_capacity = 5_000;
    dashboard_addr = codes "0.0.0.0:5800";
    sensor_internal_buffer = default_internal_buffer;
  }

  -- `read` is the file of a path, if it can be read, and `parse` is `toml::from_str`.
  unfoldable pub load_gateway_config :
      Option Text → (Text → Option Text) → (Text → Option (GatewayConfig F)) → GatewayConfig F
  load_gateway_config path read parse =
      let config_path : Text = elim path [ none ↦ codes "./config.toml" | some p ↦ p ] in
      elim (read config_path) [
        | none ↦ default_config
        | some cfg_text ↦ elim (parse cfg_text) [ none ↦ default_config | some cfg ↦ cfg ]
      ]

-- The value of `GATEWAY_FAIL_ON_FULL` or of `GATEWAY_DEBUG_BUFFER`.
pub flag_set : Option String → Bool
flag_set none = false
flag_set (some v) =
    same_text v "1" || same_text v "true" || same_text v "TRUE" || same_text v "True"

-- Which wrapper of `SensorReading` the registration passes on.
pub data Family : Type 0 where
  thermometers : Family
  accelerometers : Family
  force_sensors : Family

pub record Registered : Type 0 where
  pub family : Family
  pub id : Text
  pub rate : ℕ

-- `for i in 0..count`, with `i` turns made and `left` to come.
unfoldable pub register_from : Family → Text → List ℕ → ℕ → ℕ → List Registered
register_from family prefix rates i zero = []
register_from family prefix rates i (suc left) =
    record { family = family; id = prefix ++ print_nat (i + 1); rate = rate_for_index rates i }
    ∷ register_from family prefix rates (i + 1) left

-- The calls of `register_sensor`, in order.
unfoldable pub register_all : SensorsConfig → List Registered
unfolding register_from
register_all sensors =
    register_from thermometers (codes "thermo-") (parse_rates sensors.thermo_rates_per_sec 50) 0
      sensors.thermo_count
    ++ (register_from accelerometers (codes "accel-") (parse_rates sensors.accel_rates_per_sec 100)
          0 sensors.accel_count
        ++ register_from force_sensors (codes "force-") (parse_rates sensors.force_rates_per_sec 75)
            0 sensors.force_count)

-- `total_sensors`: `usize` additions.
pub total_sensors : SensorsConfig → ℕ
total_sensors sensors =
    ((sensors.thermo_count + sensors.accel_count) % 2 ^ 64 + sensors.force_count) % 2 ^ 64

-- `Ord::clamp`, which panics when the bounds are the wrong way round.
pub clamp : ℕ → ℕ → ℕ → Option ℕ
clamp n low high =
    if ltb high low then none else some (if ltb n low then low else if ltb high n then high else n)

-- `available_parallelism` may fail.
pub aggregation_workers : SensorsConfig → Option ℕ → Option ℕ
unfolding clamp total_sensors
aggregation_workers sensors parallelism =
    let cpu_workers : ℕ = elim parallelism [ none ↦ 4 | some n ↦ n ] in
    clamp (total_sensors sensors) 1 (max cpu_workers 1)

-- `str::trim` leaves nothing.
abbrev pub is_blank : Text → Bool
is_blank [] = true
is_blank (c ∷ cs) = if is_whitespace c then is_blank cs else false

-- The address of the dashboard: an empty one is looked up in `DASHBOARD_ADDR`.
pub dashboard_address : {F : Type 0} → GatewayConfig F → Option Text → Text
dashboard_address cfg variable =
    if is_blank cfg.dashboard_addr
    then elim variable [ none ↦ codes "0.0.0.0:5800" | some addr ↦ addr ]
    else cfg.dashboard_addr
