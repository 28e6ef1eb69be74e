-- ===== src/Models.antt =====
-- common_models/src/lib.rs: the models that the gateway, the dashboard and the benchmarks share.
-- A `HashMap` is the list of its entries. `f32` and `f64` are types of the floats' user.
use Prim.Native.String.{String}
use comp2432_project.Prelude.{ℕ, Bool, List}

pub record SensorStats (F : Type 0) : Type 0 where
  pub count : ℕ
  pub min : F
  pub max : F
  pub sum : F
  pub sum_sq : F
  pub avg : F
  pub stddev : F

pub record Anomaly (F : Type 0) : Type 0 where
  pub sensor_id : String
  pub anomaly_type : String
  pub severity : F
  pub description : String

pub record AggregatedFrame (F : Type 0) : Type 0 where
  pub frame_id : ℕ
  pub window_start : ℕ
  pub window_end : ℕ
  pub sensor_stats : List (String × SensorStats F)
  pub anomalies : List (Anomaly F)
  pub sensor_internal_buffer_max : List (String × ℕ)

pub record SensorBufferStatus (F : Type 0) : Type 0 where
  pub sensor_id : String
  pub current_len : ℕ
  pub capacity : ℕ
  pub peak_len : ℕ
  pub utilization_ratio : F
  pub peak_utilization_ratio : F
  pub near_full : Bool
  pub full : Bool

pub record BufferTelemetrySnapshot (F : Type 0) : Type 0 where
  pub sensors : List (SensorBufferStatus F)
  pub any_near_full : Bool
  pub any_full : Bool
  pub warnings : List String

pub record ThroughputTelemetrySnapshot : Type 0 where
  pub buffer_len : ℕ
  pub buffer_capacity : ℕ
  pub pushed_total : ℕ
  pub popped_total : ℕ
  pub pushed_per_sec : ℕ
  pub popped_per_sec : ℕ
  pub full_waits_total : ℕ
