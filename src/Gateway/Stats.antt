-- ===== src/Gateway/Stats.antt =====
-- gateway/src/aggregation.rs: what a worker makes of the readings of one window.
pub mod Counts
use Prim.Native.String.{String, ◌++◌ as ◌⋯◌}
use comp2432_project.Prelude.{ℕ, suc, max, ltb, Bool, ◌&&◌, List, [], ◌∷◌, ◌++◌, map, if◌then◌else◌}
use comp2432_project.Prelude.Floats.{FloatOps}
use comp2432_project.Models.{SensorStats, Anomaly, AggregatedFrame}
use comp2432_project.Gateway.Readings.{SensorReading, accel, force, thermo, internal_buffer_len}

-- `HashMap<String, Vec<SensorReading>>`, in the order of its iteration.
abbrev pub BySensor : Type 0 → Type 0
BySensor F = List (String × List (SensorReading F))

-- The variables of the loop in `compute_stats`.
pub record Sums (F : Type 0) : Type 0 where
  pub count : ℕ
  pub min : F
  pub max : F
  pub sum : F
  pub sum_sq : F

module _ {F : Type 0} (f : FloatOps F) where
  -- The one number that a reading counts with.
  abbrev pub value_of : SensorReading F → F
  value_of (accel v id ts n) =
      f.div (f.add (f.add v.acceleration_x v.acceleration_y) v.acceleration_z) (f.of_nat 3)
  value_of (force v id ts n) = f.div (f.add (f.add v.force_x v.force_y) v.force_z) (f.of_nat 3)
  value_of (thermo v id ts n) = v.temperature_celsius

  -- One turn of the loop.
  abbrev pub count_in : Sums F → SensorReading F → Sums F
  count_in s r =
      let value = value_of r in
      record {
        count = suc s.count;
        min = if f.less value s.min then value else s.min;
        max = if f.less s.max value then value else s.max;
        sum = f.add s.sum value;
        sum_sq = f.add s.sum_sq (f.mul value value);
      }

  pub sum_up : Sums F → List (SensorReading F) → Sums F
  sum_up s [] = s
  sum_up s (r ∷ rs) = sum_up (count_in s r) rs

  pub compute_stats : List (SensorReading F) → SensorStats F
  unfolding sum_up
  compute_stats readings =
      let zero_sum = f.of_nat 0 in
      let s =
        sum_up
          (record {
            count = 0;
            min = f.max_value;
            max = f.min_value;
            sum = zero_sum;
            sum_sq = zero_sum;
          })
          readings in
      let avg = if ltb 0 s.count then f.div s.sum (f.of_nat s.count) else f.of_nat 0 in
      let variance =
        if ltb 0 s.count
        then f.sub (f.div s.sum_sq (f.of_nat s.count)) (f.mul avg avg)
        else f.of_nat 0 in
      record {
        count = s.count;
        min = s.min;
        max = s.max;
        sum = s.sum;
        sum_sq = s.sum_sq;
        avg = avg;
        stddev = f.sqrt variance;
      }

  abbrev pub deviates : SensorStats F → F → SensorReading F → Bool
  deviates stats threshold r =
      f.less (f.of_nat 0) stats.stddev
      && f.less (f.mul threshold stats.stddev) (f.abs (f.sub (value_of r) stats.avg))

  -- What the loop pushes to `anomalies`.
  pub detect_anomalies : String → List (SensorReading F) → SensorStats F → F → List (Anomaly F)
  detect_anomalies sensor_id [] stats threshold = []
  detect_anomalies sensor_id (r ∷ rs) stats threshold =
      let value = value_of r in
      let rest = detect_anomalies sensor_id rs stats threshold in
      if deviates stats threshold r
      then record {
        sensor_id = sensor_id;
        anomaly_type = "Deviation";
        severity = f.div (f.abs (f.sub value stats.avg)) stats.stddev;
        description = "Value " ⋯ f.print value ⋯ " deviates from mean " ⋯ f.print stats.avg;
      }
        ∷ rest
      else rest

  -- `.max().unwrap_or(0)`
  pub max_internal : List (SensorReading F) → ℕ
  max_internal [] = 0
  max_internal (r ∷ rs) = max (internal_buffer_len r) (max_internal rs)

  pub all_anomalies : F → BySensor F → List (Anomaly F)
  unfolding compute_stats detect_anomalies
  all_anomalies threshold [] = []
  all_anomalies threshold ((id, rs) ∷ rest) =
      detect_anomalies id rs (compute_stats rs) threshold ++ all_anomalies threshold rest

  pub make_frame : ℕ → ℕ → ℕ → BySensor F → F → AggregatedFrame F
  unfolding compute_stats all_anomalies max_internal
  make_frame frame_id window_start window_end readings_by_sensor threshold = record {
    frame_id = frame_id;
    window_start = window_start;
    window_end = window_end;
    sensor_stats = map (λ entry. (entry.0, compute_stats entry.1)) readings_by_sensor;
    anomalies = all_anomalies threshold readings_by_sensor;
    sensor_internal_buffer_max = map (λ entry. (entry.0, max_internal entry.1)) readings_by_sensor;
  }
