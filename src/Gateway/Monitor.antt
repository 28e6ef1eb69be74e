-- ===== src/Gateway/Monitor.antt =====
-- gateway/src/main.rs: what `main` hands to the dashboard, before and in a round of its loop.
pub mod Shown
mod Tests
use Prim.Native.String.{String}
use comp2432_project.Prelude.{ℕ, Option, none, some, List}
use comp2432_project.Prelude.Floats.{FloatOps}
use comp2432_project.Gateway.Buffer.{SharedBuffer}
use comp2432_project.Gateway.Main.{SensorInternalBufferConfig}
use comp2432_project.Gateway.Manager.{
  BufferUtilizationStats, RatesSnapshot, PerSensor, utilization_stats,
  sensor_internal_buffers_snapshot,
}
use comp2432_project.Models.{ThroughputTelemetrySnapshot}
use comp2432_project.Dashboard.Stores.{
  Stores, set_buffer_telemetry, set_throughput_telemetry, set_internal_buffer_policy,
}

module _ {F : Type 0} where
  abbrev pub throughput_of : BufferUtilizationStats F → ThroughputTelemetrySnapshot
  throughput_of stats = record {
    buffer_len = stats.len;
    buffer_capacity = stats.capacity;
    pushed_total = stats.pushed_total;
    popped_total = stats.popped_total;
    pushed_per_sec = stats.pushed_per_sec;
    popped_per_sec = stats.popped_per_sec;
    full_waits_total = stats.full_waits_total;
  }

  unfoldable pub set_policy : SensorInternalBufferConfig F → Stores F → Stores F
  set_policy cfg s = set_internal_buffer_policy cfg.usable_capacity cfg.near_full_ratio s

-- `none` where the poisoned lock of the shared buffer makes `main` panic.
unfoldable pub monitor_tick :
    {F : Type 0} (f : FloatOps F) (print : ℕ → String) (cfg : SensorInternalBufferConfig F)
    (now : ℕ) (per_sensor : PerSensor) (buffer : SharedBuffer F) (last : RatesSnapshot)
    (s : Stores F)
    → Option (Stores F × RatesSnapshot)
monitor_tick f print cfg now per_sensor buffer last s =
    let sensor_buffers =
      sensor_internal_buffers_snapshot f print cfg.usable_capacity cfg.near_full_ratio per_sensor in
    let shown = set_buffer_telemetry sensor_buffers s in
    elim (utilization_stats f now buffer last) [
      | none ↦ none
      | some (stats, next) ↦ some (set_throughput_telemetry (throughput_of stats) shown, next)
    ]
