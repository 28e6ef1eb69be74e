-- ===== src/Gateway/Readings.antt =====
-- gateway/src/sensor_buffer.rs and sensor_sim/src: what the sensors measure and what the gateway
-- makes of it. `f32` is a type of the user's.
use Prim.Native.String.{String}
use comp2432_project.Prelude.{ℕ}

pub record AccelReading (F : Type 0) : Type 0 where
  pub acceleration_x : F
  pub acceleration_y : F
  pub acceleration_z : F

pub record ForceReading (F : Type 0) : Type 0 where
  pub force_x : F
  pub force_y : F
  pub force_z : F

pub record ThermoReading (F : Type 0) : Type 0 where
  pub temperature_celsius : F

pub data SensorReading (F : Type 0) : Type 0 where
  accel : AccelReading F → String → ℕ → ℕ → SensorReading F
  force : ForceReading F → String → ℕ → ℕ → SensorReading F
  thermo : ThermoReading F → String → ℕ → ℕ → SensorReading F

module _ {F : Type 0} where
  unfoldable pub sensor_id : SensorReading F → String
  sensor_id (accel v id ts n) = id
  sensor_id (force v id ts n) = id
  sensor_id (thermo v id ts n) = id

  unfoldable pub timestamp_millis : SensorReading F → ℕ
  timestamp_millis (accel v id ts n) = ts
  timestamp_millis (force v id ts n) = ts
  timestamp_millis (thermo v id ts n) = ts

  pub internal_buffer_len : SensorReading F → ℕ
  internal_buffer_len (accel v id ts n) = n
  internal_buffer_len (force v id ts n) = n
  internal_buffer_len (thermo v id ts n) = n
