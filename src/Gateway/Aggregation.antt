-- ===== src/Gateway/Aggregation.antt =====
-- gateway/src/aggregation.rs: `AggregationEngine`. Its workers share the buffer, the pending windows,
-- the frame counter and the storage; a worker's turn runs up to the end of one section that holds a
-- lock or changes a shared value, so a schedule is a list of turns.
pub mod Workers
pub mod Weights
mod Tests
use Prim.Native.String.{String}
use comp2432_project.Prelude.{
  ℕ, zero, suc, ◌+◌, ◌*◌, ◌/◌, ◌%◌, ◌^◌, max, Bool, true, false, List, [], ◌∷◌, ◌++◌, if◌then◌else◌,
  ◌==◌, ltb, leb,
}
use comp2432_project.Prelude.Texts.{same_text}
use comp2432_project.Gateway.Readings.{SensorReading, sensor_id, timestamp_millis}
use comp2432_project.Gateway.Stats.{BySensor}

abbrev pub add_u64 : ℕ → ℕ → ℕ
add_u64 a b = (a + b) % 2 ^ 64

-- `BTreeMap<u64, HashMap<String, Vec<SensorReading>>>`: by ascending `window_start`.
abbrev pub Pending : Type 0 → Type 0
Pending F = List (ℕ × BySensor F)

-- A window that a worker has claimed.
pub record Claimed (F : Type 0) : Type 0 where
  pub fid : ℕ
  pub ws : ℕ
  pub readings_by_sensor : BySensor F

-- `window_ms` and `grace_ms` of `start`, for a duration in milliseconds below 2^64.
pub window_length : ℕ → ℕ
window_length duration_ms = max duration_ms 1

pub grace_length : ℕ → ℕ
grace_length window_ms = max 50 (window_ms / 2)

unfoldable pub window_start_of : ℕ → ℕ → ℕ
window_start_of window_ms ts = (ts / window_ms) * window_ms

module _ {F : Type 0} where
  -- `.entry(sensor_id).or_insert_with(Vec::new).push(reading)`
  unfoldable pub entry_push : String → SensorReading F → BySensor F → BySensor F
  entry_push id r [] = (id, r ∷ []) ∷ []
  entry_push id r ((k, rs) ∷ rest) =
      let others = entry_push id r rest in
      if same_text k id then (k, rs ++ r ∷ []) ∷ rest else (k, rs) ∷ others

  -- `.entry(window_start).or_insert_with(HashMap::new)`, and the push into it.
  unfoldable pub bucket : ℕ → String → SensorReading F → Pending F → Pending F
  unfolding entry_push
  bucket ws id r [] = (ws, entry_push id r []) ∷ []
  bucket ws id r ((w, m) ∷ rest) =
      let others = bucket ws id r rest in
      if w == ws
      then (w, entry_push id r m) ∷ rest
      else if ltb ws w
      then (ws, entry_push id r []) ∷ (w, m) ∷ rest
      else (w, m) ∷ others

  unfoldable pub file_reading : ℕ → SensorReading F → Pending F → Pending F
  unfolding bucket window_start_of
  file_reading window_ms r pending =
      bucket (window_start_of window_ms (timestamp_millis r)) (sensor_id r) r pending

  -- The windows to write, those that stay pending, and the frame counter.
  unfoldable pub claim_ready : ℕ → ℕ → ℕ → ℕ → Pending F → List (Claimed F) × Pending F × ℕ
  claim_ready window_ms grace_ms now_ms frame_id [] = ([], [], frame_id)
  claim_ready window_ms grace_ms now_ms frame_id ((ws, m) ∷ rest) =
      let (out, later, next) = claim_ready window_ms grace_ms now_ms (add_u64 frame_id 1) rest in
      if leb (add_u64 (add_u64 ws window_ms) grace_ms) now_ms
      then (record { fid = frame_id; ws = ws; readings_by_sensor = m } ∷ out, later, next)
      else ([], (ws, m) ∷ rest, frame_id)
