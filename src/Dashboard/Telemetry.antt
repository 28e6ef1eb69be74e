-- ===== src/Dashboard/Telemetry.antt =====
-- dashboard/src/lib.rs: the live telemetry of the gateway merged with the peaks in the frames.
pub mod Peaks
pub mod Rows
use Prim.Native.String.{String, compare, ◌++◌ as ◌⋯◌}
use Prim.Native.Nat.{Ordering}
use comp2432_project.Prelude.{
  ℕ, max, Bool, true, false, ◌&&◌, ◌||◌, not, Option, none, some, List, [], ◌∷◌, ◌++◌, map,
  if◌then◌else◌, ◌==◌, ltb, leb,
}
use comp2432_project.Prelude.Texts.{same_text}
use comp2432_project.Prelude.Floats.{FloatOps}
use comp2432_project.Prelude.Sort.{sort_by}
use comp2432_project.Models.{AggregatedFrame, SensorBufferStatus, BufferTelemetrySnapshot}

-- A map from the ids of sensors to the greatest queue length seen.
abbrev pub Peaks : Type 0
Peaks = List (String × ℕ)

-- `.entry(id).and_modify(|m| *m = (*m).max(v)).or_insert(v)`
pub raise : String → ℕ → Peaks → Peaks
raise id v [] = (id, v) ∷ []
raise id v ((k, m) ∷ rest) =
    let others = raise id v rest in if same_text k id then (k, max m v) ∷ rest else (k, m) ∷ others

pub raise_all : List (String × ℕ) → Peaks → Peaks
unfolding raise
raise_all [] peaks = peaks
raise_all ((id, v) ∷ entries) peaks = raise_all entries (raise id v peaks)

-- `.get(&id).copied().unwrap_or(0)`
pub peak_of : String → Peaks → ℕ
peak_of id [] = 0
peak_of id ((k, m) ∷ rest) = let later = peak_of id rest in if same_text k id then m else later

-- `BTreeSet::insert`
unfoldable pub insert_id : String → List String → List String
insert_id id [] = id ∷ []
insert_id id (k ∷ ks) =
    let later = insert_id id ks in
    elim (compare id k) [
      | Ordering.lt ↦ id ∷ k ∷ ks
      | Ordering.eq ↦ k ∷ ks
      | Ordering.gt ↦ k ∷ later
    ]

unfoldable pub insert_ids : List String → List String → List String
unfolding insert_id
insert_ids [] set = set
insert_ids (id ∷ ids) set = insert_ids ids (insert_id id set)

module _ {F : Type 0} where
  pub disk_peak_from : List (AggregatedFrame F) → Peaks → Peaks
  unfolding raise_all
  disk_peak_from [] peaks = peaks
  disk_peak_from (frame ∷ frames) peaks =
      disk_peak_from frames (raise_all frame.sensor_internal_buffer_max peaks)

  -- `base.sensors.iter().find(|s| s.sensor_id == sensor_id)`
  unfoldable pub find_row : String → List (SensorBufferStatus F) → Option (SensorBufferStatus F)
  find_row id [] = none
  find_row id (s ∷ ss) =
      let later = find_row id ss in if same_text s.sensor_id id then some s else later

  abbrev pub current_of : Option (SensorBufferStatus F) → ℕ
  current_of none = 0
  current_of (some s) = s.current_len

  abbrev pub reader_peak_of : Option (SensorBufferStatus F) → ℕ
  reader_peak_of none = 0
  reader_peak_of (some s) = s.peak_len

  abbrev pub id_order : SensorBufferStatus F → SensorBufferStatus F → Bool
  id_order a b = elim (compare a.sensor_id b.sensor_id) [ Ordering.gt ↦ false | _ ↦ true ]

module _ {F : Type 0} (f : FloatOps F) (print : ℕ → String) (capacity : ℕ)
    (near_full_ratio : F) where
  abbrev pub ratio : ℕ → F
  ratio n = if capacity == 0 then f.of_nat 0 else f.div (f.of_nat n) (f.of_nat capacity)

  abbrev pub at_capacity : ℕ → Bool
  at_capacity n = leb capacity n && ltb 0 capacity

  abbrev pub near : ℕ → Bool
  near n = f.less_or_equal near_full_ratio (ratio n)

  -- What the loop pushes to `sensors` for one id.
  unfoldable pub merged_status : List (SensorBufferStatus F) → Peaks → String → SensorBufferStatus F
  unfolding find_row peak_of
  merged_status rows disk_peak id =
      let row = find_row id rows in
      let current_len = current_of row in
      let peak_len = max (reader_peak_of row) (peak_of id disk_peak) in
      let full = at_capacity current_len || at_capacity peak_len in
      record {
        sensor_id = id;
        current_len = current_len;
        capacity = capacity;
        peak_len = peak_len;
        utilization_ratio = ratio current_len;
        peak_utilization_ratio = ratio peak_len;
        near_full = not full && (ltb 0 capacity && (near current_len || near peak_len));
        full = full;
      }

  abbrev pub merged_warning : String → String → ℕ → String
  merged_warning id middle worst =
      "Sensor " ⋯ id ⋯ middle ⋯ print worst ⋯ "/" ⋯ print capacity ⋯ ")"

  pub merged_warnings : List (SensorBufferStatus F) → List String
  merged_warnings [] = []
  merged_warnings (s ∷ ss) =
      let rest = merged_warnings ss in
      if s.full
      then merged_warning s.sensor_id " internal buffer is FULL (" (max s.current_len s.peak_len)
        ∷ rest
      else if s.near_full
      then merged_warning s.sensor_id " internal buffer is near full ("
          (if near s.current_len then s.current_len else s.peak_len)
        ∷ rest
      else rest

  pub merged_full : List (SensorBufferStatus F) → Bool
  merged_full [] = false
  merged_full (s ∷ ss) = s.full || merged_full ss

  pub merged_near_full : List (SensorBufferStatus F) → Bool
  merged_near_full [] = false
  merged_near_full (s ∷ ss) = not s.full && s.near_full || merged_near_full ss

  abbrev pub merged_ids : List (SensorBufferStatus F) → Peaks → List String
  merged_ids rows disk_peak =
      insert_ids (map (λ entry. entry.0) disk_peak) (insert_ids (map (λ s. s.sensor_id) rows) [])

  unfoldable pub merge_buffer_telemetry_with_frames :
      BufferTelemetrySnapshot F → List (AggregatedFrame F) → BufferTelemetrySnapshot F
  unfolding disk_peak_from insert_ids merged_status merged_warnings merged_full merged_near_full
  merge_buffer_telemetry_with_frames base frames =
      let disk_peak = disk_peak_from frames [] in
      let statuses =
        map (merged_status base.sensors disk_peak) (merged_ids base.sensors disk_peak) in
      record {
        sensors = sort_by id_order statuses;
        any_near_full = merged_near_full statuses;
        any_full = merged_full statuses;
        warnings = merged_warnings statuses;
      }
