-- ===== src/Gateway/Manager.antt =====
-- gateway/src/sensor_buffer.rs: the telemetry of `SensorBufferManager`.
pub mod Telemetry
use Prim.Native.String.{String, compare, ◌++◌ as ◌⋯◌}
use Prim.Native.Nat.{Ordering}
use comp2432_project.Prelude.{
  ℕ, ◌+◌, ◌-◌, ◌*◌, ◌/◌, ◌%◌, ◌^◌, max, Bool, true, false, ◌&&◌, ◌||◌, not, Option, none, some,
  List, [], ◌∷◌, ◌++◌, map, if◌then◌else◌, ◌==◌, ltb, leb, length,
}
use comp2432_project.Prelude.Texts.{same_text}
use comp2432_project.Prelude.Floats.{FloatOps}
use comp2432_project.Prelude.Sort.{sort_by}
use comp2432_project.Models.{SensorBufferStatus, BufferTelemetrySnapshot}
use comp2432_project.Gateway.Buffer.{SharedBuffer, len, totals}

pub record SensorQueueSnapshot : Type 0 where
  pub current_len : ℕ
  pub peak_len : ℕ

pub record BufferUtilizationStats (F : Type 0) : Type 0 where
  pub len : ℕ
  pub capacity : ℕ
  pub utilization_ratio : F
  pub pushed_total : ℕ
  pub popped_total : ℕ
  pub pushed_per_sec : ℕ
  pub popped_per_sec : ℕ
  pub full_waits_total : ℕ

-- `last_rates_snapshot`: the totals and the time of the last sample.
pub record RatesSnapshot : Type 0 where
  pub last_pushed : ℕ
  pub last_popped : ℕ
  pub last_ts : ℕ

-- `(total.saturating_sub(last) * 1000) / dt_ms.max(1)`, from one second on.
pub per_sec : ℕ → ℕ → ℕ → ℕ
per_sec dt_ms total last =
    if leb 1_000 dt_ms then (total - last) * 1_000 % 2 ^ 64 / max dt_ms 1 else 0

module _ {F : Type 0} (f : FloatOps F) where
  abbrev pub ratio : ℕ → ℕ → F
  ratio n capacity = if capacity == 0 then f.of_nat 0 else f.div (f.of_nat n) (f.of_nat capacity)

  -- The statistics and the next sample; `none` where the poisoned lock panics.
  unfoldable pub utilization_stats :
      ℕ → SharedBuffer F → RatesSnapshot → Option (BufferUtilizationStats F × RatesSnapshot)
  unfolding per_sec
  utilization_stats now b snap = elim (len b) [
    | none ↦ none
    | some n ↦
        let (pushed_total, popped_total) = totals b in
        let dt_ms = now - snap.last_ts in
        some (
          record {
            len = n;
            capacity = b.capacity;
            utilization_ratio = ratio n b.capacity;
            pushed_total = pushed_total;
            popped_total = popped_total;
            pushed_per_sec = per_sec dt_ms pushed_total snap.last_pushed;
            popped_per_sec = per_sec dt_ms popped_total snap.last_popped;
            full_waits_total = b.full_waits_total;
          },
          if leb 1_000 dt_ms
              then record { last_pushed = pushed_total; last_popped = popped_total; last_ts = now }
              else snap,
        )
  ]

-- `HashMap<String, SensorQueueSnapshot>`, in the order of its iteration.
abbrev pub PerSensor : Type 0
PerSensor = List (String × SensorQueueSnapshot)

abbrev pub observed : ℕ → SensorQueueSnapshot → SensorQueueSnapshot
observed n entry = record {
  current_len = n;
  peak_len = if ltb entry.peak_len n then n else entry.peak_len;
}

-- A reader thread notes what is available, under its sensor's id.
unfoldable pub observe : String → ℕ → PerSensor → PerSensor
observe id n [] = (id, observed n (record { current_len = 0; peak_len = 0 })) ∷ []
observe id n ((k, entry) ∷ rest) =
    let others = observe id n rest in
    if same_text k id then (k, observed n entry) ∷ rest else (k, entry) ∷ others

-- `a.sensor_id.cmp(&b.sensor_id)` is not `Greater`.
module _ {F : Type 0} where
  abbrev pub id_not_greater : SensorBufferStatus F → SensorBufferStatus F → Bool
  id_not_greater a b = elim (compare a.sensor_id b.sensor_id) [ Ordering.gt ↦ false | _ ↦ true ]

module _ {F : Type 0} (f : FloatOps F) (print : ℕ → String) (capacity : ℕ)
    (near_full_ratio : F) where
  -- What the loop pushes to `sensors` for an entry.
  abbrev pub status_of : String × SensorQueueSnapshot → SensorBufferStatus F
  status_of (id, sample) =
      let full = leb capacity sample.current_len && ltb 0 capacity in
      record {
        sensor_id = id;
        current_len = sample.current_len;
        capacity = capacity;
        peak_len = sample.peak_len;
        utilization_ratio = ratio f sample.current_len capacity;
        peak_utilization_ratio = ratio f sample.peak_len capacity;
        near_full =
            not full
            && (ltb 0 capacity
                && f.less_or_equal near_full_ratio (ratio f sample.current_len capacity));
        full = full;
      }

  abbrev pub warning : String → SensorBufferStatus F → String
  warning middle s =
      "Sensor " ⋯ s.sensor_id ⋯ middle ⋯ print s.current_len ⋯ "/" ⋯ print capacity ⋯ ")"

  -- What it pushes to `warnings`.
  abbrev pub warnings_of : SensorBufferStatus F → List String → List String
  warnings_of s rest =
      if s.full
      then warning " internal buffer is FULL (" s ∷ rest
      else if s.near_full
      then warning " internal buffer is near full (" s ∷ rest
      else rest

  pub all_warnings : List (SensorBufferStatus F) → List String
  all_warnings [] = []
  all_warnings (s ∷ ss) = warnings_of s (all_warnings ss)

  -- The flags that the loop sets.
  pub some_full : List (SensorBufferStatus F) → Bool
  some_full [] = false
  some_full (s ∷ ss) = s.full || some_full ss

  pub some_near_full : List (SensorBufferStatus F) → Bool
  some_near_full [] = false
  some_near_full (s ∷ ss) = not s.full && s.near_full || some_near_full ss

  unfoldable pub sensor_internal_buffers_snapshot : PerSensor → BufferTelemetrySnapshot F
  unfolding all_warnings some_full some_near_full
  sensor_internal_buffers_snapshot per_sensor =
      let statuses = map status_of per_sensor in
      record {
        sensors = sort_by id_not_greater statuses;
        any_near_full = some_near_full statuses;
        any_full = some_full statuses;
        warnings = all_warnings statuses;
      }
