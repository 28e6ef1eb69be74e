-- ===== src/Dashboard/Telemetry/Peaks.antt =====
-- The peak of a sensor is the greatest that the gateway or any frame reports.
use Prim.Native.String.{String}
use comp2432_project.Prelude.{
  ℕ, max, ◌≡◌, refl, sym, ap, ◌∙◌, inl, inr, false, ◌||◌, List, [], ◌∷◌, map, if◌then◌else◌, arith,
  Bool-cases,
}
use comp2432_project.Prelude.Texts.{same_text, same_text_sound, same_text_self}
use comp2432_project.Prelude.Floats.{FloatOps}
use comp2432_project.Prelude.Sort.{sort_by-All, All}
use comp2432_project.Models.{AggregatedFrame, SensorBufferStatus, BufferTelemetrySnapshot}
use comp2432_project.Dashboard.Telemetry.{
  Peaks, raise, raise_all, peak_of, disk_peak_from, find_row, reader_peak_of, current_of, id_order,
  merged_status, merged_ids, merge_buffer_telemetry_with_frames, at_capacity,
}

-- The greatest value that a list of entries has for an id, 0 if it has none.
abbrev pub highest : String → List (String × ℕ) → ℕ
highest id [] = 0
highest id ((k, v) ∷ entries) = max (if same_text k id then v else 0) (highest id entries)

-- The greatest that any frame has.
abbrev pub highest_in : {F : Type 0} → String → List (AggregatedFrame F) → ℕ
highest_in id [] = 0
highest_in id (frame ∷ frames) =
    max (highest id frame.sensor_internal_buffer_max) (highest_in id frames)

peak_of-raise :
    (id k : String) (v : ℕ) (peaks : Peaks)
    → peak_of id (raise k v peaks) ≡ max (peak_of id peaks) (if same_text k id then v else 0)
unfolding peak_of raise
peak_of-raise id k v [] = ground arith
peak_of-raise id k v ((j, m) ∷ rest) = elim (Bool-cases (same_text j k)) [
  | inl e ↦ rw e (raised (same_text_sound j k e))
  | inr e ↦ rw e (elim (Bool-cases (same_text j id)) [
    | inl same ↦ rw (same, other e (same_text_sound j id same)) (omega arith)
    | inr differ ↦ rw differ (peak_of-raise id k v rest)
  ])
]
  where
    raised :
        j ≡ k
        → (if same_text j id then max m v else peak_of id rest)
          ≡ max (if same_text j id then m else peak_of id rest) (if same_text k id then v else 0)
    raised h = rw (sym h) (ground arith)

    other : same_text j k ≡ false → j ≡ id → same_text k id ≡ false
    other e h = elim (Bool-cases (same_text k id)) [
      | inr differ ↦ differ
      | inl same ↦ ground (
        arith,
        sym (same_text_self j) ∙ ap (same_text j) (h ∙ sym (same_text_sound k id same)) ∙ e,
      )
    ]

peak_of-raise_all :
    (id : String) (entries : List (String × ℕ)) (peaks : Peaks)
    → peak_of id (raise_all entries peaks) ≡ max (peak_of id peaks) (highest id entries)
unfolding raise_all
peak_of-raise_all id [] peaks = omega arith
peak_of-raise_all id ((k, v) ∷ entries) peaks =
    omega (arith, peak_of-raise_all id entries (raise k v peaks), peak_of-raise id k v peaks)

peak_of-disk_peak :
    {F : Type 0} (id : String) (frames : List (AggregatedFrame F)) (peaks : Peaks)
    → peak_of id (disk_peak_from frames peaks) ≡ max (peak_of id peaks) (highest_in id frames)
unfolding disk_peak_from
peak_of-disk_peak id [] peaks = omega arith
peak_of-disk_peak id (frame ∷ frames) peaks = omega (
  arith,
  peak_of-disk_peak id frames (raise_all frame.sensor_internal_buffer_max peaks),
  peak_of-raise_all id frame.sensor_internal_buffer_max peaks,
)

module _ {F : Type 0} (f : FloatOps F) (print : ℕ → String) (capacity : ℕ)
    (near_full_ratio : F) where
  -- A status shows the length that the gateway reports now, the greatest length that it or any frame
  -- reports, and whether that fills the buffer.
  pub record Shows (base : BufferTelemetrySnapshot F) (frames : List (AggregatedFrame F))
      (s : SensorBufferStatus F) : Type 0 where
    pub current : s.current_len ≡ current_of (find_row s.sensor_id base.sensors)
    pub peak :
        s.peak_len
        ≡ max (reader_peak_of (find_row s.sensor_id base.sensors)) (highest_in s.sensor_id frames)
    pub full : s.full ≡ (
        at_capacity f print capacity near_full_ratio s.current_len
        || at_capacity f print capacity near_full_ratio s.peak_len)

  pub merged_status-Shows :
      (base : BufferTelemetrySnapshot F) (frames : List (AggregatedFrame F)) (id : String)
      → Shows base frames (
          merged_status f print capacity near_full_ratio base.sensors (disk_peak_from frames []) id)
  unfolding merged_status peak_of
  merged_status-Shows base frames id = record {
    current = refl;
    peak =
        ap (max (reader_peak_of (find_row id base.sensors)))
          (peak_of-disk_peak id frames [] ∙ omega arith);
    full = refl;
  }

  All-statuses :
      (base : BufferTelemetrySnapshot F) (frames : List (AggregatedFrame F)) (ids : List String)
      → All (Shows base frames) (
          map
            (merged_status f print capacity near_full_ratio base.sensors (disk_peak_from frames []))
            ids)
  All-statuses base frames [] = tt
  All-statuses base frames (id ∷ ids) =
      (merged_status-Shows base frames id, All-statuses base frames ids)

  -- In the merged telemetry every status shows the length that the gateway reports now for its
  -- sensor, the greatest that the gateway or any frame reports, and whether one of them fills the buffer.
  pub merge-Shows :
      (base : BufferTelemetrySnapshot F) (frames : List (AggregatedFrame F))
      → All
          (Shows base frames)
          (merge_buffer_telemetry_with_frames f print capacity near_full_ratio base frames).sensors
  unfolding merge_buffer_telemetry_with_frames
  merge-Shows base frames = sort_by-All id_order (Shows base frames) _ (
      All-statuses base frames
        (merged_ids f print capacity near_full_ratio base.sensors (disk_peak_from frames [])))
