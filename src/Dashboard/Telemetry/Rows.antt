-- ===== src/Dashboard/Telemetry/Rows.antt =====
-- Every row that the gateway reports has its status in the merged telemetry.
use Prim.Native.String.{String, compare}
use Prim.Native.Nat.{Ordering}
use text.Mathlib.TextEquality.{path_by_compare}
use comp2432_project.Prelude.{
  ℕ, ◌≡◌, refl, sym, ap, ◌∙◌, ◌⊎◌, inl, inr, true, some, List, [], ◌∷◌, map, arith, Bool-cases,
}
use comp2432_project.Prelude.Texts.{same_text, same_text_self}
use comp2432_project.Prelude.Floats.{FloatOps}
use comp2432_project.Prelude.Sort.{All}
use comp2432_project.Prelude.Any.{Any, Any-map, Any-weaken, sort_by-Any}
use comp2432_project.Models.{AggregatedFrame, SensorBufferStatus, BufferTelemetrySnapshot}
use comp2432_project.Dashboard.Telemetry.{
  insert_id, insert_ids, disk_peak_from, find_row, id_order, merged_status, merged_ids,
  merge_buffer_telemetry_with_frames,
}

abbrev pub Lists : String → List String → Type 0
Lists id ids = Any (λ k. k ≡ id) ids

ordering_cases : (o : Ordering) → (o ≡ Ordering.lt) ⊎ ((o ≡ Ordering.eq) ⊎ (o ≡ Ordering.gt))
ordering_cases Ordering.lt = inl refl
ordering_cases Ordering.eq = inr (inl refl)
ordering_cases Ordering.gt = inr (inr refl)

insert_id-Lists :
    (id k : String) (set : List String) → (k ≡ id) ⊎ Lists id set → Lists id (insert_id k set)
unfolding insert_id
insert_id-Lists id k [] h = h
insert_id-Lists id k (j ∷ js) h = elim (ordering_cases (compare k j)) [
  | inl lt ↦ rw (insert_id, lt) h
  | inr (inl eq) ↦
      rw (insert_id, eq) (elim h [ inl e ↦ inl (sym (path_by_compare k j eq) ∙ e) | inr l ↦ l ])
  | inr (inr gt) ↦
      rw (insert_id, gt)
        (elim h [
          | inl e ↦ inr (insert_id-Lists id k js (inl e))
          | inr (inl e) ↦ inl e
          | inr (inr l) ↦ inr (insert_id-Lists id k js (inr l))
        ])
]

insert_ids-Lists :
    (id : String) (ids set : List String)
    → Lists id ids ⊎ Lists id set
    → Lists id (insert_ids ids set)
unfolding insert_ids
insert_ids-Lists id [] set (inl h) = elim h [ ]
insert_ids-Lists id [] set (inr h) = h
insert_ids-Lists id (k ∷ ids) set (inl (inl e)) =
    insert_ids-Lists id ids (insert_id k set) (inr (insert_id-Lists id k set (inl e)))
insert_ids-Lists id (k ∷ ids) set (inl (inr h)) = insert_ids-Lists id ids (insert_id k set) (inl h)
insert_ids-Lists id (k ∷ ids) set (inr h) =
    insert_ids-Lists id ids (insert_id k set) (inr (insert_id-Lists id k set (inr h)))

module _ {F : Type 0} where
  -- The row that is found is the one of the id.
  pub find_row-some :
      (row : SensorBufferStatus F) (rows : List (SensorBufferStatus F))
      → All (λ x. same_text x.sensor_id row.sensor_id ≡ true → x ≡ row) rows
      → Any (λ x. x ≡ row) rows
      → find_row row.sensor_id rows ≡ some row
  unfolding find_row
  find_row-some row [] one h = elim h [ ]
  find_row-some row (x ∷ rows) one h = elim (Bool-cases (same_text x.sensor_id row.sensor_id)) [
    | inl e ↦ rw e (ap some (one.0 e))
    | inr e ↦ rw e (elim h [
      | inl same ↦ absurd (
          ground (
            arith,
            e,
            ap (λ y. same_text y.sensor_id row.sensor_id) same ∙ same_text_self row.sensor_id,
          ))
      | inr k ↦ find_row-some row rows one.1 k
    ])
  ]

module _ {F : Type 0} (f : FloatOps F) (print : ℕ → String) (capacity : ℕ)
    (near_full_ratio : F) where
  -- The status of an id in the merged telemetry.
  abbrev pub status_for :
      BufferTelemetrySnapshot F → List (AggregatedFrame F) → String → SensorBufferStatus F
  status_for base frames id =
      merged_status f print capacity near_full_ratio base.sensors (disk_peak_from frames []) id

  pub merge-Any :
      (base : BufferTelemetrySnapshot F) (frames : List (AggregatedFrame F)) (id : String)
      → Any (λ x. x.sensor_id ≡ id) base.sensors
      → Any
          (λ x. x ≡ status_for base frames id)
          (merge_buffer_telemetry_with_frames f print capacity near_full_ratio base frames).sensors
  unfolding merge_buffer_telemetry_with_frames
  merge-Any base frames id h = sort_by-Any _ id_order (map (status_for base frames) ids) (
      Any-map _ (status_for base frames) ids
        (Any-weaken _ _ ids (λ k e. ap (status_for base frames) e) found))
    where
      ids : List String
      ids = merged_ids f print capacity near_full_ratio base.sensors (disk_peak_from frames [])

      found : Lists id ids
      found =
          insert_ids-Lists id (map (λ entry. entry.0) (disk_peak_from frames []))
            (insert_ids (map (λ s. s.sensor_id) base.sensors) [])
            (inr (
              insert_ids-Lists id (map (λ s. s.sensor_id) base.sensors) []
                (inl (Any-map (λ k. k ≡ id) (λ s. s.sensor_id) base.sensors h))))
