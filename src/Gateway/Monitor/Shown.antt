-- ===== src/Gateway/Monitor/Shown.antt =====
-- What the gateway's loop has handed over is what the dashboard shows.
use Prim.Native.String.{String}
use comp2432_project.Prelude.{
  ℕ, max, ◌≡◌, refl, sym, ap, ◌∙◌, ◌⊎◌, inl, inr, true, false, none, some, List, [], ◌∷◌, map,
  length,
}
use mathlib.Core.Path.{subst}
use comp2432_project.Prelude.Texts.{same_text}
use comp2432_project.Prelude.Floats.{FloatOps}
use comp2432_project.Prelude.Sort.{All, sort_by, sort_by-All}
use comp2432_project.Prelude.Any.{Any, Any-map, Any-weaken, sort_by-Any, All-at, each-All}
use comp2432_project.Models.{AggregatedFrame, SensorBufferStatus, BufferTelemetrySnapshot}
use comp2432_project.Gateway.Buffer.{SharedBuffer}
use comp2432_project.Gateway.Buffer.Endings.{len_sound}
use comp2432_project.Gateway.Main.{SensorInternalBufferConfig}
use comp2432_project.Gateway.Manager.{
  BufferUtilizationStats, SensorQueueSnapshot, RatesSnapshot, PerSensor, utilization_stats,
  id_not_greater, status_of, sensor_internal_buffers_snapshot,
}
use comp2432_project.Gateway.Monitor.{throughput_of, set_policy, monitor_tick}
use comp2432_project.Dashboard.Queries.{throughput_api}
use comp2432_project.Dashboard.Stores.{
  InternalBufferPolicy, Stores, set_buffer_telemetry, set_throughput_telemetry,
  set_internal_buffer_policy, read_throughput, internal_buffer_policy, buffer_api,
}
use comp2432_project.Dashboard.Telemetry.{find_row, current_of, reader_peak_of, merged_status}
use comp2432_project.Dashboard.Telemetry.Peaks.{highest_in, merged_status-Shows}
use comp2432_project.Dashboard.Telemetry.Rows.{find_row-some, status_for, merge-Any}

-- Entries of one key are one entry, as in every map.
abbrev pub HasUniqueKeys : PerSensor → Type 0
HasUniqueKeys per_sensor =
    All (λ entry. All (λ x. same_text x.0 entry.0 ≡ true → x ≡ entry) per_sensor) per_sensor

module _ {F : Type 0} where
  abbrev pub policy_of : SensorInternalBufferConfig F → InternalBufferPolicy F
  policy_of cfg = record {
    usable_capacity = cfg.usable_capacity;
    near_full_ratio = cfg.near_full_ratio;
  }

  -- The status shows the entry, with the peaks of the frames.
  pub record ShowsEntry (frames : List (AggregatedFrame F)) (entry : String × SensorQueueSnapshot)
      (status : SensorBufferStatus F) : Type 0 where
    pub named : status.sensor_id ≡ entry.0
    pub current : status.current_len ≡ entry.1.current_len
    pub peak : status.peak_len ≡ max entry.1.peak_len (highest_in entry.0 frames)

  set_policy-eq :
      (cfg : SensorInternalBufferConfig F) (s : Stores F)
      → (s.policy ≡ none) ⊎ (s.policy ≡ some (policy_of cfg))
      → set_policy cfg s ≡ record s { policy = some (policy_of cfg) }
  unfolding set_policy set_internal_buffer_policy
  set_policy-eq cfg s (inl e) = rw e refl
  set_policy-eq cfg s (inr e) =
      rw (set_policy, set_internal_buffer_policy, e) (ap (λ p. record s { policy = p }) e)

module _ {F : Type 0} (f : FloatOps F) (print : ℕ → String) (capacity : ℕ)
    (near_full_ratio : F) where
  abbrev status : String × SensorQueueSnapshot → SensorBufferStatus F
  status = status_of f print capacity near_full_ratio

  abbrev snapshot : PerSensor → BufferTelemetrySnapshot F
  snapshot = sensor_internal_buffers_snapshot f print capacity near_full_ratio

  -- The snapshot has the entry's row, and no other of its id.
  snapshot_row :
      (per_sensor : PerSensor) (entry : String × SensorQueueSnapshot)
      → HasUniqueKeys per_sensor
      → Any (λ y. y ≡ entry) per_sensor
      → find_row entry.0 (snapshot per_sensor).sensors ≡ some (status entry)
        × Any (λ x. x.sensor_id ≡ entry.0) (snapshot per_sensor).sensors
  unfolding sensor_internal_buffers_snapshot
  snapshot_row per_sensor entry unique m = (
    find_row-some (status entry) _ (sort_by-All id_not_greater _ _ (ones per_sensor alone)) there,
    Any-weaken _ _ _ (λ x e. ap (λ y. y.sensor_id) e) there,
  )
    where
      alone : All (λ x. same_text x.0 entry.0 ≡ true → x ≡ entry) per_sensor
      alone = All-at _ entry per_sensor unique m

      ones :
          (xs : PerSensor)
          → All (λ x. same_text x.0 entry.0 ≡ true → x ≡ entry) xs
          → All (λ x. same_text x.sensor_id entry.0 ≡ true → x ≡ status entry) (map status xs)
      ones [] h = tt
      ones (x ∷ xs) h = (λ same. ap status (h.0 same), ones xs h.1)

      there : Any (λ x. x ≡ status entry) (sort_by id_not_greater (map status per_sensor))
      there =
          sort_by-Any _ id_not_greater (map status per_sensor)
            (Any-map _ status per_sensor (Any-weaken _ _ per_sensor (λ x e. ap status e) m))

  merged_shows :
      (frames : List (AggregatedFrame F)) (per_sensor : PerSensor)
      (entry : String × SensorQueueSnapshot)
      → HasUniqueKeys per_sensor
      → Any (λ y. y ≡ entry) per_sensor
      → ShowsEntry frames entry
          (status_for f print capacity near_full_ratio (snapshot per_sensor) frames entry.0)
  unfolding merged_status
  merged_shows frames per_sensor entry unique m =
      let row = (snapshot_row per_sensor entry unique m).0 in
      let shows =
        merged_status-Shows f print capacity near_full_ratio (snapshot per_sensor) frames entry.0 in
      record {
        named = refl;
        current = shows.current ∙ ap current_of row;
        peak = shows.peak ∙ ap (λ o. max (reader_peak_of o) (highest_in entry.0 frames)) row;
      }

module _ {F : Type 0} (f : FloatOps F) (print : ℕ → String)
    (cfg : SensorInternalBufferConfig F) where
  buffer_api-shows :
      (frames : List (AggregatedFrame F)) (per_sensor : PerSensor) (s : Stores F)
      → HasUniqueKeys per_sensor
      → s.buffer_store.poisoned ≡ false
      → s.buffer_store.value
        ≡ some (snapshot f print cfg.usable_capacity cfg.near_full_ratio per_sensor)
      → s.policy ≡ some (policy_of cfg)
      → All
          (λ entry. Any (ShowsEntry frames entry) (buffer_api f print frames s).sensors)
          per_sensor
  unfolding buffer_api internal_buffer_policy
  buffer_api-shows frames per_sensor s unique sound held policy =
      rw (buffer_api, internal_buffer_policy, sound, held, policy)
        (each-All _ per_sensor (λ entry m.
          let row =
            snapshot_row f print cfg.usable_capacity cfg.near_full_ratio per_sensor entry unique
              m in
          Any-weaken _ _ _
            (λ x e. subst (ShowsEntry frames entry) (sym e) (
              merged_shows f print cfg.usable_capacity cfg.near_full_ratio frames per_sensor entry
                unique m))
            (merge-Any f print cfg.usable_capacity cfg.near_full_ratio
              (snapshot f print cfg.usable_capacity cfg.near_full_ratio per_sensor) frames entry.0
              row.1)))

  utilization_stats-some :
      (now : ℕ) (buffer : SharedBuffer F) (last : RatesSnapshot)
      → buffer.poisoned ≡ false
      → (stats : BufferUtilizationStats F) × (next : RatesSnapshot) × (utilization_stats f now
            buffer last
          ≡ some (stats, next))
        × (stats.len ≡ length buffer.queue)
  unfolding utilization_stats
  utilization_stats-some now buffer last sound =
      rw (utilization_stats, len_sound buffer sound) (_, _, refl, refl)

  -- Where no lock is poisoned, and no other policy was set, `main` sets its policy and a round of its
  -- loop ends without a panic. Then, whatever frames are loaded, `/api/buffer` shows every sensor that
  -- the readers know, with the queue length noted last and the greater of the peak noted and the peaks
  -- in the frames, and `/api/throughput` the length of the shared buffer.
  pub tick_is_shown :
      (now : ℕ) (per_sensor : PerSensor) (buffer : SharedBuffer F) (last : RatesSnapshot)
      (s : Stores F) (frames : List (AggregatedFrame F))
      → HasUniqueKeys per_sensor
      → buffer.poisoned ≡ false
      → s.buffer_store.poisoned ≡ false
      → s.throughput_store.poisoned ≡ false
      → (s.policy ≡ none) ⊎ (s.policy ≡ some (policy_of cfg))
      → (shown : Stores F) × (next : RatesSnapshot) × (monitor_tick f print cfg now per_sensor
            buffer last
            (set_policy cfg s)
          ≡ some (shown, next))
        × All
            (λ entry. Any (ShowsEntry frames entry) (buffer_api f print frames shown).sensors)
            per_sensor
        × ((throughput_api (read_throughput shown)).buffer_len ≡ length buffer.queue)
  unfolding monitor_tick set_buffer_telemetry set_throughput_telemetry throughput_api
  tick_is_shown now per_sensor buffer last s frames unique sound free writable policy =
      let (stats, next, made, counted) = utilization_stats-some now buffer last sound in
      (
        shown stats,
        next,
        rw (monitor_tick, made, set_policy-eq cfg s policy, free, writable) refl,
        buffer_api-shows frames per_sensor (shown stats) unique free refl refl,
        rw (throughput_api, writable) counted,
      )
    where
      shown : BufferUtilizationStats F → Stores F
      shown stats = record {
        buffer_store = record (s.buffer_store) {
          value = some (snapshot f print cfg.usable_capacity cfg.near_full_ratio per_sensor);
        };
        throughput_store = record (s.throughput_store) { value = some (throughput_of stats) };
        policy = some (policy_of cfg);
      }
