-- ===== src/Dashboard/Stores.antt =====
-- dashboard/src/lib.rs: the stores that the gateway fills, the policy of the internal buffers, and what
-- `buffer_api` answers and `throughput_api` reads of them. A store that nobody has asked for is empty.
use Prim.Native.String.{String}
use comp2432_project.Prelude.{ℕ, Bool, false, Option, none, some, List, [], ◌∷◌, if◌then◌else◌}
use comp2432_project.Prelude.Floats.{FloatOps}
use comp2432_project.Models.{AggregatedFrame, BufferTelemetrySnapshot, ThroughputTelemetrySnapshot}
use comp2432_project.Dashboard.Telemetry.{merge_buffer_telemetry_with_frames}

pub record InternalBufferPolicy (F : Type 0) : Type 0 where
  pub usable_capacity : ℕ
  pub near_full_ratio : F

pub record RwLock (A : Type 0) : Type 0 where
  pub poisoned : Bool
  pub value : Option A

pub record Stores (F : Type 0) : Type 0 where
  pub buffer_store : RwLock (BufferTelemetrySnapshot F)
  pub throughput_store : RwLock ThroughputTelemetrySnapshot
  pub policy : Option (InternalBufferPolicy F)

-- `write` on a poisoned lock is an error, and the value is not stored.
abbrev pub store : {A : Type 0} → A → RwLock A → RwLock A
store v l = if l.poisoned then l else record l { value = some v }

module _ {F : Type 0} where
  unfoldable pub set_buffer_telemetry : BufferTelemetrySnapshot F → Stores F → Stores F
  set_buffer_telemetry snapshot s = record s { buffer_store = store snapshot s.buffer_store }

  unfoldable pub set_throughput_telemetry : ThroughputTelemetrySnapshot → Stores F → Stores F
  set_throughput_telemetry snapshot s = record s {
    throughput_store = store snapshot s.throughput_store;
  }

  -- `OnceLock::set`: the first value stays.
  unfoldable pub set_internal_buffer_policy : ℕ → F → Stores F → Stores F
  set_internal_buffer_policy usable_capacity near_full_ratio s = elim s.policy [
    | some p ↦ s
    | none ↦ record s {
      policy =
          some (record { usable_capacity = usable_capacity; near_full_ratio = near_full_ratio });
    }
  ]

  abbrev pub empty_snapshot : BufferTelemetrySnapshot F
  empty_snapshot = record { sensors = []; any_near_full = false; any_full = false; warnings = [] }

  abbrev pub or_empty : Option (BufferTelemetrySnapshot F) → BufferTelemetrySnapshot F
  or_empty none = empty_snapshot
  or_empty (some snapshot) = snapshot

  -- What `throughput_api` reads.
  abbrev pub read_throughput : Stores F → Option (Option ThroughputTelemetrySnapshot)
  read_throughput s = if s.throughput_store.poisoned then none else some s.throughput_store.value

module _ {F : Type 0} (f : FloatOps F) where
  -- 0.85 is the quotient of 85 and 100, correctly rounded.
  unfoldable pub internal_buffer_policy : Stores F → InternalBufferPolicy F
  internal_buffer_policy s = elim s.policy [
    | some p ↦ p
    | none ↦ record { usable_capacity = 127; near_full_ratio = f.div (f.of_nat 85) (f.of_nat 100) }
  ]

  abbrev pub with_warning : Bool → BufferTelemetrySnapshot F → BufferTelemetrySnapshot F
  with_warning read_poisoned merged =
      if read_poisoned
      then record merged { warnings = "Failed to read buffer telemetry state" ∷ merged.warnings }
      else merged

  -- `frames` is what `load_all_frames_on_pool` gives the request.
  unfoldable pub buffer_api :
      (ℕ → String) → List (AggregatedFrame F) → Stores F → BufferTelemetrySnapshot F
  unfolding internal_buffer_policy
  buffer_api print frames s =
      let read_poisoned = s.buffer_store.poisoned in
      let base = if read_poisoned then empty_snapshot else or_empty s.buffer_store.value in
      let policy = internal_buffer_policy s in
      with_warning read_poisoned (
        merge_buffer_telemetry_with_frames f print policy.usable_capacity policy.near_full_ratio
          base frames)
