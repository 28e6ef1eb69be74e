-- ===== src/Dashboard/Cache.antt =====
-- dashboard/src/lib.rs: the cache of frames, the pushes of the gateway, the requests that read it and
-- the loads from disk. A load is in flight from the request that starts it until its result is applied.
pub mod Loads
use comp2432_project.Prelude.{
  ℕ, zero, suc, ◌+◌, ◌-◌, Bool, true, false, Option, none, some, List, [], ◌∷◌, ◌++◌, leb,
  if◌then◌else◌,
}
use comp2432_project.Models.{AggregatedFrame}
use comp2432_project.Dashboard.Frames.{merge_frame_into_vec}

abbrev pub frames_cache_ttl_ms : ℕ
frames_cache_ttl_ms = 5_000

-- The notify handle is what an operation returns to wake the waiters: `true` for a handle.
pub record FramesCacheState (F : Type 0) : Type 0 where
  pub refreshed_at_ms : ℕ
  pub refreshing : Bool
  pub frames : List (AggregatedFrame F)
  pub pending_pushes : List (AggregatedFrame F)

-- A `std::sync::Mutex`: locking it fails once it is poisoned.
pub record Mutex (A : Type 0) : Type 0 where
  pub poisoned : Bool
  pub value : A

pub data FramesLoadDecision (F : Type 0) : Type 0 where
  wait : FramesLoadDecision F
  sync_load : FramesLoadDecision F
  return_stale_start_bg : List (AggregatedFrame F) → FramesLoadDecision F

-- What one pass of the loop in `load_all_frames_on_pool` decides under the lock.
pub data Decided (F : Type 0) : Type 0 where
  return_frames : List (AggregatedFrame F) → Decided F
  decision : FramesLoadDecision F → Decided F

-- What one look at `refreshing` tells a waiting request.
pub data WaitPoll : Type 0 where
  give_up : WaitPoll
  keep_waiting : WaitPoll
  retry : WaitPoll

module _ {F : Type 0} where
  abbrev pub default : FramesCacheState F
  default = record { refreshed_at_ms = 0; refreshing = false; frames = []; pending_pushes = [] }

  -- `false`: nobody is to be notified.
  pub record_aggregated_frame :
      ℕ → AggregatedFrame F → Mutex (FramesCacheState F) → Mutex (FramesCacheState F) × Bool
  record_aggregated_frame now frame m =
      let cache = m.value in
      if m.poisoned
      then (m, false)
      else if cache.refreshing
      then (
        record m { value = record cache { pending_pushes = cache.pending_pushes ++ frame ∷ [] } },
        false,
      )
      else (
        record m {
          value = record cache {
            refreshed_at_ms = now;
            frames = merge_frame_into_vec cache.frames frame;
          };
        },
        true,
      )

  -- `for p in cache.pending_pushes.drain(..)`
  pub merge_pushes : List (AggregatedFrame F) → List (AggregatedFrame F) → List (AggregatedFrame F)
  merge_pushes refreshed_frames [] = refreshed_frames
  merge_pushes refreshed_frames (p ∷ ps) = merge_pushes (merge_frame_into_vec refreshed_frames p) ps

  -- The new cache, the loaded frames with the pushes merged in, and whether waiters are notified.
  pub apply_disk_refresh_to_cache :
      ℕ
      → List (AggregatedFrame F)
      → Mutex (FramesCacheState F)
      → Mutex (FramesCacheState F) × List (AggregatedFrame F) × Bool
  unfolding merge_pushes
  apply_disk_refresh_to_cache now refreshed_frames m =
      let cache = m.value in
      let merged = merge_pushes refreshed_frames cache.pending_pushes in
      if m.poisoned then (m, refreshed_frames, false) else (
        record m {
          value = record {
            refreshed_at_ms = now;
            refreshing = false;
            frames = merged;
            pending_pushes = [];
          };
        },
        merged,
        true,
      )

  abbrev pub is_empty : List (AggregatedFrame F) → Bool
  is_empty [] = true
  is_empty (f ∷ fs) = false

  -- `saturating_sub` stops at 0, as `-` does here.
  abbrev pub cache_fresh : ℕ → FramesCacheState F → Bool
  cache_fresh now cache = leb (now - cache.refreshed_at_ms) frames_cache_ttl_ms

  unfoldable pub decide : ℕ → Mutex (FramesCacheState F) → Mutex (FramesCacheState F) × Decided F
  decide now m =
      let cache = m.value in
      let loading = record m { value = record cache { refreshing = true } } in
      if m.poisoned
      then (m, return_frames [])
      else if cache_fresh now cache
      then (m, return_frames cache.frames)
      else if cache.refreshing
      then (m, if is_empty cache.frames then decision wait else return_frames cache.frames)
      else if is_empty cache.frames
      then (loading, decision sync_load)
      else (loading, decision (return_stale_start_bg cache.frames))

  pub poll_refreshing : Mutex (FramesCacheState F) → WaitPoll
  poll_refreshing m =
      if m.poisoned then give_up else if m.value.refreshing then keep_waiting else retry

-- The gateway's pushes, the requests' passes and the loads, in the order in which they lock the cache.
-- `now` is what `now_millis` says there, `disk` what `load_all_frames` has read.
pub data Event (F : Type 0) : Type 0 where
  push : (now : ℕ) → AggregatedFrame F → Event F
  request : (now : ℕ) → Event F
  load_done : (now : ℕ) → (disk : List (AggregatedFrame F)) → Event F

pub record World (F : Type 0) : Type 0 where
  pub cache : Mutex (FramesCacheState F)
  pub loads : ℕ

module _ {F : Type 0} where
  -- A request that is told to load starts a load.
  abbrev pub started : Decided F → ℕ
  started (return_frames out) = 0
  started (decision wait) = 0
  started (decision sync_load) = 1
  started (decision (return_stale_start_bg out)) = 1

  pub step : Event F → World F → World F
  unfolding record_aggregated_frame decide apply_disk_refresh_to_cache
  step (push now frame) w = record w { cache = (record_aggregated_frame now frame w.cache).0 }
  step (request now) w =
      let passed = decide now w.cache in
      record { cache = passed.0; loads = w.loads + started passed.1 }
  step (load_done now disk) w = elim w.loads [
    | zero ↦ w
    | suc rest ↦ record { cache = (apply_disk_refresh_to_cache now disk w.cache).0; loads = rest }
  ]

  pub run : List (Event F) → World F → World F
  unfolding step
  run [] w = w
  run (e ∷ es) w = run es (step e w)
