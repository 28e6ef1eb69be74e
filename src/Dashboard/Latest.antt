-- ===== src/Dashboard/Latest.antt =====
-- dashboard/src/lib.rs: `load_latest_frames_for_api`, and what it and `load_all_frames_on_pool` answer
-- once a pass of their loops has decided.
pub mod Newer
use comp2432_project.Prelude.{
  ℕ, Bool, true, false, Option, none, some, List, [], ◌∷◌, Outcome, done, panic, fault, ◌>>=◌,
  if◌then◌else◌, leb, ◌-◌,
}
use comp2432_project.Models.{AggregatedFrame}
use comp2432_project.Dashboard.Cache.{
  FramesCacheState, Mutex, FramesLoadDecision, wait, sync_load, return_stale_start_bg, Decided,
  return_frames, decision, is_empty, cache_fresh,
}
use comp2432_project.Dashboard.Newest.{newest_frames_bounded}

module _ {F : Type 0} where
  -- What one pass of the loop decides under the lock; a panic in the selection poisons the lock.
  unfoldable pub decide_latest :
      ℕ → Mutex (FramesCacheState F) → Mutex (FramesCacheState F) × Outcome (Decided F)
  decide_latest now m =
      let cache = m.value in
      let newest = newest_frames_bounded cache.frames >>= (λ out. done (return_frames out)) in
      let loading = record m { value = record cache { refreshing = true } } in
      if m.poisoned
      then (m, done (return_frames []))
      else if cache_fresh now cache
      then (m, newest)
      else if cache.refreshing
      then (m, if is_empty cache.frames then done (decision wait) else newest)
      else if is_empty cache.frames
      then (loading, done (decision sync_load))
      else (loading, done (decision (return_stale_start_bg cache.frames)))

  -- The answer of `load_all_frames_on_pool` after the decision, where `refreshed` is what a load that
  -- the request waits for has left; `none`: the loop goes round again.
  unfoldable pub answer_all :
      Decided F → List (AggregatedFrame F) → Option (List (AggregatedFrame F))
  answer_all (return_frames out) refreshed = some out
  answer_all (decision wait) refreshed = none
  answer_all (decision sync_load) refreshed = some refreshed
  answer_all (decision (return_stale_start_bg out)) refreshed = some out

  -- The answer of `load_latest_frames_for_api`, for what `decide_latest` has decided.
  unfoldable pub answer_latest :
      Decided F → List (AggregatedFrame F) → Outcome (Option (List (AggregatedFrame F)))
  answer_latest (return_frames out) refreshed = done (some out)
  answer_latest (decision wait) refreshed = done none
  answer_latest (decision sync_load) refreshed =
      newest_frames_bounded refreshed >>= (λ out. done (some out))
  answer_latest (decision (return_stale_start_bg out)) refreshed =
      newest_frames_bounded out >>= (λ newest. done (some newest))
