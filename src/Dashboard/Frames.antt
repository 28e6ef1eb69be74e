-- ===== src/Dashboard/Frames.antt =====
-- The list operations of dashboard/src/lib.rs on frames: the sorted cache, the newest frames.
pub mod Merge
use Prim.Native.Nat.{compare, Ordering}
use comp2432_project.Prelude.{
  ℕ, suc, ◌+◌, ◌-◌, ◌≤◌, ◌<◌, Bool, true, false, ◌&&◌, ◌||◌, not, Option, List, [], ◌∷◌, ◌++◌,
  length, drop, ltb, if◌then◌else◌, ◌==◌,
}
use comp2432_project.Prelude.Sort.{retain, sort_by}
use comp2432_project.Models.{AggregatedFrame}

abbrev pub max_cached_frames : ℕ
max_cached_frames = 65_536

-- `Ordering::then_with`
abbrev pub then_with : Ordering → Ordering → Ordering
then_with Ordering.eq o = o
then_with o _ = o

-- `sort_by` moves an element past another only where the comparison says `Greater`.
abbrev pub not_greater : Ordering → Bool
not_greater Ordering.gt = false
not_greater _ = true

module _ {F : Type 0} where
  -- The comparison in `merge_frame_into_vec`: older frames first.
  unfoldable pub cmp_oldest_first : AggregatedFrame F → AggregatedFrame F → Ordering
  cmp_oldest_first a b =
      then_with (compare a.window_end b.window_end) (compare a.frame_id b.frame_id)

  abbrev pub oldest_first : AggregatedFrame F → AggregatedFrame F → Bool
  oldest_first a b = not_greater (cmp_oldest_first a b)

  -- The test of `retain`.
  abbrev pub other_key : AggregatedFrame F → AggregatedFrame F → Bool
  other_key frame f = not (f.window_end == frame.window_end) || not (f.frame_id == frame.frame_id)

  unfoldable pub merge_frame_into_vec :
      List (AggregatedFrame F) → AggregatedFrame F → List (AggregatedFrame F)
  merge_frame_into_vec frames frame =
      let sorted = sort_by oldest_first (retain (other_key frame) frames ++ frame ∷ []) in
      if ltb max_cached_frames (length sorted)
      then drop (length sorted - max_cached_frames) sorted
      else sorted
