-- ===== src/Dashboard/Newest.antt =====
-- dashboard/src/lib.rs: `newest_frames_bounded`, which keeps the newest frames in a heap of their keys.
-- `BinaryHeap<Reverse<...>>` is the ascending list of its entries, so that `peek` and `pop` take the
-- least; the order of `into_iter` tells nothing after the sort but the order of frames with equal keys.
pub mod Heap
pub mod Bounded
use Prim.Native.Nat.{compare, Ordering}
use comp2432_project.Prelude.{
  ℕ, suc, ◌+◌, Bool, true, false, ◌&&◌, ◌||◌, Option, none, some, List, [], ◌∷◌, Outcome, done,
  panic, ◌>>=◌, if◌then◌else◌, ◌==◌, ltb, leb, length, get_elem?,
}
use comp2432_project.Prelude.Sort.{insert_by, sort_by}
use comp2432_project.Models.{AggregatedFrame}
use comp2432_project.Dashboard.Frames.{then_with, not_greater}
use comp2432_project.Dashboard.Queries.{latest_first}

abbrev pub max_latest_frames : ℕ
max_latest_frames = 10

pub record HeapEntry : Type 0 where
  pub end : ℕ
  pub id : ℕ
  pub index : ℕ

-- The order of the tuples.
pub cmp_entry : HeapEntry → HeapEntry → Ordering
cmp_entry a b =
    then_with (compare a.end b.end) (then_with (compare a.id b.id) (compare a.index b.index))

abbrev pub entry_order : HeapEntry → HeapEntry → Bool
entry_order a b = not_greater (cmp_entry a b)

abbrev pub above : HeapEntry → HeapEntry → Bool
above entry top = ltb top.end entry.end || entry.end == top.end && ltb top.id entry.id

-- One turn of the loop.
pub offer : HeapEntry → List HeapEntry → Outcome (List HeapEntry)
offer entry heap =
    if ltb (length heap) max_latest_frames
    then done (insert_by entry_order entry heap)
    else elim heap [
      | [] ↦ panic
      | top ∷ rest ↦ done (if above entry top then insert_by entry_order entry rest else top ∷ rest)
    ]

module _ {F : Type 0} where
  abbrev pub entry_of : AggregatedFrame F → ℕ → HeapEntry
  entry_of frame i = record { end = frame.window_end; id = frame.frame_id; index = i }

  pub offer_all : ℕ → List (AggregatedFrame F) → List HeapEntry → Outcome (List HeapEntry)
  unfolding offer
  offer_all i [] heap = done heap
  offer_all i (frame ∷ frames) heap = offer (entry_of frame i) heap >>= offer_all (suc i) frames

  -- `frames[index].clone()`
  pub pick_frames : List (AggregatedFrame F) → List HeapEntry → Outcome (List (AggregatedFrame F))
  pick_frames frames [] = done []
  pick_frames frames (entry ∷ heap) = elim (get_elem? frames entry.index) [
    | none ↦ panic
    | some frame ↦ pick_frames frames heap >>= (λ picked. done (frame ∷ picked))
  ]

  unfoldable pub newest_frames_bounded :
      List (AggregatedFrame F) → Outcome (List (AggregatedFrame F))
  unfolding offer_all pick_frames
  newest_frames_bounded frames =
      if leb (length frames) max_latest_frames
      then done (sort_by latest_first frames)
      else offer_all 0 frames []
        >>= (λ heap. pick_frames frames heap >>= (λ out. done (sort_by latest_first out)))
