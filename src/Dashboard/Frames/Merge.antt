-- ===== src/Dashboard/Frames/Merge.antt =====
-- `merge_frame_into_vec`: a sorted list of the newest frames, one for each key.

use mathlib.Core.List.{Perm}
use comp2432_project.Prelude.{
  ℕ, ◌-◌, ◌≤◌, ◌<◌, ◌⊎◌, ◌≡◌, inl, inr, true, List, [], ◌∷◌, ◌++◌, length, length-drop, length-take,
  take, take-append-drop, ltb, arith, Bool-cases,
}
use comp2432_project.Prelude.Sort.{
  retain, sort_by, IsSorted, IsPreorder, sort_by-IsSorted, sort_by-perm, All, All-map, All-unit,
  AllPairs, IsSorted-AllPairs, AllPairs-append_one, retain-All, retain-AllPairs, sort_by-AllPairs,
  drop-AllPairs, length-sort_by,
}
use comp2432_project.Models.{AggregatedFrame}
use comp2432_project.Dashboard.Frames.{
  max_cached_frames, cmp_oldest_first, oldest_first, other_key, merge_frame_into_vec,
}

module _ {F : Type 0} where
  oldest_first-IsPreorder : IsPreorder (oldest_first {F = F})
  unfolding cmp_oldest_first
  oldest_first-IsPreorder = record {
    total = λ a b h. ground arith;
    trans = λ a b c h k. ground arith;
  }

  -- `a` may stand before `b`: its window ends earlier, or at the same time and its number is no greater.
  abbrev pub NotNewer : AggregatedFrame F → AggregatedFrame F → Type 0
  NotNewer a b =
      (a.window_end < b.window_end) ⊎ ((a.window_end ≡ b.window_end) × (a.frame_id ≤ b.frame_id))

  oldest_first-NotNewer : (a b : AggregatedFrame F) → oldest_first a b ≡ true → NotNewer a b
  unfolding cmp_oldest_first
  oldest_first-NotNewer a b h = ground arith

  -- The frames that stay beside the new one, and the new one.
  abbrev pub candidates : List (AggregatedFrame F) → AggregatedFrame F → List (AggregatedFrame F)
  candidates frames frame = retain (other_key frame) frames ++ frame ∷ []

  -- `result` is what a list of at most `max_cached_frames` newest frames keeps of `frames` and
  -- `frame`: with those evicted before it, it is sorted and holds just the candidates.
  pub record Keeps (frames : List (AggregatedFrame F)) (frame : AggregatedFrame F)
      (result : List (AggregatedFrame F)) : Type 0 where
    pub evicted : List (AggregatedFrame F)
    pub sorted : IsSorted oldest_first (evicted ++ result)
    pub in_order : AllPairs NotNewer (evicted ++ result)
    pub same : Perm (evicted ++ result) (candidates frames frame)
    pub few : length result ≤ max_cached_frames
    pub no_more : length evicted ≡ length (candidates frames frame) - max_cached_frames

  -- After a merge the cache holds the newest of the frames with other keys and the new frame, in
  -- order, up to the limit; it evicts the oldest and no more than the limit asks for.
  pub merge-Keeps :
      (frames : List (AggregatedFrame F)) (frame : AggregatedFrame F)
      → Keeps frames frame (merge_frame_into_vec frames frame)
  unfolding merge_frame_into_vec
  merge-Keeps frames frame = elim (Bool-cases (ltb max_cached_frames (length sorted))) [
    | inl over ↦ rw over (record {
      evicted = take extra sorted;
      sorted = rw (take-append-drop extra sorted) order;
      in_order = rw (take-append-drop extra sorted) pairs;
      same = rw (take-append-drop extra sorted) content;
      few = ground (arith, length-drop extra sorted);
      no_more = ground (arith, length-take extra sorted, count);
    })
    | inr under ↦ rw under (record {
      evicted = [];
      sorted = order;
      in_order = pairs;
      same = content;
      few = ground arith;
      no_more = ground (arith, count);
    })
  ]
    where
      sorted : List (AggregatedFrame F)
      sorted = sort_by oldest_first (candidates frames frame)

      extra : ℕ
      extra = length sorted - max_cached_frames

      order : IsSorted oldest_first sorted
      order = sort_by-IsSorted oldest_first oldest_first-IsPreorder (candidates frames frame)

      pairs : AllPairs NotNewer sorted
      pairs = IsSorted-AllPairs oldest_first NotNewer oldest_first-NotNewer sorted order

      content : Perm sorted (candidates frames frame)
      content = sort_by-perm oldest_first (candidates frames frame)

      count : length sorted ≡ length (candidates frames frame)
      count = length-sort_by oldest_first (candidates frames frame)

  -- No two frames of the list have the same window end and id.
  abbrev pub HasDistinctKeys : List (AggregatedFrame F) → Type 0
  HasDistinctKeys = AllPairs (λ f g. other_key f g ≡ true)

  other_key_symm : (f g : AggregatedFrame F) → other_key f g ≡ true → other_key g f ≡ true
  other_key_symm f g h = ground arith

  -- A merge keeps the keys distinct: a frame with the key of the new one is replaced.
  pub merge-HasDistinctKeys :
      (frames : List (AggregatedFrame F)) (frame : AggregatedFrame F)
      → HasDistinctKeys frames
      → HasDistinctKeys (merge_frame_into_vec frames frame)
  unfolding merge_frame_into_vec
  merge-HasDistinctKeys frames frame h = elim (Bool-cases (ltb max_cached_frames (length sorted))) [
    | inl over ↦ rw over (drop-AllPairs oldest_first _ _ sorted distinct)
    | inr under ↦ rw under distinct
  ]
    where
      sorted : List (AggregatedFrame F)
      sorted = sort_by oldest_first (candidates frames frame)

      apart : All (λ f. other_key f frame ≡ true) (retain (other_key frame) frames)
      apart =
          All-map (λ f p. other_key_symm frame f p.1) (retain (other_key frame) frames)
            (retain-All (λ _. Unit {0}) (other_key frame) frames (All-unit frames))

      distinct : HasDistinctKeys sorted
      distinct =
          sort_by-AllPairs oldest_first (λ f g. other_key f g ≡ true) other_key_symm
            (candidates frames frame)
            (AllPairs-append_one _ (retain (other_key frame) frames) frame apart
              (retain-AllPairs _ (other_key frame) frames h))
