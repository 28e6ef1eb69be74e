-- ===== src/Dashboard/Queries/Answers.antt =====
-- The answers to the queries, against descriptions of their own.
use Prim.Native.String.{String}
use mathlib.Core.Path.{subst}
use mathlib.Core.List.{Perm, perm-append_right_iff}
use mathlib.Core.List.Perm
use comp2432_project.Prelude.{
  ℕ, ◌≤◌, ◌<◌, ◌^◌, ◌-◌, not, ◌≡◌, refl, ap, ◌∙◌, ◌⊎◌, inl, inr, true, Option, none, some, List, [],
  ◌∷◌, ◌++◌, append_assoc, append-nil, ltb, arith, Bool-cases,
}
use comp2432_project.Prelude.Sort.{
  retain, retain-All, retain-perm, AllPairs, IsSorted-AllPairs, All, All-append, All-map, All-unit,
  sort_by-perm, sort_by-All, sort_by-IsSorted, IsPreorder,
}
use comp2432_project.Models.{AggregatedFrame, SensorStats}
use comp2432_project.Dashboard.Queries.{
  cmp_latest_desc, latest_first, in_range, or_else, range_api, get_stats, select, select_from,
  sensor_api, view_of, SensorLiveView,
}

module _ {F : Type 0} where
  pub latest_first-IsPreorder : IsPreorder (latest_first {F = F})
  unfolding cmp_latest_desc
  latest_first-IsPreorder = record {
    total = λ a b h. ground arith;
    trans = λ a b c h k. ground arith;
  }

  -- `a` may stand before `b`: its window ends later, or at the same time and its number is no smaller.
  abbrev pub NotOlder : AggregatedFrame F → AggregatedFrame F → Type 0
  NotOlder a b =
      (b.window_end < a.window_end) ⊎ ((b.window_end ≡ a.window_end) × (b.frame_id ≤ a.frame_id))

  latest_first-NotOlder : (a b : AggregatedFrame F) → latest_first a b ≡ true → NotOlder a b
  unfolding cmp_latest_desc
  latest_first-NotOlder a b h = ground arith

  abbrev pub EndsWithin : ℕ → ℕ → AggregatedFrame F → Type 0
  EndsWithin low high frame = (low ≤ frame.window_end) × (frame.window_end ≤ high)

  abbrev pub EndsOutside : ℕ → ℕ → AggregatedFrame F → Type 0
  EndsOutside low high frame = (frame.window_end < low) ⊎ (high < frame.window_end)

  in_range-EndsWithin :
      (low high : ℕ) (frame : AggregatedFrame F)
      → in_range low high frame ≡ true
      → EndsWithin low high frame
  in_range-EndsWithin low high frame h = (ground arith, ground arith)

  in_range-EndsOutside :
      (low high : ℕ) (frame : AggregatedFrame F)
      → not (in_range low high frame) ≡ true
      → EndsOutside low high frame
  in_range-EndsOutside low high frame h = ground arith

  -- A range query splits the stored frames in two: its answer, whose windows all end in the range,
  -- both bounds included, and the rest, whose windows all end before or behind it. In the answer no
  -- frame stands before one with a later window, or before one with the same end and a greater number.
  -- A missing bound is 0 or the greatest 64-bit number.
  pub range_api_lists :
      (from to : Option ℕ) (frames : List (AggregatedFrame F))
      → (rest : List (AggregatedFrame F)) × Perm (range_api from to frames ++ rest) frames
        × All (EndsWithin (or_else from 0) (or_else to (2 ^ 64 - 1))) (range_api from to frames)
        × All (EndsOutside (or_else from 0) (or_else to (2 ^ 64 - 1))) rest
        × AllPairs NotOlder (range_api from to frames)
  unfolding range_api
  range_api_lists from to frames =
      let low = or_else from 0 in
      let high = or_else to (2 ^ 64 - 1) in
      let outside = λ (frame : AggregatedFrame F). not (in_range low high frame) in
      (
        retain outside frames,
        Perm.trans ((perm-append_right_iff (retain outside frames)).1 (sort_by-perm latest_first _))
            (retain-perm (in_range low high) frames),
        sort_by-All latest_first _ _ (
            All-map (λ frame h. in_range-EndsWithin low high frame h.1) _
              (retain-All (λ _. Unit {0}) _ frames (All-unit frames))),
        All-map (λ frame h. in_range-EndsOutside low high frame h.1) _
            (retain-All (λ _. Unit {0}) outside frames (All-unit frames)),
        IsSorted-AllPairs latest_first NotOlder latest_first-NotOlder _
            (sort_by-IsSorted latest_first latest_first-IsPreorder _),
      )

  -- The frame that a query for a sensor takes of those in `before`: one that has the sensor, and
  -- none that has it is later; or none has it.
  abbrev pub Selected : String → List (AggregatedFrame F) → Option (AggregatedFrame F) → Type 0
  Selected id before none = All (λ g. get_stats id g.sensor_stats ≡ none) before
  Selected id before (some frame) =
      ((front : List (AggregatedFrame F)) × (back : List (AggregatedFrame F)) × before
          ≡ front ++ frame ∷ back)
      × ((stats : SensorStats F) × get_stats id frame.sensor_stats ≡ some stats)
      × All (λ g. (get_stats id g.sensor_stats ≡ none) ⊎ (g.window_end ≤ frame.window_end)) before

  select-Selected :
      (id : String) (before : List (AggregatedFrame F)) (sel : Option (AggregatedFrame F))
      (frame : AggregatedFrame F) (found : Option (SensorStats F))
      → get_stats id frame.sensor_stats ≡ found
      → Selected id before sel
      → Selected id (before ++ frame ∷ []) (select sel frame found)
  select-Selected id before none frame none e h = All-append _ before (frame ∷ []) h (e, tt)
  select-Selected id before (some prev) frame none e ((front, back, split), has, older) = (
    (
      front,
      back ++ frame ∷ [],
      ap (λ xs. xs ++ frame ∷ []) split ∙ append_assoc front (prev ∷ back) _,
    ),
    has,
    All-append _ before (frame ∷ []) older (inl e, tt),
  )
  select-Selected id before none frame (some stats) e h = (
    (before, [], refl),
    (stats, e),
    All-append _ before (frame ∷ []) (All-map (λ g k. inl k) before h) (inr (omega arith), tt),
  )
  select-Selected id before (some prev) frame (some stats) e ((front, back, split), has, older) =
      elim (Bool-cases (ltb prev.window_end frame.window_end)) [
        | inl later ↦ rw later (
          (before, [], refl),
          (stats, e),
          All-append _ before (frame ∷ [])
              (All-map (λ g o. elim o [ inl k ↦ inl k | inr k ↦ inr (ground (arith, k, later)) ])
                before older)
              (inr (omega arith), tt),
        )
        | inr not_later ↦ rw not_later (
          (
            front,
            back ++ frame ∷ [],
            ap (λ xs. xs ++ frame ∷ []) split ∙ append_assoc front (prev ∷ back) _,
          ),
          has,
          All-append _ before (frame ∷ []) older (inr (ground (arith, not_later)), tt),
        )
      ]

  select_from-Selected :
      (id : String) (before frames : List (AggregatedFrame F)) (sel : Option (AggregatedFrame F))
      → Selected id before sel
      → Selected id (before ++ frames) (select_from id sel frames)
  unfolding select_from
  select_from-Selected id before [] sel h = rw (append-nil before) h
  select_from-Selected id before (frame ∷ frames) sel h =
      subst
        (λ fs.
          Selected id fs
            (select_from id (select sel frame (get_stats id frame.sensor_stats)) frames))
        (append_assoc before (frame ∷ []) frames)
        (select_from-Selected id (before ++ frame ∷ []) frames _
          (select-Selected id before sel frame (get_stats id frame.sensor_stats) refl h))

  -- An answer that shows the frame, or that no frame has the sensor.
  abbrev pub Shows : SensorLiveView F → Option (AggregatedFrame F) → Type 0
  Shows view none =
      (view.latest_frame_id ≡ none)
      × (view.latest_window_end ≡ none)
      × (view.stats ≡ none)
      × (view.anomalies ≡ [])
  Shows view (some frame) =
      (view.latest_frame_id ≡ some frame.frame_id)
      × (view.latest_window_end ≡ some frame.window_end)
      × (view.stats ≡ get_stats view.sensor_id frame.sensor_stats)

  -- A query for a sensor answers with a frame that has statistics for it such that no frame that has
  -- them has a later window; if no frame has them, the answer is empty.
  pub sensor_api_latest :
      (id : String) (frames : List (AggregatedFrame F))
      → (sel : Option (AggregatedFrame F)) × Selected id frames sel
        × Shows (sensor_api id frames) sel
  unfolding sensor_api
  sensor_api_latest id frames = (
    select_from id none frames,
    select_from-Selected id [] frames none tt,
    shown (select_from id none frames),
  )
    where
      shown : (sel : Option (AggregatedFrame F)) → Shows (view_of id frames sel) sel
      shown none = (refl, refl, refl, refl)
      shown (some frame) = (refl, refl, refl)
