-- ===== src/Dashboard/Tests.antt =====
-- Runs of the cache on small lists of frames, and the theorems at them.
use comp2432_project.Prelude.{
  done, Option, some, false, ℕ, ◌≡◌, refl, false, List, [], ◌∷◌, ◌++◌, arith,
}
use mathlib.Core.List.{Perm}
use comp2432_project.Models.{AggregatedFrame, SensorStats}
use comp2432_project.Dashboard.Newest.{newest_frames_bounded}
use comp2432_project.Dashboard.Newest.Bounded.{Newest, newest_frames_bounded-Newest}
use comp2432_project.Dashboard.Latest.{decide_latest}
use comp2432_project.Dashboard.Latest.Newer.{Matches, latest_is_newest}
use comp2432_project.Dashboard.Queries.{range_api, sensor_api}
use comp2432_project.Dashboard.Queries.Answers.{
  EndsWithin, EndsOutside, NotOlder, Selected, range_api_lists, sensor_api_latest,
}
use comp2432_project.Dashboard.Queries.Answers as Answers
use comp2432_project.Prelude.Sort.{All, AllPairs}
use comp2432_project.Prelude.Sort.{sort_by, insert_by, retain}
use comp2432_project.Dashboard.Frames.{cmp_oldest_first, merge_frame_into_vec}
use comp2432_project.Dashboard.Frames.Merge.{
  Keeps, merge-Keeps, HasDistinctKeys, merge-HasDistinctKeys,
}
use comp2432_project.Dashboard.Cache.{
  decide, default, World, Event, push, request, load_done, run, merge_pushes,
}
use comp2432_project.Dashboard.Cache.Loads.{
  IsConsistent, run-IsConsistent, pushed, refreshed, load_keeps_pushes, paced_never_loads,
}

abbrev frame : ℕ → ℕ → AggregatedFrame ℕ
frame end id = record {
  frame_id = id;
  window_start = 0;
  window_end = end;
  sensor_stats = [];
  anomalies = [];
  sensor_internal_buffer_max = [];
}

abbrev cached : List (AggregatedFrame ℕ)
cached = frame 1_000 0 ∷ frame 2_000 1 ∷ frame 3_000 2 ∷ []

late_frame_goes_before :
    merge_frame_into_vec cached (frame 1_000 3)
    ≡ frame 1_000 0 ∷ frame 1_000 3 ∷ frame 2_000 1 ∷ frame 3_000 2 ∷ []
unfolding merge_frame_into_vec sort_by insert_by retain cmp_oldest_first
late_frame_goes_before = refl

merge-Keeps_example : Keeps cached (frame 2_000 1) (merge_frame_into_vec cached (frame 2_000 1))
merge-Keeps_example = merge-Keeps cached (frame 2_000 1)

merge-HasDistinctKeys_example : HasDistinctKeys (merge_frame_into_vec cached (frame 2_000 1))
merge-HasDistinctKeys_example =
    merge-HasDistinctKeys cached (frame 2_000 1) ((refl, (refl, tt)), ((refl, tt), (tt, tt)))

-- The gateway has just started; the data directory holds `cached`.
abbrev cold : World ℕ
cold = record { cache = record { poisoned = false; value = default }; loads = 0 }

cold-IsConsistent : IsConsistent cold
cold-IsConsistent = record { sound = refl; one_load = refl; none_waits = λ h. refl }

-- Two pushes fall into a load, and a second request.
abbrev during : List (Event ℕ)
during = push 6_010 (frame 4_000 3) ∷ request 6_020 ∷ push 6_030 (frame 5_000 4) ∷ []

run-IsConsistent_example :
    IsConsistent (run (request 6_000 ∷ during ++ load_done 6_040 cached ∷ []) cold)
run-IsConsistent_example =
    run-IsConsistent (request 6_000 ∷ during ++ load_done 6_040 cached ∷ []) cold cold-IsConsistent

load_keeps_pushes_example :
    (run (request 6_000 ∷ during ++ load_done 6_040 cached ∷ []) cold).cache
    ≡ refreshed 6_040 (merge_pushes cached (frame 4_000 3 ∷ frame 5_000 4 ∷ []))
load_keeps_pushes_example =
    load_keeps_pushes cold during 6_000 6_040 cached cold-IsConsistent refl refl tt

-- The first push makes the empty cache fresh, and the frames on disk stay unread.
abbrev paced : List (Event ℕ)
paced =
    push 9_000 (frame 4_000 3) ∷ request 13_000 ∷ push 14_000 (frame 5_000 4) ∷ request 19_000 ∷ []

paced_never_loads_example :
    (run paced cold).cache.value.frames ≡ merge_pushes [] (pushed paced)
    × (run paced cold).loads ≡ 0
paced_never_loads_example =
    paced_never_loads paced cold cold-IsConsistent refl (omega arith, (omega arith, tt))

-- The range holds the ends of two frames, as its bounds.
range_api_lists_example :
    (rest : List (AggregatedFrame ℕ)) × Perm
      (range_api (some 1_000) (some 2_000) cached ++ rest)
      cached
    × All (EndsWithin 1_000 2_000) (range_api (some 1_000) (some 2_000) cached)
    × All (EndsOutside 1_000 2_000) rest
    × AllPairs NotOlder (range_api (some 1_000) (some 2_000) cached)
range_api_lists_example = range_api_lists (some 1_000) (some 2_000) cached

abbrev stats : SensorStats ℕ
stats = record { count = 1; min = 2; max = 2; sum = 2; sum_sq = 4; avg = 2; stddev = 0 }

abbrev measured : List (AggregatedFrame ℕ)
measured =
    record (frame 1_000 0) {
      sensor_stats = ("thermo-1", stats) ∷ [];
      sensor_internal_buffer_max = ("thermo-1", 127) ∷ [];
    }
    ∷ record (frame 2_000 1) { sensor_stats = ("thermo-1", stats) ∷ [] }
    ∷ frame 3_000 2
    ∷ []

sensor_api_latest_example :
    (sel : Option (AggregatedFrame ℕ)) × Selected "thermo-1" measured sel
    × Answers.Shows (sensor_api "thermo-1" measured) sel
sensor_api_latest_example = sensor_api_latest "thermo-1" measured

-- Eleven frames, one too many, not in order.
abbrev eleven : List (AggregatedFrame ℕ)
eleven =
    frame 9_000 8
    ∷ frame 1_000 0
    ∷ frame 3_000 2
    ∷ frame 2_000 1
    ∷ frame 4_000 3
    ∷ frame 5_000 4
    ∷ frame 6_000 5
    ∷ frame 7_000 6
    ∷ frame 8_000 7
    ∷ frame 10_000 9
    ∷ frame 11_000 10
    ∷ []

newest_frames_bounded-Newest_example :
    (result : List (AggregatedFrame ℕ)) × (newest_frames_bounded eleven ≡ done result)
    × Newest eleven result
newest_frames_bounded-Newest_example = newest_frames_bounded-Newest eleven

latest_is_newest_example :
    ((decide_latest 9_000 cold.cache).0 ≡ (decide 9_000 cold.cache).0)
    × Matches eleven (decide 9_000 cold.cache).1 (decide_latest 9_000 cold.cache).1
latest_is_newest_example = latest_is_newest 9_000 cold.cache eleven
