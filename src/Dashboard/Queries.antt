-- ===== src/Dashboard/Queries.antt =====
-- dashboard/src/lib.rs: what the JSON handlers compute of the frames that they have loaded.
pub mod Answers
use Prim.Native.String.{String}
use Prim.Native.Nat.{compare, Ordering}
use comp2432_project.Prelude.{
  ℕ, ◌+◌, ◌^◌, ◌-◌, Bool, true, false, ◌&&◌, Option, none, some, List, [], ◌∷◌, ◌++◌, map,
  if◌then◌else◌, ltb, leb, length,
}
use comp2432_project.Prelude.Texts.{same_text}
use comp2432_project.Prelude.Sort.{retain, sort_by}
use comp2432_project.Models.{AggregatedFrame, SensorStats, Anomaly, ThroughputTelemetrySnapshot}
use comp2432_project.Dashboard.Frames.{then_with, not_greater}
use comp2432_project.Dashboard.Telemetry.{insert_ids}

pub record SystemStats : Type 0 where
  pub total_frames : ℕ
  pub total_anomalies : ℕ
  pub latest_frame_id : Option ℕ
  pub latest_window_end : Option ℕ
  pub sensors_seen : List String

pub record SensorLiveView (F : Type 0) : Type 0 where
  pub sensor_id : String
  pub latest_frame_id : Option ℕ
  pub latest_window_end : Option ℕ
  pub stats : Option (SensorStats F)
  pub anomalies : List (Anomaly F)

abbrev pub or_else : Option ℕ → ℕ → ℕ
or_else none d = d
or_else (some n) d = n

module _ {F : Type 0} where
  unfoldable pub cmp_latest_desc : AggregatedFrame F → AggregatedFrame F → Ordering
  cmp_latest_desc a b =
      then_with (compare b.window_end a.window_end) (compare b.frame_id a.frame_id)

  abbrev pub latest_first : AggregatedFrame F → AggregatedFrame F → Bool
  latest_first a b = not_greater (cmp_latest_desc a b)

  abbrev pub in_range : ℕ → ℕ → AggregatedFrame F → Bool
  in_range from to frame = leb from frame.window_end && leb frame.window_end to

  -- The query parameters may be missing.
  pub range_api : Option ℕ → Option ℕ → List (AggregatedFrame F) → List (AggregatedFrame F)
  range_api from to frames =
      sort_by latest_first (retain (in_range (or_else from 0) (or_else to (2 ^ 64 - 1))) frames)

  pub total_anomalies_of : List (AggregatedFrame F) → ℕ
  total_anomalies_of [] = 0
  total_anomalies_of (frame ∷ frames) = length frame.anomalies + total_anomalies_of frames

  -- `max_by_key` keeps the last of the greatest.
  pub latest_from : AggregatedFrame F → List (AggregatedFrame F) → AggregatedFrame F
  latest_from best [] = best
  latest_from best (frame ∷ frames) =
      latest_from (if ltb frame.window_end best.window_end then best else frame) frames

  abbrev pub latest_of : List (AggregatedFrame F) → Option (AggregatedFrame F)
  latest_of [] = none
  latest_of (frame ∷ frames) = some (latest_from frame frames)

  pub sensors_seen_from : List (AggregatedFrame F) → List String → List String
  sensors_seen_from [] seen = seen
  sensors_seen_from (frame ∷ frames) seen =
      sensors_seen_from frames (insert_ids (map (λ entry. entry.0) frame.sensor_stats) seen)

  pub stats_api : List (AggregatedFrame F) → SystemStats
  unfolding total_anomalies_of latest_from sensors_seen_from
  stats_api frames =
      let latest = latest_of frames in
      record {
        total_frames = length frames;
        total_anomalies = total_anomalies_of frames;
        latest_frame_id = elim latest [ none ↦ none | some frame ↦ some frame.frame_id ];
        latest_window_end = elim latest [ none ↦ none | some frame ↦ some frame.window_end ];
        sensors_seen = sensors_seen_from frames [];
      }

  pub get_stats : String → List (String × SensorStats F) → Option (SensorStats F)
  get_stats id [] = none
  get_stats id ((k, stats) ∷ rest) =
      let later = get_stats id rest in if same_text k id then some stats else later

  -- One turn of the loop over the frames in `sensor_api`.
  abbrev pub select :
      Option (AggregatedFrame F)
      → AggregatedFrame F
      → Option (SensorStats F)
      → Option (AggregatedFrame F)
  select selected frame none = selected
  select none frame (some stats) = some frame
  select (some prev) frame (some stats) =
      if ltb prev.window_end frame.window_end then some frame else some prev

  pub select_from :
      String → Option (AggregatedFrame F) → List (AggregatedFrame F) → Option (AggregatedFrame F)
  unfolding get_stats
  select_from id selected [] = selected
  select_from id selected (frame ∷ frames) =
      select_from id (select selected frame (get_stats id frame.sensor_stats)) frames

  pub anomalies_of : String → List (AggregatedFrame F) → List (Anomaly F)
  anomalies_of id [] = []
  anomalies_of id (frame ∷ frames) =
      retain (λ a. same_text a.sensor_id id) frame.anomalies ++ anomalies_of id frames

  abbrev pub view_of :
      String → List (AggregatedFrame F) → Option (AggregatedFrame F) → SensorLiveView F
  view_of id frames (some frame) = record {
    sensor_id = id;
    latest_frame_id = some frame.frame_id;
    latest_window_end = some frame.window_end;
    stats = get_stats id frame.sensor_stats;
    anomalies = anomalies_of id frames;
  }
  view_of id frames none = record {
    sensor_id = id;
    latest_frame_id = none;
    latest_window_end = none;
    stats = none;
    anomalies = [];
  }

  pub sensor_api : String → List (AggregatedFrame F) → SensorLiveView F
  unfolding select_from anomalies_of get_stats
  sensor_api id frames = view_of id frames (select_from id none frames)

-- What `throughput_api` answers: `none` for a poisoned lock, `some none` before the first snapshot.
unfoldable pub throughput_api :
    Option (Option ThroughputTelemetrySnapshot) → ThroughputTelemetrySnapshot
throughput_api (some (some snapshot)) = snapshot
throughput_api _ = record {
  buffer_len = 0;
  buffer_capacity = 0;
  pushed_total = 0;
  popped_total = 0;
  pushed_per_sec = 0;
  popped_per_sec = 0;
  full_waits_total = 0;
}
