-- ===== src/Gateway/Stats/Counts.antt =====
-- The statistics count the readings.
use Prim.Native.String.{String}
use comp2432_project.Prelude.{
  ℕ, ◌+◌, ◌≡◌, refl, ap, ap₂, ◌∙◌, List, [], ◌∷◌, map, if◌then◌else◌, ◌==◌, length, arith,
}
use comp2432_project.Prelude.Texts.{same_text}
use comp2432_project.Prelude.Floats.{FloatOps}
use comp2432_project.Models.{SensorStats, AggregatedFrame}
use comp2432_project.Gateway.Readings.{SensorReading}
use comp2432_project.Gateway.Stats.{BySensor, Sums, count_in, sum_up, compute_stats, make_frame}

module _ {F : Type 0} (f : FloatOps F) where
  sum_up-count :
      (s : Sums F) (rs : List (SensorReading F)) → (sum_up f s rs).count ≡ s.count + length rs
  unfolding sum_up
  sum_up-count s [] = omega arith
  sum_up-count s (r ∷ rs) = omega (arith, sum_up-count (count_in f s r) rs)

  pub compute_stats-count : (rs : List (SensorReading F)) → (compute_stats f rs).count ≡ length rs
  unfolding compute_stats
  compute_stats-count rs = sum_up-count _ rs ∙ omega arith

module _ {F : Type 0} (s : String) where
  -- How many readings of the sensor `s` there are.
  abbrev pub sensor_weight : BySensor F → ℕ
  sensor_weight [] = 0
  sensor_weight ((k, rs) ∷ rest) = (if same_text k s then length rs else 0) + sensor_weight rest

  abbrev pub stats_weight : List (String × SensorStats F) → ℕ
  stats_weight [] = 0
  stats_weight ((k, stats) ∷ rest) = (if same_text k s then stats.count else 0) + stats_weight rest

  -- How many readings of the sensor `s` the frame counts, if it is one for the window from `w`.
  abbrev pub frame_weight : ℕ → AggregatedFrame F → ℕ
  frame_weight w fr = if fr.window_start == w then stats_weight fr.sensor_stats else 0

module _ {F : Type 0} (f : FloatOps F) (s : String) where
  stats_weight-map :
      (m : BySensor F)
      → stats_weight s (map (λ entry. (entry.0, compute_stats f entry.1)) m) ≡ sensor_weight s m
  stats_weight-map [] = refl
  stats_weight-map ((k, rs) ∷ rest) =
      ap₂ (λ n r. (if same_text k s then n else 0) + r) (compute_stats-count f rs)
        (stats_weight-map rest)

  pub frame_weight-make_frame :
      (w fid ws we : ℕ) (m : BySensor F) (threshold : F)
      → frame_weight s w (make_frame f fid ws we m threshold)
        ≡ (if ws == w then sensor_weight s m else 0)
  unfolding make_frame
  frame_weight-make_frame w fid ws we m threshold =
      ap (λ n. if ws == w then n else 0) (stats_weight-map m)
