-- ===== src/Gateway/Monitor/Tests.antt =====
-- A round of the loop with two sensors, and what the dashboard then shows.
use Prim.Native.String.{String}
use comp2432_project.Prelude.{ℕ, ◌≡◌, refl, arith, inl, none, some, List, [], ◌∷◌, true, false}
use comp2432_project.Prelude.Samples.{whole}
use comp2432_project.Prelude.Sort.{All}
use comp2432_project.Prelude.Any.{Any}
use comp2432_project.Models.{AggregatedFrame}
use comp2432_project.Gateway.Buffer.{new_with_policy}
use comp2432_project.Gateway.Main.{default_internal_buffer}
use comp2432_project.Gateway.Manager.{RatesSnapshot, PerSensor}
use comp2432_project.Gateway.Monitor.{set_policy, monitor_tick}
use comp2432_project.Gateway.Monitor.Shown.{HasUniqueKeys, ShowsEntry, tick_is_shown}
use comp2432_project.Dashboard.Queries.{throughput_api}
use comp2432_project.Dashboard.Stores.{Stores, read_throughput, buffer_api}

abbrev known : PerSensor
known =
    ("thermo-1", record { current_len = 3; peak_len = 9 })
    ∷ ("force-1", record { current_len = 0; peak_len = 2 })
    ∷ []

abbrev at_start : Stores ℕ
at_start = record {
  buffer_store = record { poisoned = false; value = none };
  throughput_store = record { poisoned = false; value = none };
  policy = none;
}

-- The peak of the thermometer before a restart.
abbrev old_frames : List (AggregatedFrame ℕ)
old_frames =
    record {
      frame_id = 0;
      window_start = 0;
      window_end = 1_000;
      sensor_stats = [];
      anomalies = [];
      sensor_internal_buffer_max = ("thermo-1", 40) ∷ [];
    }
    ∷ []

abbrev print : ℕ → String
print n = "some"

abbrev sampled : RatesSnapshot
sampled = record { last_pushed = 0; last_popped = 0; last_ts = 0 }

known-HasUniqueKeys : HasUniqueKeys known
known-HasUniqueKeys =
    ((λ e. refl, (λ e. absurd (apart e), tt)), ((λ e. absurd (apart e), (λ e. refl, tt)), tt))
  where
    apart : false ≡ true → ⊥
    apart e = ground (arith, e)

tick_is_shown_example :
    (shown : Stores ℕ) × (next : RatesSnapshot) × (monitor_tick whole print
        (default_internal_buffer whole)
        5_000
        known
        (new_with_policy 8 false)
        sampled
        (set_policy (default_internal_buffer whole) at_start)
      ≡ some (shown, next))
    × All
        (λ entry.
          Any (ShowsEntry old_frames entry) (buffer_api whole print old_frames shown).sensors)
        known
    × ((throughput_api (read_throughput shown)).buffer_len ≡ 0)
tick_is_shown_example =
    tick_is_shown whole print (default_internal_buffer whole) 5_000 known (new_with_policy 8 false)
      sampled at_start old_frames known-HasUniqueKeys refl refl refl (inl refl)
