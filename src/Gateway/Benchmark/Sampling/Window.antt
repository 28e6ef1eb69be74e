-- ===== src/Gateway/Benchmark/Sampling/Window.antt =====
-- The windows that the sampling loop asks `/api/range` for, against the rows that it has written.
use comp2432_project.Prelude.{ℕ, ◌≤◌, ◌<◌, ◌≡◌, true, Option, none, some}
use comp2432_project.Prelude.Sort.{All}
use comp2432_project.Gateway.Benchmark.Sampling.{SampleRow, Sampler, in_measure}

abbrev pub IsBetween : Option ℕ → Option ℕ → ℕ → Type 0
IsBetween (some from) (some to) end = (from ≤ end) × (end ≤ to)
IsBetween _ _ end = ⊥

module _ {F : Type 0} where
  -- The row is of the measuring phase and names a window.
  abbrev pub IsMeasured : SampleRow F → Type 0
  IsMeasured row = (in_measure row ≡ true) × (0 < row.latest_window_end)

  -- The windows of the measured rows are in the range that is asked for.
  abbrev pub IsCovered : Sampler F → Type 0
  IsCovered s =
      All
        (λ row.
          IsMeasured row
          → IsBetween s.measure_window_end_min s.measure_window_end_max row.latest_window_end)
        s.samples

-- A property of the state that the loop goes on with, if it does.
abbrev Holds {ℓ κ} : {A : Type ℓ} → (A → Type κ) → Option A → Type κ
Holds P none = Unit
Holds P (some x) = P x
