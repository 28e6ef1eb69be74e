-- ===== src/Sensor/Tests.antt =====
-- A thermometer that is started twice, stopped and started again.
use comp2432_project.Prelude.{
  ℕ, sym, ap, ◌∙◌, ◌≡◌, true, Option, some, List, [], ◌∷◌, replicate, length, length-replicate,
}
use comp2432_project.RoundQueue.{Allocator}
use comp2432_project.Sensor.{Event, started, generated, stop_called, joined, read_called}

abbrev zeros : ℕ → Option (List ℕ)
zeros n = some (replicate n 0)

zeros-length : (n : ℕ) (slots : List ℕ) → zeros n ≡ some slots → length slots ≡ n
zeros-length n slots e =
    let same : replicate n 0 ≡ slots = cc in sym (ap length same) ∙ length-replicate n 0

abbrev heap : Allocator ℕ
heap = record { layout_fits = λ n. true; alloc = zeros; alloc_length = zeros-length }

abbrev events : List (Event ℕ)
events =
    started
    ∷ started
    ∷ generated 20
    ∷ generated 21
    ∷ read_called
    ∷ stop_called
    ∷ joined
    ∷ generated 22
    ∷ joined
    ∷ started
    ∷ read_called
    ∷ []
