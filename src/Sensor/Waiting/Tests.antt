-- ===== src/Sensor/Waiting/Tests.antt =====
-- A waiter that misses the first reading of its sensor.
use comp2432_project.Prelude.{
  List, ◌++◌, ℕ, ◌<◌, ◌≡◌, refl, true, false, none, [], ◌∷◌, replicate, done, arith,
}
use comp2432_project.RoundQueue.{over_slots}
use comp2432_project.RoundQueue.New.{over_slots-Fresh}
use comp2432_project.Sensor.{Sensor, available}
use comp2432_project.Sensor.Waiting.{
  writing, dozing, answered, Waiting, notifier_turn, waiter_turn, timeout, run, Event,
}
use comp2432_project.Sensor.Waiting.Late.{late_waiter_sleeps, Waits}

abbrev sensor : Sensor ℕ
sensor = record {
  id = "thermo-1";
  rate_per_sec = 50;
  queue = over_slots 4 (replicate 4 0);
  writer = false;
  running = true;
  handle = none;
  notify_seq = 0;
}

abbrev dozing_waiter : Waiting ℕ
dozing_waiter = record { sensor = sensor; notifier = writing; waiter = dozing 0 }

-- The waiter falls asleep, and the generator writes and counts a second reading.
abbrev schedule : List (Event ℕ)
schedule =
    waiter_turn ∷ waiter_turn ∷ notifier_turn 22 ∷ waiter_turn ∷ notifier_turn 22 ∷ waiter_turn ∷ []

late_waiter_sleeps_example :
    (later : Waiting ℕ) × (run
        (notifier_turn 21 ∷ notifier_turn 21 ∷ notifier_turn 21 ∷ schedule)
        dozing_waiter
      ≡ done later)
    × Waits 0 later.waiter
    × (0 < available later.sensor)
    × (run (waiter_turn ∷ timeout ∷ waiter_turn ∷ []) later
        ≡ done (record later { waiter = answered true }))
    × (woken : Waiting ℕ) × (run
          (waiter_turn ∷ replicate 1 (notifier_turn 21) ++ waiter_turn ∷ waiter_turn ∷ [])
          later
        ≡ done woken)
    × (woken.waiter ≡ answered true)
late_waiter_sleeps_example =
    late_waiter_sleeps dozing_waiter 0 21 schedule (over_slots-Fresh 0 4 2 refl (omega arith)).valid
      (omega arith) refl refl tt (omega arith)
