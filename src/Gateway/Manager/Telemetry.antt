-- ===== src/Gateway/Manager/Telemetry.antt =====
-- The telemetry reports every sensor once, and its flags and warnings agree with its entries.
use Prim.Native.String.{String}
use mathlib.Core.List.{Perm}
use native.Mathlib.Nat.{div-mul-le_self, lt-div-mul-add}
use comp2432_project.Prelude.{
  ℕ, ◌+◌, ◌-◌, ◌*◌, ◌%◌, ◌^◌, ◌<◌, ◌≤◌, max, ◌≡◌, refl, ap, ◌⊎◌, inl, inr, Bool, true, false, ◌&&◌,
  ◌||◌, not, List, [], ◌∷◌, ◌++◌, map, if◌then◌else◌, ltb, leb, length, arith, Bool-cases,
}
use comp2432_project.Prelude.Floats.{FloatOps}
use comp2432_project.Prelude.Sort.{All, sort_by-perm}
use comp2432_project.Models.{SensorBufferStatus, BufferTelemetrySnapshot}
use comp2432_project.Gateway.Manager.{
  PerSensor, SensorQueueSnapshot, per_sec, status_of, all_warnings, some_full, some_near_full,
  id_not_greater, sensor_internal_buffers_snapshot,
}

module _ {F : Type 0} (f : FloatOps F) (print : ℕ → String) (capacity : ℕ)
    (near_full_ratio : F) where
  -- One status in the list has the property, or none has.
  abbrev pub Flagged : (SensorBufferStatus F → Bool) → List (SensorBufferStatus F) → Bool → Type 0
  Flagged test ss flag =
      (flag ≡ false × All (λ s. test s ≡ false) ss)
      ⊎ (flag ≡ true
          × (front : List (SensorBufferStatus F)) × (s : SensorBufferStatus F) × (back : List
              (SensorBufferStatus F))
          × ss ≡ front ++ s ∷ back
          × test s ≡ true)

  abbrev pub alarming : SensorBufferStatus F → Bool
  alarming s = s.full || s.near_full

  abbrev pub alarms : List (SensorBufferStatus F) → ℕ
  alarms [] = 0
  alarms (s ∷ ss) = (if alarming s then 1 else 0) + alarms ss

  pub record Reports (per_sensor : PerSensor) (snapshot : BufferTelemetrySnapshot F) : Type 0 where
    pub every_sensor :
        Perm snapshot.sensors (map (status_of f print capacity near_full_ratio) per_sensor)
    pub fulls :
        Flagged
          (λ s. s.full)
          (map (status_of f print capacity near_full_ratio) per_sensor)
          snapshot.any_full
    pub near_fulls :
        Flagged
          (λ s. s.near_full)
          (map (status_of f print capacity near_full_ratio) per_sensor)
          snapshot.any_near_full
    pub one_warning_each :
        length snapshot.warnings
        ≡ alarms (map (status_of f print capacity near_full_ratio) per_sensor)

  Flagged-cons :
      (test : SensorBufferStatus F → Bool) (s : SensorBufferStatus F)
      (ss : List (SensorBufferStatus F)) (flag : Bool)
      → Flagged test ss flag
      → Flagged test (s ∷ ss) (test s || flag)
  Flagged-cons test s ss flag h = elim (Bool-cases (test s)) [
    | inl e ↦ rw e (inr (refl, [], s, ss, refl, e))
    | inr e ↦ rw e (elim h [
      | inl (k, none_is) ↦ inl (k, (refl, none_is))
      | inr (k, front, x, back, split, is) ↦
          inr (k, s ∷ front, x, back, ap (λ xs. s ∷ xs) split, is)
    ])
  ]

  some_full-Flagged :
      (ss : List (SensorBufferStatus F))
      → Flagged (λ s. s.full) ss (some_full f print capacity near_full_ratio ss)
  unfolding some_full
  some_full-Flagged [] = inl (refl, tt)
  some_full-Flagged (s ∷ ss) = Flagged-cons (λ x. x.full) s ss _ (some_full-Flagged ss)

  abbrev statuses : PerSensor → List (SensorBufferStatus F)
  statuses per_sensor = map (status_of f print capacity near_full_ratio) per_sensor

  -- A full buffer is not near full as well.
  near_full_alone :
      (entry : String × SensorQueueSnapshot)
      → (not (status_of f print capacity near_full_ratio entry).full
          && (status_of f print capacity near_full_ratio entry).near_full)
        ≡ (status_of f print capacity near_full_ratio entry).near_full
  near_full_alone (id, sample) = not_twice (leb capacity sample.current_len && ltb 0 capacity) _
    where
      not_twice : (a b : Bool) → (not a && (not a && b)) ≡ (not a && b)
      not_twice true b = refl
      not_twice false b = refl

  some_near_full-Flagged :
      (per_sensor : PerSensor)
      → Flagged
          (λ s. s.near_full)
          (statuses per_sensor)
          (some_near_full f print capacity near_full_ratio (statuses per_sensor))
  unfolding some_near_full
  some_near_full-Flagged [] = inl (refl, tt)
  some_near_full-Flagged (entry ∷ rest) = rw (near_full_alone entry) (
      Flagged-cons (λ s. s.near_full) (status_of f print capacity near_full_ratio entry)
        (statuses rest) _ (some_near_full-Flagged rest))

  length-all_warnings :
      (ss : List (SensorBufferStatus F))
      → length (all_warnings f print capacity near_full_ratio ss) ≡ alarms ss
  unfolding all_warnings
  length-all_warnings [] = refl
  length-all_warnings (s ∷ ss) = counted _ _ _ s.full s.near_full (length-all_warnings ss)
    where
      counted :
          {A : Type 0} (x y : A) (rest : List A) {n : ℕ} (a b : Bool)
          → length rest ≡ n
          → length (if a then x ∷ rest else if b then y ∷ rest else rest)
            ≡ (if a || b then 1 else 0) + n
      counted x y rest true b e = omega (arith, e)
      counted x y rest false true e = omega (arith, e)
      counted x y rest false false e = omega (arith, e)

  -- The snapshot reports every sensor once; its flag for full buffers is set just when one of them is
  -- full, its flag for nearly full ones just when one of them is nearly full, and there is one warning
  -- for each that is either.
  pub snapshot-Reports :
      (per_sensor : PerSensor)
      → Reports per_sensor
          (sensor_internal_buffers_snapshot f print capacity near_full_ratio per_sensor)
  unfolding sensor_internal_buffers_snapshot
  snapshot-Reports per_sensor = record {
    every_sensor = sort_by-perm id_not_greater (statuses per_sensor);
    fulls = some_full-Flagged (statuses per_sensor);
    near_fulls = some_near_full-Flagged per_sensor;
    one_warning_each = length-all_warnings (statuses per_sensor);
  }

-- The rate per second is the growth of the total over the time, rounded down, as long as a thousand
-- times the growth fits into 64 bits and the last sample is a second old or more.
pub per_sec_rounds_down :
    (dt_ms total last : ℕ)
    → 1_000 ≤ dt_ms
    → (total - last) * 1_000 < 2 ^ 64
    → per_sec dt_ms total last * dt_ms ≤ (total - last) * 1_000
      × (total - last) * 1_000 < per_sec dt_ms total last * dt_ms + dt_ms
unfolding per_sec
per_sec_rounds_down dt_ms total last old fits =
    rw (fresh, whole, longer)
      (
        div-mul-le_self ((total - last) * 1_000) dt_ms,
        lt-div-mul-add {a = (total - last) * 1_000} (omega (arith, old)),
      )
  where
    fresh : leb 1_000 dt_ms ≡ true
    fresh = ground (arith, old)

    whole : (total - last) * 1_000 % 2 ^ 64 ≡ (total - last) * 1_000
    whole = omega (arith, fits)

    longer : max dt_ms 1 ≡ dt_ms
    longer = omega (arith, old)
