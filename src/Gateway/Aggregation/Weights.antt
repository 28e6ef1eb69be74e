-- ===== src/Gateway/Aggregation/Weights.antt =====
-- The readings of one sensor and one window are counted wherever they are, and no turn of a worker
-- changes their number.
use Prim.Native.String.{String}
use comp2432_project.Prelude.{
  ℕ, ◌+◌, ◌≡◌, refl, sym, ap, ◌∙◌, inl, inr, Bool, true, false, [], ◌∷◌, ◌++◌, length,
  length-append, if◌then◌else◌, ◌==◌, ltb, leb, arith, Bool-cases, ==_iff,
}
pub use comp2432_project.Prelude.Totals.{total, total-append, total-set}
use comp2432_project.Prelude.Texts.{same_text, same_text_sound}
use comp2432_project.Gateway.Readings.{SensorReading, sensor_id, timestamp_millis}
use comp2432_project.Gateway.Stats.{BySensor}
use comp2432_project.Gateway.Stats.Counts.{sensor_weight}
use comp2432_project.Gateway.Aggregation.{
  Pending, Claimed, add_u64, window_start_of, entry_push, bucket, file_reading, claim_ready,
}

-- `n`, or nothing.
abbrev pub counted : Bool → ℕ → ℕ
counted b n = if b then n else 0

counted_add : (b : Bool) (m n : ℕ) → counted b (m + n) ≡ counted b m + counted b n
counted_add true m n = omega arith
counted_add false m n = omega arith

abbrev pub in_window : ℕ → ℕ → ℕ → ℕ
in_window w ws n = counted (ws == w) n

abbrev pub of_sensor : String → String → ℕ → ℕ
of_sensor s id n = counted (same_text id s) n

module _ {F : Type 0} (s : String) where
  entry_push_weight :
      (id : String) (r : SensorReading F) (m : BySensor F)
      → sensor_weight s (entry_push id r m) ≡ sensor_weight s m + of_sensor s id 1
  unfolding entry_push
  entry_push_weight id r [] = omega arith
  entry_push_weight id r ((k, rs) ∷ rest) = elim (Bool-cases (same_text k id)) [
    | inl e ↦ rw e (grown (same_text_sound k id e))
    | inr e ↦ rw e (omega (arith, entry_push_weight id r rest))
  ]
    where
      grown :
          k ≡ id
          → counted (same_text k s) (length (rs ++ r ∷ [])) + sensor_weight s rest
            ≡ counted (same_text k s) (length rs) + sensor_weight s rest + of_sensor s id 1
      grown h =
          rw (sym h, length-append rs (r ∷ []))
            (omega (arith, counted_add (same_text k s) (length rs) 1))

module _ {F : Type 0} (s : String) (w : ℕ) where
  abbrev pub window_weight : ℕ × BySensor F → ℕ
  window_weight (ws, m) = in_window w ws (sensor_weight s m)

  abbrev pub claimed_weight : Claimed F → ℕ
  claimed_weight c = in_window w c.ws (sensor_weight s c.readings_by_sensor)

  new_entry_weight :
      (ws : ℕ) (id : String) (r : SensorReading F) (m : BySensor F)
      → in_window w ws (sensor_weight s (entry_push id r m))
        ≡ in_window w ws (sensor_weight s m) + in_window w ws (of_sensor s id 1)
  new_entry_weight ws id r m =
      ap (in_window w ws) (entry_push_weight s id r m)
      ∙ counted_add (ws == w) (sensor_weight s m) (of_sensor s id 1)

  fresh_window_weight :
      (ws : ℕ) (id : String) (r : SensorReading F)
      → in_window w ws (sensor_weight s ((id, r ∷ []) ∷ [])) ≡ in_window w ws (of_sensor s id 1)
  fresh_window_weight ws id r = ap (in_window w ws) (omega arith)

  bucket_weight :
      (ws : ℕ) (id : String) (r : SensorReading F) (p : Pending F)
      → total window_weight (bucket ws id r p)
        ≡ total window_weight p + in_window w ws (of_sensor s id 1)
  unfolding bucket
  bucket_weight ws id r [] = omega (arith, fresh_window_weight ws id r)
  bucket_weight ws id r ((v, m) ∷ rest) = elim (Bool-cases (v == ws)) [
    | inl e ↦ rw e (
        omega (
          arith,
          new_entry_weight v id r m,
          ap (λ x. in_window w x (of_sensor s id 1)) ((==_iff v ws).0 e),
        ))
    | inr e ↦ elim (Bool-cases (ltb ws v)) [
      | inl l ↦ rw (e, l) (omega (arith, fresh_window_weight ws id r))
      | inr l ↦ rw (e, l) (omega (arith, bucket_weight ws id r rest))
    ]
  ]

  -- A reading counts in the window of its time.
  abbrev pub reading_weight : ℕ → SensorReading F → ℕ
  reading_weight window_ms r =
      in_window w (window_start_of window_ms (timestamp_millis r)) (of_sensor s (sensor_id r) 1)

  pub file_reading_weight :
      (window_ms : ℕ) (r : SensorReading F) (p : Pending F)
      → total window_weight (file_reading window_ms r p)
        ≡ total window_weight p + reading_weight window_ms r
  unfolding file_reading
  file_reading_weight window_ms r p = bucket_weight _ (sensor_id r) r p

  pub claim_ready_weight :
      (window_ms grace_ms now_ms frame_id : ℕ) (p : Pending F)
      → total claimed_weight (claim_ready window_ms grace_ms now_ms frame_id p).0
          + total window_weight (claim_ready window_ms grace_ms now_ms frame_id p).1
        ≡ total window_weight p
  unfolding claim_ready
  claim_ready_weight window_ms grace_ms now_ms frame_id [] = refl
  claim_ready_weight window_ms grace_ms now_ms frame_id ((ws, m) ∷ rest) =
      elim (Bool-cases (leb (add_u64 (add_u64 ws window_ms) grace_ms) now_ms)) [
        | inl e ↦
            rw e (
              omega (arith, claim_ready_weight window_ms grace_ms now_ms (add_u64 frame_id 1) rest))
        | inr e ↦ rw e (omega arith)
      ]
