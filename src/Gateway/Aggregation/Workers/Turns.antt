-- ===== src/Gateway/Aggregation/Workers/Turns.antt =====
-- No turn of a worker loses or doubles a reading.
use Prim.Native.String.{String}
use comp2432_project.Prelude.{
  ℕ, zero, suc, ◌+◌, ◌≡◌, refl, ap, ◌∙◌, inl, inr, Bool, true, false, Option, none, some, List, [],
  ◌∷◌, get_elem?, if◌then◌else◌, arith, Option-cases,
}
use comp2432_project.Prelude.Floats.{FloatOps}
use comp2432_project.Gateway.Buffer.{SharedBuffer, PopPass, pop_pass, len}
use comp2432_project.Gateway.Buffer.Endings.{
  PopEnding, pop_after_poison, timed_out, on_empty, popped, pop_pass-Ending,
}
use comp2432_project.Gateway.Stats.{BySensor}
use comp2432_project.Gateway.Stats.Counts.{sensor_weight, frame_weight, frame_weight-make_frame}
use comp2432_project.Gateway.Aggregation.{add_u64}
use comp2432_project.Gateway.Aggregation.Weights.{
  total, total-append, total-set, in_window, window_weight, claimed_weight, reading_weight,
  file_reading_weight, claim_ready_weight,
}
use comp2432_project.Gateway.Aggregation.Workers.{
  Settings, Shared, WorkerPc, at_top, taking_windows, closing, exited, pulling, holding, claiming,
  writing, panicked, Engine, Turn, worker_turn, shutdown_called, after_len, after_pass,
  write_window, turn, step, run,
}

module _ {F : Type 0} (f : FloatOps F) (cfg : Settings F) (s : String) (w : ℕ) where
  -- The readings of the sensor `s` and the window from `w` that a worker holds.
  abbrev pub pc_weight : WorkerPc F → ℕ
  pc_weight at_top = 0
  pc_weight taking_windows = 0
  pc_weight (closing windows) = total (window_weight s w) windows
  pc_weight exited = 0
  pc_weight pulling = 0
  pc_weight (holding r) = reading_weight s w cfg.window_ms r
  pc_weight claiming = 0
  pc_weight (writing ready) = total (claimed_weight s w) ready
  pc_weight panicked = 0

  -- Those in the buffer, in the pending windows and in the frames written.
  abbrev pub shared_weight : Shared F → ℕ
  shared_weight e =
      total (reading_weight s w cfg.window_ms) e.buffer.queue
      + total (window_weight s w) e.pending
      + total (frame_weight s w) e.written

  abbrev pub engine_weight : Engine F → ℕ
  engine_weight e = shared_weight e.shared + total pc_weight e.workers

  write_weight :
      (fid ws : ℕ) (m : BySensor F) (e : Shared F)
      → total (frame_weight s w) (write_window f cfg fid ws m e.written)
        ≡ total (frame_weight s w) e.written + in_window w ws (sensor_weight s m)
  write_weight fid ws m e =
      total-append (frame_weight s w) e.written _
      ∙ ap (λ n. total (frame_weight s w) e.written + (n + 0))
          (frame_weight-make_frame f s w fid ws (add_u64 ws cfg.window_ms) m cfg.anomaly_threshold)
      ∙ omega arith

  pass_weight :
      (expired : Bool) (e : Shared F) (passed : SharedBuffer F × PopPass F)
      → PopEnding expired e.buffer passed
      → shared_weight (after_pass passed e).0 + pc_weight (after_pass passed e).1 ≡ shared_weight e
  pass_weight expired e passed (pop_after_poison p) = omega arith
  pass_weight expired e passed (timed_out p q x) = omega arith
  pass_weight expired e passed (on_empty p q x) = omega arith
  pass_weight expired e passed (popped r rest p q) =
      omega (arith, ap (total (reading_weight s w cfg.window_ms)) q)

  len_weight : (o : Option ℕ) → pc_weight (after_len o) ≡ 0
  len_weight none = refl
  len_weight (some zero) = refl
  len_weight (some (suc n)) = refl

  top_weight : (b : Bool) (o : Option ℕ) → pc_weight (if b then after_len o else pulling) ≡ 0
  top_weight true o = len_weight o
  top_weight false o = refl

  turn_weight :
      (now_ms : ℕ) (expired : Bool) (pc : WorkerPc F) (e : Shared F)
      → shared_weight (turn f cfg now_ms expired pc e).0
          + pc_weight (turn f cfg now_ms expired pc e).1
        ≡ shared_weight e + pc_weight pc
  unfolding turn
  turn_weight now_ms expired at_top e = omega (arith, top_weight e.shutdown (len e.buffer))
  turn_weight now_ms expired taking_windows e = omega arith
  turn_weight now_ms expired (closing []) e = omega arith
  turn_weight now_ms expired (closing ((ws, m) ∷ windows)) e =
      omega (arith, write_weight e.frame_id ws m e)
  turn_weight now_ms expired exited e = refl
  turn_weight now_ms expired pulling e =
      omega (
        arith,
        pass_weight expired e (pop_pass expired e.buffer) (pop_pass-Ending expired e.buffer),
      )
  turn_weight now_ms expired (holding r) e =
      omega (arith, file_reading_weight s w cfg.window_ms r e.pending)
  turn_weight now_ms expired claiming e =
      omega (arith, claim_ready_weight s w cfg.window_ms cfg.grace_ms now_ms e.frame_id e.pending)
  turn_weight now_ms expired (writing []) e = omega arith
  turn_weight now_ms expired (writing (c ∷ ready)) e =
      omega (arith, write_weight c.fid c.ws c.readings_by_sensor e)
  turn_weight now_ms expired panicked e = refl

  pub step_weight : (t : Turn) (e : Engine F) → engine_weight (step f cfg t e) ≡ engine_weight e
  unfolding step
  step_weight (worker_turn i now_ms expired) e = elim (Option-cases (get_elem? e.workers i)) [
    | inl h ↦ rw (step, h) refl
    | inr (pc, h) ↦
        rw (step, h)
          (omega (
            arith,
            turn_weight now_ms expired pc e.shared,
            total-set pc_weight e.workers i pc (turn f cfg now_ms expired pc e.shared).1 h,
          ))
  ]
  step_weight shutdown_called e = refl

  -- Whatever the order of the workers' turns and the times they read, the engine neither loses nor
  -- doubles a reading: for each sensor and window, the readings in the buffer, held by the workers,
  -- pending, and counted in the statistics of the frames written stay the same number.
  pub run_weight :
      (ts : List Turn) (e : Engine F) → engine_weight (run f cfg ts e) ≡ engine_weight e
  unfolding run
  run_weight [] e = refl
  run_weight (t ∷ ts) e = run_weight ts (step f cfg t e) ∙ step_weight t e
