-- ===== src/Gateway/Pipeline/Shutdown.antt =====
-- The pipeline as a whole, from the rings to the frames written, and what `main` leaves behind.
use Prim.Native.String.{String}
use comp2432_project.Prelude.{
  ℕ, ◌+◌, ◌≡◌, refl, sym, ap, ◌∙◌, List, [], ◌∷◌, arith, done, panic, fault,
}
use mathlib.Core.Path.{subst}
use comp2432_project.Prelude.Sort.{All}
use comp2432_project.Prelude.Floats.{FloatOps}
use comp2432_project.Gateway.Stats.Counts.{frame_weight}
use comp2432_project.Gateway.Aggregation.Weights.{total}
use comp2432_project.Gateway.Aggregation.Workers as Workers
use comp2432_project.Gateway.Aggregation.Workers.{Settings}
use comp2432_project.Gateway.Aggregation.Workers.Drained.{exited_engine_drained}
use comp2432_project.Gateway.Pipeline.Threads.{held}
use comp2432_project.Gateway.Pipeline.{ReaderThread, Pipeline, Event, finished, run}
use comp2432_project.Gateway.Pipeline.Phases.{
  HasEnded, Phase, IsSteady, readings_weight, thread_weight, pipeline_weight, Kept,
}
use comp2432_project.Gateway.Pipeline.Keeping.Main.{step-Kept}

module _ {F : Type 0} (f : FloatOps F) (cfg : Settings F) (s : String) (w : ℕ) where
  -- From a steady pipeline, where no thread has panicked, the rings and the lock are sound, a full
  -- buffer blocks, and a worker is there for what is left to do, whatever the order in which the
  -- generators, the reader threads, the workers and `main` take their turns, nothing panics, and
  -- the pipeline stays steady. For each sensor and window, the readings that the reader threads
  -- have taken out of the rings are all held by a reader, in the buffer, held by a worker,
  -- pending, or counted in a frame written, each once.
  pub run-Kept :
      (es : List (Event F)) (p : Pipeline F) → IsSteady p → Kept f cfg s w p (run f cfg es p)
  unfolding run
  run-Kept [] p st = record { after = p; result = refl; steady = st; same = refl }
  run-Kept (e ∷ es) p st =
      let first = step-Kept f cfg s w e p st in
      let rest = run-Kept es first.after first.steady in
      record {
        after = rest.after;
        result = rw (first.result, rest.result) refl;
        steady = rest.steady;
        same = omega (arith, first.same, rest.same);
      }

  ended_hold_nothing :
      (readers : List (ReaderThread F))
      → All HasEnded readers
      → total (thread_weight f cfg s w) readers ≡ 0
  ended_hold_nothing [] h = refl
  ended_hold_nothing (thread ∷ readers) h =
      omega
        (arith, ap (λ pc. readings_weight f cfg s w (held pc)) h.0, ended_hold_nothing readers h.1)

  done-injective : (p q : Pipeline F) → done p ≡ done q → p ≡ q
  done-injective p q e = ap (λ o. elim o [ done x ↦ x | panic ↦ p | fault ↦ p ]) e

  finished_drained :
      (p : Pipeline F)
      → IsSteady p
      → p.main_pc ≡ finished
      → All HasEnded p.readers
        × (p.engine.shared.buffer.queue ≡ [])
        × (p.engine.shared.pending ≡ [])
        × (total (frame_weight s w) p.engine.shared.written ≡ pipeline_weight f cfg s w p)
  unfolding Workers.run
  finished_drained p st e =
      let (ended, exited) = subst (λ pc. Phase pc p.readers p.engine) e st.phase in
      let (empty, settled, counted) =
        exited_engine_drained f cfg s w [] p.engine st.attended exited in
      (ended, empty, settled, omega (arith, counted, ended_hold_nothing p.readers ended))

  -- A pipeline is steady where no thread has panicked, the rings and the lock are sound, a full
  -- buffer blocks, and a worker is there for what is left to do. When `main` has come to its end
  -- from a steady pipeline, whatever the order of the turns, every reader thread has ended, and
  -- the buffer and the pending windows are empty. For each sensor and window the frames written
  -- then count the readings that were in the pipeline at first, and all that the reader threads
  -- have taken out of the rings since: the two shutdowns in that order lose none of them.
  pub shutdown_loses_nothing :
      (es : List (Event F)) (p after : Pipeline F)
      → IsSteady p
      → run f cfg es p ≡ done after
      → after.main_pc ≡ finished
      → All HasEnded after.readers
        × (after.engine.shared.buffer.queue ≡ [])
        × (after.engine.shared.pending ≡ [])
        × (total (frame_weight s w) after.engine.shared.written + readings_weight f cfg s w p.taken
            ≡ pipeline_weight f cfg s w p + readings_weight f cfg s w after.taken)
  shutdown_loses_nothing es p after st e at_end =
      let kept = run-Kept es p st in
      let same : kept.after ≡ after = done-injective kept.after after (sym kept.result ∙ e) in
      let (ended, empty, settled, counted) =
        finished_drained after (subst IsSteady same kept.steady) at_end in
      (
        ended,
        empty,
        settled,
        omega (
          arith,
          counted,
          subst
              (λ q.
                pipeline_weight f cfg s w q + readings_weight f cfg s w p.taken
                ≡ pipeline_weight f cfg s w p + readings_weight f cfg s w q.taken)
              same kept.same,
        ),
      )
