-- ===== src/Gateway/Pipeline/Keeping.antt =====
-- The turns of the threads keep the pipeline steady and every reading.
pub mod Main
use Prim.Native.String.{String}
use comp2432_project.Prelude.{
  ℕ, zero, suc, ◌+◌, ◌≡◌, refl, sym, ap, ◌∙◌, ◌⊎◌, inl, inr, Bool, true, false, Option, none, some,
  List, [], ◌∷◌, ◌++◌, length, get_elem?, set, drop, arith, Option-cases, Outcome, done, ◌>>=◌,
}
use mathlib.Core.Path.{subst}
use comp2432_project.Prelude.Sort.{All}
use comp2432_project.Prelude.Places.{All-get, All-set, All-drop-length, All-drop-suc, All-drop-set}
use comp2432_project.Prelude.Floats.{FloatOps}
use comp2432_project.Gateway.Readings.{SensorReading}
use comp2432_project.Gateway.Buffer.{SharedBuffer}
use comp2432_project.Gateway.Reader as Reader
use comp2432_project.Gateway.Reader.{ReaderPc, ended}
use comp2432_project.Gateway.Aggregation.Weights.{total, total-append, total-set, reading_weight}
use comp2432_project.Gateway.Aggregation.Workers as Workers
use comp2432_project.Gateway.Aggregation.Workers.{
  Settings, WorkerPc, exited, Engine, Turn, worker_turn, shutdown_called,
}
use comp2432_project.Gateway.Aggregation.Workers.Turns.{step_weight}
use comp2432_project.Gateway.Aggregation.Workers.Drained.{
  IsAttended, step-IsAttended, ending, total-share,
}
use comp2432_project.Gateway.Pipeline.{
  ReaderThread, MainPc, monitoring, joining_readers, stopping_engine, joining_workers, finished,
  Measured, Pipeline, Event, generator_turns, reader_turns, worker_turns, main_turns, common_of,
  pc_of, left_by, took, with_buffer, put_back, join_reader, join_worker, moved_on, main_turn, step,
}
use comp2432_project.Gateway.Pipeline.Threads as Threads
use comp2432_project.Gateway.Pipeline.Threads.{held, Rests}
use comp2432_project.Gateway.Pipeline.Threads.Kinds.{
  ThreadTurned, turned-ThreadTurned, GeneratorTurned, generated-GeneratorTurned,
}
use comp2432_project.Gateway.Pipeline.Turns as Turns
use comp2432_project.Gateway.Pipeline.Turns.{Stays-exited, WorkerTurned, turn-WorkerTurned}
use comp2432_project.Gateway.Pipeline.Phases.{
  HasEnded, HasExited, IsOpen, Phase, IsThreadGood, IsSteady, IsOpen-or_ended, readings_weight,
  thread_weight, pipeline_weight, Kept,
}
use comp2432_project.Gateway.Pipeline.Steps.{
  set-Phase, buffer-IsAttended, Rests-ended, EngineTurned, step-EngineTurned, engine-Phase,
}

module _ {F : Type 0} (f : FloatOps F) (cfg : Settings F) (s : String) (w : ℕ) where
  -- A reader's turn: the buffer and the thread together get what was taken.
  moved_weight :
      (q h t q' h' : List (SensorReading F))
      → q' ++ h' ≡ q ++ (h ++ t)
      → readings_weight f cfg s w q' + readings_weight f cfg s w h'
        ≡ readings_weight f cfg s w q + readings_weight f cfg s w h + readings_weight f cfg s w t
  moved_weight q h t q' h' e = omega (
    arith,
    ap (readings_weight f cfg s w) e,
    total-append (reading_weight s w cfg.window_ms) q' h',
    total-append (reading_weight s w cfg.window_ms) q (h ++ t),
    total-append (reading_weight s w cfg.window_ms) h t,
  )

  pub unmoved-Kept : (p : Pipeline F) → IsSteady p → Kept f cfg s w p (done p)
  unmoved-Kept p st = record { after = p; result = refl; steady = st; same = refl }

  pub reader-Kept :
      (i now_ms : ℕ) (p : Pipeline F)
      → IsSteady p
      → Kept f cfg s w p (step f cfg (reader_turns i now_ms) p)
  unfolding step
  reader-Kept i now_ms p st = elim (Option-cases (get_elem? p.readers i)) [
    | inl at ↦ rw (step, at) (unmoved-Kept p st)
    | inr (thread, at) ↦
        let good = All-get IsThreadGood p.readers i thread st.threads at in
        let r = turned-ThreadTurned now_ms (common_of p) thread good.0 st.attended.sound st.waits in
        let after = r.after in
        rw (step, at)
          (record {
            after = put_back i thread after p;
            result = rw r.result refl;
            steady = record {
              threads =
                  All-set IsThreadGood p.readers i after (r.thread_sound, r.calm good.1) st.threads;
              workers = st.workers;
              waits = r.waits;
              attended =
                  buffer-IsAttended p.engine (left_by after).0 r.sound
                    (elim (IsOpen-or_ended p.main_pc p.readers p.engine st.phase) [
                      | inl o ↦ inl o
                      | inr all ↦
                          inr
                            (Rests-ended _ _ _ _ r.rests
                              (All-get HasEnded p.readers i thread all at)).1
                    ])
                    st.attended;
              phase =
                  set-Phase p.main_pc p.readers p.engine (left_by after).0 i thread after at
                    (λ e. (Rests-ended _ _ _ _ r.rests e).0) st.phase;
            };
            same = omega (
              arith,
              moved_weight p.engine.shared.buffer.queue (held (pc_of thread))
                  (took (pc_of thread) (pc_of after)) (left_by after).0.queue (held (pc_of after))
                  r.same,
              total-set (thread_weight f cfg s w) p.readers i thread after at,
              total-append (reading_weight s w cfg.window_ms) p.taken
                  (took (pc_of thread) (pc_of after)),
            );
          })
  ]

  pub generator-Kept :
      (i : ℕ) (m : Measured F) (p : Pipeline F)
      → IsSteady p
      → Kept f cfg s w p (step f cfg (generator_turns i m) p)
  unfolding step
  generator-Kept i m p st = elim (Option-cases (get_elem? p.readers i)) [
    | inl at ↦ rw (step, at) (unmoved-Kept p st)
    | inr (thread, at) ↦
        let good = All-get IsThreadGood p.readers i thread st.threads at in
        let r = generated-GeneratorTurned m thread good.0 in
        let after = r.after in
        rw (step, at)
          (record {
            after = record p { readers = set p.readers i after };
            result = rw r.result refl;
            steady = record {
              threads =
                  All-set IsThreadGood p.readers i after (r.thread_sound, rw r.stands good.1)
                    st.threads;
              workers = st.workers;
              waits = st.waits;
              attended = st.attended;
              phase =
                  set-Phase p.main_pc p.readers p.engine p.engine.shared.buffer i thread after at
                    (λ e. r.stands ∙ e) st.phase;
            };
            same = omega (
              arith,
              total-set (thread_weight f cfg s w) p.readers i thread after at,
              ap (λ pc. readings_weight f cfg s w (held pc)) r.stands,
            );
          })
  ]

  pub worker-Kept :
      (i now_ms : ℕ) (expired : Bool) (p : Pipeline F)
      → IsSteady p
      → Kept f cfg s w p (step f cfg (worker_turns i now_ms expired) p)
  unfolding step
  worker-Kept i now_ms expired p st =
      let t = step-EngineTurned f cfg i now_ms expired p.engine st.attended.sound in
      let e' : Engine F = Workers.step f cfg (worker_turn i now_ms expired) p.engine in
      record {
        after = record p { engine = e' };
        result = refl;
        steady = record {
          threads = st.threads;
          workers = t.calm st.workers;
          waits = t.waits ∙ st.waits;
          attended = step-IsAttended f cfg (worker_turn i now_ms expired) p.engine st.attended;
          phase = engine-Phase f cfg p.main_pc p.readers p.engine e' t st.phase;
        };
        same = omega (arith, step_weight f cfg s w (worker_turn i now_ms expired) p.engine);
      }
