-- ===== src/Gateway/Pipeline/Keeping/Main.antt =====
-- The turns of `main`, which joins the threads, and with them every step.
use Prim.Native.String.{String}
use comp2432_project.Prelude.{
  ℕ, zero, suc, ◌≡◌, refl, inl, inr, false, length, get_elem?, arith, Option-cases, done,
}
use comp2432_project.Prelude.Places.{All-get, All-drop-length, All-drop-suc}
use comp2432_project.Prelude.Floats.{FloatOps}
use comp2432_project.Gateway.Reader as Reader
use comp2432_project.Gateway.Reader.{ReaderPc, ended}
use comp2432_project.Gateway.Aggregation.Workers as Workers
use comp2432_project.Gateway.Aggregation.Workers.{
  Settings, WorkerPc, exited, Engine, Turn, worker_turn, shutdown_called,
}
use comp2432_project.Gateway.Aggregation.Workers.Turns.{step_weight}
use comp2432_project.Gateway.Aggregation.Workers.Drained.{step-IsAttended}
use comp2432_project.Gateway.Pipeline.{
  MainPc, monitoring, joining_readers, stopping_engine, joining_workers, finished, Pipeline, Event,
  generator_turns, reader_turns, worker_turns, main_turns, pc_of, join_reader, join_worker,
  moved_on, main_turn, step,
}
use comp2432_project.Gateway.Pipeline.Threads as Threads
use comp2432_project.Gateway.Pipeline.Threads.{held, Rests}
use comp2432_project.Gateway.Pipeline.Turns as Turns
use comp2432_project.Gateway.Pipeline.Turns.{Stays-exited, WorkerTurned, turn-WorkerTurned}
use comp2432_project.Gateway.Pipeline.Phases.{
  HasEnded, HasExited, Phase, IsThreadGood, IsSteady, Kept,
}
use comp2432_project.Gateway.Pipeline.Keeping.{
  unmoved-Kept, reader-Kept, generator-Kept, worker-Kept,
}

module _ {F : Type 0} (f : FloatOps F) (cfg : Settings F) (s : String) (w : ℕ) where
  next-Kept :
      (p : Pipeline F) (next : MainPc)
      → IsSteady p
      → Phase next p.readers p.engine
      → Kept f cfg s w p (done (record p { main_pc = next }))
  next-Kept p next st h = record {
    after = record p { main_pc = next };
    result = refl;
    steady = record {
      threads = st.threads;
      workers = st.workers;
      waits = st.waits;
      attended = st.attended;
      phase = h;
    };
    same = refl;
  }

  join_reader-Kept :
      (left : ℕ) (pc : ReaderPc F) (p : Pipeline F)
      → IsSteady p
      → Threads.IsCalm pc
      → (pc ≡ ended → Phase (joining_readers left) p.readers p.engine)
      → Phase (joining_readers (suc left)) p.readers p.engine
      → Kept f cfg s w p (moved_on p (join_reader left pc))
  join_reader-Kept left ended p st c gone not_yet =
      next-Kept p (joining_readers left) st (gone refl)
  join_reader-Kept left Reader.panicked p st c gone not_yet = absurd c
  join_reader-Kept left _ p st c gone not_yet = next-Kept p (joining_readers (suc left)) st not_yet

  join_worker-Kept :
      (left : ℕ) (pc : WorkerPc F) (p : Pipeline F)
      → IsSteady p
      → Turns.IsCalm pc
      → (pc ≡ exited → Phase (joining_workers left) p.readers p.engine)
      → Phase (joining_workers (suc left)) p.readers p.engine
      → Kept f cfg s w p (moved_on p (join_worker left pc))
  join_worker-Kept left exited p st c gone not_yet =
      next-Kept p (joining_workers left) st (gone refl)
  join_worker-Kept left Workers.panicked p st c gone not_yet = absurd c
  join_worker-Kept left _ p st c gone not_yet = next-Kept p (joining_workers (suc left)) st not_yet

  main-Kept :
      (pc : MainPc) (p : Pipeline F)
      → p.main_pc ≡ pc
      → IsSteady p
      → Phase pc p.readers p.engine
      → Kept f cfg s w p (main_turn f cfg pc p)
  unfolding main_turn Workers.step
  main-Kept monitoring p e st h = record {
    after = record p { running = false; main_pc = joining_readers (length p.readers) };
    result = refl;
    steady = record {
      threads = st.threads;
      workers = st.workers;
      waits = st.waits;
      attended = st.attended;
      phase = (h, All-drop-length HasEnded p.readers);
    };
    same = refl;
  }
  main-Kept (joining_readers zero) p e st h = next-Kept p stopping_engine st h
  main-Kept (joining_readers (suc left)) p e st h = elim (Option-cases (get_elem? p.readers left)) [
    | inl at ↦ rw (main_turn, at) (unmoved-Kept f cfg s w p st)
    | inr (thread, at) ↦
        rw (main_turn, at)
          (join_reader-Kept left (pc_of thread) p st
            (All-get IsThreadGood p.readers left thread st.threads at).1
            (λ ends. (h.0, All-drop-suc HasEnded p.readers left thread at ends h.1)) h)
  ]
  main-Kept stopping_engine p e st h = record {
    after = record p {
      engine = Workers.step f cfg shutdown_called p.engine;
      main_pc = joining_workers (length p.engine.workers);
    };
    result = refl;
    steady = record {
      threads = st.threads;
      workers = st.workers;
      waits = st.waits;
      attended = step-IsAttended f cfg shutdown_called p.engine st.attended;
      phase = (h.1, All-drop-length HasExited p.engine.workers);
    };
    same = omega (arith, step_weight f cfg s w shutdown_called p.engine);
  }
  main-Kept (joining_workers zero) p e st h = next-Kept p finished st h
  main-Kept (joining_workers (suc left)) p e st h =
      elim (Option-cases (get_elem? p.engine.workers left)) [
        | inl at ↦ rw (main_turn, at) (unmoved-Kept f cfg s w p st)
        | inr (pc, at) ↦
            rw (main_turn, at)
              (join_worker-Kept left pc p st
                (All-get Turns.IsCalm p.engine.workers left pc st.workers at)
                (λ exits. (h.0, All-drop-suc HasExited p.engine.workers left pc at exits h.1)) h)
      ]
  main-Kept finished p e st h = unmoved-Kept f cfg s w p st

  pub step-Kept : (e : Event F) (p : Pipeline F) → IsSteady p → Kept f cfg s w p (step f cfg e p)
  unfolding step
  step-Kept (generator_turns i m) p st = generator-Kept f cfg s w i m p st
  step-Kept (reader_turns i now_ms) p st = reader-Kept f cfg s w i now_ms p st
  step-Kept (worker_turns i now_ms expired) p st = worker-Kept f cfg s w i now_ms expired p st
  step-Kept main_turns p st = main-Kept p.main_pc p refl st st.phase
