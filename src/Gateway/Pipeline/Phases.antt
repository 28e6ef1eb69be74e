-- ===== src/Gateway/Pipeline/Phases.antt =====
-- What holds of the pipeline in each phase of `main`, and what a step keeps.
use Prim.Native.String.{String}
use comp2432_project.Prelude.{ℕ, ◌+◌, ◌≡◌, ◌⊎◌, inl, inr, false, List, drop, Outcome, done}
use comp2432_project.Prelude.Sort.{All}
use comp2432_project.Prelude.Floats.{FloatOps}
use comp2432_project.Gateway.Readings.{SensorReading}
use comp2432_project.Gateway.Reader.{ended}
use comp2432_project.Gateway.Aggregation.Weights.{total, reading_weight}
use comp2432_project.Gateway.Aggregation.Workers.{Settings, WorkerPc, exited, Engine}
use comp2432_project.Gateway.Aggregation.Workers.Turns.{engine_weight}
use comp2432_project.Gateway.Aggregation.Workers.Drained.{IsAttended, ending}
use comp2432_project.Gateway.Pipeline.{
  ReaderThread, MainPc, monitoring, joining_readers, stopping_engine, joining_workers, finished,
  Pipeline, pc_of,
}
use comp2432_project.Gateway.Pipeline.Threads as Threads
use comp2432_project.Gateway.Pipeline.Threads.{held}
use comp2432_project.Gateway.Pipeline.Threads.Kinds.{IsThreadSound}
use comp2432_project.Gateway.Pipeline.Turns as Turns

module _ {F : Type 0} where
  abbrev pub HasEnded : ReaderThread F → Type 0
  HasEnded thread = pc_of thread ≡ ended

  abbrev pub HasExited : WorkerPc F → Type 0
  HasExited pc = pc ≡ exited

  -- The shutdown is not called, and no worker is near its exit.
  pub record IsOpen (e : Engine F) : Type 0 where
    pub untold : e.shared.shutdown ≡ false
    pub early : total ending e.workers ≡ 0

  -- While `main` joins threads, those that it has joined have ended.
  abbrev pub Phase : MainPc → List (ReaderThread F) → Engine F → Type 0
  Phase monitoring readers e = IsOpen e
  Phase (joining_readers n) readers e = IsOpen e × All HasEnded (drop n readers)
  Phase stopping_engine readers e = IsOpen e × All HasEnded readers
  Phase (joining_workers n) readers e = All HasEnded readers × All HasExited (drop n e.workers)
  Phase finished readers e = All HasEnded readers × All HasExited e.workers

  abbrev pub IsThreadGood : ReaderThread F → Type 0
  IsThreadGood thread = IsThreadSound thread × Threads.IsCalm (pc_of thread)

  -- No thread has panicked, the lock is sound, a full buffer blocks, and workers are there for what
  -- is left to do.
  pub record IsSteady (p : Pipeline F) : Type 0 where
    pub threads : All IsThreadGood p.readers
    pub workers : All Turns.IsCalm p.engine.workers
    pub waits : p.engine.shared.buffer.fail_on_full ≡ false
    pub attended : IsAttended p.engine
    pub phase : Phase p.main_pc p.readers p.engine

  -- Readers push only while the engine is open.
  pub IsOpen-or_ended :
      (pc : MainPc) (readers : List (ReaderThread F)) (e : Engine F)
      → Phase pc readers e
      → IsOpen e ⊎ All HasEnded readers
  IsOpen-or_ended monitoring readers e h = inl h
  IsOpen-or_ended (joining_readers n) readers e h = inl h.0
  IsOpen-or_ended stopping_engine readers e h = inl h.0
  IsOpen-or_ended (joining_workers n) readers e h = inr h.0
  IsOpen-or_ended finished readers e h = inr h.0

module _ {F : Type 0} (f : FloatOps F) (cfg : Settings F) (s : String) (w : ℕ) where
  abbrev pub readings_weight : List (SensorReading F) → ℕ
  readings_weight = total (reading_weight s w cfg.window_ms)

  abbrev pub thread_weight : ReaderThread F → ℕ
  thread_weight thread = readings_weight (held (pc_of thread))

  -- The readings of the sensor `s` and the window from `w`: those that reader threads hold, and all
  -- in the engine.
  abbrev pub pipeline_weight : Pipeline F → ℕ
  pipeline_weight p = total thread_weight p.readers + engine_weight f cfg s w p.engine

  -- The step returns, and keeps the pipeline steady and every reading.
  pub record Kept (p : Pipeline F) (stepped : Outcome (Pipeline F)) : Type 0 where
    pub after : Pipeline F
    pub result : stepped ≡ done after
    pub steady : IsSteady after
    pub same :
        pipeline_weight after + readings_weight p.taken
        ≡ pipeline_weight p + readings_weight after.taken
