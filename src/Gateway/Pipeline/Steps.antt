-- ===== src/Gateway/Pipeline/Steps.antt =====
-- What the turns of the readers and of the workers keep of the phases of `main`.

use comp2432_project.Prelude.{
  ℕ, ◌≡◌, refl, ◌∙◌, ◌⊎◌, inl, inr, Bool, false, some, List, get_elem?, set, drop, arith,
  Option-cases,
}
use mathlib.Core.Path.{subst}
use comp2432_project.Prelude.Sort.{All}
use comp2432_project.Prelude.Places.{All-get, All-set, All-drop-set}
use comp2432_project.Prelude.Floats.{FloatOps}
use comp2432_project.Gateway.Readings.{SensorReading}
use comp2432_project.Gateway.Buffer.{SharedBuffer}
use comp2432_project.Gateway.Reader.{ReaderPc, ended}
use comp2432_project.Gateway.Aggregation.Weights.{total-set}
use comp2432_project.Gateway.Aggregation.Workers as Workers
use comp2432_project.Gateway.Aggregation.Workers.{
  Settings, WorkerPc, exited, Engine, Turn, worker_turn, shutdown_called,
}
use comp2432_project.Gateway.Aggregation.Workers.Drained.{IsAttended, ending, total-share}
use comp2432_project.Gateway.Pipeline.{
  ReaderThread, MainPc, monitoring, joining_readers, stopping_engine, joining_workers, finished,
  with_buffer,
}
use comp2432_project.Gateway.Pipeline.Threads.{Rests}
use comp2432_project.Gateway.Pipeline.Turns as Turns
use comp2432_project.Gateway.Pipeline.Turns.{Stays-exited, WorkerTurned, turn-WorkerTurned}
use comp2432_project.Gateway.Pipeline.Phases.{HasEnded, HasExited, IsOpen, Phase}

module _ {F : Type 0} where
  pub set-Phase :
      (pc : MainPc) (readers : List (ReaderThread F)) (e : Engine F) (b : SharedBuffer F) (i : ℕ)
      (old new : ReaderThread F)
      → get_elem? readers i ≡ some old
      → (HasEnded old → HasEnded new)
      → Phase pc readers e
      → Phase pc (set readers i new) (with_buffer b e)
  set-Phase monitoring readers e b i old new at keeps h = record {
    untold = h.untold;
    early = h.early;
  }
  set-Phase (joining_readers n) readers e b i old new at keeps h = (
    record { untold = h.0.untold; early = h.0.early },
    All-drop-set HasEnded readers n i old new at keeps h.1,
  )
  set-Phase stopping_engine readers e b i old new at keeps h = (
    record { untold = h.0.untold; early = h.0.early },
    All-drop-set HasEnded readers 0 i old new at keeps h.1,
  )
  set-Phase (joining_workers n) readers e b i old new at keeps h =
      (All-drop-set HasEnded readers 0 i old new at keeps h.0, h.1)
  set-Phase finished readers e b i old new at keeps h =
      (All-drop-set HasEnded readers 0 i old new at keeps h.0, h.1)

  pub buffer-IsAttended :
      (e : Engine F) (b : SharedBuffer F)
      → b.poisoned ≡ false
      → IsOpen e ⊎ (b.queue ≡ e.shared.buffer.queue)
      → IsAttended e
      → IsAttended (with_buffer b e)
  buffer-IsAttended e b sound why a = record {
    sound = sound;
    staffed = a.staffed;
    minded = a.minded;
    unfinished = elim why [
      | inl o ↦ inr o.early
      | inr q ↦ elim a.unfinished [ inl k ↦ inl (q ∙ k) | inr n ↦ inr n ]
    ];
  }

  pub Rests-ended :
      (pc pc' : ReaderPc F) (q q' : List (SensorReading F))
      → Rests pc q pc' q'
      → pc ≡ ended
      → (pc' ≡ ended) × (q' ≡ q)
  Rests-ended pc pc' q q' r e = subst (λ x. Rests x q pc' q') e r

module _ {F : Type 0} (f : FloatOps F) (cfg : Settings F) where
  -- What a worker's turn keeps of the engine.
  pub record EngineTurned (e e' : Engine F) : Type 0 where
    pub waits : e'.shared.buffer.fail_on_full ≡ e.shared.buffer.fail_on_full
    pub calm : All Turns.IsCalm e.workers → All Turns.IsCalm e'.workers
    pub opens : IsOpen e → IsOpen e'
    pub exits : (n : ℕ) → All HasExited (drop n e.workers) → All HasExited (drop n e'.workers)

  pub step-EngineTurned :
      (i now_ms : ℕ) (expired : Bool) (e : Engine F)
      → e.shared.buffer.poisoned ≡ false
      → EngineTurned e (Workers.step f cfg (worker_turn i now_ms expired) e)
  unfolding Workers.step
  step-EngineTurned i now_ms expired e h = elim (Option-cases (get_elem? e.workers i)) [
    | inl at ↦
        rw (Workers.step, at)
          (record { waits = refl; calm = λ c. c; opens = λ o. o; exits = λ n x. x })
    | inr (pc, at) ↦
        let t = turn-WorkerTurned f cfg now_ms expired pc e.shared h in
        let pc' : WorkerPc F = (Workers.turn f cfg now_ms expired pc e.shared).1 in
        rw (Workers.step, at)
          (record {
            waits = t.waits;
            calm = λ c.
                All-set Turns.IsCalm e.workers i pc'
                  (t.calm (All-get Turns.IsCalm e.workers i pc c at)) c;
            opens = λ o. record {
              untold = t.told ∙ o.untold;
              early =
                  let before : ending pc ≡ 0 =
                    omega (arith, o.early, total-share ending e.workers i pc at) in
                  omega (
                    arith,
                    o.early,
                    total-set ending e.workers i pc pc' at,
                    before,
                    t.early o.untold before,
                  );
            };
            exits =
                λ n. All-drop-set HasExited e.workers n i pc pc' at (Stays-exited pc pc' t.stays);
          })
  ]

  pub engine-Phase :
      (pc : MainPc) (readers : List (ReaderThread F)) (e e' : Engine F)
      → EngineTurned e e'
      → Phase pc readers e
      → Phase pc readers e'
  engine-Phase monitoring readers e e' t h = t.opens h
  engine-Phase (joining_readers n) readers e e' t h = (t.opens h.0, h.1)
  engine-Phase stopping_engine readers e e' t h = (t.opens h.0, h.1)
  engine-Phase (joining_workers n) readers e e' t h = (h.0, t.exits n h.1)
  engine-Phase finished readers e e' t h = (h.0, t.exits 0 h.1)
