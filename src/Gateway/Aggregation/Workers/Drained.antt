-- ===== src/Gateway/Aggregation/Workers/Drained.antt =====
-- When every worker has exited, every reading is in a frame.
use Prim.Native.String.{String}
use comp2432_project.Prelude.{
  ℕ, zero, suc, ◌+◌, ◌≤◌, ◌<◌, ◌≡◌, refl, ap, ◌∙◌, ◌⊎◌, inl, inr, Bool, true, false, none, some,
  List, [], ◌∷◌, length, length-set, get_elem?, set, if◌then◌else◌, arith, Option-cases,
}
use comp2432_project.Prelude.Sort.{All}
use comp2432_project.Prelude.Floats.{FloatOps}
use comp2432_project.Gateway.Readings.{SensorReading}
use comp2432_project.Gateway.Buffer.{SharedBuffer, PopPass, pop_pass, len}
use comp2432_project.Gateway.Buffer.Endings.{
  PopEnding, pop_after_poison, timed_out, on_empty, popped, pop_pass-Ending, len_sound,
}
use comp2432_project.Gateway.Stats.Counts.{frame_weight}
use comp2432_project.Gateway.Aggregation.Weights.{total, total-set, reading_weight, window_weight}
use comp2432_project.Gateway.Aggregation.Workers.Turns.{pc_weight, engine_weight, run_weight}
use comp2432_project.Gateway.Aggregation.Workers.{
  Settings, Shared, WorkerPc, at_top, taking_windows, closing, exited, pulling, holding, claiming,
  writing, panicked, Engine, Turn, worker_turn, shutdown_called, after_len, after_pass, turn, step,
  run,
}

module _ {F : Type 0} where
  -- A worker that will still look at the pending windows.
  abbrev pub live : WorkerPc F → ℕ
  live (closing windows) = 0
  live exited = 0
  live panicked = 0
  live _ = 1

  -- A worker that has seen the buffer empty after the shutdown.
  abbrev pub ending : WorkerPc F → ℕ
  ending taking_windows = 1
  ending (closing windows) = 1
  ending exited = 1
  ending _ = 0

  -- What one turn does to the things that the exit depends on.
  pub record TurnsOn (pc : WorkerPc F) (e : Shared F) (pc' : WorkerPc F) (e' : Shared F)
      : Type 0 where
    sound : e'.buffer.poisoned ≡ false
    minds :
        (live pc ≡ 1 × (live pc' ≡ 1 ⊎ e'.pending ≡ []))
        ⊎ (live pc' ≡ live pc × e'.pending ≡ e.pending)
    ends : ending pc' ≡ ending pc ⊎ e'.buffer.queue ≡ []
    drains : e.buffer.queue ≡ [] → e'.buffer.queue ≡ []

  pass-TurnsOn :
      (expired : Bool) (e : Shared F) (passed : SharedBuffer F × PopPass F)
      → PopEnding expired e.buffer passed
      → e.buffer.poisoned ≡ false
      → TurnsOn pulling e (after_pass passed e).1 (after_pass passed e).0
  pass-TurnsOn expired e passed (pop_after_poison p) h = ground (arith, p, h)
  pass-TurnsOn expired e passed (timed_out p q x) h = record {
    sound = h;
    minds = inl (refl, inl refl);
    ends = inl refl;
    drains = λ k. k;
  }
  pass-TurnsOn expired e passed (on_empty p q x) h = record {
    sound = h;
    minds = inl (refl, inl refl);
    ends = inl refl;
    drains = λ k. k;
  }
  pass-TurnsOn expired e passed (popped r rest p q) h = record {
    sound = h;
    minds = inl (refl, inl refl);
    ends = inl refl;
    drains = λ k. ground (arith, q, k);
  }

  top-TurnsOn :
      (e : Shared F)
      → e.buffer.poisoned ≡ false
      → TurnsOn at_top e (if e.shutdown then after_len (len e.buffer) else pulling) e
  top-TurnsOn e h = rw (len_sound e.buffer h) (looked e.shutdown e.buffer.queue refl)
    where
      looked :
          (b : Bool) (q : List (SensorReading F))
          → e.buffer.queue ≡ q
          → TurnsOn at_top e (if b then after_len (some (length q)) else pulling) e
      looked false q k = record {
        sound = h;
        minds = inl (refl, inl refl);
        ends = inl refl;
        drains = λ x. x;
      }
      looked true [] k = record {
        sound = h;
        minds = inl (refl, inl refl);
        ends = inr k;
        drains = λ x. x;
      }
      looked true (r ∷ rs) k = record {
        sound = h;
        minds = inl (refl, inl refl);
        ends = inl refl;
        drains = λ x. x;
      }

module _ {F : Type 0} (f : FloatOps F) (cfg : Settings F) where
  pub turn-TurnsOn :
      (now_ms : ℕ) (expired : Bool) (pc : WorkerPc F) (e : Shared F)
      → e.buffer.poisoned ≡ false
      → TurnsOn pc e (turn f cfg now_ms expired pc e).1 (turn f cfg now_ms expired pc e).0
  unfolding turn
  turn-TurnsOn now_ms expired at_top e h = top-TurnsOn e h
  turn-TurnsOn now_ms expired taking_windows e h = record {
    sound = h;
    minds = inl (refl, inr refl);
    ends = inl refl;
    drains = λ k. k;
  }
  turn-TurnsOn now_ms expired (closing []) e h = record {
    sound = h;
    minds = inr (refl, refl);
    ends = inl refl;
    drains = λ k. k;
  }
  turn-TurnsOn now_ms expired (closing ((ws, m) ∷ windows)) e h = record {
    sound = h;
    minds = inr (refl, refl);
    ends = inl refl;
    drains = λ k. k;
  }
  turn-TurnsOn now_ms expired exited e h = record {
    sound = h;
    minds = inr (refl, refl);
    ends = inl refl;
    drains = λ k. k;
  }
  turn-TurnsOn now_ms expired pulling e h =
      pass-TurnsOn expired e (pop_pass expired e.buffer) (pop_pass-Ending expired e.buffer) h
  turn-TurnsOn now_ms expired (holding r) e h = record {
    sound = h;
    minds = inl (refl, inl refl);
    ends = inl refl;
    drains = λ k. k;
  }
  turn-TurnsOn now_ms expired claiming e h = record {
    sound = h;
    minds = inl (refl, inl refl);
    ends = inl refl;
    drains = λ k. k;
  }
  turn-TurnsOn now_ms expired (writing []) e h = record {
    sound = h;
    minds = inl (refl, inl refl);
    ends = inl refl;
    drains = λ k. k;
  }
  turn-TurnsOn now_ms expired (writing (c ∷ ready)) e h = record {
    sound = h;
    minds = inl (refl, inl refl);
    ends = inl refl;
    drains = λ k. k;
  }
  turn-TurnsOn now_ms expired panicked e h = record {
    sound = h;
    minds = inr (refl, refl);
    ends = inl refl;
    drains = λ k. k;
  }

-- One entry's share of a total.
pub total-share {ℓ} :
    {A : Type ℓ} (measure : A → ℕ) (xs : List A) (i : ℕ) (x : A)
    → get_elem? xs i ≡ some x
    → measure x ≤ total measure xs
total-share measure [] i x e = ground arith
total-share measure (y ∷ ys) zero x e =
    let same = ap (λ o. elim o [ none ↦ measure y | some z ↦ measure z ]) e in omega (arith, same)
total-share measure (y ∷ ys) (suc i) x e = omega (arith, total-share measure ys i x e)

module _ {F : Type 0} where
  -- While windows are pending a worker is there to write them, and none ends before the buffer is empty.
  pub record IsAttended (e : Engine F) : Type 0 where
    pub sound : e.shared.buffer.poisoned ≡ false
    pub staffed : 0 < length e.workers
    pub minded : e.shared.pending ≡ [] ⊎ 0 < total live e.workers
    pub unfinished : e.shared.buffer.queue ≡ [] ⊎ total ending e.workers ≡ 0

  settle-IsAttended :
      (i : ℕ) (e : Engine F) (pc : WorkerPc F) (turned : Shared F × WorkerPc F)
      → get_elem? e.workers i ≡ some pc
      → TurnsOn pc e.shared turned.1 turned.0
      → IsAttended e
      → IsAttended (record { shared = turned.0; workers = set e.workers i turned.1 })
  settle-IsAttended i e pc (e', pc') h t a = record {
    sound = t.sound;
    staffed = omega (arith, a.staffed, length-set e.workers i pc');
    minded = elim t.minds [
      | inl (l, inl l') ↦ inr (omega (arith, lives, l, l', total-share live e.workers i pc h))
      | inl (l, inr k) ↦ inl k
      | inr (l, k) ↦ elim a.minded [
        | inl p ↦ inl (k ∙ p)
        | inr n ↦ inr (omega (arith, lives, l, n))
      ]
    ];
    unfinished = elim t.ends [
      | inr k ↦ inl k
      | inl k ↦ elim a.unfinished [
        | inl q ↦ inl (t.drains q)
        | inr n ↦ inr (omega (arith, ends, k, n))
      ]
    ];
  }
    where
      lives : total live (set e.workers i pc') + live pc ≡ total live e.workers + live pc'
      lives = total-set live e.workers i pc pc' h

      ends : total ending (set e.workers i pc') + ending pc ≡ total ending e.workers + ending pc'
      ends = total-set ending e.workers i pc pc' h

module _ {F : Type 0} (f : FloatOps F) (cfg : Settings F) where
  pub step-IsAttended : (t : Turn) (e : Engine F) → IsAttended e → IsAttended (step f cfg t e)
  unfolding step
  step-IsAttended (worker_turn i now_ms expired) e a = elim (Option-cases (get_elem? e.workers i)) [
    | inl h ↦ rw (step, h) a
    | inr (pc, h) ↦
        rw (step, h)
          (settle-IsAttended i e pc (turn f cfg now_ms expired pc e.shared) h
            (turn-TurnsOn f cfg now_ms expired pc e.shared a.sound) a)
  ]
  step-IsAttended shutdown_called e a = record {
    sound = a.sound;
    staffed = a.staffed;
    minded = a.minded;
    unfinished = a.unfinished;
  }

  run-IsAttended : (ts : List Turn) (e : Engine F) → IsAttended e → IsAttended (run f cfg ts e)
  unfolding run
  run-IsAttended [] e a = a
  run-IsAttended (t ∷ ts) e a = run-IsAttended ts (step f cfg t e) (step-IsAttended t e a)

  abbrev pub AllExited : List (WorkerPc F) → Type 0
  AllExited pcs = All (λ pc. pc ≡ exited) pcs

  exited_weigh_nothing :
      (measure : WorkerPc F → ℕ) (pcs : List (WorkerPc F))
      → measure exited ≡ 0
      → AllExited pcs
      → total measure pcs ≡ 0
  exited_weigh_nothing measure [] z h = refl
  exited_weigh_nothing measure (pc ∷ pcs) z h =
      omega (arith, ap measure h.0, z, exited_weigh_nothing measure pcs z h.1)

  exited_end : (pcs : List (WorkerPc F)) → 0 < length pcs → AllExited pcs → 0 < total ending pcs
  exited_end [] l h = l
  exited_end (pc ∷ pcs) l h = omega (arith, ap ending h.0)

  -- From an attended engine, such as one whose workers all run and none of them near its exit,
  -- whatever turns the workers take and whenever the shutdown is called: once every worker has
  -- exited, nothing is left in the buffer or pending, and for each sensor and window the frames
  -- written count every reading that was in the buffer, held by a worker, pending or counted
  -- before: the shutdown loses none.
  pub exited_engine_drained :
      (s : String) (w : ℕ) (ts : List Turn) (e : Engine F)
      → IsAttended e
      → AllExited (run f cfg ts e).workers
      → (run f cfg ts e).shared.buffer.queue ≡ []
        × (run f cfg ts e).shared.pending ≡ []
        × total (frame_weight s w) (run f cfg ts e).shared.written ≡ engine_weight f cfg s w e
  exited_engine_drained s w ts e a h = (
    empty,
    settled,
    omega (
      arith,
      run_weight f cfg s w ts e,
      ap (total (reading_weight s w cfg.window_ms)) empty,
      ap (total (window_weight s w)) settled,
      exited_weigh_nothing (pc_weight f cfg s w) (run f cfg ts e).workers refl h,
    ),
  )
    where
      attended : IsAttended (run f cfg ts e)
      attended = run-IsAttended ts e a

      empty : (run f cfg ts e).shared.buffer.queue ≡ []
      empty = elim attended.unfinished [
        | inl q ↦ q
        | inr n ↦ absurd (omega (arith, n, exited_end (run f cfg ts e).workers attended.staffed h))
      ]

      settled : (run f cfg ts e).shared.pending ≡ []
      settled = elim attended.minded [
        | inl p ↦ p
        | inr n ↦
            absurd (omega (arith, n, exited_weigh_nothing live (run f cfg ts e).workers refl h))
      ]
