-- ===== src/Gateway/Pipeline/Turns.antt =====
-- One turn of a worker: what it leaves as it was, and where it can lead.
use comp2432_project.Prelude.{
  ℕ, zero, suc, ◌≡◌, refl, Bool, true, false, some, [], ◌∷◌, length, if◌then◌else◌, arith,
}
use mathlib.Core.Path.{subst}
use comp2432_project.Prelude.Floats.{FloatOps}
use comp2432_project.Gateway.Buffer.{SharedBuffer, PopPass, pop_pass, len}
use comp2432_project.Gateway.Buffer.Endings.{
  PopEnding, pop_after_poison, timed_out, on_empty, popped, pop_pass-Ending, len_sound,
}
use comp2432_project.Gateway.Aggregation.Workers.{
  Settings, Shared, WorkerPc, at_top, taking_windows, closing, exited, pulling, holding, claiming,
  writing, panicked, after_len, after_pass, turn,
}
use comp2432_project.Gateway.Aggregation.Workers.Drained.{ending}

module _ {F : Type 0} where
  abbrev pub IsCalm : WorkerPc F → Type 0
  IsCalm panicked = ⊥
  IsCalm _ = Unit {0}

  -- A worker that has exited does nothing more.
  abbrev pub Stays : WorkerPc F → WorkerPc F → Type 0
  Stays exited pc' = pc' ≡ exited
  Stays _ pc' = Unit {0}

  pub Stays-exited : (pc pc' : WorkerPc F) → Stays pc pc' → pc ≡ exited → pc' ≡ exited
  Stays-exited pc pc' s e = subst (λ x. Stays x pc') e s

  -- While the shutdown is not called, no worker comes to its exit.
  pub record WorkerTurned (pc : WorkerPc F) (e : Shared F) (pc' : WorkerPc F) (e' : Shared F)
      : Type 0 where
    pub waits : e'.buffer.fail_on_full ≡ e.buffer.fail_on_full
    pub told : e'.shutdown ≡ e.shutdown
    pub calm : IsCalm pc → IsCalm pc'
    pub early : e.shutdown ≡ false → ending pc ≡ 0 → ending pc' ≡ 0
    pub stays : Stays pc pc'

  plain-WorkerTurned :
      (pc : WorkerPc F) (e : Shared F) (pc' : WorkerPc F) (e' : Shared F)
      → e'.buffer ≡ e.buffer
      → e'.shutdown ≡ e.shutdown
      → (IsCalm pc → IsCalm pc')
      → (ending pc ≡ 0 → ending pc' ≡ 0)
      → Stays pc pc'
      → WorkerTurned pc e pc' e'
  plain-WorkerTurned pc e pc' e' b t c early s = record {
    waits = rw b refl;
    told = t;
    calm = c;
    early = λ h. early;
    stays = s;
  }

  pass-WorkerTurned :
      (expired : Bool) (e : Shared F) (passed : SharedBuffer F × PopPass F)
      → PopEnding expired e.buffer passed
      → e.buffer.poisoned ≡ false
      → WorkerTurned pulling e (after_pass passed e).1 (after_pass passed e).0
  pass-WorkerTurned expired e passed (pop_after_poison p) h = ground (arith, p, h)
  pass-WorkerTurned expired e passed (timed_out p q x) h =
      plain-WorkerTurned pulling e claiming _ refl refl (λ c. tt) (λ z. refl) tt
  pass-WorkerTurned expired e passed (on_empty p q x) h =
      plain-WorkerTurned pulling e pulling _ refl refl (λ c. tt) (λ z. refl) tt
  pass-WorkerTurned expired e passed (popped r rest p q) h = record {
    waits = refl;
    told = refl;
    calm = λ c. tt;
    early = λ s z. refl;
    stays = tt;
  }

  top-WorkerTurned :
      (e : Shared F)
      → e.buffer.poisoned ≡ false
      → WorkerTurned at_top e (if e.shutdown then after_len (len e.buffer) else pulling) e
  top-WorkerTurned e h = rw (len_sound e.buffer h) (looked e.shutdown (length e.buffer.queue) refl)
    where
      looked :
          (b : Bool) (n : ℕ)
          → e.shutdown ≡ b
          → WorkerTurned at_top e (if b then after_len (some n) else pulling) e
      looked false n k = plain-WorkerTurned at_top e pulling e refl refl (λ c. tt) (λ z. refl) tt
      looked true zero k = record {
        waits = refl;
        told = refl;
        calm = λ c. tt;
        early = λ s z. ground (arith, s, k);
        stays = tt;
      }
      looked true (suc n) k =
          plain-WorkerTurned at_top e pulling e refl refl (λ c. tt) (λ z. refl) tt

module _ {F : Type 0} (f : FloatOps F) (cfg : Settings F) where
  pub turn-WorkerTurned :
      (now_ms : ℕ) (expired : Bool) (pc : WorkerPc F) (e : Shared F)
      → e.buffer.poisoned ≡ false
      → WorkerTurned pc e (turn f cfg now_ms expired pc e).1 (turn f cfg now_ms expired pc e).0
  unfolding turn
  turn-WorkerTurned now_ms expired at_top e h = top-WorkerTurned e h
  turn-WorkerTurned now_ms expired taking_windows e h =
      plain-WorkerTurned taking_windows e _ _ refl refl (λ c. tt) (λ z. z) tt
  turn-WorkerTurned now_ms expired (closing []) e h =
      plain-WorkerTurned (closing []) e _ _ refl refl (λ c. tt) (λ z. z) tt
  turn-WorkerTurned now_ms expired (closing ((ws, m) ∷ windows)) e h =
      plain-WorkerTurned (closing ((ws, m) ∷ windows)) e _ _ refl refl (λ c. tt) (λ z. z) tt
  turn-WorkerTurned now_ms expired exited e h =
      plain-WorkerTurned exited e _ _ refl refl (λ c. tt) (λ z. z) refl
  turn-WorkerTurned now_ms expired pulling e h =
      pass-WorkerTurned expired e (pop_pass expired e.buffer) (pop_pass-Ending expired e.buffer) h
  turn-WorkerTurned now_ms expired (holding r) e h =
      plain-WorkerTurned (holding r) e _ _ refl refl (λ c. tt) (λ z. refl) tt
  turn-WorkerTurned now_ms expired claiming e h =
      plain-WorkerTurned claiming e _ _ refl refl (λ c. tt) (λ z. refl) tt
  turn-WorkerTurned now_ms expired (writing []) e h =
      plain-WorkerTurned (writing []) e _ _ refl refl (λ c. tt) (λ z. refl) tt
  turn-WorkerTurned now_ms expired (writing (c ∷ ready)) e h =
      plain-WorkerTurned (writing (c ∷ ready)) e _ _ refl refl (λ c. tt) (λ z. refl) tt
  turn-WorkerTurned now_ms expired panicked e h =
      plain-WorkerTurned panicked e _ _ refl refl (λ c. c) (λ z. z) tt
