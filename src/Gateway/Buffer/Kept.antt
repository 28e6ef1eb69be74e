-- ===== src/Gateway/Buffer/Kept.antt =====
-- Without the overflow panic no reading is lost, and after it none comes out.
use mathlib.Core.List.Perm
use mathlib.Core.List.{Perm, perm_middle, perm-append_left_iff, perm_append_singleton}
use comp2432_project.Prelude.{
  ℕ, zero, suc, ◌≡◌, refl, ◌∙◌, Bool, false, Option, none, some, List, [], ◌∷◌, ◌++◌, append_assoc,
  arith,
}
use comp2432_project.Gateway.Readings.{SensorReading}
use comp2432_project.Gateway.Buffer.{
  SharedBuffer, PushPass, PopPass, push_pass, push_start, pop_pass, Threads, Step, push_called,
  producer_woken, pop_passes, pick, after_push, after_pop, step, run,
}
use comp2432_project.Gateway.Buffer.Schedule.{accepted}
use comp2432_project.Gateway.Buffer.Endings.{
  PushEnding, after_poison, while_full, with_room, push_pass-Ending, StartEnding, overflows, passes,
  push_start-Ending, PopEnding, pop_after_poison, timed_out, on_empty, popped, pop_pass-Ending,
}

module _ {F : Type 0} where
  -- The readings that the threads and the buffer hold, and those taken.
  abbrev pub known : Threads F → List (SensorReading F)
  known t = accepted t ++ t.blocked

  abbrev pub called : List (Step F) → List (SensorReading F)
  called [] = []
  called (push_called reading ∷ ss) = reading ∷ called ss
  called (producer_woken i ∷ ss) = called ss
  called (pop_passes expired ∷ ss) = called ss

  -- A buffer that blocks its producers, whose lock is not poisoned.
  pub record IsBlocking (t : Threads F) : Type 0 where
    pub waits : t.buffer.fail_on_full ≡ false
    pub sound : t.buffer.poisoned ≡ false

  -- `t'` comes from `t` with the readings `xs` put, taken or blocked since, and no panic.
  record Keeps (xs : List (SensorReading F)) (t t' : Threads F) : Type 0 where
    blocking : IsBlocking t'
    calm : t'.panicked ≡ t.panicked
    same : Perm (known t') (xs ++ known t)

  put_perm :
      (r : SensorReading F) (took queue others : List (SensorReading F))
      → Perm ((took ++ (queue ++ r ∷ [])) ++ others) ((took ++ queue) ++ r ∷ others)
  put_perm r took queue others =
      rw
        (
          append_assoc took (queue ++ r ∷ []) others,
          append_assoc queue (r ∷ []) others,
          append_assoc took queue (r ∷ others),
        )
        (Perm.refl _)

  after_push-Keeps :
      (r : SensorReading F) (t : Threads F) (passed : SharedBuffer F × PushPass)
      → PushEnding r t.buffer passed
      → IsBlocking t
      → Keeps (r ∷ []) t (after_push r passed t)
  after_push-Keeps r t passed (after_poison e) i = ground (arith, e, i.sound)
  after_push-Keeps r t passed (while_full e k) i = record {
    blocking = record { waits = i.waits; sound = e };
    calm = refl;
    same =
        Perm.trans ((perm-append_left_iff (accepted t)).1 (perm_append_singleton r t.blocked))
          (perm_middle (accepted t) t.blocked);
  }
  after_push-Keeps r t passed (with_room e k) i = record {
    blocking = record { waits = i.waits; sound = e };
    calm = refl;
    same =
        Perm.trans (put_perm r t.took t.buffer.queue t.blocked)
          (perm_middle (accepted t) t.blocked);
  }

  after_start-Keeps :
      (r : SensorReading F) (t : Threads F) (passed : SharedBuffer F × PushPass)
      → StartEnding r t.buffer passed
      → IsBlocking t
      → Keeps (r ∷ []) t (after_push r passed t)
  after_start-Keeps r t passed (overflows e h k) i = ground (arith, h, i.waits)
  after_start-Keeps r t passed (passes e) i = after_push-Keeps r t passed e i

  after_pop-Keeps :
      (expired : Bool) (t : Threads F) (passed : SharedBuffer F × PopPass F)
      → PopEnding expired t.buffer passed
      → IsBlocking t
      → Keeps [] t (after_pop passed t)
  after_pop-Keeps expired t passed (pop_after_poison e) i = ground (arith, e, i.sound)
  after_pop-Keeps expired t passed (timed_out e k h) i = record {
    blocking = record { waits = i.waits; sound = i.sound };
    calm = refl;
    same = Perm.refl _;
  }
  after_pop-Keeps expired t passed (on_empty e k h) i = record {
    blocking = record { waits = i.waits; sound = i.sound };
    calm = refl;
    same = Perm.refl _;
  }
  after_pop-Keeps expired t passed (popped val rest e k) i = record {
    blocking = record { waits = i.waits; sound = i.sound };
    calm = refl;
    same = rw (append_assoc t.took (val ∷ []) rest, k) (Perm.refl _);
  }

  -- What a picked reading and the others make up.
  abbrev pub Picked :
      List (SensorReading F) → Option (SensorReading F × List (SensorReading F)) → Type 0
  Picked rs none = Unit {0}
  Picked rs (some (r, others)) = Perm (r ∷ others) rs

  pub pick-Picked : (i : ℕ) (rs : List (SensorReading F)) → Picked rs (pick i rs)
  unfolding pick
  pick-Picked i [] = tt
  pick-Picked zero (r ∷ rs) = Perm.refl (r ∷ rs)
  pick-Picked (suc i) (r ∷ rs) = later (pick i rs) (pick-Picked i rs)
    where
      later :
          (picked : Option (SensorReading F × List (SensorReading F)))
          → Picked rs picked
          → Picked (r ∷ rs) (elim picked [ none ↦ none | some (x, others) ↦ some (x, r ∷ others) ])
      later none h = tt
      later (some (x, others)) h = Perm.trans (Perm.swap r x others) (Perm.cons r h)

  woken-Keeps :
      (t : Threads F) (picked : Option (SensorReading F × List (SensorReading F)))
      → Picked t.blocked picked
      → IsBlocking t
      → Keeps [] t (elim picked [
        | none ↦ t
        | some (r, others) ↦ after_push r (push_pass r t.buffer) (record t { blocked = others })
      ])
  woken-Keeps t none h i = record { blocking = i; calm = refl; same = Perm.refl _ }
  woken-Keeps t (some (r, others)) h i =
      let t0 = record t { blocked = others } in
      let i0 : IsBlocking t0 = record { waits = i.waits; sound = i.sound } in
      let k = after_push-Keeps r t0 (push_pass r t.buffer) (push_pass-Ending r t.buffer) i0 in
      record {
        blocking = k.blocking;
        calm = k.calm;
        same = Perm.trans k.same (
            Perm.trans (Perm.symm (perm_middle (accepted t) others))
              ((perm-append_left_iff (accepted t)).1 h));
      }

  run-Keeps : (ss : List (Step F)) (t : Threads F) → IsBlocking t → Keeps (called ss) t (run ss t)
  unfolding run step
  run-Keeps [] t i = record { blocking = i; calm = refl; same = Perm.refl _ }
  run-Keeps (push_called r ∷ ss) t i =
      let k = after_start-Keeps r t (push_start r t.buffer) (push_start-Ending r t.buffer) i in
      let l = run-Keeps ss (step (push_called r) t) k.blocking in
      record {
        blocking = l.blocking;
        calm = l.calm ∙ k.calm;
        same = Perm.trans l.same (
            Perm.trans ((perm-append_left_iff (called ss)).1 k.same)
              (perm_middle (called ss) (known t)));
      }
  run-Keeps (producer_woken n ∷ ss) t i =
      let k = woken-Keeps t (pick n t.blocked) (pick-Picked n t.blocked) i in
      let l = run-Keeps ss (step (producer_woken n) t) k.blocking in
      record {
        blocking = l.blocking;
        calm = l.calm ∙ k.calm;
        same = Perm.trans l.same ((perm-append_left_iff (called ss)).1 k.same);
      }
  run-Keeps (pop_passes expired ∷ ss) t i =
      let k =
        after_pop-Keeps expired t (pop_pass expired t.buffer) (pop_pass-Ending expired t.buffer)
          i in
      let l = run-Keeps ss (step (pop_passes expired) t) k.blocking in
      record {
        blocking = l.blocking;
        calm = l.calm ∙ k.calm;
        same = Perm.trans l.same ((perm-append_left_iff (called ss)).1 k.same);
      }

  -- When the lock is sound and a full buffer blocks its producers instead of panicking, no
  -- schedule loses or doubles a reading: the readings taken, queued and held by blocked
  -- producers at the end are those at the start and those that `push` was called with since, and
  -- no thread panics.
  pub run_loses_nothing :
      (ss : List (Step F)) (t : Threads F)
      → IsBlocking t
      → Perm (known (run ss t)) (called ss ++ known t) × (run ss t).panicked ≡ t.panicked
  run_loses_nothing ss t i = let k = run-Keeps ss t i in (k.same, k.calm)
