-- ===== src/Gateway/Buffer/Stops.antt =====
-- What the overflow panic and a full queue stop.
use mathlib.Core.List.Perm
use mathlib.Core.List.{Perm, perm_append_singleton}
use comp2432_project.Prelude.{
  ℕ, suc, ◌≡◌, refl, ap, ◌∙◌, Bool, true, false, Option, none, some, List, [], ◌∷◌, map, arith,
}
use comp2432_project.Gateway.Readings.{SensorReading}
use comp2432_project.Gateway.Buffer.{
  SharedBuffer, PushPass, push_panics, PopPass, is_full, push_pass, push_start, pop_pass, Threads,
  Step, push_called, producer_woken, pop_passes, pick, after_push, after_pop, step, run,
}
use comp2432_project.Gateway.Buffer.Endings.{
  PushEnding, after_poison, while_full, with_room, push_pass-Ending, poison, StartEnding, overflows,
  passes, push_start-Ending, PopEnding, pop_after_poison, timed_out, on_empty, popped,
  pop_pass-Ending,
}
use comp2432_project.Gateway.Buffer.Kept.{Picked, pick-Picked}

module _ {F : Type 0} where
  -- `t'` has the buffer of `t` and what was taken there.
  record IsStuckAt (t t' : Threads F) : Type 0 where
    buffer : t'.buffer ≡ t.buffer
    took : t'.took ≡ t.took

  push_when_poisoned :
      (r : SensorReading F) (t : Threads F) (passed : SharedBuffer F × PushPass)
      → PushEnding r t.buffer passed
      → t.buffer.poisoned ≡ true
      → IsStuckAt t (after_push r passed t)
  push_when_poisoned r t passed (after_poison e) p = record { buffer = refl; took = refl }
  push_when_poisoned r t passed (while_full e k) p = ground (arith, e, p)
  push_when_poisoned r t passed (with_room e k) p = ground (arith, e, p)

  start_when_poisoned :
      (r : SensorReading F) (t : Threads F) (passed : SharedBuffer F × PushPass)
      → StartEnding r t.buffer passed
      → t.buffer.poisoned ≡ true
      → IsStuckAt t (after_push r passed t)
  start_when_poisoned r t passed (overflows e h k) p = ground (arith, e, p)
  start_when_poisoned r t passed (passes e) p = push_when_poisoned r t passed e p

  pop_when_poisoned :
      (expired : Bool) (t : Threads F) (passed : SharedBuffer F × PopPass F)
      → PopEnding expired t.buffer passed
      → t.buffer.poisoned ≡ true
      → IsStuckAt t (after_pop passed t)
  pop_when_poisoned expired t passed (pop_after_poison e) p = record { buffer = refl; took = refl }
  pop_when_poisoned expired t passed (timed_out e k h) p = ground (arith, e, p)
  pop_when_poisoned expired t passed (on_empty e k h) p = ground (arith, e, p)
  pop_when_poisoned expired t passed (popped val rest e k) p = ground (arith, e, p)

  woken_when_poisoned :
      (t : Threads F) (picked : Option (SensorReading F × List (SensorReading F)))
      → t.buffer.poisoned ≡ true
      → IsStuckAt t (elim picked [
        | none ↦ t
        | some (r, others) ↦ after_push r (push_pass r t.buffer) (record t { blocked = others })
      ])
  woken_when_poisoned t none p = record { buffer = refl; took = refl }
  woken_when_poisoned t (some (r, others)) p =
      let s =
        push_when_poisoned r (record t { blocked = others }) (push_pass r t.buffer)
          (push_pass-Ending r t.buffer) p in
      record { buffer = s.buffer; took = s.took }

  step_when_poisoned :
      (s : Step F) (t : Threads F) → t.buffer.poisoned ≡ true → IsStuckAt t (step s t)
  unfolding step
  step_when_poisoned (push_called r) t p =
      start_when_poisoned r t (push_start r t.buffer) (push_start-Ending r t.buffer) p
  step_when_poisoned (producer_woken i) t p = woken_when_poisoned t (pick i t.blocked) p
  step_when_poisoned (pop_passes expired) t p =
      pop_when_poisoned expired t (pop_pass expired t.buffer) (pop_pass-Ending expired t.buffer) p

  run_when_poisoned :
      (ss : List (Step F)) (t : Threads F) → t.buffer.poisoned ≡ true → IsStuckAt t (run ss t)
  unfolding run
  run_when_poisoned [] t p = record { buffer = refl; took = refl }
  run_when_poisoned (s ∷ ss) t p =
      let k = step_when_poisoned s t p in
      let l = run_when_poisoned ss (step s t) (ap (λ b. b.poisoned) k.buffer ∙ p) in
      record { buffer = l.buffer ∙ k.buffer; took = l.took ∙ k.took }

  push_start-overflow :
      (r : SensorReading F) (b : SharedBuffer F)
      → b.poisoned ≡ false
      → b.fail_on_full ≡ true
      → is_full b ≡ true
      → push_start r b ≡ (poison b, push_panics)
  unfolding push_start
  push_start-overflow r b p o f = ground (arith, p, o, f)

  -- In the mode that panics on a full buffer, a `push` on a full buffer whose lock is sound
  -- panics with the lock held, and no schedule gets past it: the queue and the counters stay,
  -- and nothing more is taken.
  pub overflow_stops :
      (r : SensorReading F) (ss : List (Step F)) (t : Threads F)
      → t.buffer.poisoned ≡ false
      → t.buffer.fail_on_full ≡ true
      → is_full t.buffer ≡ true
      → (run (push_called r ∷ ss) t).buffer ≡ poison t.buffer
        × (run (push_called r ∷ ss) t).took ≡ t.took
  unfolding run step
  overflow_stops r ss t p o f =
      let l =
        run_when_poisoned ss (record t { buffer = poison t.buffer; panicked = suc t.panicked })
          refl in
      rw (run, step, push_start-overflow r t.buffer p o f) (l.buffer, l.took)

  -- Nothing but the waiting goes on: the queue, its state and what was taken stay, and the same
  -- producers are blocked.
  record AreBlockedStill (t t' : Threads F) : Type 0 where
    queue : t'.buffer.queue ≡ t.buffer.queue
    sound : t'.buffer.poisoned ≡ false
    full : is_full t'.buffer ≡ true
    took : t'.took ≡ t.took
    same : Perm t'.blocked t.blocked

  push_while_full :
      (r : SensorReading F) (t : Threads F) (others : List (SensorReading F))
      (passed : SharedBuffer F × PushPass)
      → PushEnding r t.buffer passed
      → Perm (r ∷ others) t.blocked
      → t.buffer.poisoned ≡ false
      → is_full t.buffer ≡ true
      → AreBlockedStill t (after_push r passed (record t { blocked = others }))
  push_while_full r t others passed (after_poison e) h p f = ground (arith, e, p)
  push_while_full r t others passed (while_full e k) h p f = record {
    queue = refl;
    sound = p;
    full = f;
    took = refl;
    same = Perm.trans (perm_append_singleton r others) h;
  }
  push_while_full r t others passed (with_room e k) h p f = ground (arith, f, k)

  woken_while_full :
      (t : Threads F) (picked : Option (SensorReading F × List (SensorReading F)))
      → Picked t.blocked picked
      → t.buffer.poisoned ≡ false
      → is_full t.buffer ≡ true
      → AreBlockedStill t (elim picked [
        | none ↦ t
        | some (r, others) ↦ after_push r (push_pass r t.buffer) (record t { blocked = others })
      ])
  woken_while_full t none h p f = record {
    queue = refl;
    sound = p;
    full = f;
    took = refl;
    same = Perm.refl t.blocked;
  }
  woken_while_full t (some (r, others)) h p f =
      push_while_full r t others (push_pass r t.buffer) (push_pass-Ending r t.buffer) h p f

  run_while_full :
      (is : List ℕ) (t : Threads F)
      → t.buffer.poisoned ≡ false
      → is_full t.buffer ≡ true
      → AreBlockedStill t (run (map producer_woken is) t)
  unfolding run step
  run_while_full [] t p f = record {
    queue = refl;
    sound = p;
    full = f;
    took = refl;
    same = Perm.refl t.blocked;
  }
  run_while_full (i ∷ is) t p f =
      let k = woken_while_full t (pick i t.blocked) (pick-Picked i t.blocked) p f in
      let l = run_while_full is (step (producer_woken i) t) k.sound k.full in
      record {
        queue = l.queue ∙ k.queue;
        sound = l.sound;
        full = l.full;
        took = l.took ∙ k.took;
        same = Perm.trans l.same k.same;
      }

  -- Waking the producers that wait on a full buffer whose lock is sound, however often and in
  -- whatever order, frees none of them: the queue stays, and the same producers are blocked
  -- after it.
  pub wakes_free_nobody :
      (is : List ℕ) (t : Threads F)
      → t.buffer.poisoned ≡ false
      → is_full t.buffer ≡ true
      → (run (map producer_woken is) t).buffer.queue ≡ t.buffer.queue
        × Perm (run (map producer_woken is) t).blocked t.blocked
  wakes_free_nobody is t p f = let k = run_while_full is t p f in (k.queue, k.same)
