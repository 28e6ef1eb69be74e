-- ===== src/Gateway/Buffer/Schedule.antt =====
-- Every schedule of producers and consumers keeps the bound, the order and the counts.
use comp2432_project.Prelude.{
  ℕ, suc, ◌%◌, ◌^◌, ◌≤◌, ◌≡◌, refl, sym, ap, ap₂, ◌∙◌, Bool, false, Option, none, some, List, [],
  ◌∷◌, ◌++◌, append-nil, append_assoc, length, length-append, arith,
}
use comp2432_project.Gateway.Readings.{SensorReading}
use comp2432_project.Gateway.Buffer.{
  SharedBuffer, PushPass, PopPass, fetch_add, is_full, push_pass, push_start, pop_pass, Threads,
  Step, push_called, producer_woken, pop_passes, pick, after_push, after_pop, step, run,
}
use comp2432_project.Gateway.Buffer.Endings.{
  put, PushEnding, after_poison, while_full, with_room, push_pass-Ending, StartEnding, overflows,
  passes, push_start-Ending, rest_of, PopEnding, pop_after_poison, timed_out, on_empty, popped,
  pop_pass-Ending,
}

add_mod : (total n : ℕ) → total ≡ n % 2 ^ 64 → fetch_add total 1 ≡ suc n % 2 ^ 64
add_mod total n e = omega (arith, e)

module _ {F : Type 0} where
  -- What went in before what is still to come: the readings taken, then those queued.
  abbrev pub accepted : Threads F → List (SensorReading F)
  accepted t = t.took ++ t.buffer.queue

  -- The queue is within its capacity, and the counters are right up to their wrap-around.
  pub record IsSound (t : Threads F) : Type 0 where
    pub few : length t.buffer.queue ≤ t.buffer.capacity
    pub pushes : t.buffer.pushed_total ≡ length (accepted t) % 2 ^ 64
    pub pops : t.buffer.popped_total ≡ length t.took % 2 ^ 64

  -- `t'` is sound when `t` is, has the same capacity, and accepted some readings after those of `t`.
  pub record Follows (t t' : Threads F) : Type 0 where
    pub keeps : IsSound t → IsSound t'
    pub same_capacity : t'.buffer.capacity ≡ t.buffer.capacity
    pub newly : List (SensorReading F)
    pub order : accepted t' ≡ accepted t ++ newly

  -- Nothing was put and nothing taken.
  idle-Follows :
      (t t' : Threads F)
      → t'.buffer.queue ≡ t.buffer.queue
      → t'.took ≡ t.took
      → t'.buffer.capacity ≡ t.buffer.capacity
      → t'.buffer.pushed_total ≡ t.buffer.pushed_total
      → t'.buffer.popped_total ≡ t.buffer.popped_total
      → Follows t t'
  idle-Follows t t' q k c u o = record {
    keeps = λ i. record {
      few = rw (q, c) i.few;
      pushes = u ∙ i.pushes ∙ ap (λ xs. length xs % 2 ^ 64) (sym (ap₂ (λ xs ys. xs ++ ys) k q));
      pops = o ∙ i.pops ∙ ap (λ xs. length xs % 2 ^ 64) (sym k);
    };
    same_capacity = c;
    newly = [];
    order = ap₂ (λ xs ys. xs ++ ys) k q ∙ sym (append-nil (accepted t));
  }

  put-Follows :
      (reading : SensorReading F) (t : Threads F)
      → is_full t.buffer ≡ false
      → Follows t (record t { buffer = put reading t.buffer })
  put-Follows reading t room = record {
    keeps = λ i. record {
      few = ground (arith, length-append t.buffer.queue (reading ∷ []));
      pushes =
          add_mod t.buffer.pushed_total (length (accepted t)) i.pushes
          ∙ ap (λ n. n % 2 ^ 64) longer;
      pops = i.pops;
    };
    same_capacity = refl;
    newly = reading ∷ [];
    order = sym (append_assoc t.took t.buffer.queue (reading ∷ []));
  }
    where
      longer : suc (length (accepted t)) ≡ length (t.took ++ (t.buffer.queue ++ reading ∷ []))
      longer = omega (
        arith,
        length-append t.took t.buffer.queue,
        length-append t.buffer.queue (reading ∷ []),
        length-append t.took (t.buffer.queue ++ reading ∷ []),
      )

  after_push-Follows :
      (reading : SensorReading F) (t : Threads F) (passed : SharedBuffer F × PushPass)
      → PushEnding reading t.buffer passed
      → Follows t (after_push reading passed t)
  after_push-Follows reading t passed (after_poison e) = idle-Follows t _ refl refl refl refl refl
  after_push-Follows reading t passed (while_full e k) = idle-Follows t _ refl refl refl refl refl
  after_push-Follows reading t passed (with_room e k) = put-Follows reading t k

  after_start-Follows :
      (reading : SensorReading F) (t : Threads F) (passed : SharedBuffer F × PushPass)
      → StartEnding reading t.buffer passed
      → Follows t (after_push reading passed t)
  after_start-Follows reading t passed (overflows e h k) = idle-Follows t _ refl refl refl refl refl
  after_start-Follows reading t passed (passes e) = after_push-Follows reading t passed e

  take_one-Follows :
      (t : Threads F) (val : SensorReading F) (rest : List (SensorReading F))
      → t.buffer.queue ≡ val ∷ rest
      → Follows t (record t { buffer = rest_of rest t.buffer; took = t.took ++ val ∷ [] })
  take_one-Follows t val rest e = record {
    keeps = λ i. record {
      few = ground (arith, ap length e, i.few);
      pushes = i.pushes ∙ ap (λ xs. length xs % 2 ^ 64) (sym same);
      pops =
          add_mod t.buffer.popped_total (length t.took) i.pops
          ∙ ap (λ n. n % 2 ^ 64) (omega (arith, length-append t.took (val ∷ [])));
    };
    same_capacity = refl;
    newly = [];
    order = same ∙ sym (append-nil (accepted t));
  }
    where
      same : (t.took ++ val ∷ []) ++ rest ≡ accepted t
      same = append_assoc t.took (val ∷ []) rest ∙ ap (λ q. t.took ++ q) (sym e)

  after_pop-Follows :
      (expired : Bool) (t : Threads F) (passed : SharedBuffer F × PopPass F)
      → PopEnding expired t.buffer passed
      → Follows t (after_pop passed t)
  after_pop-Follows expired t passed (pop_after_poison e) =
      idle-Follows t _ refl refl refl refl refl
  after_pop-Follows expired t passed (timed_out e k h) = idle-Follows t _ refl refl refl refl refl
  after_pop-Follows expired t passed (on_empty e k h) = idle-Follows t _ refl refl refl refl refl
  after_pop-Follows expired t passed (popped val rest e k) = take_one-Follows t val rest k

  step-Follows : (s : Step F) (t : Threads F) → Follows t (step s t)
  unfolding step
  step-Follows (push_called reading) t =
      after_start-Follows reading t (push_start reading t.buffer)
        (push_start-Ending reading t.buffer)
  step-Follows (producer_woken i) t = woken (pick i t.blocked)
    where
      woken :
          (picked : Option (SensorReading F × List (SensorReading F)))
          → Follows t (elim picked [
            | none ↦ t
            | some (reading, others) ↦
                after_push reading (push_pass reading t.buffer) (record t { blocked = others })
          ])
      woken none = idle-Follows t t refl refl refl refl refl
      woken (some (reading, others)) =
          let f =
            after_push-Follows reading (record t { blocked = others }) (push_pass reading t.buffer)
              (push_pass-Ending reading t.buffer) in
          record {
            keeps = λ i. f.keeps (record { few = i.few; pushes = i.pushes; pops = i.pops });
            same_capacity = f.same_capacity;
            newly = f.newly;
            order = f.order;
          }
  step-Follows (pop_passes expired) t =
      after_pop-Follows expired t (pop_pass expired t.buffer) (pop_pass-Ending expired t.buffer)

  run-Follows : (ss : List (Step F)) (t : Threads F) → Follows t (run ss t)
  unfolding run
  run-Follows [] t = idle-Follows t t refl refl refl refl refl
  run-Follows (s ∷ ss) t =
      let f = step-Follows s t in
      let g = run-Follows ss (step s t) in
      record {
        keeps = λ i. g.keeps (f.keeps i);
        same_capacity = g.same_capacity ∙ f.same_capacity;
        newly = f.newly ++ g.newly;
        order =
            g.order ∙ ap (λ xs. xs ++ g.newly) f.order ∙ append_assoc (accepted t) f.newly g.newly;
      }

  -- From a queue within its capacity with counters that are right up to their wrap-around, every
  -- schedule of producers and consumers leads to one: the capacity stays, and the readings come
  -- out in the order in which they went in, since those taken and those queued at the end are
  -- those at the start and the ones put since.
  pub run-IsSound :
      (ss : List (Step F)) (t : Threads F)
      → IsSound t
      → IsSound (run ss t)
        × (run ss t).buffer.capacity ≡ t.buffer.capacity
        × (newly : List (SensorReading F)) × accepted (run ss t) ≡ accepted t ++ newly
  run-IsSound ss t i = let f = run-Follows ss t in (f.keeps i, f.same_capacity, f.newly, f.order)
