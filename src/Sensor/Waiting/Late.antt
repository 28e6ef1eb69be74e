-- ===== src/Sensor/Waiting/Late.antt =====
-- A notice that comes between the waiter's test and its sleep is missed.
use comp2432_project.Prelude.{
  ℕ, ◌+◌, ◌%◌, ◌^◌, ◌<◌, ◌≤◌, ◌≡◌, refl, ◌⊎◌, List, [], ◌∷◌, ◌++◌, replicate, zero, suc, done, ◌-◌,
  ap, ◌∙◌, true, lt→ltb, arith, length, length-append, length-drop, ltb, Bool-cases, inl, inr,
  false,
}
use comp2432_project.RoundQueue.{len}
use comp2432_project.RoundQueue.Fifo as Fifo
use comp2432_project.RoundQueue.Bounds.{IsValid}
use comp2432_project.RoundQueue.Refine.{contents, length-contents, write_overwrite-Refines}
use comp2432_project.Sensor.{available, keeps_waiting, Sensor}
use comp2432_project.Sensor.Waiting.{
  NotifierPc, writing, counting, notifying, WaiterPc, dozing, asleep, Waiting, Event, notifier_turn,
  waiter_turn, timeout, answered, notifier_step, waiter_step, step, run,
}

-- The turns of the generator before the one that notifies.
abbrev turns_to_notice : NotifierPc → ℕ
turns_to_notice writing = 2
turns_to_notice counting = 1
turns_to_notice notifying = 0

is_notifying : (pc : NotifierPc) → turns_to_notice pc ≡ 0 → pc ≡ notifying
is_notifying writing e = absurd (omega (arith, e))
is_notifying counting e = absurd (omega (arith, e))
is_notifying notifying e = refl

-- The waiter has seen no reading, and is about to sleep or asleep.
abbrev pub Waits : ℕ → WaiterPc → Type 0
Waits last pc = (pc ≡ dozing last) ⊎ (pc ≡ asleep last)

module _ {R : Type 0} where
  abbrev pub notifier_turns : List (Event R) → ℕ
  notifier_turns [] = 0
  notifier_turns (notifier_turn reading ∷ es) = suc (notifier_turns es)
  notifier_turns (waiter_turn ∷ es) = notifier_turns es
  notifier_turns (timeout ∷ es) = notifier_turns es

  abbrev pub HasNoTimeout : List (Event R) → Type 0
  HasNoTimeout [] = Unit {0}
  HasNoTimeout (notifier_turn reading ∷ es) = HasNoTimeout es
  HasNoTimeout (waiter_turn ∷ es) = HasNoTimeout es
  HasNoTimeout (timeout ∷ es) = ⊥

  -- A ring that keeps what is written, with a reading in it.
  record IsStocked (s : Sensor R) : Type 0 where
    valid : IsValid s.queue
    wide : 1 < s.queue.capacity
    there : 0 < len s.queue

  write-positive : (room : ℕ) (v : R) (xs : List R) → 0 < room → 0 < length (Fifo.write room v xs).1
  write-positive room v xs h = elim (Bool-cases (ltb (length xs) room)) [
    | inl e ↦ rw e (omega (arith, length-append xs (v ∷ [])))
    | inr e ↦ rw e (ground (arith, e, length-append xs (v ∷ []), length-drop 1 (xs ++ v ∷ [])))
  ]

  after_write :
      (reading : R) (s : Sensor R) (valid : IsValid s.queue)
      → 1 < s.queue.capacity
      → IsStocked (record s { queue = (write_overwrite-Refines reading valid).after })
  after_write reading s valid wide =
      let r = write_overwrite-Refines reading valid in
      record {
        valid = r.valid;
        wide = omega (arith, r.same_capacity, wide);
        there = omega (
          arith,
          ap length r.held,
          length-contents r.valid,
          write-positive (s.queue.capacity - 1) reading (contents s.queue) (omega (arith, wide)),
        );
      }

  -- A turn of the generator before its notice.
  notifier-IsStocked :
      (n : ℕ) (pc : NotifierPc) (reading : R) (w : Waiting R)
      → turns_to_notice pc ≡ suc n
      → IsStocked w.sensor
      → (later : Waiting R) × (notifier_step pc reading w ≡ done later)
        × IsStocked later.sensor
        × (later.waiter ≡ w.waiter)
        × (turns_to_notice later.notifier ≡ n)
  unfolding notifier_step
  notifier-IsStocked n writing reading w e s = (
    record w {
      sensor = record (w.sensor) { queue = (write_overwrite-Refines reading s.valid).after };
      notifier = counting;
    },
    rw (write_overwrite-Refines reading s.valid).returned refl,
    after_write reading w.sensor s.valid s.wide,
    refl,
    omega (arith, e),
  )
  notifier-IsStocked n counting reading w e s = (
    record w {
      sensor = record (w.sensor) { notify_seq = (w.sensor.notify_seq + 1) % 2 ^ 64 };
      notifier = notifying;
    },
    refl,
    record { valid = s.valid; wide = s.wide; there = s.there },
    refl,
    omega (arith, e),
  )
  notifier-IsStocked n notifying reading w e s = absurd (omega (arith, e))

  waiter_step-Waits :
      (last : ℕ) (pc : WaiterPc) (s : Sensor R) → Waits last pc → waiter_step pc s ≡ asleep last
  unfolding waiter_step
  waiter_step-Waits last pc s (inl e) = rw e refl
  waiter_step-Waits last pc s (inr e) = rw e refl

  run-Waits :
      (last : ℕ) (es : List (Event R)) (w : Waiting R)
      → HasNoTimeout es
      → notifier_turns es ≤ turns_to_notice w.notifier
      → IsStocked w.sensor
      → Waits last w.waiter
      → (later : Waiting R) × (run es w ≡ done later)
        × IsStocked later.sensor
        × Waits last later.waiter
        × (turns_to_notice later.notifier + notifier_turns es ≡ turns_to_notice w.notifier)
  unfolding run step
  run-Waits last [] w quiet few s waits = (w, refl, s, waits, omega arith)
  run-Waits last (notifier_turn reading ∷ es) w quiet few s waits =
      let (next, stepped, stocked, same, turns) =
        notifier-IsStocked (turns_to_notice w.notifier - 1) w.notifier reading w
          (omega (arith, few)) s in
      let (later, ran, stocked', waits', turns') =
        run-Waits last es next quiet (omega (arith, few, turns)) stocked (rw same waits) in
      (later, rw stepped ran, stocked', waits', omega (arith, few, turns, turns'))
  run-Waits last (waiter_turn ∷ es) w quiet few s waits =
      run-Waits last es (record w { waiter = waiter_step w.waiter w.sensor }) quiet few s
        (inr (waiter_step-Waits last w.waiter w.sensor waits))
  run-Waits last (timeout ∷ es) w quiet few s waits = absurd quiet

  stops_waiting : (last : ℕ) (s : Sensor R) → 0 < len s.queue → keeps_waiting last s ≡ false
  unfolding keeps_waiting available
  stops_waiting last s h = ground arith

  -- The turns of the generator up to its notice, and those of the waiter behind it.
  notice_wakes :
      (n last : ℕ) (reading : R) (w : Waiting R)
      → turns_to_notice w.notifier ≡ n
      → IsStocked w.sensor
      → w.waiter ≡ asleep last
      → (woken : Waiting R) × (run
            (replicate (suc n) (notifier_turn reading) ++ waiter_turn ∷ waiter_turn ∷ [])
            w
          ≡ done woken)
        × (woken.waiter ≡ answered true)
  unfolding run step notifier_step waiter_step available
  notice_wakes zero last reading w turns s sleeps = (
    record w { notifier = writing; waiter = answered true },
    rw
        (
          is_notifying w.notifier turns,
          notifier_step,
          sleeps,
          stops_waiting last w.sensor s.there,
          lt→ltb 0 (len w.sensor.queue) s.there,
        )
        refl,
    refl,
  )
  notice_wakes (suc n) last reading w turns s sleeps =
      let (next, stepped, stocked, same, turns') =
        notifier-IsStocked n w.notifier reading w turns s in
      let (woken, ran, answers) = notice_wakes n last reading next turns' stocked (same ∙ sleeps) in
      (woken, rw stepped ran, answers)

  timeout_wakes :
      (last : ℕ) (w : Waiting R)
      → IsStocked w.sensor
      → Waits last w.waiter
      → run (waiter_turn ∷ timeout ∷ waiter_turn ∷ []) w
        ≡ done (record w { waiter = answered true })
  unfolding run step waiter_step available
  timeout_wakes last w s waits =
      rw (waiter_step-Waits last w.waiter w.sensor waits, lt→ltb 0 (len w.sensor.queue) s.there)
        refl

  -- When the generator writes a reading, counts it and notifies between the waiter's test and its
  -- sleep, the notice is missed: in every schedule of the waiter's turns and of those that the
  -- generator takes before its next notice the waiter gives no answer, although a reading is
  -- available, as long as its timeout does not end. After such a schedule the end of the timeout and
  -- the generator's next notice each make it answer that there is data. The ring is valid and its
  -- capacity is over 1, so that it holds what is written.
  pub late_waiter_sleeps :
      (w : Waiting R) (last : ℕ) (reading : R) (es : List (Event R))
      → IsValid w.sensor.queue
      → 1 < w.sensor.queue.capacity
      → w.notifier ≡ writing
      → w.waiter ≡ dozing last
      → HasNoTimeout es
      → notifier_turns es ≤ 2
      → (later : Waiting R) × (run
            (notifier_turn reading ∷ notifier_turn reading ∷ notifier_turn reading ∷ es)
            w
          ≡ done later)
        × Waits last later.waiter
        × (0 < available later.sensor)
        × (run (waiter_turn ∷ timeout ∷ waiter_turn ∷ []) later
            ≡ done (record later { waiter = answered true }))
        × (woken : Waiting R) × (run
              (waiter_turn ∷ replicate (3 - notifier_turns es) (notifier_turn reading)
                ++ waiter_turn ∷ waiter_turn ∷ [])
              later
            ≡ done woken)
        × (woken.waiter ≡ answered true)
  unfolding run step notifier_step available
  late_waiter_sleeps w last reading es valid wide at dozes quiet few =
      let written = after_write reading w.sensor valid wide in
      let missed : Waiting R = record {
        sensor = record (w.sensor) {
          queue = (write_overwrite-Refines reading valid).after;
          notify_seq = (w.sensor.notify_seq + 1) % 2 ^ 64;
        };
        notifier = writing;
        waiter = dozing last;
      } in
      let (later, ran, stocked, waits, turns) =
        run-Waits last es missed quiet few
          (record { valid = written.valid; wide = written.wide; there = written.there })
          (inl refl) in
      let (woken, woke, answers) =
        notice_wakes (turns_to_notice later.notifier) last reading
          (record later { waiter = asleep last }) refl
          (record { valid = stocked.valid; wide = stocked.wide; there = stocked.there }) refl in
      let left : 3 - notifier_turns es ≡ suc (turns_to_notice later.notifier) =
        omega (arith, turns, few) in
      (
        later,
        rw (at, notifier_step, (write_overwrite-Refines reading valid).returned, dozes) ran,
        waits,
        stocked.there,
        timeout_wakes last later stocked waits,
        woken,
        rw (left, waiter_step-Waits last later.waiter later.sensor waits) woke,
        answers,
      )
