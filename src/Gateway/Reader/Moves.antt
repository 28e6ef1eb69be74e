-- ===== src/Gateway/Reader/Moves.antt =====
-- The reader thread keeps every reading, and their order.
use Prim.Native.String.{String}
use comp2432_project.Prelude.{
  ℕ, ◌≡◌, refl, sym, ap, ◌∙◌, Bool, true, false, Option, none, some, List, [], ◌∷◌, ◌++◌, map,
  arith, append_assoc, Outcome, done, ◌>>=◌, if◌then◌else◌, ◌==◌,
}
use mathlib.Core.List.{map-append}
use comp2432_project.RoundQueue.{try_read}
use comp2432_project.RoundQueue.Fifo as Fifo
use comp2432_project.RoundQueue.Bounds.{IsValid}
use comp2432_project.RoundQueue.Refine.{contents, Refines, try_read-Refines}
use comp2432_project.Sensor.{
  Generator, looking, measuring, returned, crashed, available, read, stop, stop_join,
}
use comp2432_project.Sensor.Runs.{Handled}
use mathlib.Core.Path.{subst}
use comp2432_project.Gateway.Readings.{SensorReading}
use comp2432_project.Gateway.Buffer.{SharedBuffer, PushPass, push_start, push_pass}
use comp2432_project.Gateway.Buffer.Endings.{
  PushEnding, after_poison, while_full, with_room, push_pass-Ending, StartEnding, overflows, passes,
  push_start-Ending,
}
use comp2432_project.Gateway.Reader.{
  ReaderPc, outer_test, observing, inner_test, draining, reading_at, pushing, blocked, stopping,
  joining, joined, ended, panicked, Reader, after_pass, after_read, reader_turn_at, reader_run,
}

module _ {F R : Type 0} (wrap : R → String → ℕ → ℕ → SensorReading F)
    (unwrap : SensorReading F → R) where
  -- The reading that the thread holds.
  abbrev pub held : ReaderPc F → List R
  held (pushing r) = unwrap r ∷ []
  held (blocked r) = unwrap r ∷ []
  held _ = []

  -- What the sensor measured, from the oldest: in the buffer, held, and in the sensor's ring.
  abbrev pub line_up : Reader F R → List R
  line_up t = map unwrap t.shared.queue ++ (held t.pc ++ contents t.sensor.queue)

  -- The lock is sound, a full buffer blocks, the ring is valid, and the generator has not panicked.
  pub record IsReady (t : Reader F R) : Type 0 where
    pub valid : IsValid t.sensor.queue
    pub sound : t.shared.poisoned ≡ false
    pub waits : t.shared.fail_on_full ≡ false
    pub handled : Handled t.sensor.handle t.sensor.writer

  -- The turn returns a reader that is ready and has lost nothing.
  record Keeps (t : Reader F R) (turned : Outcome (Reader F R)) : Type 0 where
    after : Reader F R
    result : turned ≡ done after
    ready : IsReady after
    same : line_up after ≡ line_up t

  -- A turn that moves nothing.
  idle-Keeps :
      (t : Reader F R) (pc : ReaderPc F) (turned : Outcome (Reader F R)) (after : Reader F R)
      → turned ≡ done after
      → IsReady after
      → t.pc ≡ pc
      → held pc ≡ []
      → held after.pc ≡ []
      → after.shared.queue ≡ t.shared.queue
      → contents after.sensor.queue ≡ contents t.sensor.queue
      → Keeps t turned
  idle-Keeps t pc turned after e i at none_before none_after q c = record {
    after = after;
    result = e;
    ready = i;
    same = rw (none_after, at, none_before, q, c) refl;
  }

  pass-Keeps :
      (t : Reader F R) (r : SensorReading F) (passed : SharedBuffer F × PushPass)
      → PushEnding r t.shared passed
      → held t.pc ≡ unwrap r ∷ []
      → IsReady t
      → Keeps t (done (after_pass wrap r passed t))
  pass-Keeps t r passed (after_poison p) at i = ground (arith, p, i.sound)
  pass-Keeps t r passed (while_full p k) at i = record {
    after = after_pass wrap r passed t;
    result = refl;
    ready = record { valid = i.valid; sound = i.sound; waits = i.waits; handled = i.handled };
    same = ap (λ h. map unwrap t.shared.queue ++ (h ++ contents t.sensor.queue)) (sym at);
  }
  pass-Keeps t r passed (with_room p k) at i = record {
    after = after_pass wrap r passed t;
    result = refl;
    ready = record { valid = i.valid; sound = i.sound; waits = i.waits; handled = i.handled };
    same =
        ap (λ xs. xs ++ contents t.sensor.queue) (map-append unwrap t.shared.queue (r ∷ []))
        ∙ append_assoc (map unwrap t.shared.queue) (unwrap r ∷ []) (contents t.sensor.queue)
        ∙ ap (λ h. map unwrap t.shared.queue ++ (h ++ contents t.sensor.queue)) (sym at);
  }

  start-Keeps :
      (t : Reader F R) (r : SensorReading F) (passed : SharedBuffer F × PushPass)
      → StartEnding r t.shared passed
      → held t.pc ≡ unwrap r ∷ []
      → IsReady t
      → Keeps t (done (after_pass wrap r passed t))
  start-Keeps t r passed (overflows p o k) at i = ground (arith, o, i.waits)
  start-Keeps t r passed (passes e) at i = pass-Keeps t r passed e at i

module _ {F R : Type 0} (wrap : R → String → ℕ → ℕ → SensorReading F) (unwrap : SensorReading F → R)
    (unwrap-wrap : (r : R) (id : String) (ts n : ℕ) → unwrap (wrap r id ts n) ≡ r) where
  read-Keeps :
      (n now : ℕ) (t : Reader F R) (xs : List R)
      → contents t.sensor.queue ≡ xs
      → t.pc ≡ reading_at n
      → IsReady wrap unwrap t
      → Keeps wrap unwrap t (read t.sensor >>= (λ (item, s). done (after_read wrap now n item s t)))
  unfolding read
  read-Keeps n now t xs c at i =
      let r : Refines t.sensor.queue (try_read t.sensor.queue) (Fifo.read xs) =
        subst (λ ys. Refines t.sensor.queue (try_read t.sensor.queue) (Fifo.read ys)) c
          (try_read-Refines i.valid) in
      taken xs c r
    where
      taken :
          (ys : List R)
          → contents t.sensor.queue ≡ ys
          → Refines t.sensor.queue (try_read t.sensor.queue) (Fifo.read ys)
          → Keeps wrap unwrap t (
              try_read t.sensor.queue
              >>= (λ (item, queue). done (item, record (t.sensor) { queue = queue }))
              >>= (λ (item, s). done (after_read wrap now n item s t)))
      taken [] e r =
          idle-Keeps wrap unwrap t (reading_at n) _
            (record t { sensor = record (t.sensor) { queue = r.after }; pc = outer_test })
            (rw r.returned refl)
            (record { valid = r.valid; sound = i.sound; waits = i.waits; handled = i.handled }) at
            refl refl refl (r.held ∙ sym e)
      taken (y ∷ ys) e r = record {
        after = record t {
          sensor = record (t.sensor) { queue = r.after };
          pc = pushing (wrap y t.sensor.id now n);
        };
        result = rw r.returned refl;
        ready = record { valid = r.valid; sound = i.sound; waits = i.waits; handled = i.handled };
        same = rw (r.held, unwrap-wrap y t.sensor.id now n, at, e) refl;
      }

  join-Keeps :
      (t : Reader F R) (h : Option Generator)
      → t.sensor.handle ≡ h
      → t.pc ≡ joining
      → IsReady wrap unwrap t
      → Keeps wrap unwrap t
          (stop_join t.sensor >>= (λ s. done (record t { sensor = s; pc = joined s.handle })))
  unfolding stop_join
  join-Keeps t none e at i =
      idle-Keeps wrap unwrap t joining _ (record t { pc = ended }) (rw e refl)
        (record { valid = i.valid; sound = i.sound; waits = i.waits; handled = i.handled }) at refl
        refl refl refl
  join-Keeps t (some looking) e at i =
      idle-Keeps wrap unwrap t joining _ (record t { pc = joining }) (rw e refl)
        (record { valid = i.valid; sound = i.sound; waits = i.waits; handled = i.handled }) at refl
        refl refl refl
  join-Keeps t (some measuring) e at i =
      idle-Keeps wrap unwrap t joining _ (record t { pc = joining }) (rw e refl)
        (record { valid = i.valid; sound = i.sound; waits = i.waits; handled = i.handled }) at refl
        refl refl refl
  join-Keeps t (some returned) e at i =
      idle-Keeps wrap unwrap t joining _
        (record t { sensor = record (t.sensor) { handle = none; writer = true }; pc = ended })
        (rw e refl) (record { valid = i.valid; sound = i.sound; waits = i.waits; handled = refl })
        at refl refl refl refl
  join-Keeps t (some crashed) e at i = absurd (subst (λ h. Handled h t.sensor.writer) e i.handled)

  choice_holds_nothing :
      (b : Bool) (p q : ReaderPc F)
      → held wrap unwrap p ≡ []
      → held wrap unwrap q ≡ []
      → held wrap unwrap (if b then p else q) ≡ []
  choice_holds_nothing true p q h k = h
  choice_holds_nothing false p q h k = k

  -- A turn that only moves the thread on.
  moved-Keeps :
      (t : Reader F R) (pc pc' : ReaderPc F)
      → IsReady wrap unwrap t
      → t.pc ≡ pc
      → held wrap unwrap pc ≡ []
      → held wrap unwrap pc' ≡ []
      → Keeps wrap unwrap t (done (record t { pc = pc' }))
  moved-Keeps t pc pc' i at b a =
      idle-Keeps wrap unwrap t pc _ (record t { pc = pc' }) refl
        (record { valid = i.valid; sound = i.sound; waits = i.waits; handled = i.handled }) at b a
        refl refl

  turn-Keeps :
      (pc : ReaderPc F) (now : ℕ) (t : Reader F R)
      → t.pc ≡ pc
      → IsReady wrap unwrap t
      → Keeps wrap unwrap t (reader_turn_at wrap pc now t)
  unfolding reader_turn_at stop
  turn-Keeps outer_test now t at i =
      moved-Keeps t outer_test _ i at refl
        (choice_holds_nothing t.running observing stopping refl refl)
  turn-Keeps observing now t at i =
      idle-Keeps wrap unwrap t observing _ _ refl
        (record { valid = i.valid; sound = i.sound; waits = i.waits; handled = i.handled }) at refl
        (choice_holds_nothing (available t.sensor == 0) outer_test inner_test refl refl) refl refl
  turn-Keeps inner_test now t at i =
      moved-Keeps t inner_test _ i at refl
        (choice_holds_nothing t.running draining outer_test refl refl)
  turn-Keeps draining now t at i = moved-Keeps t draining _ i at refl (
      choice_holds_nothing (available t.sensor == 0) outer_test (reading_at (available t.sensor))
        refl refl)
  turn-Keeps (reading_at n) now t at i = read-Keeps n now t (contents t.sensor.queue) refl at i
  turn-Keeps (pushing r) now t at i =
      start-Keeps wrap unwrap t r (push_start r t.shared) (push_start-Ending r t.shared)
        (ap (held wrap unwrap) at) i
  turn-Keeps (blocked r) now t at i =
      pass-Keeps wrap unwrap t r (push_pass r t.shared) (push_pass-Ending r t.shared)
        (ap (held wrap unwrap) at) i
  turn-Keeps stopping now t at i =
      idle-Keeps wrap unwrap t stopping _ _ refl
        (record { valid = i.valid; sound = i.sound; waits = i.waits; handled = i.handled }) at refl
        refl refl refl
  turn-Keeps joining now t at i = join-Keeps t t.sensor.handle refl at i
  turn-Keeps ended now t at i =
      idle-Keeps wrap unwrap t ended _ t refl i at refl (ap (held wrap unwrap) at) refl refl
  turn-Keeps panicked now t at i =
      idle-Keeps wrap unwrap t panicked _ t refl i at refl (ap (held wrap unwrap) at) refl refl

  -- The thread moves the readings of its sensor without losing, doubling or reordering one: when
  -- the lock is sound, a full buffer blocks and the ring is valid, then after any turns the
  -- buffer, the reading that the thread holds and the sensor's ring are in line what they were,
  -- every read stays in the ring, and the lock is sound, the ring valid and the generator not
  -- crashed as before. The sensor and other producers rest meanwhile.
  pub reader_run_keeps :
      (times : List ℕ) (t : Reader F R)
      → IsReady wrap unwrap t
      → (after : Reader F R) × (reader_run wrap times t ≡ done after)
        × IsReady wrap unwrap after
        × (line_up wrap unwrap after ≡ line_up wrap unwrap t)
  unfolding reader_run
  reader_run_keeps [] t i = (t, refl, i, refl)
  reader_run_keeps (now ∷ times) t i =
      let k = turn-Keeps t.pc now t refl i in
      let (after, e, ready, same) = reader_run_keeps times k.after k.ready in
      (after, rw (k.result, e) refl, ready, same ∙ k.same)
