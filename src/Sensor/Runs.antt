-- ===== src/Sensor/Runs.antt =====
-- No order of calls and turns makes a sensor panic.
use comp2432_project.Prelude.{
  ℕ, ◌+◌, ◌%◌, ◌^◌, ◌<◌, ◌≡◌, refl, ◌∙◌, inl, inr, Bool, true, false, Option, none, some, Outcome,
  done, if◌then◌else◌, ◌==◌, arith, Bool-cases,
}
use mathlib.Core.Path.{subst₂}
use Prim.Native.String.{String}
use comp2432_project.RoundQueue.Bounds.{IsValid}
use comp2432_project.RoundQueue.Refine.{try_read-Refines, write_overwrite-Refines}
use comp2432_project.Sensor.{
  Sensor, Generator, looking, measuring, returned, crashed, max_queue_size, start_thread,
  after_sleep, generate, stop, stop_join, read, Event, started, generated, stop_called, joined,
  read_called, step,
}

-- The thread that was started, if any, has not panicked; the sensor holds the writer if there is none.
abbrev pub Handled : Option Generator → Bool → Type 0
Handled none writer = writer ≡ true
Handled (some crashed) writer = ⊥
Handled (some _) writer = Unit {0}

module _ {R : Type 0} where
  pub record IsSound (s : Sensor R) : Type 0 where
    pub valid : IsValid s.queue
    pub size : s.queue.capacity ≡ max_queue_size
    pub paced : 0 < s.rate_per_sec
    pub handled : Handled s.handle s.writer

  -- A call that returns, and leaves a sound sensor.
  pub record Returns (call : Outcome (Sensor R)) : Type 0 where
    pub after : Sensor R
    pub result : call ≡ done after
    pub sound : IsSound after

  Handled-at :
      (s : Sensor R) {h : Option Generator} {w : Bool}
      → s.handle ≡ h
      → s.writer ≡ w
      → IsSound s
      → Handled h w
  Handled-at s e k i = subst₂ Handled e k i.handled

  start_thread-Returns :
      (s : Sensor R) (h : Option Generator) (w : Bool)
      → s.handle ≡ h
      → s.writer ≡ w
      → IsSound s
      → Returns (start_thread s)
  unfolding start_thread
  start_thread-Returns s none true e k i = record {
    after = record s { running = true; writer = false; handle = some looking };
    result = rw (e, k) refl;
    sound = record { valid = i.valid; size = i.size; paced = i.paced; handled = tt };
  }
  start_thread-Returns s none false e k i = ground (arith, Handled-at s e k i)
  start_thread-Returns s (some g) w e k i = record { after = s; result = rw e refl; sound = i }

  generate-Returns :
      (reading : R) (s : Sensor R) (h : Option Generator)
      → s.handle ≡ h
      → IsSound s
      → Returns (generate reading s)
  unfolding generate
  generate-Returns reading s none e i = record { after = s; result = rw e refl; sound = i }
  generate-Returns reading s (some looking) e i = record {
    after = record s { handle = some (if s.running then measuring else returned) };
    result = rw e refl;
    sound = record { valid = i.valid; size = i.size; paced = i.paced; handled = looked s.running };
  }
    where
      looked : (b : Bool) → Handled (some (if b then measuring else returned)) s.writer
      looked true = tt
      looked false = tt
  generate-Returns reading s (some measuring) e i =
      let w = write_overwrite-Refines reading i.valid in
      record {
        after = record s {
          queue = w.after;
          notify_seq = (s.notify_seq + 1) % 2 ^ 64;
          handle = some (after_sleep s.rate_per_sec);
        };
        result = rw (e, w.returned) refl;
        sound = record {
          valid = w.valid;
          size = w.same_capacity ∙ i.size;
          paced = i.paced;
          handled = slept s.rate_per_sec i.paced;
        };
      }
    where
      slept : (n : ℕ) → 0 < n → Handled (some (after_sleep n)) s.writer
      slept n l = elim (Bool-cases (n == 0)) [ inl z ↦ ground (arith, z, l) | inr z ↦ rw z tt ]
  generate-Returns reading s (some returned) e i = record {
    after = s;
    result = rw e refl;
    sound = i;
  }
  generate-Returns reading s (some crashed) e i = record {
    after = s;
    result = rw e refl;
    sound = i;
  }

  stop_join-Returns :
      (s : Sensor R) (h : Option Generator) → s.handle ≡ h → IsSound s → Returns (stop_join s)
  unfolding stop_join
  stop_join-Returns s none e i = record { after = s; result = rw e refl; sound = i }
  stop_join-Returns s (some looking) e i = record { after = s; result = rw e refl; sound = i }
  stop_join-Returns s (some measuring) e i = record { after = s; result = rw e refl; sound = i }
  stop_join-Returns s (some returned) e i = record {
    after = record s { handle = none; writer = true };
    result = rw e refl;
    sound = record { valid = i.valid; size = i.size; paced = i.paced; handled = refl };
  }
  stop_join-Returns s (some crashed) e i = absurd (Handled-at s e refl i)

  pub step-Returns : (ev : Event R) (s : Sensor R) → IsSound s → Returns (step ev s)
  unfolding step stop read
  step-Returns started s i = start_thread-Returns s s.handle s.writer refl refl i
  step-Returns (generated reading) s i = generate-Returns reading s s.handle refl i
  step-Returns stop_called s i = record {
    after = stop s;
    result = refl;
    sound = record { valid = i.valid; size = i.size; paced = i.paced; handled = i.handled };
  }
  step-Returns joined s i = stop_join-Returns s s.handle refl i
  step-Returns read_called s i =
      let r = try_read-Refines i.valid in
      record {
        after = record s { queue = r.after };
        result = rw r.returned refl;
        sound = record {
          valid = r.valid;
          size = r.same_capacity ∙ i.size;
          paced = i.paced;
          handled = i.handled;
        };
      }
