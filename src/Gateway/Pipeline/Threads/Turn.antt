-- ===== src/Gateway/Pipeline/Threads/Turn.antt =====
-- The turns of a reader thread, from each place where it can stand.
use Prim.Native.String.{String}
use comp2432_project.Prelude.{
  ℕ, ◌≡◌, refl, ap, ◌∙◌, Option, none, some, List, [], ◌∷◌, ◌++◌, append-nil, arith, done, ◌>>=◌,
  ◌==◌,
}
use comp2432_project.RoundQueue.{try_read}
use comp2432_project.RoundQueue.Fifo as Fifo
use comp2432_project.RoundQueue.Refine.{contents, Refines, try_read-Refines}
use comp2432_project.Sensor.{
  Sensor, Generator, looking, measuring, returned, crashed, available, generate, read, stop,
  stop_join, generated, stop_called, joined,
}
use comp2432_project.Sensor as Sensor
use comp2432_project.Sensor.Runs.{step-Returns}
use comp2432_project.Gateway.Readings.{SensorReading}
use comp2432_project.Gateway.Buffer.{SharedBuffer, PushPass, push_start, push_pass}
use comp2432_project.Gateway.Buffer.Endings.{
  PushEnding, after_poison, while_full, with_room, push_pass-Ending, StartEnding, overflows, passes,
  push_start-Ending,
}
use comp2432_project.Gateway.Reader.{
  ReaderPc, outer_test, observing, inner_test, draining, reading_at, pushing, blocked, stopping,
  joining, ended, panicked, Reader, after_pass, after_read, reader_turn_at,
}
use comp2432_project.Gateway.Reader as Reader
use comp2432_project.Gateway.Pipeline.{took}
use comp2432_project.Gateway.Pipeline.Threads.{
  held, Rests, IsCalm, choice-IsCalm, choice_is_empty-held, IsOpen, Turned, quiet-Turned,
}

module _ {F R : Type 0} (wrap : R → String → ℕ → ℕ → SensorReading F) where
  pass-Turned :
      (pc : ReaderPc F) (t : Reader F R) (r : SensorReading F) (passed : SharedBuffer F × PushPass)
      → PushEnding r t.shared passed
      → held pc ≡ r ∷ []
      → ((pc' : ReaderPc F) → took pc pc' ≡ [])
      → ((pc' : ReaderPc F) (q q' : List (SensorReading F)) → Rests pc q pc' q')
      → IsOpen t
      → Turned pc t (done (after_pass wrap r passed t))
  pass-Turned pc t r passed (after_poison p) h k l o = ground (arith, p, o.sound)
  pass-Turned pc t r passed (while_full p full) h k l o = record {
    after = after_pass wrap r passed t;
    result = refl;
    stays = record { sensor_sound = o.sensor_sound; sound = o.sound; waits = o.waits };
    same = rw (h, k (blocked r)) refl;
    rests = l (blocked r) t.shared.queue t.shared.queue;
    calm = λ h. tt;
  }
  pass-Turned pc t r passed (with_room p room) h k l o = record {
    after = after_pass wrap r passed t;
    result = refl;
    stays = record { sensor_sound = o.sensor_sound; sound = o.sound; waits = o.waits };
    same = rw (h, k inner_test) (append-nil (t.shared.queue ++ r ∷ []));
    rests = l inner_test t.shared.queue (t.shared.queue ++ r ∷ []);
    calm = λ h. tt;
  }

  start-Turned :
      (t : Reader F R) (r : SensorReading F) (passed : SharedBuffer F × PushPass)
      → StartEnding r t.shared passed
      → IsOpen t
      → Turned (pushing r) t (done (after_pass wrap r passed t))
  start-Turned t r passed (overflows p o k) i = ground (arith, o, i.waits)
  start-Turned t r passed (passes e) i =
      pass-Turned (pushing r) t r passed e refl (λ pc. refl) (λ pc q q'. tt) i

  read-Turned :
      (n now : ℕ) (t : Reader F R)
      → IsOpen t
      → Turned
          (reading_at n)
          t
          (read t.sensor >>= (λ (item, s). done (after_read wrap now n item s t)))
  unfolding read
  read-Turned n now t o = taken (contents t.sensor.queue) (try_read-Refines o.sensor_sound.valid)
    where
      taken :
          (xs : List R)
          → Refines t.sensor.queue (try_read t.sensor.queue) (Fifo.read xs)
          → Turned (reading_at n) t (
              try_read t.sensor.queue
              >>= (λ (item, queue). done (item, record (t.sensor) { queue = queue }))
              >>= (λ (item, s). done (after_read wrap now n item s t)))
      taken [] r =
          quiet-Turned (reading_at n) t _
            (record t { sensor = record (t.sensor) { queue = r.after }; pc = outer_test })
            (rw r.returned refl)
            (record {
              sensor_sound = record {
                valid = r.valid;
                size = r.same_capacity ∙ o.sensor_sound.size;
                paced = o.sensor_sound.paced;
                handled = o.sensor_sound.handled;
              };
              sound = o.sound;
              waits = o.waits;
            })
            refl refl refl refl tt (λ h. tt)
      taken (y ∷ ys) r = record {
        after = record t {
          sensor = record (t.sensor) { queue = r.after };
          pc = pushing (wrap y t.sensor.id now n);
        };
        result = rw r.returned refl;
        stays = record {
          sensor_sound = record {
            valid = r.valid;
            size = r.same_capacity ∙ o.sensor_sound.size;
            paced = o.sensor_sound.paced;
            handled = o.sensor_sound.handled;
          };
          sound = o.sound;
          waits = o.waits;
        };
        same = refl;
        rests = tt;
        calm = λ h. tt;
      }

  joined_is_empty-held : (h : Option Generator) → held {F = F} (Reader.joined h) ≡ []
  joined_is_empty-held none = refl
  joined_is_empty-held (some g) = refl

  joined-IsCalm : (h : Option Generator) → IsCalm {F = F} (Reader.joined h)
  joined-IsCalm none = tt
  joined-IsCalm (some g) = tt

  pub turn-Turned :
      (pc : ReaderPc F) (now : ℕ) (t : Reader F R)
      → t.pc ≡ pc
      → IsOpen t
      → Turned pc t (reader_turn_at wrap pc now t)
  unfolding reader_turn_at stop Sensor.step
  turn-Turned outer_test now t at o =
      quiet-Turned outer_test t _ _ refl
        (record { sensor_sound = o.sensor_sound; sound = o.sound; waits = o.waits })
        (choice_is_empty-held t.running observing stopping refl refl) refl refl refl tt
        (λ h. choice-IsCalm t.running observing stopping tt tt)
  turn-Turned observing now t at o =
      quiet-Turned observing t _ _ refl
        (record { sensor_sound = o.sensor_sound; sound = o.sound; waits = o.waits })
        (choice_is_empty-held (available t.sensor == 0) outer_test inner_test refl refl) refl refl
        refl tt (λ h. choice-IsCalm (available t.sensor == 0) outer_test inner_test tt tt)
  turn-Turned inner_test now t at o =
      quiet-Turned inner_test t _ _ refl
        (record { sensor_sound = o.sensor_sound; sound = o.sound; waits = o.waits })
        (choice_is_empty-held t.running draining outer_test refl refl) refl refl refl tt
        (λ h. choice-IsCalm t.running draining outer_test tt tt)
  turn-Turned draining now t at o =
      quiet-Turned draining t _ _ refl
        (record { sensor_sound = o.sensor_sound; sound = o.sound; waits = o.waits })
        (choice_is_empty-held (available t.sensor == 0) outer_test (reading_at (available t.sensor))
          refl refl)
        refl refl refl tt
        (λ h.
          choice-IsCalm (available t.sensor == 0) outer_test (reading_at (available t.sensor)) tt
            tt)
  turn-Turned (reading_at n) now t at o = read-Turned n now t o
  turn-Turned (pushing r) now t at o =
      start-Turned t r (push_start r t.shared) (push_start-Ending r t.shared) o
  turn-Turned (blocked r) now t at o =
      pass-Turned (blocked r) t r (push_pass r t.shared) (push_pass-Ending r t.shared) refl
        (λ pc. refl) (λ pc q q'. tt) o
  turn-Turned stopping now t at o =
      quiet-Turned stopping t _ _ refl
        (record {
          sensor_sound = record {
            valid = o.sensor_sound.valid;
            size = o.sensor_sound.size;
            paced = o.sensor_sound.paced;
            handled = o.sensor_sound.handled;
          };
          sound = o.sound;
          waits = o.waits;
        })
        refl refl refl refl tt (λ h. tt)
  turn-Turned joining now t at o =
      let r = step-Returns joined t.sensor o.sensor_sound in
      quiet-Turned joining t _ (record t { sensor = r.after; pc = Reader.joined r.after.handle })
        (rw r.result refl) (record { sensor_sound = r.sound; sound = o.sound; waits = o.waits })
        (joined_is_empty-held r.after.handle) refl refl refl tt (λ h. joined-IsCalm r.after.handle)
  turn-Turned ended now t at o = record {
    after = t;
    result = refl;
    stays = o;
    same = rw at refl;
    rests = (at, refl);
    calm = λ h. rw at tt;
  }
  turn-Turned panicked now t at o =
      quiet-Turned panicked t _ t refl o (ap held at) refl refl refl tt (λ h. absurd h)
