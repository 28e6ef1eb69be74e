-- ===== src/Gateway/Reader.antt =====
-- gateway/src/sensor_buffer.rs: the reader thread that `register_sensor` starts, which moves the
-- readings of one sensor into the shared buffer. A turn runs to the end of one look, read or pass of
-- `push`; waiting for data takes no turn of its own.
pub mod Moves
use Prim.Native.String.{String}
use comp2432_project.Prelude.{
  ℕ, Bool, true, false, Option, none, some, List, [], ◌∷◌, Outcome, done, ◌>>=◌, if◌then◌else◌,
  ◌==◌,
}
use comp2432_project.Sensor.{Sensor, Generator, available, read, stop, stop_join}
use comp2432_project.Gateway.Readings.{SensorReading}
use comp2432_project.Gateway.Buffer.{
  SharedBuffer, PushPass, pushed, waits_not_full, push_panics, push_start, push_pass,
}
use comp2432_project.Gateway.Manager.{PerSensor, observe}

-- Where the thread stands: at a test of `running`, before it notes what is available, in the loop
-- that drains the sensor, with a reading to push or blocked in `push`, in `stop`, and at its end.
pub data ReaderPc (F : Type 0) : Type 0 where
  outer_test : ReaderPc F
  observing : ReaderPc F
  inner_test : ReaderPc F
  draining : ReaderPc F
  reading_at : ℕ → ReaderPc F
  pushing : SensorReading F → ReaderPc F
  blocked : SensorReading F → ReaderPc F
  stopping : ReaderPc F
  joining : ReaderPc F
  ended : ReaderPc F
  panicked : ReaderPc F

pub record Reader (F R : Type 0) : Type 0 where
  pub sensor : Sensor R
  pub shared : SharedBuffer F
  pub per_sensor : PerSensor
  pub running : Bool
  pub pc : ReaderPc F

module _ {F : Type 0} where
  -- `stop` returns when the generator thread has been joined.
  abbrev pub joined : Option Generator → ReaderPc F
  joined none = ended
  joined (some thread) = joining

module _ {F R : Type 0} (wrap : R → String → ℕ → ℕ → SensorReading F) where
  abbrev pub after_pass : SensorReading F → SharedBuffer F × PushPass → Reader F R → Reader F R
  after_pass r (b, pushed) t = record t { shared = b; pc = inner_test }
  after_pass r (b, waits_not_full) t = record t { shared = b; pc = blocked r }
  after_pass r (b, push_panics) t = record t { shared = b; pc = panicked }

  abbrev pub after_read : ℕ → ℕ → Option R → Sensor R → Reader F R → Reader F R
  after_read now internal_len (some r) s t = record t {
    sensor = s;
    pc = pushing (wrap r s.id now internal_len);
  }
  after_read now internal_len none s t = record t { sensor = s; pc = outer_test }

  unfoldable pub reader_turn_at : ReaderPc F → ℕ → Reader F R → Outcome (Reader F R)
  reader_turn_at outer_test now t =
      done (record t { pc = if t.running then observing else stopping })
  reader_turn_at observing now t =
      let n = available t.sensor in
      done (record t {
        per_sensor = observe t.sensor.id n t.per_sensor;
        pc = if n == 0 then outer_test else inner_test;
      })
  reader_turn_at inner_test now t =
      done (record t { pc = if t.running then draining else outer_test })
  reader_turn_at draining now t =
      let n = available t.sensor in
      done (record t { pc = if n == 0 then outer_test else reading_at n })
  reader_turn_at (reading_at n) now t =
      read t.sensor >>= (λ (item, s). done (after_read now n item s t))
  reader_turn_at (pushing r) now t = done (after_pass r (push_start r t.shared) t)
  reader_turn_at (blocked r) now t = done (after_pass r (push_pass r t.shared) t)
  reader_turn_at stopping now t = done (record t { sensor = stop t.sensor; pc = joining })
  reader_turn_at joining now t =
      stop_join t.sensor >>= (λ s. done (record t { sensor = s; pc = joined s.handle }))
  reader_turn_at ended now t = done t
  reader_turn_at panicked now t = done t

  -- Turns at the given times.
  pub reader_run : List ℕ → Reader F R → Outcome (Reader F R)
  unfolding reader_turn_at
  reader_run [] t = done t
  reader_run (now ∷ times) t = reader_turn_at t.pc now t >>= reader_run times
