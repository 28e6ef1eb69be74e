-- ===== src/Gateway/Aggregation/Workers.antt =====
-- gateway/src/aggregation.rs: the loop of a worker thread, cut into turns, and schedules of them.
-- `storage.write` that returns appends a frame to `written`.
pub mod Turns
pub mod Drained
pub mod Ends
use comp2432_project.Prelude.{
  ℕ, zero, suc, ◌+◌, Bool, true, false, Option, none, some, List, [], ◌∷◌, ◌++◌, get_elem?, set,
  if◌then◌else◌,
}
use comp2432_project.Prelude.Floats.{FloatOps}
use comp2432_project.Models.{AggregatedFrame}
use comp2432_project.Gateway.Readings.{SensorReading}
use comp2432_project.Gateway.Buffer.{
  SharedBuffer, PopPass, returned, waits_not_empty, pop_panics, pop_pass, len,
}
use comp2432_project.Gateway.Stats.{BySensor, make_frame}
use comp2432_project.Gateway.Aggregation.{Pending, Claimed, add_u64, file_reading, claim_ready}

-- What does not change while the engine runs.
pub record Settings (F : Type 0) : Type 0 where
  pub window_ms : ℕ
  pub grace_ms : ℕ
  pub anomaly_threshold : F

pub record Shared (F : Type 0) : Type 0 where
  pub buffer : SharedBuffer F
  pub shutdown : Bool
  pub pending : Pending F
  pub frame_id : ℕ
  pub written : List (AggregatedFrame F)

-- Where a worker stands in its loop, with what it holds there.
pub data WorkerPc (F : Type 0) : Type 0 where
  at_top : WorkerPc F
  taking_windows : WorkerPc F
  closing : Pending F → WorkerPc F
  exited : WorkerPc F
  pulling : WorkerPc F
  holding : SensorReading F → WorkerPc F
  claiming : WorkerPc F
  writing : List (Claimed F) → WorkerPc F
  panicked : WorkerPc F

pub record Engine (F : Type 0) : Type 0 where
  pub shared : Shared F
  pub workers : List (WorkerPc F)

-- A turn of the worker with that number, at a time and with or without the end of its timeout, or
-- the store in `AggregationEngine::shutdown`.
pub data Turn : Type 0 where
  worker_turn : (i : ℕ) → (now_ms : ℕ) → (expired : Bool) → Turn
  shutdown_called : Turn

module _ {F : Type 0} where
  abbrev pub after_len : Option ℕ → WorkerPc F
  after_len none = panicked
  after_len (some zero) = taking_windows
  after_len (some (suc n)) = pulling

  abbrev pub after_pass : SharedBuffer F × PopPass F → Shared F → Shared F × WorkerPc F
  after_pass (b, returned (some r)) e = (record e { buffer = b }, holding r)
  after_pass (b, returned none) e = (record e { buffer = b }, claiming)
  after_pass (b, waits_not_empty) e = (record e { buffer = b }, pulling)
  after_pass (b, pop_panics) e = (record e { buffer = b }, panicked)

module _ {F : Type 0} (f : FloatOps F) (cfg : Settings F) where
  abbrev pub write_window : ℕ → ℕ → BySensor F → List (AggregatedFrame F) → List (AggregatedFrame F)
  write_window fid ws m written =
      written ++ make_frame f fid ws (add_u64 ws cfg.window_ms) m cfg.anomaly_threshold ∷ []

  unfoldable pub turn : ℕ → Bool → WorkerPc F → Shared F → Shared F × WorkerPc F
  turn now_ms expired at_top e = (e, if e.shutdown then after_len (len e.buffer) else pulling)
  turn now_ms expired taking_windows e = (record e { pending = [] }, closing e.pending)
  turn now_ms expired (closing []) e = (e, exited)
  turn now_ms expired (closing ((ws, m) ∷ windows)) e = (
    record e { frame_id = add_u64 e.frame_id 1; written = write_window e.frame_id ws m e.written },
    closing windows,
  )
  turn now_ms expired exited e = (e, exited)
  turn now_ms expired pulling e = after_pass (pop_pass expired e.buffer) e
  turn now_ms expired (holding r) e =
      (record e { pending = file_reading cfg.window_ms r e.pending }, claiming)
  turn now_ms expired claiming e =
      let (out, later, next) = claim_ready cfg.window_ms cfg.grace_ms now_ms e.frame_id e.pending in
      (record e { pending = later; frame_id = next }, writing out)
  turn now_ms expired (writing []) e = (e, at_top)
  turn now_ms expired (writing (c ∷ ready)) e =
      (record e { written = write_window c.fid c.ws c.readings_by_sensor e.written }, writing ready)
  turn now_ms expired panicked e = (e, panicked)

  abbrev pub settle : ℕ → List (WorkerPc F) → Shared F × WorkerPc F → Engine F
  settle i pcs (e, pc) = record { shared = e; workers = set pcs i pc }

  unfoldable pub step : Turn → Engine F → Engine F
  unfolding turn
  step (worker_turn i now_ms expired) e = elim (get_elem? e.workers i) [
    | none ↦ e
    | some pc ↦ settle i e.workers (turn now_ms expired pc e.shared)
  ]
  step shutdown_called e = record e { shared = record e.shared { shutdown = true } }

  unfoldable pub run : List Turn → Engine F → Engine F
  unfolding step
  run [] e = e
  run (t ∷ ts) e = run ts (step t e)
