-- ===== src/Gateway/Aggregation/Workers/Ends.antt =====
-- After the shutdown the workers come to their end.
use Prim.Native.String.{String}
use comp2432_project.Prelude.{
  ℕ, zero, suc, ◌+◌, ◌*◌, ◌≤◌, ◌<◌, ◌≡◌, refl, sym, ap, ◌⊎◌, inl, inr, true, false, some, List, [],
  ◌∷◌, length, length-set, get_elem?, set, if◌then◌else◌, ◌==◌, ltb, leb, arith, Bool-cases,
}
use comp2432_project.Prelude.Floats.{FloatOps}
use comp2432_project.Gateway.Readings.{SensorReading}
use comp2432_project.Gateway.Buffer.{SharedBuffer, PopPass, pop_pass, len}
use comp2432_project.Gateway.Buffer.Endings.{
  PopEnding, pop_after_poison, timed_out, on_empty, popped, pop_pass-Ending, len_sound,
}
use comp2432_project.Gateway.Aggregation.{Pending, bucket, file_reading, claim_ready, add_u64}
use comp2432_project.Gateway.Aggregation.Weights.{total, total-set}
use comp2432_project.Gateway.Aggregation.Workers.{
  Settings, Shared, WorkerPc, at_top, taking_windows, closing, exited, pulling, holding, claiming,
  writing, panicked, Engine, Turn, worker_turn, after_len, after_pass, turn, step,
}

abbrev pub budget : ℕ → ℕ → ℕ
budget workers zero = 0
budget workers (suc q) = 10 + 4 * workers + budget workers q

module _ {F : Type 0} where
  length-bucket :
      (ws : ℕ) (id : String) (r : SensorReading F) (p : Pending F)
      → length (bucket ws id r p) ≤ suc (length p)
  unfolding bucket
  length-bucket ws id r [] = omega arith
  length-bucket ws id r ((v, m) ∷ rest) = elim (Bool-cases (v == ws)) [
    | inl e ↦ rw e (omega arith)
    | inr e ↦ elim (Bool-cases (ltb ws v)) [
      | inl l ↦ rw (e, l) (omega arith)
      | inr l ↦ rw (e, l) (omega (arith, length-bucket ws id r rest))
    ]
  ]

  length-file_reading :
      (window_ms : ℕ) (r : SensorReading F) (p : Pending F)
      → length (file_reading window_ms r p) ≤ suc (length p)
  unfolding file_reading
  length-file_reading window_ms r p = length-bucket _ _ r p

  length-claim_ready :
      (window_ms grace_ms now_ms frame_id : ℕ) (p : Pending F)
      → length (claim_ready window_ms grace_ms now_ms frame_id p).0
          + length (claim_ready window_ms grace_ms now_ms frame_id p).1
        ≡ length p
  unfolding claim_ready
  length-claim_ready window_ms grace_ms now_ms frame_id [] = refl
  length-claim_ready window_ms grace_ms now_ms frame_id ((ws, m) ∷ rest) =
      elim (Bool-cases (leb (add_u64 (add_u64 ws window_ms) grace_ms) now_ms)) [
        | inl e ↦
            rw e (
              omega (arith, length-claim_ready window_ms grace_ms now_ms (add_u64 frame_id 1) rest))
        | inr e ↦ rw e (omega arith)
      ]

  -- How far a worker is from its exit, with that many readings in the buffer.
  abbrev pub rank : ℕ → WorkerPc F → ℕ
  rank q at_top = 4
  rank q taking_windows = 3
  rank q (closing windows) = 2 + length windows
  rank q exited = 0
  rank zero pulling = 7
  rank (suc q) pulling = 3
  rank q (holding r) = 8
  rank q claiming = 6
  rank q (writing ready) = 5 + length ready
  rank q panicked = 0

  -- The engine stays in its shutdown. A turn without a pop brings the worker nearer to its exit; a pop makes the buffer shorter.
  Nearer : WorkerPc F → Shared F → WorkerPc F → Shared F → Type 0
  Nearer pc e pc' e' =
      e'.buffer.poisoned ≡ false
      × e'.shutdown ≡ true
      × ((length e'.buffer.queue ≡ length e.buffer.queue
            × length e'.pending + rank (length e.buffer.queue) pc'
              < length e.pending + rank (length e.buffer.queue) pc)
          ⊎ (suc (length e'.buffer.queue) ≡ length e.buffer.queue
              × length e'.pending ≡ length e.pending
              × rank (length e'.buffer.queue) pc' ≤ 8))

  abbrev pub HasEnded : WorkerPc F → Type 0
  HasEnded exited = Unit {0}
  HasEnded panicked = Unit {0}
  HasEnded _ = ⊥

  rank_after_pop : (q : ℕ) (pc : WorkerPc F) → rank q pc ≤ rank (suc q) pc + 4
  rank_after_pop q at_top = omega arith
  rank_after_pop q taking_windows = omega arith
  rank_after_pop q (closing windows) = omega arith
  rank_after_pop q exited = omega arith
  rank_after_pop zero pulling = omega arith
  rank_after_pop (suc q) pulling = omega arith
  rank_after_pop q (holding r) = omega arith
  rank_after_pop q claiming = omega arith
  rank_after_pop q (writing ready) = omega arith
  rank_after_pop q panicked = omega arith

  ranks_after_pop :
      (q : ℕ) (pcs : List (WorkerPc F))
      → total (rank q) pcs ≤ total (rank (suc q)) pcs + 4 * length pcs
  ranks_after_pop q [] = omega arith
  ranks_after_pop q (pc ∷ pcs) = omega (arith, rank_after_pop q pc, ranks_after_pop q pcs)

  pass-Nearer :
      (e : Shared F) (passed : SharedBuffer F × PopPass F)
      → PopEnding true e.buffer passed
      → e.buffer.poisoned ≡ false
      → e.shutdown ≡ true
      → Nearer pulling e (after_pass passed e).1 (after_pass passed e).0
  unfolding Nearer
  pass-Nearer e passed (pop_after_poison p) h d = ground (arith, p, h)
  pass-Nearer e passed (timed_out p q x) h d =
      (h, d, inl (refl, omega (arith, ap (λ xs. rank (length xs) pulling) q)))
  pass-Nearer e passed (on_empty p q x) h d = ground (arith, x)
  pass-Nearer e passed (popped r rest p q) h d = (h, d, inr (sym (ap length q), refl, omega arith))

  top-Nearer :
      (e : Shared F)
      → e.buffer.poisoned ≡ false
      → e.shutdown ≡ true
      → Nearer at_top e (if e.shutdown then after_len (len e.buffer) else pulling) e
  unfolding Nearer
  top-Nearer e h d =
      rw (d, len_sound e.buffer h)
        (h, refl, inl (refl, omega (arith, rank_after_look (length e.buffer.queue))))
    where
      rank_after_look : (q : ℕ) → rank q (after_len {F = F} (some q)) ≤ 3
      rank_after_look zero = omega arith
      rank_after_look (suc q) = omega arith

  -- A bound on the turns that are left after the shutdown.
  abbrev pub turns_left : Engine F → ℕ
  turns_left e =
      budget (length e.workers) (length e.shared.buffer.queue)
      + length e.shared.pending
      + total (rank (length e.shared.buffer.queue)) e.workers

  settle-turns_left :
      (i : ℕ) (e : Engine F) (pc : WorkerPc F) (turned : Shared F × WorkerPc F)
      → get_elem? e.workers i ≡ some pc
      → Nearer pc e.shared turned.1 turned.0
      → turns_left (record { shared = turned.0; workers = set e.workers i turned.1 }) < turns_left e
  unfolding Nearer
  settle-turns_left i e pc (e', pc') h (p, d, inl (q, n)) =
      rw (length-set e.workers i pc', q)
        (omega (arith, n, total-set (rank (length e.shared.buffer.queue)) e.workers i pc pc' h))
  settle-turns_left i e pc (e', pc') h (p, d, inr (q, k, l)) =
      rw (length-set e.workers i pc', sym q)
        (omega (
          arith,
          k,
          l,
          total-set (rank (length e'.buffer.queue)) e.workers i pc pc' h,
          ranks_after_pop (length e'.buffer.queue) e.workers,
        ))

module _ {F : Type 0} (f : FloatOps F) (cfg : Settings F) where
  turn-Nearer :
      (now_ms : ℕ) (pc : WorkerPc F) (e : Shared F)
      → e.buffer.poisoned ≡ false
      → e.shutdown ≡ true
      → ¬ HasEnded pc
      → Nearer pc e (turn f cfg now_ms true pc e).1 (turn f cfg now_ms true pc e).0
  unfolding turn Nearer
  turn-Nearer now_ms at_top e h d n = top-Nearer e h d
  turn-Nearer now_ms taking_windows e h d n = (h, d, inl (refl, omega arith))
  turn-Nearer now_ms (closing []) e h d n = (h, d, inl (refl, omega arith))
  turn-Nearer now_ms (closing ((ws, m) ∷ windows)) e h d n = (h, d, inl (refl, omega arith))
  turn-Nearer now_ms exited e h d n = absurd (n tt)
  turn-Nearer now_ms pulling e h d n =
      pass-Nearer e (pop_pass true e.buffer) (pop_pass-Ending true e.buffer) h d
  turn-Nearer now_ms (holding r) e h d n =
      (h, d, inl (refl, omega (arith, length-file_reading cfg.window_ms r e.pending)))
  turn-Nearer now_ms claiming e h d n = (
    h,
    d,
    inl (
      refl,
      omega (arith, length-claim_ready cfg.window_ms cfg.grace_ms now_ms e.frame_id e.pending),
    ),
  )
  turn-Nearer now_ms (writing []) e h d n = (h, d, inl (refl, omega arith))
  turn-Nearer now_ms (writing (c ∷ ready)) e h d n = (h, d, inl (refl, omega arith))
  turn-Nearer now_ms panicked e h d n = absurd (n tt)

  step_left :
      (i now_ms : ℕ) (pc : WorkerPc F) (e : Engine F)
      → e.shared.buffer.poisoned ≡ false
      → e.shared.shutdown ≡ true
      → get_elem? e.workers i ≡ some pc
      → ¬ HasEnded pc
      → (step f cfg (worker_turn i now_ms true) e).shared.buffer.poisoned ≡ false
        × (step f cfg (worker_turn i now_ms true) e).shared.shutdown ≡ true
        × turns_left (step f cfg (worker_turn i now_ms true) e) < turns_left e
  unfolding step Nearer
  step_left i now_ms pc e h d k n =
      let near = turn-Nearer now_ms pc e.shared h d n in
      rw (step, k)
        (near.0, near.1, settle-turns_left i e pc (turn f cfg now_ms true pc e.shared) k near)

  -- A schedule of turns that each find their worker running and their timeout over.
  pub data IsBusy : List Turn → Engine F → Type 0 where
    at_rest : {e : Engine F} → IsBusy [] e
    turns_first :
        {ts : List Turn} {e : Engine F} (i now_ms : ℕ) (pc : WorkerPc F)
        → get_elem? e.workers i ≡ some pc
        → ¬ HasEnded pc
        → IsBusy ts (step f cfg (worker_turn i now_ms true) e)
        → IsBusy (worker_turn i now_ms true ∷ ts) e

  -- After the shutdown, with a sound lock and no more readings pushed, the workers come to their
  -- end: no schedule, at whatever times, holds more than `turns_left` turns of running workers
  -- whose timeouts are over.
  pub shutdown_ends :
      (ts : List Turn) (e : Engine F)
      → e.shared.buffer.poisoned ≡ false
      → e.shared.shutdown ≡ true
      → IsBusy ts e
      → length ts ≤ turns_left e
  shutdown_ends ts e h d at_rest = omega arith
  shutdown_ends ts e h d (turns_first {ts = rest} i now_ms pc k n busy) =
      let left = step_left i now_ms pc e h d k n in
      omega (
        arith,
        left.2,
        shutdown_ends rest (step f cfg (worker_turn i now_ms true) e) left.0 left.1 busy,
      )
