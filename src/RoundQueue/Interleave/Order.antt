-- ===== src/RoundQueue/Interleave/Order.antt =====
-- While the writer never finds the ring full, the two threads make a queue.
use comp2432_project.Prelude.{
  ◌≡◌, sym, ap, ◌∙◌, Bool, true, false, List, ◌++◌, append-nil, Outcome, done, panic, fault, inl,
  inr, Bool-cases, length, ltb, get_elem?, Option-cases,
}
use mathlib.Core.Path.{subst}
use comp2432_project.RoundQueue.{RwRoundQueue, ptr_read, ptr_write}
use comp2432_project.RoundQueue.Bounds.{IsValid}
use comp2432_project.RoundQueue.Refine.{contents}
use comp2432_project.RoundQueue.Interleave.{
  ReaderPc, WriterPc, System, Turn, reads, writes, start, reader_step, writer_step, step, run,
}
use comp2432_project.RoundQueue.Interleave.Safety.{IsSafe, Reaches, step-IsSafe, run-Reaches}
use comp2432_project.RoundQueue.Interleave.Knows.{IsOrdered}
use comp2432_project.RoundQueue.Interleave.Moves.{IsWatched, reader-IsOrdered, writer-IsWatched}

module _ {ℓ} {T : Type ℓ} where
  -- Whether the writer has found the ring full, if the turn could be made.
  abbrev noticed : Outcome (System T) → Bool
  noticed (done s) = s.overflowed
  noticed panic = true
  noticed fault = true

  reader-noticed :
      (pc : ReaderPc T) (s : System T) → s.overflowed ≡ true → noticed (reader_step pc s) ≡ true
  unfolding reader_step
  reader-noticed ReaderPc.idle s h = h
  reader-noticed (ReaderPc.got_read r) s h = h
  reader-noticed (ReaderPc.found ptr) s h = elim (Option-cases (get_elem? s.ring.buffer ptr)) [
    | inl e ↦ rw (e, ptr_read)
    | inr (x, e) ↦ rw (e, ptr_read) h
  ]
  reader-noticed (ReaderPc.holding x) s h = h
  reader-noticed (ReaderPc.committing r x) s h = h

  writer-noticed :
      (pc : WriterPc T) (y : T) (s : System T)
      → s.overflowed ≡ true
      → noticed (writer_step pc y s) ≡ true
  unfolding writer_step
  writer-noticed WriterPc.idle y s h = h
  writer-noticed (WriterPc.got_write x w) y s h = rw h
  writer-noticed (WriterPc.checked x w full) y s h =
      elim (Bool-cases (ltb w (length s.ring.buffer))) [
        | inl e ↦ rw (e, ptr_write) h
        | inr e ↦ rw (e, ptr_write)
      ]
  writer-noticed (WriterPc.stored x full) y s h = h
  writer-noticed (WriterPc.committing x true w) y s h = h
  writer-noticed (WriterPc.committing x false w) y s h = h
  writer-noticed (WriterPc.evicting x w r) y s h = h
  writer-noticed (WriterPc.evicted x w) y s h = h

  step-noticed : (t : Turn T) (s : System T) → s.overflowed ≡ true → noticed (step t s) ≡ true
  unfolding step
  step-noticed reads s h = reader-noticed s.reader s h
  step-noticed (writes y) s h = writer-noticed s.writer y s h

  module _ (base : List T) where
    abbrev Watched : System T → Type ℓ
    Watched s = IsSafe s × IsWatched base s

    same_state : {m : Outcome (System T)} {s s' : System T} → m ≡ done s → m ≡ done s' → s' ≡ s
    same_state e e' = cc

    step-Watched : (t : Turn T) (s : System T) → Watched s → Reaches Watched (step t s)
    unfolding step
    step-Watched t s (safe, inl h) =
        let (s', e, safe') = step-IsSafe t safe in
        (s', e, (safe', inl (sym (ap noticed e) ∙ step-noticed t s h)))
    step-Watched reads s (safe, inr o) =
        let (s', e, safe') = step-IsSafe reads safe in
        let (s₂, e₂, o₂) = reader-IsOrdered s.reader s o o.reader_knows in
        (s', e, (safe', inr (subst (IsOrdered base) (same_state e e₂) o₂)))
    step-Watched (writes y) s (safe, inr o) =
        let (s', e, safe') = step-IsSafe (writes y) safe in
        let (s₂, e₂, o₂) = writer-IsWatched s.writer y s o o.writer_knows in
        (s', e, (safe', subst (IsWatched base) (same_state e e₂) o₂))

  start-Watched : {q : RwRoundQueue T} → IsValid q → Watched (contents q) (start q)
  start-Watched {q} v = (
    record { valid = v; reader_in = tt; writer_in = tt },
    inr (record {
      valid = v;
      reader_knows = tt;
      writer_knows = tt;
      history = append-nil (contents q);
    }),
  )

  -- If no write of a schedule has found the ring full, the reader and the writer have used it as a
  -- queue, however their accesses were interleaved: what the reads took, followed by what the ring
  -- holds, is what the ring held at first, followed by what the finished writes put.
  pub run_in_order :
      (ts : List (Turn T)) {q : RwRoundQueue T} {s : System T}
      → IsValid q
      → run ts (start q) ≡ done s
      → s.overflowed ≡ false
      → s.taken ++ contents s.ring ≡ contents q ++ s.put
  run_in_order ts {q} {s} v e calm =
      let (s', e', w) =
        run-Reaches (Watched (contents q)) (step-Watched (contents q)) ts (start q)
          (start-Watched v) in
      conclude (subst (IsWatched (contents q)) (same_state (contents q) e e') w.1)
    where
      conclude : IsWatched (contents q) s → s.taken ++ contents s.ring ≡ contents q ++ s.put
      conclude (inl over) = absurd (cc (sym over, calm))
      conclude (inr o) = sym o.history
