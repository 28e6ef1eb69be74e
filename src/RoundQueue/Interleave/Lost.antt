-- ===== src/RoundQueue/Interleave/Lost.antt =====
-- What an overwriting writer can do to a reader that is about to commit: the reader's store of the
-- read index undoes the two that the writer has made meanwhile.
use comp2432_project.Prelude.{
  ◌+◌, ◌≤◌, ◌≡◌, ◌≢◌, refl, sym, ap, ◌∙◌, Bool, true, false, ◌||◌, some, List, [], ◌∷◌, ◌++◌,
  replicate, Outcome, done, panic, fault, ==_iff, ◌>>=◌, ◌==◌, set, get_elem?, arith,
}
use mathlib.Core.Path.{fun_ext}
use comp2432_project.RoundQueue.{RwRoundQueue, next_index, len, ptr_read}
use comp2432_project.RoundQueue.Bounds.{IsValid, next_index-eq, next_slot, full_iff, set-IsValid}
use comp2432_project.RoundQueue.Window.{get_elem?-some}
use comp2432_project.RoundQueue.Refine.{contents, contents-empty, len-empty}
use comp2432_project.RoundQueue.Interleave.{
  ReaderPc, WriterPc, System, Turn, reads, writes, start, reader_step, writer_step, step, run,
}
use comp2432_project.RoundQueue.Interleave.Safety.{
  ptr_write-in, next_index-lt, read_idx-IsValid, write_idx-IsValid,
}

module _ {ℓ} {T : Type ℓ} where
  >>=-assoc {κ ι} :
      {A : Type κ} {B : Type ι} (m : Outcome (System T)) (f : System T → Outcome A)
      (g : A → Outcome B)
      → ((m >>= f) >>= g) ≡ (m >>= (λ s. f s >>= g))
  >>=-assoc (done s) f g = refl
  >>=-assoc panic f g = refl
  >>=-assoc fault f g = refl

  run-append : (ts us : List (Turn T)) (s : System T) → run (ts ++ us) s ≡ (run ts s >>= run us)
  unfolding run
  run-append [] us s = refl
  run-append (t ∷ ts) us s =
      ap (λ k. step t s >>= k) (fun_ext (run-append ts us))
      ∙ sym (>>=-assoc (step t s) (run ts) (run us))

  -- The ring after a whole write that found it full.
  abbrev stored_ring : T → RwRoundQueue T → RwRoundQueue T
  stored_ring x q = record q { buffer = set q.buffer q.write_idx x }

  abbrev evicted_ring : T → RwRoundQueue T → RwRoundQueue T
  evicted_ring x q = record (stored_ring x q) { read_idx = next_index (stored_ring x q) q.read_idx }

  abbrev overwritten_ring : T → RwRoundQueue T → RwRoundQueue T
  overwritten_ring x q = record (evicted_ring x q) {
    write_idx = next_index (evicted_ring x q) q.write_idx;
  }

  -- The seven accesses of a write that finds the ring full.
  full_write :
      (x : T) (q : RwRoundQueue T) (pc : ReaderPc T) (taken put : List T) (over : Bool)
      → IsValid q
      → (next_index q q.write_idx == q.read_idx) ≡ true
      → run (replicate 7 (writes x)) (record {
        ring = q;
        reader = pc;
        writer = WriterPc.idle;
        taken = taken;
        put = put;
        overflowed = over;
      })
        ≡ done (record {
          ring = overwritten_ring x q;
          reader = pc;
          writer = WriterPc.idle;
          taken = taken;
          put = put ++ x ∷ [];
          overflowed = over || true;
        })
  unfolding run step writer_step
  full_write x q pc taken put over v full =
      rw (full, ptr_write-in q.buffer q.write_idx x (omega (arith, v.write_in, v.slots)))

  -- The four accesses of a read up to the store that commits it.
  almost_read :
      (q : RwRoundQueue T) (x : T)
      → q.read_idx ≢ q.write_idx
      → get_elem? q.buffer q.read_idx ≡ some x
      → run (replicate 4 reads) (start q)
        ≡ done (record (start q) { reader = ReaderPc.committing q.read_idx x })
  unfolding run step reader_step
  almost_read q x ne e = rw (apart, e, ptr_read)
    where
      apart : (q.read_idx == q.write_idx) ≡ false
      apart = ground arith

  overwritten-IsValid : {q : RwRoundQueue T} (x : T) → IsValid q → IsValid (overwritten_ring x q)
  overwritten-IsValid {q} x v = write_idx-IsValid moved (next_index-lt moved q.write_idx v.write_in)
    where
      stored : IsValid (stored_ring x q)
      stored = set-IsValid q.write_idx x v

      moved : IsValid (evicted_ring x q)
      moved = read_idx-IsValid stored (next_index-lt stored q.read_idx v.read_in)

  -- Both indices have moved on by one slot.
  overwritten-read :
      {q : RwRoundQueue T} (x : T)
      → IsValid q
      → (overwritten_ring x q).read_idx ≡ next_slot q.capacity q.read_idx
  overwritten-read {q} x v = next_index-eq (set-IsValid q.write_idx x v) q.read_idx v.read_in

  overwritten-write :
      {q : RwRoundQueue T} (x : T)
      → IsValid q
      → (overwritten_ring x q).write_idx ≡ next_slot q.capacity q.write_idx
  overwritten-write {q} x v =
      next_index-eq (read_idx-IsValid stored (next_index-lt stored q.read_idx v.read_in))
        q.write_idx v.write_in
    where
      stored : IsValid (stored_ring x q)
      stored = set-IsValid q.write_idx x v

  -- A ring that was full is full again.
  overwritten-full :
      {q : RwRoundQueue T} (x : T)
      → IsValid q
      → (next_index q q.write_idx == q.read_idx) ≡ true
      → (next_index (overwritten_ring x q) (overwritten_ring x q).write_idx
          == (overwritten_ring x q).read_idx)
        ≡ true
  overwritten-full {q} x v full =
      let v' = overwritten-IsValid x v in
      (==_iff _ _).1 (
        next_index-eq v' (overwritten_ring x q).write_idx v'.write_in
        ∙ ap (next_slot q.capacity) (
            overwritten-write x v
            ∙ sym (next_index-eq v q.write_idx v.write_in)
            ∙ (==_iff _ _).0 full)
        ∙ sym (overwritten-read x v))

  -- The reader loads the read index for its commit, the writer overwrites twice, the reader stores.
  abbrev pub race : T → T → List (Turn T)
  race x y = replicate 4 reads ++ (replicate 7 (writes x) ++ (replicate 7 (writes y) ++ reads ∷ []))

  -- The ring in the end.
  abbrev raced_ring : T → T → RwRoundQueue T → RwRoundQueue T
  raced_ring x y q =
      let q₂ = overwritten_ring y (overwritten_ring x q) in
      record q₂ { read_idx = next_index q₂ q.read_idx }

  race_end :
      (x y z : T) (q : RwRoundQueue T)
      → IsValid q
      → len q + 1 ≡ q.capacity
      → q.read_idx ≢ q.write_idx
      → get_elem? q.buffer q.read_idx ≡ some z
      → run (race x y) (start q)
        ≡ done (record {
          ring = raced_ring x y q;
          reader = ReaderPc.idle;
          writer = WriterPc.idle;
          taken = z ∷ [];
          put = x ∷ y ∷ [];
          overflowed = true;
        })
  unfolding run step reader_step
  race_end x y z q v full ne e =
      run-append (replicate 4 reads) both (start q)
      ∙ ap (λ m. m >>= run both) (almost_read q z ne e)
      ∙ run-append (replicate 7 (writes x)) second _
      ∙ ap (λ m. m >>= run second) (full_write x q pc [] [] false v found_full)
      ∙ run-append (replicate 7 (writes y)) (reads ∷ []) _
      ∙ ap (λ m. m >>= run (reads ∷ []))
          (full_write y (overwritten_ring x q) pc [] (x ∷ []) true (overwritten-IsValid x v)
            (overwritten-full x v found_full))
    where
      second : List (Turn T)
      second = replicate 7 (writes y) ++ reads ∷ []

      both : List (Turn T)
      both = replicate 7 (writes x) ++ second

      pc : ReaderPc T
      pc = ReaderPc.committing q.read_idx z

      found_full : (next_index q q.write_idx == q.read_idx) ≡ true
      found_full = (full_iff v).1 full

  raced-empty :
      (x y : T) {q : RwRoundQueue T}
      → IsValid q
      → len q + 1 ≡ q.capacity
      → contents (raced_ring x y q) ≡ []
  raced-empty x y {q} v full = contents-empty (raced_ring x y q) (
      next_index-eq v₂ q.read_idx v.read_in
      ∙ ap (next_slot q.capacity) (sym met)
      ∙ sym (overwritten-write y v₁))
    where
      v₁ : IsValid (overwritten_ring x q)
      v₁ = overwritten-IsValid x v

      v₂ : IsValid (overwritten_ring y (overwritten_ring x q))
      v₂ = overwritten-IsValid y v₁

      met : (overwritten_ring x q).write_idx ≡ q.read_idx
      met =
          overwritten-write x v
          ∙ sym (next_index-eq v q.write_idx v.write_in)
          ∙ (==_iff _ _).0 ((full_iff v).1 full)

  -- On every full ring of two slots or more there is a schedule of one read and two writes, each run
  -- to its end, after which the ring is empty although the read took a single element: every
  -- element left of those held before and both elements written are lost.
  pub race_empties :
      (x y : T) {q : RwRoundQueue T}
      → IsValid q
      → len q + 1 ≡ q.capacity
      → 2 ≤ q.capacity
      → (z : T) × (s : System T) × (run (race x y) (start q) ≡ done s)
        × (s.reader ≡ ReaderPc.idle)
        × (s.writer ≡ WriterPc.idle)
        × (s.taken ≡ z ∷ [])
        × (s.put ≡ x ∷ y ∷ [])
        × (contents s.ring ≡ [])
  race_empties x y {q} v full two =
      let (z, e) = get_elem?-some q.buffer q.read_idx (omega (arith, v.read_in, v.slots)) in
      (z, _, race_end x y z q v full apart e, refl, refl, refl, refl, raced-empty x y v full)
    where
      apart : q.read_idx ≢ q.write_idx
      apart = λ met. absurd (omega (arith, len-empty q met))
