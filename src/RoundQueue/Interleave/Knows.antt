-- ===== src/RoundQueue/Interleave/Knows.antt =====
-- What the locals of the reader and the writer say of the ring while no write has met a full ring,
-- and how the accesses of one thread leave what the other knows.
use comp2432_project.Prelude.{
  ℕ, ◌+◌, ◌≡◌, ◌≢◌, sym, ◌∙◌, Bool, false, some, List, ◌++◌, set, get_elem?, get_elem?-set_ne,
  arith,
}
use comp2432_project.RoundQueue.{RwRoundQueue, commit_read, len}
use comp2432_project.RoundQueue.Bounds.{IsValid, len-lt-capacity, len-commit_read}
use comp2432_project.RoundQueue.Refine.{contents}
use comp2432_project.RoundQueue.Interleave.{ReaderPc, WriterPc, System}

module _ {ℓ} {T : Type ℓ} (q : RwRoundQueue T) where
  -- What the locals of a thread say of the ring.
  pub record AtRead (r : ℕ) : Type ℓ where
    pub same_read : r ≡ q.read_idx

  pub record IsFilled (r : ℕ) : Type ℓ where
    pub same_read : r ≡ q.read_idx
    pub present : q.read_idx ≢ q.write_idx

  pub record IsOldest (x : T) : Type ℓ where
    pub present : q.read_idx ≢ q.write_idx
    pub value : get_elem? q.buffer q.read_idx ≡ some x

  pub record AtWrite (w : ℕ) : Type ℓ where
    pub same_write : w ≡ q.write_idx

  pub record HasRoom (full : Bool) : Type ℓ where
    pub room : len q + 1 ≢ q.capacity
    pub not_full : full ≡ false

  pub record IsStored (x : T) : Type ℓ where
    pub value : get_elem? q.buffer q.write_idx ≡ some x

  pub record Never : Type ℓ where
    pub never : ⊥

  abbrev pub ReaderKnows : ReaderPc T → Type ℓ
  ReaderKnows ReaderPc.idle = Unit
  ReaderKnows (ReaderPc.got_read r) = AtRead r
  ReaderKnows (ReaderPc.found ptr) = IsFilled ptr
  ReaderKnows (ReaderPc.holding x) = IsOldest x
  ReaderKnows (ReaderPc.committing r x) = AtRead r × IsOldest x

  abbrev pub WriterKnows : WriterPc T → Type ℓ
  WriterKnows WriterPc.idle = Unit
  WriterKnows (WriterPc.got_write x w) = AtWrite w
  WriterKnows (WriterPc.checked x ptr full) = AtWrite ptr × HasRoom full
  WriterKnows (WriterPc.stored x full) = HasRoom full × IsStored x
  WriterKnows (WriterPc.committing x full w) = AtWrite w × HasRoom full × IsStored x
  WriterKnows (WriterPc.evicting x w r) = Never
  WriterKnows (WriterPc.evicted x w) = Never

module _ {ℓ} {T : Type ℓ} where
  -- The invariant of a run that began with the elements `base`.
  pub record IsOrdered (base : List T) (s : System T) : Type ℓ where
    pub valid : IsValid s.ring
    pub reader_knows : ReaderKnows s.ring s.reader
    pub writer_knows : WriterKnows s.ring s.writer
    pub history : base ++ s.put ≡ s.taken ++ contents s.ring

  -- What the reader knows survives a store at the write index, and a new write index that does not
  -- meet the read index.
  pub reader-store :
      (q : RwRoundQueue T) (x : T) (pc : ReaderPc T)
      → ReaderKnows q pc
      → ReaderKnows (record q { buffer = set q.buffer q.write_idx x }) pc
  reader-store q x ReaderPc.idle k = tt
  reader-store q x (ReaderPc.got_read r) k = record { same_read = k.same_read }
  reader-store q x (ReaderPc.found p) k = record { same_read = k.same_read; present = k.present }
  reader-store q x (ReaderPc.holding y) k = record {
    present = k.present;
    value = get_elem?-set_ne q.buffer x (λ e. k.present (sym e)) ∙ k.value;
  }
  reader-store q x (ReaderPc.committing r y) k = (
    record { same_read = k.0.same_read },
    record {
      present = k.1.present;
      value = get_elem?-set_ne q.buffer x (λ e. k.1.present (sym e)) ∙ k.1.value;
    },
  )

  pub reader-advance :
      (q : RwRoundQueue T) (w : ℕ) (pc : ReaderPc T)
      → q.read_idx ≢ w
      → ReaderKnows q pc
      → ReaderKnows (record q { write_idx = w }) pc
  reader-advance q w ReaderPc.idle ne k = tt
  reader-advance q w (ReaderPc.got_read r) ne k = record { same_read = k.same_read }
  reader-advance q w (ReaderPc.found p) ne k = record { same_read = k.same_read; present = ne }
  reader-advance q w (ReaderPc.holding y) ne k = record { present = ne; value = k.value }
  reader-advance q w (ReaderPc.committing r y) ne k =
      (record { same_read = k.0.same_read }, record { present = ne; value = k.1.value })

  -- A committed read makes room, and leaves the slot of the writer alone.
  pub writer-commit_read :
      {q : RwRoundQueue T} (pc : WriterPc T)
      → IsValid q
      → q.read_idx ≢ q.write_idx
      → WriterKnows q pc
      → WriterKnows (commit_read q) pc
  unfolding commit_read
  writer-commit_read WriterPc.idle v ne k = tt
  writer-commit_read (WriterPc.got_write x w) v ne k = record { same_write = k.same_write }
  writer-commit_read {q} (WriterPc.checked x p full) v ne k = (
    record { same_write = k.0.same_write },
    record {
      room = omega (arith, len-commit_read v ne, len-lt-capacity v);
      not_full = k.1.not_full;
    },
  )
  writer-commit_read (WriterPc.stored x full) v ne k = (
    record {
      room = omega (arith, len-commit_read v ne, len-lt-capacity v);
      not_full = k.0.not_full;
    },
    record { value = k.1.value },
  )
  writer-commit_read (WriterPc.committing x full w) v ne k = (
    record { same_write = k.0.same_write },
    record {
      room = omega (arith, len-commit_read v ne, len-lt-capacity v);
      not_full = k.1.not_full;
    },
    record { value = k.2.value },
  )
  writer-commit_read (WriterPc.evicting x w r) v ne k = absurd k.never
  writer-commit_read (WriterPc.evicted x w) v ne k = absurd k.never
