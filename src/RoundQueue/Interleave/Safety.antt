-- ===== src/RoundQueue/Interleave/Safety.antt =====
-- Whatever the schedule, no thread leaves the allocation and the ring stays valid.
use comp2432_project.Prelude.{
  ℕ, ◌<◌, ◌≡◌, refl, true, false, List, [], ◌∷◌, some, Outcome, done, length, set, get_elem?, arith,
  lt→ltb,
}
use comp2432_project.RoundQueue.{RwRoundQueue, next_index, ptr_read, ptr_write}
use comp2432_project.RoundQueue.Bounds.{IsValid, next_index-eq, set-IsValid}
use comp2432_project.RoundQueue.Window.{get_elem?-some}
use comp2432_project.RoundQueue.Interleave.{
  ReaderPc, WriterPc, System, Turn, reads, writes, start, reader_step, writer_step, step, run,
}

module _ {ℓ} {T : Type ℓ} where
  -- The index that a thread holds is a slot.
  abbrev pub ReaderIn : ℕ → ReaderPc T → Type 0
  ReaderIn cap (ReaderPc.got_read r) = r < cap
  ReaderIn cap (ReaderPc.found ptr) = ptr < cap
  ReaderIn cap (ReaderPc.committing r v) = r < cap
  ReaderIn cap _ = Unit

  abbrev pub WriterIn : ℕ → WriterPc T → Type 0
  WriterIn cap (WriterPc.got_write v w) = w < cap
  WriterIn cap (WriterPc.checked v ptr full) = ptr < cap
  WriterIn cap (WriterPc.committing v full w) = w < cap
  WriterIn cap (WriterPc.evicting v w r) = (w < cap) × (r < cap)
  WriterIn cap (WriterPc.evicted v w) = w < cap
  WriterIn cap _ = Unit

  pub record IsSafe (s : System T) : Type ℓ where
    pub valid : IsValid s.ring
    pub reader_in : ReaderIn s.ring.capacity s.reader
    pub writer_in : WriterIn s.ring.capacity s.writer

  -- The outcome of a turn: a system, and it is as described.
  abbrev pub Reaches {κ} : (System T → Type κ) → Outcome (System T) → Type (ℓ ⊔ κ)
  Reaches P m = (s : System T) × (m ≡ done s) × P s

  pub next_index-lt :
      {q : RwRoundQueue T} → IsValid q → (i : ℕ) → i < q.capacity → next_index q i < q.capacity
  next_index-lt v i h = ground (arith, next_index-eq v i h)

  pub read_idx-IsValid :
      {q : RwRoundQueue T} {r : ℕ}
      → IsValid q
      → r < q.capacity
      → IsValid (record q { read_idx = r })
  read_idx-IsValid v h = record {
    exponent = v.exponent;
    power = v.power;
    small = v.small;
    slots = v.slots;
    read_in = h;
    write_in = v.write_in;
  }

  pub write_idx-IsValid :
      {q : RwRoundQueue T} {w : ℕ}
      → IsValid q
      → w < q.capacity
      → IsValid (record q { write_idx = w })
  write_idx-IsValid v h = record {
    exponent = v.exponent;
    power = v.power;
    small = v.small;
    slots = v.slots;
    read_in = v.read_in;
    write_in = h;
  }

  pub ptr_read-in :
      (slots : List T) (i : ℕ)
      → i < length slots
      → (v : T) × (ptr_read slots i ≡ done v) × (get_elem? slots i ≡ some v)
  unfolding ptr_read
  ptr_read-in slots i h = let (v, e) = get_elem?-some slots i h in (v, rw (e, ptr_read), e)

  pub ptr_write-in :
      (slots : List T) (i : ℕ) (v : T)
      → i < length slots
      → ptr_write slots i v ≡ done (set slots i v)
  unfolding ptr_write
  ptr_write-in slots i v h = rw (lt→ltb i (length slots) h)

  reader-IsSafe :
      (pc : ReaderPc T) (s : System T)
      → IsValid s.ring
      → ReaderIn s.ring.capacity pc
      → WriterIn s.ring.capacity s.writer
      → Reaches IsSafe (reader_step pc s)
  unfolding reader_step
  reader-IsSafe ReaderPc.idle s v r w =
      (_, refl, record { valid = v; reader_in = v.read_in; writer_in = w })
  reader-IsSafe (ReaderPc.got_read i) s v r w =
      (_, refl, record { valid = v; reader_in = ground arith; writer_in = w })
  reader-IsSafe (ReaderPc.found ptr) s v r w =
      let (x, e, _) = ptr_read-in s.ring.buffer ptr (omega (arith, v.slots)) in
      (
        record s { reader = ReaderPc.holding x },
        rw e,
        record { valid = v; reader_in = tt; writer_in = w },
      )
  reader-IsSafe (ReaderPc.holding x) s v r w =
      (_, refl, record { valid = v; reader_in = v.read_in; writer_in = w })
  reader-IsSafe (ReaderPc.committing i x) s v r w = (
    _,
    refl,
    record { valid = read_idx-IsValid v (next_index-lt v i r); reader_in = tt; writer_in = w },
  )

  writer-IsSafe :
      (pc : WriterPc T) (x : T) (s : System T)
      → IsValid s.ring
      → ReaderIn s.ring.capacity s.reader
      → WriterIn s.ring.capacity pc
      → Reaches IsSafe (writer_step pc x s)
  unfolding writer_step
  writer-IsSafe WriterPc.idle x s v r w =
      (_, refl, record { valid = v; reader_in = r; writer_in = v.write_in })
  writer-IsSafe (WriterPc.got_write y i) x s v r w =
      (_, refl, record { valid = v; reader_in = r; writer_in = w })
  writer-IsSafe (WriterPc.checked y i full) x s v r w = (
    record s {
      ring = record (s.ring) { buffer = set s.ring.buffer i y };
      writer = WriterPc.stored y full;
    },
    rw (ptr_write-in s.ring.buffer i y (omega (arith, v.slots))),
    record { valid = set-IsValid i y v; reader_in = r; writer_in = tt },
  )
  writer-IsSafe (WriterPc.stored y full) x s v r w =
      (_, refl, record { valid = v; reader_in = r; writer_in = v.write_in })
  writer-IsSafe (WriterPc.committing y true i) x s v r w =
      (_, refl, record { valid = v; reader_in = r; writer_in = (w, v.read_in) })
  writer-IsSafe (WriterPc.committing y false i) x s v r w = (
    _,
    refl,
    record { valid = write_idx-IsValid v (next_index-lt v i w); reader_in = r; writer_in = tt },
  )
  writer-IsSafe (WriterPc.evicting y i j) x s v r w = (
    _,
    refl,
    record { valid = read_idx-IsValid v (next_index-lt v j w.1); reader_in = r; writer_in = w.0 },
  )
  writer-IsSafe (WriterPc.evicted y i) x s v r w = (
    _,
    refl,
    record { valid = write_idx-IsValid v (next_index-lt v i w); reader_in = r; writer_in = tt },
  )

  pub step-IsSafe : (t : Turn T) {s : System T} → IsSafe s → Reaches IsSafe (step t s)
  unfolding step
  step-IsSafe reads {s} safe = reader-IsSafe s.reader s safe.valid safe.reader_in safe.writer_in
  step-IsSafe (writes x) {s} safe =
      writer-IsSafe s.writer x s safe.valid safe.reader_in safe.writer_in

  -- What every turn keeps, every schedule keeps.
  pub run-Reaches {κ} :
      (P : System T → Type κ)
      → ((t : Turn T) (s : System T) → P s → Reaches P (step t s))
      → (ts : List (Turn T)) (s : System T) → P s
      → Reaches P (run ts s)
  unfolding run
  run-Reaches P keep [] s h = (s, refl, h)
  run-Reaches P keep (t ∷ ts) s h =
      let (s₁, e, h₁) = keep t s h in
      let (s₂, e₂, h₂) = run-Reaches P keep ts s₁ h₁ in (s₂, rw (e, e₂), h₂)

  -- From a valid ring with both threads idle, every schedule of one reader and one writer runs to
  -- its end without a raw pointer leaving the allocation, also when the writer overwrites; the ring
  -- is valid again at the end.
  pub run-IsSafe :
      (ts : List (Turn T)) {q : RwRoundQueue T} → IsValid q → Reaches IsSafe (run ts (start q))
  run-IsSafe ts {q} v =
      run-Reaches IsSafe (λ t s h. step-IsSafe t h) ts (start q)
        (record { valid = v; reader_in = tt; writer_in = tt })
