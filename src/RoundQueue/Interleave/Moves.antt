-- ===== src/RoundQueue/Interleave/Moves.antt =====
-- Each turn of the reader, and each turn of the writer up to the one that finds the ring full, keeps
-- the elements in order.
use comp2432_project.Prelude.{
  ℕ, ◌≡◌, ◌⊎◌, refl, sym, ap, ◌∙◌, Bool, true, false, ◌||◌, List, [], ◌∷◌, ◌++◌, append_assoc,
  if◌then◌else◌, ◌==◌, Bool-cases, inl, inr, set, get_elem?, get_elem?-set_self, arith,
}
use mathlib.Core.Path.{subst}
use comp2432_project.RoundQueue.{RwRoundQueue, next_index, commit_read, len}
use comp2432_project.RoundQueue.Bounds.{IsValid, commit_read-IsValid, set-IsValid, full_iff}
use comp2432_project.RoundQueue.Refine.{contents, contents-cons}
use comp2432_project.RoundQueue.Interleave.{ReaderPc, WriterPc, System, reader_step, writer_step}
use comp2432_project.RoundQueue.Interleave.Safety.{
  Reaches, next_index-lt, write_idx-IsValid, ptr_read-in, ptr_write-in,
}
use comp2432_project.RoundQueue.Interleave.Knows.{
  ReaderKnows, WriterKnows, IsOrdered, reader-store, reader-advance, writer-commit_read, IsOldest,
  HasRoom, IsStored,
}
use comp2432_project.RoundQueue.Interleave.Halves.{
  contents-store, next_index-ne-read, contents-advance,
}

got_read-knows {ℓ} :
    {T : Type ℓ} (q : RwRoundQueue T) (r : ℕ)
    → r ≡ q.read_idx
    → ReaderKnows q (if r == q.write_idx then ReaderPc.idle else ReaderPc.found r)
got_read-knows q r e = elim (Bool-cases (r == q.write_idx)) [
  | inl met ↦ rw met tt
  | inr apart ↦ rw apart (record { same_read = e; present = ground arith })
]

-- What the writer finds between its two loads.
got_write-room {ℓ} :
    {T : Type ℓ} {q : RwRoundQueue T} (w : ℕ)
    → IsValid q
    → w ≡ q.write_idx
    → (next_index q w == q.read_idx) ≡ false
    → HasRoom q (next_index q w == q.read_idx)
got_write-room {q} w v e calm = record {
  room = λ full. cc (sym calm, ap (λ i. next_index q i == q.read_idx) e, (full_iff v).1 full);
  not_full = calm;
}

-- The invariant holds, or the writer has found the ring full.
abbrev pub IsWatched {ℓ} : {T : Type ℓ} → List T → System T → Type ℓ
IsWatched base s = (s.overflowed ≡ true) ⊎ IsOrdered base s

or_true : (a b : Bool) → b ≡ true → (a || b) ≡ true
or_true true b h = refl
or_true false b h = h

module _ {ℓ} {T : Type ℓ} {base : List T} where
  -- The two stores that end a call, with the index that the thread holds still current.
  commit_read-IsOrdered :
      (x : T) (s : System T)
      → IsOrdered base s
      → IsOldest s.ring x
      → IsOrdered base (record s {
        ring = commit_read s.ring;
        reader = ReaderPc.idle;
        taken = s.taken ++ x ∷ [];
      })
  commit_read-IsOrdered x s o old =
      let (y, got, split) = contents-cons o.valid old.present in
      let same : y ≡ x = cc (sym got, old.value) in
      record {
        valid = commit_read-IsValid o.valid;
        reader_knows = tt;
        writer_knows = writer-commit_read s.writer o.valid old.present o.writer_knows;
        history =
            o.history
            ∙ ap (λ xs. s.taken ++ xs) (split ∙ ap (λ z. z ∷ contents (commit_read s.ring)) same)
            ∙ sym (append_assoc s.taken (x ∷ []) (contents (commit_read s.ring)));
      }

  advance-IsOrdered :
      (x : T) (s : System T) (full : Bool)
      → IsOrdered base s
      → HasRoom s.ring full
      → IsStored s.ring x
      → IsOrdered base (record s {
        ring = record (s.ring) { write_idx = next_index s.ring s.ring.write_idx };
        writer = WriterPc.idle;
        put = s.put ++ x ∷ [];
      })
  advance-IsOrdered x s full o h st = record {
    valid = write_idx-IsValid o.valid (next_index-lt o.valid s.ring.write_idx o.valid.write_in);
    reader_knows =
        reader-advance s.ring (next_index s.ring s.ring.write_idx) s.reader
          (next_index-ne-read o.valid h.room) o.reader_knows;
    writer_knows = tt;
    history =
        sym (append_assoc base s.put (x ∷ []))
        ∙ ap (λ xs. xs ++ x ∷ []) o.history
        ∙ append_assoc s.taken (contents s.ring) (x ∷ [])
        ∙ ap (λ xs. s.taken ++ xs) (sym (contents-advance o.valid x h.room st.value));
  }

  store-IsOrdered :
      (x : T) (s : System T) (full : Bool)
      → IsOrdered base s
      → HasRoom s.ring full
      → IsOrdered base (record s {
        ring = record (s.ring) { buffer = set s.ring.buffer s.ring.write_idx x };
        writer = WriterPc.stored x full;
      })
  unfolding len
  store-IsOrdered x s full o h = record {
    valid = set-IsValid s.ring.write_idx x o.valid;
    reader_knows = reader-store s.ring x s.reader o.reader_knows;
    writer_knows = (
      record { room = h.room; not_full = h.not_full },
      record {
        value =
            get_elem?-set_self s.ring.buffer s.ring.write_idx x
              (omega (arith, o.valid.write_in, o.valid.slots));
      },
    );
    history = o.history ∙ ap (λ xs. s.taken ++ xs) (sym (contents-store o.valid x));
  }

  pub reader-IsOrdered :
      (pc : ReaderPc T) (s : System T)
      → IsOrdered base s
      → ReaderKnows s.ring pc
      → Reaches (IsOrdered base) (reader_step pc s)
  unfolding reader_step commit_read
  reader-IsOrdered ReaderPc.idle s o k = (
    _,
    refl,
    record {
      valid = o.valid;
      reader_knows = record { same_read = refl };
      writer_knows = o.writer_knows;
      history = o.history;
    },
  )
  reader-IsOrdered (ReaderPc.got_read r) s o k = (
    _,
    refl,
    record {
      valid = o.valid;
      reader_knows = got_read-knows s.ring r k.same_read;
      writer_knows = o.writer_knows;
      history = o.history;
    },
  )
  reader-IsOrdered (ReaderPc.found ptr) s o k =
      let (x, e, got) =
        ptr_read-in s.ring.buffer ptr
          (omega (arith, o.valid.slots, o.valid.read_in, k.same_read)) in
      (
        record s { reader = ReaderPc.holding x },
        rw e,
        record {
          valid = o.valid;
          reader_knows = record {
            present = k.present;
            value = ap (get_elem? s.ring.buffer) (sym k.same_read) ∙ got;
          };
          writer_knows = o.writer_knows;
          history = o.history;
        },
      )
  reader-IsOrdered (ReaderPc.holding x) s o k = (
    _,
    refl,
    record {
      valid = o.valid;
      reader_knows = (record { same_read = refl }, k);
      writer_knows = o.writer_knows;
      history = o.history;
    },
  )
  reader-IsOrdered (ReaderPc.committing r x) s o k = (_, refl, moved)
    where
      moved : IsOrdered base (record s {
        ring = record (s.ring) { read_idx = next_index s.ring r };
        reader = ReaderPc.idle;
        taken = s.taken ++ x ∷ [];
      })
      moved =
          subst
            (λ i. IsOrdered base (record s {
              ring = record (s.ring) { read_idx = next_index s.ring i };
              reader = ReaderPc.idle;
              taken = s.taken ++ x ∷ [];
            }))
            (sym k.0.same_read) (commit_read-IsOrdered x s o k.1)

  checking :
      (x : T) (w : ℕ) (s : System T)
      → IsOrdered base s
      → w ≡ s.ring.write_idx
      → (full : Bool) → (next_index s.ring w == s.ring.read_idx) ≡ full
      → IsWatched base (record s {
        writer = WriterPc.checked x w (next_index s.ring w == s.ring.read_idx);
        overflowed = s.overflowed || (next_index s.ring w == s.ring.read_idx);
      })
  checking x w s o e true met = inl (or_true s.overflowed _ met)
  checking x w s o e false apart = inr (record {
    valid = o.valid;
    reader_knows = o.reader_knows;
    writer_knows = (record { same_write = e }, got_write-room w o.valid e apart);
    history = o.history;
  })

  pub writer-IsWatched :
      (pc : WriterPc T) (y : T) (s : System T)
      → IsOrdered base s
      → WriterKnows s.ring pc
      → Reaches (IsWatched base) (writer_step pc y s)
  unfolding writer_step
  writer-IsWatched WriterPc.idle y s o k = (
    _,
    refl,
    inr (record {
      valid = o.valid;
      reader_knows = o.reader_knows;
      writer_knows = record { same_write = refl };
      history = o.history;
    }),
  )
  writer-IsWatched (WriterPc.got_write x w) y s o k =
      (_, refl, checking x w s o k.same_write _ refl)
  writer-IsWatched (WriterPc.checked x w full) y s o k = (
    record s {
      ring = record (s.ring) { buffer = set s.ring.buffer w x };
      writer = WriterPc.stored x full;
    },
    rw (
        ptr_write-in s.ring.buffer w x
          (omega (arith, k.0.same_write, o.valid.write_in, o.valid.slots))),
    inr (
        subst
          (λ i. IsOrdered base (record s {
            ring = record (s.ring) { buffer = set s.ring.buffer i x };
            writer = WriterPc.stored x full;
          }))
          (sym k.0.same_write) (store-IsOrdered x s full o k.1)),
  )
  writer-IsWatched (WriterPc.stored x full) y s o k = (
    _,
    refl,
    inr (record {
      valid = o.valid;
      reader_knows = o.reader_knows;
      writer_knows = (record { same_write = refl }, k.0, k.1);
      history = o.history;
    }),
  )
  writer-IsWatched (WriterPc.committing x true w) y s o k = absurd (cc (k.1.not_full))
  writer-IsWatched (WriterPc.committing x false w) y s o k = (
    _,
    refl,
    inr (
        subst
          (λ i. IsOrdered base (record s {
            ring = record (s.ring) { write_idx = next_index s.ring i };
            writer = WriterPc.idle;
            put = s.put ++ x ∷ [];
          }))
          (sym k.0.same_write) (advance-IsOrdered x s false o k.1 k.2)),
  )
  writer-IsWatched (WriterPc.evicting x w r) y s o k = absurd k.never
  writer-IsWatched (WriterPc.evicted x w) y s o k = absurd k.never
