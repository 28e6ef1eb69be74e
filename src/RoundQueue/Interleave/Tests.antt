-- ===== src/RoundQueue/Interleave/Tests.antt =====
-- The theorems on interleavings at a ring of four slots.
use comp2432_project.Prelude.{ℕ, ◌≡◌, refl, false, List, [], ◌∷◌, ◌++◌, done, arith}
use comp2432_project.RoundQueue.{RwRoundQueue, over_slots, next_index, len}
use comp2432_project.RoundQueue.Bounds.{IsValid}
use comp2432_project.RoundQueue.Refine.{contents}
use comp2432_project.RoundQueue.Interleave.{
  ReaderPc, WriterPc, System, Turn, reads, writes, start, reader_step, writer_step, step, run,
}
use comp2432_project.RoundQueue.Interleave.Safety.{IsSafe, Reaches, run-IsSafe}
use comp2432_project.RoundQueue.Interleave.Order.{run_in_order}
use comp2432_project.RoundQueue.Interleave.Lost.{race, race_empties}

-- One element, 5, in slot 2.
abbrev single : RwRoundQueue ℕ
single = record (over_slots 4 (8 ∷ 9 ∷ 5 ∷ 7 ∷ [])) { read_idx = 2; write_idx = 3 }

-- Three elements, which go round the end: full.
abbrev full : RwRoundQueue ℕ
full = record (over_slots 4 (8 ∷ 9 ∷ 5 ∷ 7 ∷ [])) { read_idx = 3; write_idx = 2 }

single-IsValid : IsValid single
single-IsValid = record {
  exponent = 2;
  power = refl;
  small = omega arith;
  slots = refl;
  read_in = omega arith;
  write_in = omega arith;
}

full-IsValid : IsValid full
full-IsValid = record {
  exponent = 2;
  power = refl;
  small = omega arith;
  slots = refl;
  read_in = omega arith;
  write_in = omega arith;
}

-- A write of 6 and a read, access by access in turn; a second write is under way.
abbrev mixed : List (Turn ℕ)
mixed =
    writes 6
    ∷ reads
    ∷ writes 6
    ∷ reads
    ∷ reads
    ∷ writes 6
    ∷ reads
    ∷ writes 6
    ∷ writes 6
    ∷ reads
    ∷ writes 4
    ∷ []

abbrev mixed_end : System ℕ
mixed_end = record {
  ring = record single { buffer = 8 ∷ 9 ∷ 5 ∷ 6 ∷ []; read_idx = 3; write_idx = 0 };
  reader = ReaderPc.idle;
  writer = WriterPc.got_write 4 0;
  taken = 5 ∷ [];
  put = 6 ∷ [];
  overflowed = false;
}

run-mixed : run mixed (start single) ≡ done mixed_end
unfolding run step reader_step writer_step next_index
run-mixed = refl

run_in_order_example : mixed_end.taken ++ contents mixed_end.ring ≡ contents single ++ mixed_end.put
run_in_order_example = run_in_order mixed single-IsValid run-mixed refl

run-IsSafe_example : Reaches IsSafe (run (race 1 2) (start full))
run-IsSafe_example = run-IsSafe (race 1 2) full-IsValid

race_empties_example :
    (z : ℕ) × (s : System ℕ) × (run (race 1 2) (start full) ≡ done s)
    × (s.reader ≡ ReaderPc.idle)
    × (s.writer ≡ WriterPc.idle)
    × (s.taken ≡ z ∷ [])
    × (s.put ≡ 1 ∷ 2 ∷ [])
    × (contents s.ring ≡ [])
unfolding len
race_empties_example = race_empties 1 2 full-IsValid refl (omega arith)
