-- ===== src/RoundQueue/Tests.antt =====
-- The documented examples of os_lib/src/queue.rs, and the theorems at concrete rings.
use comp2432_project.Prelude.{
  ℕ, ◌≡◌, refl, true, false, Option, none, some, List, [], ◌∷◌, ◌++◌, map, done, replicate,
  length-replicate, length, sym, ap, ◌∙◌, arith,
}
use comp2432_project.RoundQueue.{
  RwRoundQueue, Allocator, ok, err, not_power_of_two, new, next_index, over_slots, try_read,
  write_overwrite, read_batch, len,
}
use comp2432_project.RoundQueue.Bounds.{IsValid}
use comp2432_project.RoundQueue.Refine.{contents}
use comp2432_project.RoundQueue.New.{Ending, new-Ending}
use comp2432_project.RoundQueue.Trace.{
  write, read, batch, get_len, Reply, overwrote, item, items, number, call, run,
}
use comp2432_project.RoundQueue.Newest.{newest, writes_keep_newest}

abbrev garbage : ℕ → Option (List ℕ)
garbage n = some (replicate n 77)

garbage-length : (n : ℕ) (slots : List ℕ) → garbage n ≡ some slots → length slots ≡ n
garbage-length n slots e =
    let same : replicate n 77 ≡ slots = cc in sym (ap length same) ∙ length-replicate n 77

abbrev heap : Allocator ℕ
heap = record { layout_fits = λ n. true; alloc = garbage; alloc_length = garbage-length }

-- `RwRoundQueue::new(4)`
abbrev fresh : RwRoundQueue ℕ
fresh = over_slots 4 (0 ∷ 0 ∷ 0 ∷ 0 ∷ [])

-- Three elements, round the end of the allocation: full.
abbrev wrapped : RwRoundQueue ℕ
wrapped = record fresh { buffer = 8 ∷ 9 ∷ 5 ∷ 7 ∷ []; read_idx = 3; write_idx = 2 }

new_four : new heap 0 4 ≡ done (ok fresh)
unfolding new
new_four = refl

new_seven : new heap 0 7 ≡ done (err not_power_of_two)
unfolding new
new_seven = refl

overwrite_drops_oldest :
    run (write 1 ∷ write 2 ∷ write 3 ∷ write 4 ∷ read ∷ get_len ∷ batch 9 ∷ read ∷ []) fresh
    ≡ done (
      overwrote false
          ∷ overwrote false
          ∷ overwrote false
          ∷ overwrote true
          ∷ item (some 2)
          ∷ number 2
          ∷ items (3 ∷ 4 ∷ [])
          ∷ item none
          ∷ [],
      record fresh { buffer = 1 ∷ 2 ∷ 3 ∷ 4 ∷ []; read_idx = 0; write_idx = 0 },
    )
unfolding run call try_read write_overwrite read_batch len next_index
overwrite_drops_oldest = refl

fresh-IsValid : IsValid fresh
fresh-IsValid = record {
  exponent = 2;
  power = refl;
  small = omega arith;
  slots = refl;
  read_in = omega arith;
  write_in = omega arith;
}

wrapped-IsValid : IsValid wrapped
wrapped-IsValid = record {
  exponent = 2;
  power = refl;
  small = omega arith;
  slots = refl;
  read_in = omega arith;
  write_in = omega arith;
}

writes_keep_newest_example :
    (replies : List (Reply ℕ)) × (q' : RwRoundQueue ℕ) × (run (map write (1 ∷ 2 ∷ [])) wrapped
      ≡ done (replies, q'))
    × (contents q' ≡ newest 3 (contents wrapped ++ 1 ∷ 2 ∷ []))
writes_keep_newest_example = writes_keep_newest (1 ∷ 2 ∷ []) wrapped-IsValid

new-Ending_example : Ending heap 0 7 (new heap 0 7)
new-Ending_example = new-Ending heap 0 7
