-- ===== src/RoundQueue/Interleave/Halves.antt =====
-- What the halves of a write do to the elements of a ring that has room: the store into the slot,
-- then the new write index.
use comp2432_project.Prelude.{
  suc, ◌+◌, ◌≡◌, ◌≢◌, refl, sym, ap, ◌∙◌, some, [], ◌∷◌, ◌++◌, set, get_elem?, arith,
}
use comp2432_project.RoundQueue.{RwRoundQueue, next_index, len}
use comp2432_project.RoundQueue.Bounds.{
  IsValid, next_index-eq, len-lt-capacity, write_idx-eq, full_iff,
}
use comp2432_project.RoundQueue.Window.{window-set_past, window-snoc}
use comp2432_project.RoundQueue.Refine.{contents, contents-of}

module _ {ℓ} {T : Type ℓ} {q : RwRoundQueue T} (v : IsValid q) where
  -- The slot at the write index is not among the elements.
  pub contents-store :
      (x : T) → contents (record q { buffer = set q.buffer q.write_idx x }) ≡ contents q
  unfolding len
  contents-store x =
      window-set_past q.buffer q.capacity x q.write_idx (len q) q.read_idx (len q) v.read_in
        (omega arith) (len-lt-capacity v) (write_idx-eq v)

  pub len-advance :
      len q + 1 ≢ q.capacity → len (record q { write_idx = next_index q q.write_idx }) ≡ suc (len q)
  unfolding len
  len-advance room = ground (arith, next_index-eq v q.write_idx v.write_in)

  pub next_index-ne-read : len q + 1 ≢ q.capacity → q.read_idx ≢ next_index q q.write_idx
  next_index-ne-read room = ground (arith, full_iff v)

  pub contents-advance :
      (x : T)
      → len q + 1 ≢ q.capacity
      → get_elem? q.buffer q.write_idx ≡ some x
      → contents (record q { write_idx = next_index q q.write_idx }) ≡ contents q ++ x ∷ []
  contents-advance x room e =
      contents-of (record q { write_idx = next_index q q.write_idx }) q.read_idx (suc (len q)) refl
        (len-advance room)
      ∙ window-snoc q.buffer q.capacity x (len q) q.read_idx (omega (arith, v.slots)) v.read_in
          (ap (get_elem? q.buffer) (sym (write_idx-eq v)) ∙ e)
