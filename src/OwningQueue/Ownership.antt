-- ===== src/OwningQueue/Ownership.antt =====
-- Each read takes a value that its slot owns, and no slot of the ring is read twice.
use native.Mathlib.Nat.{mod-eq_of_lt, add-mod_left}
use native.Mathlib.Decide.{ℕ_discrete}
use comp2432_project.Prelude.{
  ℕ, ◌+◌, ◌-◌, ◌%◌, ◌≡◌, ◌≢◌, refl, sym, ap, ◌∙◌, none, some, List, [], ◌∷◌, map, length, get_elem?,
  arith, done,
}
use comp2432_project.Prelude.Totals.{total, total-set}
use comp2432_project.RoundQueue.{
  RwRoundQueue, acquire_read_ptr, ptr_read, commit_read, next_index, len,
}
use comp2432_project.RoundQueue.Bounds.{IsValid, commit_read-IsValid, set-IsValid, len-lt-capacity}
use comp2432_project.RoundQueue.Window.{window-set_past, shift-mod}
use comp2432_project.RoundQueue.Refine.{contents, contents-empty, contents-cons, next_index-mod}
use comp2432_project.OwningQueue.{MaybeUninit, init, moved, OwningQueue, owned, take_out, try_read}

module _ {T : Type 0} where
  -- A valid ring whose elements, from the oldest, are the values `xs`, each owned by its slot.
  pub record Owns (q : OwningQueue T) (xs : List T) : Type 0 where
    pub valid : IsValid q.ring
    pub held : contents q.ring ≡ map init xs

  -- The slot that was read lies behind the window that is left.
  contents-take_out :
      (q : RwRoundQueue (MaybeUninit T)) (v : T)
      → IsValid q
      → q.read_idx ≢ q.write_idx
      → contents (commit_read (take_out q q.read_idx v)) ≡ contents (commit_read q)
  unfolding commit_read len next_index
  contents-take_out q v valid ne =
      window-set_past q.buffer q.capacity (moved v) q.read_idx (len (commit_read q))
        (next_index q q.read_idx) (q.capacity - 1) (commit_read-IsValid valid).read_in
        (omega (arith, len-lt-capacity (commit_read-IsValid valid), valid.read_in))
        (omega (arith, valid.read_in)) around
    where
      around : q.read_idx ≡ (next_index q q.read_idx + (q.capacity - 1)) % q.capacity
      around =
          sym (mod-eq_of_lt valid.read_in)
          ∙ sym (add-mod_left q.capacity q.read_idx)
          ∙ ap (λ n. n % q.capacity) (omega (arith, valid.read_in))
          ∙ shift-mod q.capacity q.read_idx (q.capacity - 1)
          ∙ ap (λ n. (n + (q.capacity - 1)) % q.capacity)
              (sym (next_index-mod valid q.read_idx valid.read_in))

  -- What the slots own, measured.
  abbrev pub slot_measure : (T → ℕ) → MaybeUninit T → ℕ
  slot_measure measure slot = total measure (owned slot)

  -- All that the queue accounts for: in its slots and leaked.
  abbrev pub account : (T → ℕ) → OwningQueue T → ℕ
  account measure q = total (slot_measure measure) q.ring.buffer + total measure q.leaked

  first-init :
      (slot : MaybeUninit T) (rest : List (MaybeUninit T)) (x : T) (xs : List T)
      → slot ∷ rest ≡ map init (x ∷ xs)
      → (slot ≡ init x) × (rest ≡ map init xs)
  first-init slot rest x xs e = (
    ap (λ ys. elim ys [ [] ↦ slot | y ∷ _ ↦ y ]) e,
    ap (λ ys. elim ys [ [] ↦ rest | _ ∷ ys ↦ ys ]) e,
  )

  pub try_read-none : (q : OwningQueue T) → Owns q [] → try_read q ≡ done (none, q)
  unfolding try_read acquire_read_ptr
  try_read-none q o = elim (ℕ_discrete q.ring.read_idx q.ring.write_idx) [
    | yes e ↦ ground (arith, e)
    | no ne ↦
        let (slot, found, split) = contents-cons o.valid ne in
        absurd (omega (arith, ap length (sym split ∙ o.held)))
  ]

  -- The oldest value is read, and its slot owns it no longer.
  pub record Taken (q : OwningQueue T) (x : T) (xs : List T) : Type 0 where
    pub after : OwningQueue T
    pub result : try_read q ≡ done (some x, after)
    pub owns : Owns after xs
    pub counted : (measure : T → ℕ) → account measure after + measure x ≡ account measure q
    pub capacity : after.ring.capacity ≡ q.ring.capacity

  try_read-done :
      (q : OwningQueue T) (x : T)
      → q.ring.read_idx ≢ q.ring.write_idx
      → get_elem? q.ring.buffer q.ring.read_idx ≡ some (init x)
      → try_read q
        ≡ done (some x, record q { ring = commit_read (take_out q.ring q.ring.read_idx x) })
  unfolding try_read acquire_read_ptr ptr_read
  try_read-done q x ne found = ground (arith, ne, found)

  pub try_read-Taken : (q : OwningQueue T) (x : T) (xs : List T) → Owns q (x ∷ xs) → Taken q x xs
  unfolding commit_read
  try_read-Taken q x xs o = elim (ℕ_discrete q.ring.read_idx q.ring.write_idx) [
    | yes e ↦ absurd (omega (arith, ap length (sym (contents-empty q.ring e) ∙ o.held)))
    | no ne ↦
        let (slot, found, split) = contents-cons o.valid ne in
        let (is, rest) =
          first-init slot (contents (commit_read q.ring)) x xs (sym split ∙ o.held) in
        record {
          after = record q { ring = commit_read (take_out q.ring q.ring.read_idx x) };
          result = try_read-done q x ne (found ∙ ap some is);
          owns = record {
            valid = commit_read-IsValid (set-IsValid q.ring.read_idx (moved x) o.valid);
            held = contents-take_out q.ring x o.valid ne ∙ rest;
          };
          counted = λ measure. omega (
            arith,
            total-set (slot_measure measure) q.ring.buffer q.ring.read_idx slot (moved x) found,
            ap (slot_measure measure) is,
          );
          capacity = refl;
        }
  ]
