-- ===== src/RoundQueue/Bounds.antt =====
-- The representation invariant of the ring: both indices stay inside the allocation, whatever the
-- calls. It rests on the mask of `next_index` being a remainder.
use Prim.Native.Nat.{bit_and}
use native.Mathlib.Nat.{mod-eq_of_lt, mod_self, add-mod_left}
use comp2432_project.Prelude.{
  ℕ, ◌+◌, ◌-◌, ◌%◌, ◌^◌, ◌≤◌, ◌<◌, ◌≡◌, sym, ap, ◌∙◌, ◌≢◌, ◌↔◌, Bool, true, if◌then◌else◌, ◌==◌,
  leb, length, length-set, arith, Bool-cases, inl, inr, set,
}
use comp2432_project.Prelude.Bits.{bit_and-mask}
use comp2432_project.RoundQueue.{
  RwRoundQueue, add_usize, next_index, commit_read, commit_write, len,
}

-- The capacity is a power of two that a `usize` holds, the allocation has that many slots, and both
-- indices are slots.
pub record IsValid {ℓ} {T : Type ℓ} (q : RwRoundQueue T) : Type ℓ where
  pub exponent : ℕ
  pub power : q.capacity ≡ 2 ^ exponent
  pub small : q.capacity ≤ 2 ^ 63
  pub slots : length q.buffer ≡ q.capacity
  pub read_in : q.read_idx < q.capacity
  pub write_in : q.write_idx < q.capacity

-- The successor of a slot, going round at the end.
abbrev pub next_slot : ℕ → ℕ → ℕ
next_slot cap i = if i + 1 == cap then 0 else i + 1

pub mod-next_slot : (cap i : ℕ) → i < cap → (i + 1) % cap ≡ next_slot cap i
mod-next_slot cap i h = elim (Bool-cases (i + 1 == cap)) [
  | inl e ↦ rw e (ground (arith, mod_self cap))
  | inr e ↦ rw e (mod-eq_of_lt (ground arith))
]

module _ {ℓ} {T : Type ℓ} where
  -- `(i + 1) & (capacity - 1)` is `(i + 1) % capacity`, which goes round once.
  pub next_index-eq :
      {q : RwRoundQueue T}
      → IsValid q
      → (i : ℕ) → i < q.capacity
      → next_index q i ≡ next_slot q.capacity i
  unfolding next_index
  next_index-eq {q} v i h =
      ap (λ n. bit_and n (q.capacity - 1)) no_wrap
      ∙ ap (λ c. bit_and (i + 1) (c - 1)) v.power
      ∙ bit_and-mask v.exponent (i + 1)
      ∙ ap (λ c. (i + 1) % c) (sym v.power)
      ∙ mod-next_slot q.capacity i h
    where
      no_wrap : add_usize i 1 ≡ i + 1
      no_wrap = omega arith

  pub commit_read-IsValid : {q : RwRoundQueue T} → IsValid q → IsValid (commit_read q)
  unfolding commit_read
  commit_read-IsValid {q} v = record {
    exponent = v.exponent;
    power = v.power;
    small = v.small;
    slots = v.slots;
    read_in = ground (arith, next_index-eq v q.read_idx v.read_in);
    write_in = v.write_in;
  }

  pub commit_write-IsValid :
      {q : RwRoundQueue T} (was_full : Bool) → IsValid q → IsValid (commit_write was_full q)
  unfolding commit_write
  commit_write-IsValid {q} was_full v = record {
    exponent = v.exponent;
    power = v.power;
    small = v.small;
    slots = v.slots;
    read_in = ground (arith, next_index-eq v q.read_idx v.read_in);
    write_in = ground (arith, next_index-eq v q.write_idx v.write_in);
  }

  pub len-lt-capacity : {q : RwRoundQueue T} → IsValid q → len q < q.capacity
  unfolding len
  len-lt-capacity {q} v = ground arith

  pub set-IsValid :
      {q : RwRoundQueue T} (i : ℕ) (v : T)
      → IsValid q
      → IsValid (record q { buffer = set q.buffer i v })
  set-IsValid {q} i x v = record {
    exponent = v.exponent;
    power = v.power;
    small = v.small;
    slots = length-set q.buffer i x ∙ v.slots;
    read_in = v.read_in;
    write_in = v.write_in;
  }

  -- The write index stands `len` slots behind the read index.
  pub write_idx-eq :
      {q : RwRoundQueue T} → IsValid q → q.write_idx ≡ (q.read_idx + len q) % q.capacity
  unfolding len
  write_idx-eq {q} v = elim (Bool-cases (leb q.read_idx q.write_idx)) [
    | inl e ↦ rw e (sym (mod-eq_of_lt (ground arith)) ∙ ap (λ n. n % q.capacity) (ground arith))
    | inr e ↦ rw e (
        sym (mod-eq_of_lt v.write_in)
        ∙ sym (add-mod_left q.capacity q.write_idx)
        ∙ ap (λ n. n % q.capacity) (ground arith))
  ]

  -- A committed read shortens a ring that is not empty by one.
  pub len-commit_read :
      {q : RwRoundQueue T} → IsValid q → q.read_idx ≢ q.write_idx → len (commit_read q) + 1 ≡ len q
  unfolding len commit_read
  len-commit_read {q} v ne = ground (arith, next_index-eq v q.read_idx v.read_in)

  -- The test for a full ring: one slot always stays free.
  pub full_iff :
      {q : RwRoundQueue T}
      → IsValid q
      → ((next_index q q.write_idx == q.read_idx) ≡ true) ↔ (len q + 1 ≡ q.capacity)
  unfolding len
  full_iff {q} v = ground (arith, next_index-eq v q.write_idx v.write_in)

  -- A committed write lengthens the ring by one, unless it was full and gave up its oldest.
  pub len-commit_write :
      {q : RwRoundQueue T}
      → IsValid q
      → len (commit_write (next_index q q.write_idx == q.read_idx) q)
        ≡ (if len q + 1 == q.capacity then len q else len q + 1)
  unfolding len commit_write
  len-commit_write {q} v =
      ground (arith, next_index-eq v q.write_idx v.write_in, next_index-eq v q.read_idx v.read_in)
