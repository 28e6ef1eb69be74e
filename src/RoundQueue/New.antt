-- ===== src/RoundQueue/New.antt =====
-- `RwRoundQueue::new`: which capacities it accepts, and the queue that it makes.
use native.Mathlib.Decide.{ℕ_discrete}
use mathlib.Core.Path.{subst}
use comp2432_project.Prelude.{
  ℕ, zero, suc, ◌+◌, ◌^◌, ◌<◌, ◌≡◌, ◌≢◌, refl, sym, ap, ◌∙◌, true, false, Bool-cases, inl, inr,
  Option-cases, none, some, List, [], ◌∷◌, ◌++◌, Outcome, done, panic, if◌then◌else◌, ◌==◌, length,
  replicate, length-replicate, length-append, append_assoc, set, arith, lt→ltb,
}
use comp2432_project.Prelude.Bits.{pow2-pos}
use comp2432_project.RoundQueue.{
  RwRoundQueue, Allocator, NewResult, ok, err, zero_capacity, not_power_of_two, allocation_failed,
  new, allocate, over_slots, zero_fill, is_power_of_two, len,
}
use comp2432_project.RoundQueue.Power.{is_power_of_two_sound, is_power_of_two_complete, pow-lt-64}
use comp2432_project.RoundQueue.Bounds.{IsValid}
use comp2432_project.RoundQueue.Refine.{contents}

module _ {ℓ} {T : Type ℓ} where
  set_past :
      (pre rest : List T) (x v : T) (i : ℕ)
      → length pre ≡ i
      → set (pre ++ x ∷ rest) i v ≡ (pre ++ v ∷ []) ++ rest
  set_past [] rest x v zero h = refl
  set_past [] rest x v (suc i) h = absurd (omega arith)
  set_past (y ∷ pre) rest x v zero h = absurd (omega arith)
  set_past (y ∷ pre) rest x v (suc i) h = ap (λ xs. y ∷ xs) (set_past pre rest x v i (omega arith))

  -- The loop of `new` overwrites what follows the slots that it has written.
  zero_fill-append :
      (zeroed : T) (i left : ℕ) (pre rest : List T)
      → length pre ≡ i
      → length rest ≡ left
      → zero_fill zeroed i left (pre ++ rest) ≡ done (pre ++ replicate left zeroed)
  unfolding zero_fill
  zero_fill-append zeroed i zero pre [] h k = refl
  zero_fill-append zeroed i zero pre (x ∷ rest) h k = absurd (omega arith)
  zero_fill-append zeroed i (suc left) pre [] h k = absurd (omega arith)
  zero_fill-append zeroed i (suc left) pre (x ∷ rest) h k =
      rw
        (
          lt→ltb i (length (pre ++ x ∷ rest)) (omega (arith, length-append pre (x ∷ rest))),
          set_past pre rest x zeroed i h,
        )
        (zero_fill-append zeroed (i + 1) left (pre ++ zeroed ∷ []) rest
            (omega (arith, length-append pre (zeroed ∷ []))) (omega arith)
          ∙ ap done (append_assoc pre (zeroed ∷ []) (replicate left zeroed)))

  -- What `new` makes of an allocation: a valid queue over zeroed slots.
  allocate-some :
      (zeroed : T) (k : ℕ) (slots : List T)
      → length slots ≡ 2 ^ k
      → allocate zeroed (2 ^ k) (some slots)
        ≡ done (ok (over_slots (2 ^ k) (replicate (2 ^ k) zeroed)))
  unfolding allocate
  allocate-some zeroed k slots h = rw (zero_fill-append zeroed 0 (2 ^ k) [] slots refl h)

  over_slots-IsValid :
      (zeroed : T) (k : ℕ) → k < 64 → IsValid (over_slots (2 ^ k) (replicate (2 ^ k) zeroed))
  over_slots-IsValid zeroed k h = record {
    exponent = k;
    power = refl;
    small = pow-lt-64 k h;
    slots = length-replicate (2 ^ k) zeroed;
    read_in = pow2-pos k;
    write_in = pow2-pos k;
  }

  over_slots-empty : (capacity : ℕ) (slots : List T) → contents (over_slots capacity slots) ≡ []
  unfolding len
  over_slots-empty capacity slots = refl

  -- What a queue is when `new` returns it.
  pub record Fresh (zeroed : T) (n : ℕ) (q : RwRoundQueue T) : Type ℓ where
    pub power : (k : ℕ) × (n ≡ 2 ^ k) × (k < 64)
    pub valid : IsValid q
    pub empty : contents q ≡ []
    pub same_capacity : q.capacity ≡ n
    pub zeros : q.buffer ≡ replicate n zeroed
    pub ends : q.end_ptr ≡ q.start_ptr + n

  pub over_slots-Fresh :
      (zeroed : T) (n k : ℕ)
      → n ≡ 2 ^ k
      → k < 64
      → Fresh zeroed n (over_slots n (replicate n zeroed))
  over_slots-Fresh zeroed n k e lt = record {
    power = (k, e, lt);
    valid = rw e (over_slots-IsValid zeroed k lt);
    empty = over_slots-empty n (replicate n zeroed);
    same_capacity = refl;
    zeros = refl;
    ends = omega arith;
  }

  module _ (a : Allocator T) (zeroed : T) where
    allocate-eq :
        (n k : ℕ)
        → n ≡ 2 ^ k
        → (slots : List T) → a.alloc n ≡ some slots
        → allocate zeroed n (a.alloc n) ≡ done (ok (over_slots n (replicate n zeroed)))
    allocate-eq n k e slots got =
        rw got (rw e (allocate-some zeroed k slots (a.alloc_length n slots got ∙ e)))

    new-power :
        (n k : ℕ)
        → n ≡ 2 ^ k
        → k < 64
        → new a zeroed n ≡ (if a.layout_fits n then allocate zeroed n (a.alloc n) else panic)
    unfolding new
    new-power n k e lt = rw (not_zero, accepted)
      where
        not_zero : (n == 0) ≡ false
        not_zero = ground (arith, pow2-pos k)

        accepted : is_power_of_two n ≡ true
        accepted = ap is_power_of_two e ∙ is_power_of_two_complete k lt

    -- With room for the layout and memory to be had, `new` makes a queue of every power of two that
    -- a `usize` holds: the queue over that many zeroed slots with both indices at 0.
    pub new_total :
        (n k : ℕ) (slots : List T)
        → n ≡ 2 ^ k
        → k < 64
        → a.layout_fits n ≡ true
        → a.alloc n ≡ some slots
        → new a zeroed n ≡ done (ok (over_slots n (replicate n zeroed)))
    new_total n k slots e lt fits got = new-power n k e lt ∙ rw fits (allocate-eq n k e slots got)

    -- How `new` ends on each combination of its tests.
    new-zero : (n : ℕ) → n ≡ 0 → new a zeroed n ≡ done (err zero_capacity)
    unfolding new
    new-zero n e = rw e

    new-other :
        (n : ℕ) → n ≢ 0 → is_power_of_two n ≡ false → new a zeroed n ≡ done (err not_power_of_two)
    unfolding new
    new-other n ne e = rw (not_zero, e)
      where
        not_zero : (n == 0) ≡ false
        not_zero = ground arith

    new-unallocated :
        (n k : ℕ)
        → n ≡ 2 ^ k
        → k < 64
        → a.layout_fits n ≡ true
        → a.alloc n ≡ none
        → new a zeroed n ≡ done (err allocation_failed)
    unfolding allocate
    new-unallocated n k e lt fits lost = new-power n k e lt ∙ rw (fits, lost)

    new-unfit : (n k : ℕ) → n ≡ 2 ^ k → k < 64 → a.layout_fits n ≡ false → new a zeroed n ≡ panic
    new-unfit n k e lt unfit = new-power n k e lt ∙ rw unfit

    -- The ways in which `new n` ends, each with its cause.
    pub data Ending (n : ℕ) : Outcome (NewResult T) → Type ℓ where
      was_zero : n ≡ 0 → Ending n (done (err zero_capacity))
      was_other :
          n ≢ 0 → ¬ ((k : ℕ) × (n ≡ 2 ^ k) × (k < 64)) → Ending n (done (err not_power_of_two))
      was_unfit : a.layout_fits n ≡ false → Ending n panic
      was_unallocated : a.alloc n ≡ none → Ending n (done (err allocation_failed))
      was_made : (q : RwRoundQueue T) → Fresh zeroed n q → Ending n (done (ok q))

    not-power : (n : ℕ) → is_power_of_two n ≡ false → ¬ ((k : ℕ) × (n ≡ 2 ^ k) × (k < 64))
    not-power n h (k, e, lt) = cc (ap is_power_of_two e, is_power_of_two_complete k lt)

    power-Ending : (n k : ℕ) → n ≡ 2 ^ k → k < 64 → Ending n (new a zeroed n)
    power-Ending n k e lt = elim (Bool-cases (a.layout_fits n)) [
      | inr unfit ↦ subst (Ending n) (sym (new-unfit n k e lt unfit)) (was_unfit unfit)
      | inl fits ↦ elim (Option-cases (a.alloc n)) [
        | inl lost ↦
            subst (Ending n) (sym (new-unallocated n k e lt fits lost)) (was_unallocated lost)
        | inr (slots, got) ↦
            subst (Ending n) (sym (new_total n k slots e lt fits got))
              (was_made _ (over_slots-Fresh zeroed n k e lt))
      ]
    ]

    -- `new` never faults, and each of its endings has its cause: error 0 for capacity 0, the power
    -- error for a positive capacity that is no power of two below 2^64, a panic for a layout that
    -- does not fit, the allocation error for a null pointer, and otherwise a fresh queue: valid,
    -- empty, of the given capacity, over zeroed slots.
    pub new-Ending : (n : ℕ) → Ending n (new a zeroed n)
    new-Ending n = elim (ℕ_discrete n 0) [
      | yes e ↦ subst (Ending n) (sym (new-zero n e)) (was_zero e)
      | no ne ↦ elim (Bool-cases (is_power_of_two n)) [
        | inr e ↦ subst (Ending n) (sym (new-other n ne e)) (was_other ne (not-power n e))
        | inl e ↦ let (k, p, lt) = is_power_of_two_sound n e in power-Ending n k p lt
      ]
    ]
