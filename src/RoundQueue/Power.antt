-- ===== src/RoundQueue/Power.antt =====
-- `usize::is_power_of_two`, the test on the capacity in `RwRoundQueue::new`.
use native.Mathlib.Nat.{pow-suc, pow-le-pow_right}
use comp2432_project.Prelude.{
  ℕ, zero, suc, ◌/◌, ◌%◌, ◌^◌, ◌≤◌, ◌<◌, ◌≡◌, refl, ap, true, Bool-cases, inl, inr, ◌==◌, arith,
}
use comp2432_project.Prelude.Bits.{pow2-pos}
use comp2432_project.RoundQueue.{halves_to_one, is_power_of_two}

-- `halves_to_one` finds the exponent, if there is one.
halves_to_one_sound :
    (fuel n : ℕ) → halves_to_one fuel n ≡ true → (k : ℕ) × (n ≡ 2 ^ k) × (k < fuel)
unfolding halves_to_one
halves_to_one_sound zero n h = absurd (cc h)
halves_to_one_sound (suc fuel) n h = elim (Bool-cases (n == 1)) [
  | inl e ↦ (0, ground arith, omega arith)
  | inr e ↦
      let (k, p, lt) = halves_to_one_sound fuel (n / 2) (ground arith) in
      (suc k, pow-step k (ground arith) p, omega arith)
]
  where
    pow-step : (k : ℕ) → n % 2 ≡ 0 → n / 2 ≡ 2 ^ k → n ≡ 2 ^ suc k
    pow-step k even p = omega (arith, pow-suc 2 k)

halves_to_one_complete : (fuel k : ℕ) → k < fuel → halves_to_one fuel (2 ^ k) ≡ true
unfolding halves_to_one
halves_to_one_complete zero k h = absurd (omega arith)
halves_to_one_complete (suc fuel) zero h = refl
halves_to_one_complete (suc fuel) (suc k) h = ground (
  arith,
  pow-suc 2 k,
  pow2-pos k,
  halving k,
  ap (halves_to_one fuel) (halving k),
  halves_to_one_complete fuel k (omega arith),
)
  where
    halving : (k : ℕ) → 2 ^ suc k / 2 ≡ 2 ^ k
    halving k = omega (arith, pow-suc 2 k)

-- The capacities that `new` takes are the powers of two that a `usize` holds.
pub is_power_of_two_sound : (n : ℕ) → is_power_of_two n ≡ true → (k : ℕ) × (n ≡ 2 ^ k) × (k < 64)
unfolding is_power_of_two
is_power_of_two_sound n h = halves_to_one_sound 64 n h

pub is_power_of_two_complete : (k : ℕ) → k < 64 → is_power_of_two (2 ^ k) ≡ true
unfolding is_power_of_two
is_power_of_two_complete k h = halves_to_one_complete 64 k h

pub pow-lt-64 : (k : ℕ) → k < 64 → 2 ^ k ≤ 2 ^ 63
pow-lt-64 k h = pow-le-pow_right {n = 2} (omega arith) {i = k} {j = 63} (omega arith)
