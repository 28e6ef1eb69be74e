-- ===== src/Prelude/Decimal.antt =====
-- What `{}` prints of an unsigned integer: its decimal digits, as a text of characters' numbers.
use mathlib.Core.List.{List, [], ◌∷◌, ◌++◌}
use Prim.Native.Nat.{ℕ, zero, suc, ◌+◌, ◌-◌, ◌*◌, ◌/◌, ◌%◌, ◌<◌, ◌≤◌}
use mathlib.Core.Path.{◌≡◌, refl, ap, sym, ◌∙◌}
use native.Mathlib.Omega.{arith}
use comp2432_project.Prelude.Tests.{if◌then◌else◌, ltb, Bool-cases}
use mathlib.Core.Logic.{inl, inr}
use comp2432_project.Prelude.Sort.{All, All-append}

-- The digits of `n`, for more fuel than `n`.
unfoldable pub digits_of : ℕ → ℕ → List ℕ
digits_of zero n = []
digits_of (suc fuel) n =
    let front = digits_of fuel (n / 10) in
    if ltb n 10 then (48 + n) ∷ [] else front ++ (48 + n % 10) ∷ []

unfoldable pub print_nat : ℕ → List ℕ
unfolding digits_of
print_nat n = digits_of (suc n) n

-- The number that digits stand for, after `n`.
abbrev pub value_from : ℕ → List ℕ → ℕ
value_from n [] = n
value_from n (c ∷ cs) = value_from (n * 10 + (c - 48)) cs

abbrev pub IsDigit : ℕ → Type 0
IsDigit c = (48 ≤ c) × (c < 58)

value_from-append :
    (n c : ℕ) (xs : List ℕ) → value_from n (xs ++ c ∷ []) ≡ value_from n xs * 10 + (c - 48)
value_from-append n c [] = refl
value_from-append n c (x ∷ xs) = value_from-append (n * 10 + (x - 48)) c xs

value-digits_of : (fuel n : ℕ) → n < fuel → value_from 0 (digits_of fuel n) ≡ n
unfolding digits_of
value-digits_of zero n h = absurd (omega arith)
value-digits_of (suc fuel) n h = elim (Bool-cases (ltb n 10)) [
  | inl e ↦ rw e (omega arith)
  | inr e ↦ rw e (
      value_from-append 0 (48 + n % 10) (digits_of fuel (n / 10))
      ∙ ground (arith, value-digits_of fuel (n / 10)))
]

pub value-print_nat : (n : ℕ) → value_from 0 (print_nat n) ≡ n
unfolding print_nat
value-print_nat n = value-digits_of (suc n) n (omega arith)

-- Different numbers print differently.
pub print_nat-inj : (m n : ℕ) → print_nat m ≡ print_nat n → m ≡ n
print_nat-inj m n e = sym (value-print_nat m) ∙ ap (value_from 0) e ∙ value-print_nat n

pub digits_of-All : (fuel n : ℕ) → All IsDigit (digits_of fuel n)
unfolding digits_of
digits_of-All zero n = tt
digits_of-All (suc fuel) n = elim (Bool-cases (ltb n 10)) [
  | inl e ↦ rw e ((omega arith, ground arith), tt)
  | inr e ↦ rw e (
      All-append IsDigit (digits_of fuel (n / 10)) ((48 + n % 10) ∷ [])
        (digits_of-All fuel (n / 10)) ((omega arith, omega arith), tt))
]
