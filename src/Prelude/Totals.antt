-- ===== src/Prelude/Totals.antt =====
-- Sums over lists.
use Prim.Native.Nat.{ℕ, zero, suc, ◌+◌}
use mathlib.Core.Path.{◌≡◌, ap}
use mathlib.Core.Option.{none, some}
use mathlib.Core.List.{List, [], ◌∷◌, ◌++◌}
use native.Mathlib.Omega.{arith}
use comp2432_project.Prelude.Lists.{get_elem?, set}

-- The sum of a measure over a list.
abbrev pub total {ℓ} : {A : Type ℓ} → (A → ℕ) → List A → ℕ
total measure [] = 0
total measure (x ∷ xs) = measure x + total measure xs

pub total-append {ℓ} :
    {A : Type ℓ} (measure : A → ℕ) (xs ys : List A)
    → total measure (xs ++ ys) ≡ total measure xs + total measure ys
total-append measure [] ys = omega arith
total-append measure (x ∷ xs) ys = omega (arith, total-append measure xs ys)

pub total-set {ℓ} :
    {A : Type ℓ} (measure : A → ℕ) (xs : List A) (i : ℕ) (old new : A)
    → get_elem? xs i ≡ some old
    → total measure (set xs i new) + measure old ≡ total measure xs + measure new
total-set measure [] i old new e = ground arith
total-set measure (x ∷ xs) zero old new e =
    let same = ap (λ o. elim o [ none ↦ measure x | some y ↦ measure y ]) e in omega (arith, same)
total-set measure (x ∷ xs) (suc i) old new e = omega (arith, total-set measure xs i old new e)
