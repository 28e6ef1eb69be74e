-- ===== src/Prelude/Sort.antt =====
-- `slice::sort_by` of the standard library, a stable sort by a comparison that is a total preorder,
-- and `Vec::retain`.
use mathlib.Core.List.{Perm, perm_middle}
use mathlib.Core.List.Perm
use Prim.Native.Nat.{ℕ, zero, suc}
use mathlib.Core.Path.{◌≡◌, refl, ap, ◌∙◌}
use mathlib.Core.Logic.{inl, inr}
use mathlib.Core.Bool.{Bool, true, false, not}
use mathlib.Core.List.{List, [], ◌∷◌, ◌++◌}
use comp2432_project.Prelude.Tests.{if◌then◌else◌, Bool-cases}
use comp2432_project.Prelude.Lists.{length, drop}

-- A property of every element.
abbrev pub All {ℓ κ} : {A : Type ℓ} → (A → Type κ) → List A → Type κ
All P [] = Unit
All P (x ∷ xs) = P x × All P xs

unfoldable pub retain {ℓ} : {A : Type ℓ} → (A → Bool) → List A → List A
retain keep [] = []
retain keep (x ∷ xs) = let rest = retain keep xs in if keep x then x ∷ rest else rest

pub All-append {ℓ κ} :
    {A : Type ℓ} (P : A → Type κ) (xs ys : List A) → All P xs → All P ys → All P (xs ++ ys)
All-append P [] ys h k = k
All-append P (x ∷ xs) ys h k = (h.0, All-append P xs ys h.1 k)

pub All-map {ℓ κ ι} :
    {A : Type ℓ} {P : A → Type κ} {Q : A → Type ι} (f : (x : A) → P x → Q x) (xs : List A)
    → All P xs
    → All Q xs
All-map f [] h = tt
All-map f (x ∷ xs) h = (f x h.0, All-map f xs h.1)

pub All-unit {ℓ} : {A : Type ℓ} (xs : List A) → All (λ _. Unit {0}) xs
All-unit [] = tt
All-unit (x ∷ xs) = (tt, All-unit xs)

-- What is retained passes the test, and so does what held before.
pub retain-All {ℓ κ} :
    {A : Type ℓ} (P : A → Type κ) (keep : A → Bool) (xs : List A)
    → All P xs
    → All (λ x. P x × (keep x ≡ true)) (retain keep xs)
unfolding retain
retain-All P keep [] h = tt
retain-All P keep (x ∷ xs) h = elim (Bool-cases (keep x)) [
  | inl e ↦ rw e ((h.0, e), retain-All P keep xs h.1)
  | inr e ↦ rw e (retain-All P keep xs h.1)
]

-- What is retained and what is not make up the list.
pub retain-perm {ℓ} :
    {A : Type ℓ} (keep : A → Bool) (xs : List A)
    → Perm (retain keep xs ++ retain (λ x. not (keep x)) xs) xs
unfolding retain
retain-perm keep [] = Perm.refl []
retain-perm keep (x ∷ xs) = elim (Bool-cases (keep x)) [
  | inl e ↦ rw e (Perm.cons x (retain-perm keep xs))
  | inr e ↦ rw e (
      Perm.trans (perm_middle (retain keep xs) (retain (λ y. not (keep y)) xs))
        (Perm.cons x (retain-perm keep xs)))
]

-- The comparison: `le x y` where `cmp(x, y)` is not `Greater`.
pub record IsPreorder {ℓ} {A : Type ℓ} (le : A → A → Bool) : Type ℓ where
  pub total : (x y : A) → le x y ≡ false → le y x ≡ true
  pub trans : (x y z : A) → le x y ≡ true → le y z ≡ true → le x z ≡ true

-- A relation between each element and those behind it.
abbrev pub AllPairs {ℓ κ} : {A : Type ℓ} → (A → A → Type κ) → List A → Type (ℓ ⊔ κ)
AllPairs R [] = Unit
AllPairs R (x ∷ xs) = All (R x) xs × AllPairs R xs

pub AllPairs-append_one {ℓ κ} :
    {A : Type ℓ} (R : A → A → Type κ) (xs : List A) (y : A)
    → All (λ x. R x y) xs
    → AllPairs R xs
    → AllPairs R (xs ++ y ∷ [])
AllPairs-append_one R [] y h k = (tt, tt)
AllPairs-append_one R (x ∷ xs) y h k =
    (All-append (R x) xs (y ∷ []) k.0 (h.0, tt), AllPairs-append_one R xs y h.1 k.1)

pub retain-AllPairs {ℓ κ} :
    {A : Type ℓ} (R : A → A → Type κ) (keep : A → Bool) (xs : List A)
    → AllPairs R xs
    → AllPairs R (retain keep xs)
unfolding retain
retain-AllPairs R keep [] h = tt
retain-AllPairs R keep (x ∷ xs) h = elim (Bool-cases (keep x)) [
  | inl e ↦ rw e (
    All-map (λ y p. p.0) (retain keep xs) (retain-All (R x) keep xs h.0),
    retain-AllPairs R keep xs h.1,
  )
  | inr e ↦ rw e (retain-AllPairs R keep xs h.1)
]

module _ {ℓ} {A : Type ℓ} (le : A → A → Bool) where
  unfoldable pub insert_by : A → List A → List A
  insert_by x [] = x ∷ []
  insert_by x (y ∷ ys) = if le x y then x ∷ y ∷ ys else y ∷ insert_by x ys

  unfoldable pub sort_by : List A → List A
  unfolding insert_by
  sort_by [] = []
  sort_by (x ∷ xs) = insert_by x (sort_by xs)

  abbrev pub IsSorted : List A → Type ℓ
  IsSorted [] = Unit
  IsSorted (x ∷ xs) = All (λ y. le x y ≡ true) xs × IsSorted xs

  -- A sorted list is in any order that the comparison decides.
  pub IsSorted-AllPairs {κ} :
      (R : A → A → Type κ) (decides : (x y : A) → le x y ≡ true → R x y) (xs : List A)
      → IsSorted xs
      → AllPairs R xs
  IsSorted-AllPairs R decides [] h = tt
  IsSorted-AllPairs R decides (x ∷ xs) h =
      (All-map (decides x) xs h.0, IsSorted-AllPairs R decides xs h.1)

  pub insert_by-perm : (x : A) (ys : List A) → Perm (insert_by x ys) (x ∷ ys)
  unfolding insert_by
  insert_by-perm x [] = Perm.refl (x ∷ [])
  insert_by-perm x (y ∷ ys) = elim (Bool-cases (le x y)) [
    | inl e ↦ rw e (Perm.refl (x ∷ y ∷ ys))
    | inr e ↦ rw e (Perm.trans (Perm.cons y (insert_by-perm x ys)) (Perm.swap x y ys))
  ]

  pub insert_by-All {κ} :
      (P : A → Type κ) (x : A) (ys : List A) → P x → All P ys → All P (insert_by x ys)
  unfolding insert_by
  insert_by-All P x [] p h = (p, tt)
  insert_by-All P x (y ∷ ys) p h = elim (Bool-cases (le x y)) [
    | inl e ↦ rw e (p, (h.0, h.1))
    | inr e ↦ rw e (h.0, insert_by-All P x ys p h.1)
  ]

  pub length-insert_by : (x : A) (ys : List A) → length (insert_by x ys) ≡ suc (length ys)
  unfolding insert_by
  length-insert_by x [] = refl
  length-insert_by x (y ∷ ys) = elim (Bool-cases (le x y)) [
    | inl e ↦ rw e
    | inr e ↦ rw e (ap suc (length-insert_by x ys))
  ]

  pub sort_by-perm : (xs : List A) → Perm (sort_by xs) xs
  unfolding sort_by
  sort_by-perm [] = Perm.refl []
  sort_by-perm (x ∷ xs) = Perm.trans (insert_by-perm x (sort_by xs)) (Perm.cons x (sort_by-perm xs))

  pub sort_by-All {κ} : (P : A → Type κ) (xs : List A) → All P xs → All P (sort_by xs)
  unfolding sort_by
  sort_by-All P [] h = tt
  sort_by-All P (x ∷ xs) h = insert_by-All P x (sort_by xs) h.0 (sort_by-All P xs h.1)

  pub length-sort_by : (xs : List A) → length (sort_by xs) ≡ length xs
  unfolding sort_by
  length-sort_by [] = refl
  length-sort_by (x ∷ xs) = length-insert_by x (sort_by xs) ∙ ap suc (length-sort_by xs)

  module _ (laws : IsPreorder le) where
    pub insert_by-IsSorted : (x : A) (ys : List A) → IsSorted ys → IsSorted (insert_by x ys)
    unfolding insert_by
    insert_by-IsSorted x [] h = (tt, tt)
    insert_by-IsSorted x (y ∷ ys) h = elim (Bool-cases (le x y)) [
      | inl e ↦ rw e ((e, All-map (λ z below. laws.trans x y z e below) ys h.0), (h.0, h.1))
      | inr e ↦ rw e (
        insert_by-All (λ z. le y z ≡ true) x ys (laws.total x y e) h.0,
        insert_by-IsSorted x ys h.1,
      )
    ]

    pub sort_by-IsSorted : (xs : List A) → IsSorted (sort_by xs)
    unfolding sort_by
    sort_by-IsSorted [] = tt
    sort_by-IsSorted (x ∷ xs) = insert_by-IsSorted x (sort_by xs) (sort_by-IsSorted xs)

  module _ {κ} (R : A → A → Type κ) (sym_rel : (x y : A) → R x y → R y x) where
    pub insert_by-AllPairs :
        (x : A) (ys : List A) → All (R x) ys → AllPairs R ys → AllPairs R (insert_by x ys)
    unfolding insert_by
    insert_by-AllPairs x [] h k = (tt, tt)
    insert_by-AllPairs x (y ∷ ys) h k = elim (Bool-cases (le x y)) [
      | inl e ↦ rw e (h, k)
      | inr e ↦
          rw e (insert_by-All (R y) x ys (sym_rel x y h.0) k.0, insert_by-AllPairs x ys h.1 k.1)
    ]

    pub sort_by-AllPairs : (xs : List A) → AllPairs R xs → AllPairs R (sort_by xs)
    unfolding sort_by
    sort_by-AllPairs [] h = tt
    sort_by-AllPairs (x ∷ xs) h =
        insert_by-AllPairs x (sort_by xs) (sort_by-All (R x) xs h.0) (sort_by-AllPairs xs h.1)

  pub drop-All {κ} : (P : A → Type κ) (n : ℕ) (xs : List A) → All P xs → All P (drop n xs)
  drop-All P zero xs h = h
  drop-All P (suc n) [] h = tt
  drop-All P (suc n) (x ∷ xs) h = drop-All P n xs h.1

  pub drop-IsSorted : (n : ℕ) (xs : List A) → IsSorted xs → IsSorted (drop n xs)
  drop-IsSorted zero xs h = h
  drop-IsSorted (suc n) [] h = tt
  drop-IsSorted (suc n) (x ∷ xs) h = drop-IsSorted n xs h.1

  pub drop-AllPairs {κ} :
      (R : A → A → Type κ) (n : ℕ) (xs : List A) → AllPairs R xs → AllPairs R (drop n xs)
  drop-AllPairs R zero xs h = h
  drop-AllPairs R (suc n) [] h = tt
  drop-AllPairs R (suc n) (x ∷ xs) h = drop-AllPairs R n xs h.1
