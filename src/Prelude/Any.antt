-- ===== src/Prelude/Any.antt =====
-- What holds of some element of a list.
use mathlib.Core.Logic.{◌⊎◌, inl, inr}
use mathlib.Core.Path.{◌≡◌, refl, subst}
use mathlib.Core.Bool.{Bool}
use mathlib.Core.List.{List, [], ◌∷◌, map}
use comp2432_project.Prelude.Tests.{Bool-cases}
use comp2432_project.Prelude.Sort.{All, insert_by, sort_by}

abbrev pub Any {ℓ} : {A : Type ℓ} → (A → Type 0) → List A → Type 0
Any P [] = ⊥
Any P (x ∷ xs) = P x ⊎ Any P xs

module _ {ℓ} {A : Type ℓ} (P : A → Type 0) where
  pub Any-map {ι} :
      {B : Type ι} (f : B → A) (xs : List B) → Any (λ x. P (f x)) xs → Any P (map f xs)
  Any-map f [] h = h
  Any-map f (x ∷ xs) (inl p) = inl p
  Any-map f (x ∷ xs) (inr h) = inr (Any-map f xs h)

  pub Any-weaken : (Q : A → Type 0) (xs : List A) → ((x : A) → P x → Q x) → Any P xs → Any Q xs
  Any-weaken Q [] f h = h
  Any-weaken Q (x ∷ xs) f (inl p) = inl (f x p)
  Any-weaken Q (x ∷ xs) f (inr h) = inr (Any-weaken Q xs f h)

  pub insert_by-Any :
      (le : A → A → Bool) (x : A) (ys : List A) → P x ⊎ Any P ys → Any P (insert_by le x ys)
  unfolding insert_by
  insert_by-Any le x [] h = h
  insert_by-Any le x (y ∷ ys) h = elim (Bool-cases (le x y)) [
    | inl e ↦ rw e h
    | inr e ↦ rw e (elim h [
      | inl p ↦ inr (insert_by-Any le x ys (inl p))
      | inr (inl q) ↦ inl q
      | inr (inr k) ↦ inr (insert_by-Any le x ys (inr k))
    ])
  ]

  pub sort_by-Any : (le : A → A → Bool) (xs : List A) → Any P xs → Any P (sort_by le xs)
  unfolding sort_by
  sort_by-Any le [] h = h
  sort_by-Any le (x ∷ xs) (inl p) = insert_by-Any le x (sort_by le xs) (inl p)
  sort_by-Any le (x ∷ xs) (inr h) = insert_by-Any le x (sort_by le xs) (inr (sort_by-Any le xs h))

module _ {A : Type 0} (P : A → Type 0) where
  -- What holds of all elements holds of each, and the other way round.
  pub All-at : (x : A) (xs : List A) → All P xs → Any (λ y. y ≡ x) xs → P x
  All-at x [] h m = elim m [ ]
  All-at x (y ∷ ys) h (inl e) = subst P e h.0
  All-at x (y ∷ ys) h (inr m) = All-at x ys h.1 m

  pub each-All : (xs : List A) → ((x : A) → Any (λ y. y ≡ x) xs → P x) → All P xs
  each-All [] f = tt
  each-All (x ∷ xs) f = (f x (inl refl), each-All xs (λ y m. f y (inr m)))
