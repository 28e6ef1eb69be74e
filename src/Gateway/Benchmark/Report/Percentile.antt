-- ===== src/Gateway/Benchmark/Report/Percentile.antt =====
-- The percentiles: which element of the samples they pick.
use mathlib.Core.List.{Perm}
use comp2432_project.Prelude.{
  ℕ, zero, suc, ◌≤◌, ◌<◌, ◌≡◌, refl, ap, ◌∙◌, Bool, true, some, List, [], ◌∷◌, ◌++◌, done, length,
  get_elem?, leb, arith,
}
use mathlib.Core.Path.{subst}
use comp2432_project.Prelude.Floats.{FloatOps}
use comp2432_project.Prelude.Sort.{
  All, All-map, IsSorted, IsPreorder, sort_by, sort_by-perm, sort_by-IsSorted, length-sort_by,
}
use comp2432_project.Gateway.Benchmark.Report.{
  index, rank, percentile_u64, percentile_f64, float_order,
}

-- The element at `i` with what stands before and behind it.
record Place {ℓ} {A : Type ℓ} (xs : List A) (i : ℕ) : Type ℓ where
  front : List A
  item : A
  back : List A
  found : get_elem? xs i ≡ some item
  whole : xs ≡ front ++ item ∷ back
  before : length front ≡ i

place {ℓ} : {A : Type ℓ} (xs : List A) (i : ℕ) → i < length xs → Place xs i
place [] i h = absurd (omega arith)
place (x ∷ xs) zero h = record {
  front = [];
  item = x;
  back = xs;
  found = refl;
  whole = refl;
  before = refl;
}
place (x ∷ xs) (suc i) h =
    let p = place xs i (omega arith) in
    record {
      front = x ∷ p.front;
      item = p.item;
      back = p.back;
      found = p.found;
      whole = ap (λ ys. x ∷ ys) p.whole;
      before = ap suc p.before;
    }

All-middle {ℓ κ} :
    {A : Type ℓ} (P : A → Type κ) (front : List A) (x : A) (back : List A)
    → All P (front ++ x ∷ back)
    → P x
All-middle P [] x back h = h.0
All-middle P (y ∷ front) x back h = All-middle P front x back h.1

sorted_around {ℓ} :
    {A : Type ℓ} (le : A → A → Bool) (front : List A) (x : A) (back : List A)
    → IsSorted le (front ++ x ∷ back)
    → All (λ y. le y x ≡ true) front × All (λ y. le x y ≡ true) back
sorted_around le [] x back h = (tt, h.0)
sorted_around le (y ∷ front) x back h =
    let (below, above) = sorted_around le front x back h.1 in
    ((All-middle (λ z. le y z ≡ true) front x back h.0, below), above)

leb-IsPreorder : IsPreorder leb
leb-IsPreorder = record { total = λ x y e. ground arith; trans = λ x y z h k. ground arith }

rank-lt : {F : Type 0} (f : FloatOps F) (n : ℕ) (p : F) → 0 < n → rank f n p < n
rank-lt f n p h = omega arith

module _ {F : Type 0} (f : FloatOps F) where
  -- The percentile of a list that is not empty never panics: it is an element of the list, at the
  -- rank that is computed from the percentage and stops at the last; as many elements as the rank says
  -- are no greater than it, and the others are no less.
  pub percentile_ranks :
      (n : ℕ) (v : List ℕ) (p : F)
      → (x : ℕ) × (front : List ℕ) × (back : List ℕ) × (percentile_u64 f (n ∷ v) p
          ≡ done (f.of_nat x))
        × Perm (front ++ x ∷ back) (n ∷ v)
        × (length front ≡ rank f (length (n ∷ v)) p)
        × All (λ y. y ≤ x) front
        × All (λ y. x ≤ y) back
  unfolding percentile_u64
  percentile_ranks n v p =
      let s = sort_by leb (n ∷ v) in
      let size : length s ≡ length (n ∷ v) = length-sort_by leb (n ∷ v) in
      let at = place s (rank f (length s) p) (rank-lt f (length s) p (omega arith)) in
      let (below, above) =
        sorted_around leb at.front at.item at.back
          (subst (IsSorted leb) at.whole (sort_by-IsSorted leb leb-IsPreorder (n ∷ v))) in
      (
        at.item,
        at.front,
        at.back,
        rw (at.found, index) refl,
        subst (λ (ys : List ℕ). Perm ys (n ∷ v)) at.whole (sort_by-perm leb (n ∷ v)),
        at.before ∙ ap (λ k. rank f k p) size,
        All-map (λ y h. ground arith) at.front below,
        All-map (λ y h. ground arith) at.back above,
      )

  pub percentile_u64-returns : (v : List ℕ) (p : F) → (x : F) × (percentile_u64 f v p ≡ done x)
  unfolding percentile_u64
  percentile_u64-returns [] p = (f.of_nat 0, refl)
  percentile_u64-returns (n ∷ v) p = let r = percentile_ranks n v p in (f.of_nat r.0, r.3)

  pub percentile_f64-returns : (v : List F) (p : F) → (x : F) × (percentile_f64 f v p ≡ done x)
  unfolding percentile_f64
  percentile_f64-returns [] p = (f.of_nat 0, refl)
  percentile_f64-returns (n ∷ v) p =
      let s = sort_by (float_order f) (n ∷ v) in
      let size : length s ≡ suc (length v) = length-sort_by (float_order f) (n ∷ v) in
      let at = place s (rank f (length s) p) (rank-lt f (length s) p (omega arith)) in
      (at.item, rw (at.found, index) refl)
