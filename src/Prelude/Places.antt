-- ===== src/Prelude/Places.antt =====
-- What holds of all elements of a list, at its places and behind the first so many.
use comp2432_project.Prelude.Lists.{length, get_elem?, set, drop}
use comp2432_project.Prelude.Sort.{All}
use Prim.Native.Nat.{ℕ, zero, suc}
use mathlib.Core.Path.{◌≡◌, sym}
use mathlib.Core.Option.{Option, none, some}
use mathlib.Core.List.{List, [], ◌∷◌}
use mathlib.Core.Path.{subst}

module _ {ℓ κ} {A : Type ℓ} (P : A → Type κ) where
  -- `P` of the element, if there is one.
  abbrev AtSome : Option A → Type κ
  AtSome none = Unit
  AtSome (some x) = P x

  pub All-get : (xs : List A) (i : ℕ) (x : A) → All P xs → get_elem? xs i ≡ some x → P x
  All-get xs i x h e = subst AtSome e (found xs i h)
    where
      found : (xs : List A) (i : ℕ) → All P xs → AtSome (get_elem? xs i)
      found [] i h = tt
      found (x ∷ xs) zero h = h.0
      found (x ∷ xs) (suc i) h = found xs i h.1

  pub All-set : (xs : List A) (i : ℕ) (new : A) → P new → All P xs → All P (set xs i new)
  All-set [] i new p h = h
  All-set (x ∷ xs) zero new p h = (p, h.1)
  All-set (x ∷ xs) (suc i) new p h = (h.0, All-set xs i new p h.1)

  pub All-drop-length : (xs : List A) → All P (drop (length xs) xs)
  All-drop-length [] = tt
  All-drop-length (x ∷ xs) = All-drop-length xs

  pub All-drop-suc :
      (xs : List A) (n : ℕ) (x : A)
      → get_elem? xs n ≡ some x
      → P x
      → All P (drop (suc n) xs)
      → All P (drop n xs)
  All-drop-suc [] n x e p h = none_left n
    where
      none_left : (n : ℕ) → All P (drop n [])
      none_left zero = tt
      none_left (suc n) = tt
  All-drop-suc (y ∷ ys) zero x e p h = (subst AtSome (sym e) p, h)
  All-drop-suc (y ∷ ys) (suc n) x e p h = All-drop-suc ys n x e p h

  pub All-drop-set :
      (xs : List A) (n i : ℕ) (old new : A)
      → get_elem? xs i ≡ some old
      → (P old → P new)
      → All P (drop n xs)
      → All P (drop n (set xs i new))
  All-drop-set [] n i old new e f h = h
  All-drop-set (x ∷ xs) zero zero old new e f h = (f (subst AtSome e h.0), h.1)
  All-drop-set (x ∷ xs) zero (suc i) old new e f h = (h.0, All-drop-set xs zero i old new e f h.1)
  All-drop-set (x ∷ xs) (suc n) zero old new e f h = h
  All-drop-set (x ∷ xs) (suc n) (suc i) old new e f h = All-drop-set xs n i old new e f h
