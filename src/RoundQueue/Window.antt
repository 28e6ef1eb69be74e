-- ===== src/RoundQueue/Window.antt =====
-- The elements that a ring holds, as a list: the slots from the read index on, going round at the
-- capacity.
use native.Mathlib.Nat.{mod-eq_of_lt, mod-lt, mod-add-mod, mod-eq-sub-mod}
use comp2432_project.Prelude.{
  ℕ, zero, suc, ◌+◌, ◌-◌, ◌%◌, ◌≤◌, ◌<◌, ◌≡◌, ◌≢◌, refl, sym, ap, ◌∙◌, Option, none, some, List, [],
  ◌∷◌, ◌++◌, length, length-set, get_elem?, get_elem?-set_self, get_elem?-set_ne, set, arith, ltb,
  if◌then◌else◌, Bool-cases, inl, inr,
}

-- A slot outside the allocation adds nothing.
abbrev pub cons? {ℓ} : {T : Type ℓ} → Option T → List T → List T
cons? none xs = xs
cons? (some x) xs = x ∷ xs

-- The `n` elements from slot `h` on.
abbrev pub window {ℓ} : {T : Type ℓ} → List T → ℕ → ℕ → ℕ → List T
window slots cap h zero = []
window slots cap h (suc n) = cons? (get_elem? slots h) (window slots cap ((h + 1) % cap) n)

-- An offset below the capacity goes round at most once.
pub mod-turn :
    (cap h k : ℕ)
    → h < cap
    → k < cap
    → (h + k) % cap ≡ (if ltb (h + k) cap then h + k else h + k - cap)
mod-turn cap h k hh hk = elim (Bool-cases (ltb (h + k) cap)) [
  | inl e ↦ rw e (mod-eq_of_lt (ground arith))
  | inr e ↦ rw e (
      mod-eq-sub-mod {n = h + k} {m = cap} (ground arith)
      ∙ mod-eq_of_lt {n = h + k - cap} {m = cap} (ground arith))
]

-- One step of a window commutes with the offset.
pub shift-mod : (cap h n : ℕ) → (h + suc n) % cap ≡ ((h + 1) % cap + n) % cap
shift-mod cap h n = rw mod-add-mod (ap (λ k. k % cap) (omega arith))

module _ {ℓ} {T : Type ℓ} where
  pub get_elem?-some : (xs : List T) (i : ℕ) → i < length xs → (x : T) × (get_elem? xs i ≡ some x)
  get_elem?-some [] i h = absurd (omega arith)
  get_elem?-some (x ∷ xs) zero h = (x, refl)
  get_elem?-some (x ∷ xs) (suc i) h = get_elem?-some xs i (omega arith)

  pub length-window :
      (slots : List T) (cap h n : ℕ)
      → cap ≤ length slots
      → h < cap
      → length (window slots cap h n) ≡ n
  length-window slots cap h zero hs hh = refl
  length-window slots cap h (suc n) hs hh =
      let (x, e) = get_elem?-some slots h (omega arith) in
      rw e (ap suc (length-window slots cap ((h + 1) % cap) n hs (mod-lt (h + 1) (omega arith))))

  -- A write past the end of a window, and before it comes round, leaves the window alone.
  pub window-set_past :
      (slots : List T) (cap : ℕ) (x : T) (i n h m : ℕ)
      → h < cap
      → n ≤ m
      → m < cap
      → i ≡ (h + m) % cap
      → window (set slots i x) cap h n ≡ window slots cap h n
  window-set_past slots cap x i zero h m hh hn hm e = refl
  window-set_past slots cap x i (suc n) h zero hh hn hm e = absurd (omega arith)
  window-set_past slots cap x i (suc n) h (suc m) hh hn hm e =
      let rest =
        window-set_past slots cap x i n ((h + 1) % cap) m (mod-lt (h + 1) (omega arith))
          (omega arith) (omega arith) (e ∙ shift-mod cap h m) in
      λ k. cons? (head k) (rest k)
    where
      apart : i ≢ h
      apart = ground (arith, mod-turn cap h (suc m))

      head : get_elem? (set slots i x) h ≡ get_elem? slots h
      head = get_elem?-set_ne slots x apart

  -- A longer window ends with one more slot.
  pub window-snoc :
      (slots : List T) (cap : ℕ) (y : T) (n h : ℕ)
      → cap ≤ length slots
      → h < cap
      → get_elem? slots ((h + n) % cap) ≡ some y
      → window slots cap h (suc n) ≡ window slots cap h n ++ y ∷ []
  window-snoc slots cap y zero h hs hh e =
      rw (sym (ap (get_elem? slots) (start ∙ mod-eq_of_lt hh)) ∙ e)
    where
      start : (h + 0) % cap ≡ h % cap
      start = ap (λ k. k % cap) (omega arith)
  window-snoc slots cap y (suc n) h hs hh e =
      let (x, found) = get_elem?-some slots h (omega arith) in
      let rest =
        window-snoc slots cap y n ((h + 1) % cap) hs (mod-lt (h + 1) (omega arith))
          (ap (get_elem? slots) (sym (shift-mod cap h n)) ∙ e) in
      rw found (ap (λ xs. x ∷ xs) rest)

  -- A write into the slot behind a window, followed by taking that slot in.
  pub window-extend :
      (slots : List T) (cap : ℕ) (x : T) (n h i : ℕ)
      → cap ≤ length slots
      → h < cap
      → n < cap
      → i ≡ (h + n) % cap
      → window (set slots i x) cap h (suc n) ≡ window slots cap h n ++ x ∷ []
  window-extend slots cap x n h i hs hh hn e =
      window-snoc (set slots i x) cap x n h (omega (arith, length-set slots i x)) hh (
        ap (get_elem? (set slots i x)) (sym e)
        ∙ get_elem?-set_self slots i x (omega (arith, e, mod-lt (h + n) {m = cap} (omega arith))))
      ∙ ap (λ xs. xs ++ x ∷ []) (window-set_past slots cap x i n h n hh (omega arith) hn e)
