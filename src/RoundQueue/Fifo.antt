-- ===== src/RoundQueue/Fifo.antt =====
-- What a user of the ring relies on: a queue of at most `room` elements, oldest first, where a
-- write to a full queue drops the oldest.
use comp2432_project.Prelude.{
  ℕ, Bool, true, false, Option, none, some, List, [], ◌∷◌, ◌++◌, if◌then◌else◌, ltb, length, drop,
  ◌≤◌, ◌<◌, ◌≡◌, lt→ltb, le→ltb_false,
}

module _ {ℓ} {T : Type ℓ} where
  abbrev pub write : ℕ → T → List T → Bool × List T
  write room v xs =
      if ltb (length xs) room then (false, xs ++ v ∷ []) else (true, drop 1 (xs ++ v ∷ []))

  abbrev pub read : List T → Option T × List T
  read [] = (none, [])
  read (x ∷ xs) = (some x, xs)

  pub write-room :
      (room : ℕ) (v : T) (xs : List T) → length xs < room → write room v xs ≡ (false, xs ++ v ∷ [])
  write-room room v xs h = rw (lt→ltb _ _ h)

  pub write-full :
      (room : ℕ) (v : T) (xs : List T)
      → room ≤ length xs
      → write room v xs ≡ (true, drop 1 (xs ++ v ∷ []))
  write-full room v xs h = rw (le→ltb_false _ _ h)
