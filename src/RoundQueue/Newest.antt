-- ===== src/RoundQueue/Newest.antt =====
-- A burst of writes through the writer handle: what is left in the ring afterwards.
use comp2432_project.Prelude.{
  ℕ, suc, ◌-◌, ◌≤◌, ◌<◌, ◌≡◌, refl, sym, ap, ◌∙◌, List, [], ◌∷◌, ◌++◌, map, append_assoc,
  append-nil, done, length, length-append, length-drop, drop, arith,
}
use native.Mathlib.Decide.{dec_lt}
use comp2432_project.RoundQueue.{RwRoundQueue}
use comp2432_project.RoundQueue.Fifo
use comp2432_project.RoundQueue.Bounds.{IsValid, len-lt-capacity}
use comp2432_project.RoundQueue.Refine.{contents, length-contents}
use comp2432_project.RoundQueue.Trace.{write, Reply, run, fifo_run, run-Refines}

-- The last `n` elements of a list, or all if there are fewer.
abbrev pub newest {ℓ} : {T : Type ℓ} → ℕ → List T → List T
newest n xs = drop (length xs - n) xs

module _ {ℓ} {T : Type ℓ} where
  pub newest_all : (n : ℕ) (xs : List T) → length xs ≤ n → newest n xs ≡ xs
  newest_all n xs h = ap (λ k. drop k xs) too_few
    where
      too_few : length xs - n ≡ 0
      too_few = omega arith

  -- An element with `n` others behind it is not among the `n` newest.
  pub newest-cons : (n : ℕ) (x : T) (xs : List T) → n ≤ length xs → newest n (x ∷ xs) ≡ newest n xs
  newest-cons n x xs h = ap (λ k. drop k (x ∷ xs)) one_more
    where
      one_more : suc (length xs) - n ≡ suc (length xs - n)
      one_more = omega arith

  newest-drop-one :
      (n : ℕ) (xs ys : List T) → n < length xs → newest n (drop 1 xs ++ ys) ≡ newest n (xs ++ ys)
  newest-drop-one n [] ys h = refl
  newest-drop-one n (x ∷ xs) ys h =
      sym (newest-cons n x (xs ++ ys) (omega (arith, length-append xs ys)))

  -- The bounded queue after a write, as the start of a longer burst.
  write-newest :
      (room : ℕ) (v : T) (xs vs : List T)
      → length xs ≤ room
      → newest room ((Fifo.write room v xs).1 ++ vs) ≡ newest room (xs ++ v ∷ vs)
  write-newest room v xs vs h = elim (dec_lt (length xs) room) [
    | yes lt ↦ rw (Fifo.write-room room v xs lt) (ap (newest room) (append_assoc xs (v ∷ []) vs))
    | no ge ↦ rw (Fifo.write-full room v xs (omega arith)) (
        newest-drop-one room (xs ++ v ∷ []) vs (omega (arith, length-append xs (v ∷ [])))
        ∙ ap (newest room) (append_assoc xs (v ∷ []) vs))
  ]

  length-write :
      (room : ℕ) (v : T) (xs : List T) → length xs ≤ room → length (Fifo.write room v xs).1 ≤ room
  length-write room v xs h = elim (dec_lt (length xs) room) [
    | yes lt ↦ rw (Fifo.write-room room v xs lt) (omega (arith, length-append xs (v ∷ [])))
    | no ge ↦
        rw (Fifo.write-full room v xs (omega arith))
          (omega (arith, length-drop 1 (xs ++ v ∷ []), length-append xs (v ∷ [])))
  ]

  fifo_writes :
      (cap : ℕ) (vs xs : List T)
      → length xs ≤ cap - 1
      → (fifo_run cap (map write vs) xs).1 ≡ newest (cap - 1) (xs ++ vs)
  unfolding fifo_run
  fifo_writes cap [] xs h = sym (ap (newest (cap - 1)) (append-nil xs) ∙ newest_all (cap - 1) xs h)
  fifo_writes cap (v ∷ vs) xs h =
      fifo_writes cap vs (Fifo.write (cap - 1) v xs).1 (length-write (cap - 1) v xs h)
      ∙ write-newest (cap - 1) v xs vs h

  -- After any number of writes a valid ring holds the newest `capacity - 1` of the elements that it
  -- held before and those written, in order; the writes end, with no fault and no panic.
  pub writes_keep_newest :
      (vs : List T) {q : RwRoundQueue T}
      → IsValid q
      → (replies : List (Reply T)) × (q' : RwRoundQueue T) × (run (map write vs) q
          ≡ done (replies, q'))
        × (contents q' ≡ newest (q.capacity - 1) (contents q ++ vs))
  writes_keep_newest vs {q} v =
      let r = run-Refines (map write vs) v in
      (
        (fifo_run q.capacity (map write vs) (contents q)).0,
        r.after,
        r.returned,
        r.held
            ∙ fifo_writes q.capacity vs (contents q)
                (omega (arith, length-contents v, len-lt-capacity v)),
      )
