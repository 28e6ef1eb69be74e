-- ===== src/RoundQueue/Refine.antt =====
-- The ring refines the bounded queue that drops its oldest element: no call faults, and each
-- returns what the queue returns.
use comp2432_project.Prelude.{
  ℕ, zero, suc, ◌+◌, ◌-◌, ◌%◌, ◌≤◌, ◌<◌, ◌≡◌, ◌≢◌, refl, sym, ap, ◌∙◌, none, some, List, [], ◌∷◌,
  ◌++◌, Outcome, done, if◌then◌else◌, ◌==◌, length, drop, get_elem?, set, arith, lt→ltb,
}
use comp2432_project.RoundQueue.{
  RwRoundQueue, next_index, commit_read, commit_write, try_read, write_overwrite, len,
}
use comp2432_project.RoundQueue.Fifo
use comp2432_project.RoundQueue.Bounds.{
  IsValid, next_index-eq, mod-next_slot, commit_read-IsValid, commit_write-IsValid, set-IsValid,
  len-lt-capacity, write_idx-eq, len-commit_read, full_iff,
}
use comp2432_project.RoundQueue.Window.{
  window, window-extend, length-window, get_elem?-some, shift-mod,
}
use native.Mathlib.Nat.{mod-lt}
use native.Mathlib.Decide.{ℕ_discrete}

module _ {ℓ} {T : Type ℓ} where
  pub len-empty : (q : RwRoundQueue T) → q.read_idx ≡ q.write_idx → len q ≡ 0
  unfolding len
  len-empty q e = ground arith

  -- What the ring holds, oldest first.
  abbrev pub contents : RwRoundQueue T → List T
  contents q = window q.buffer q.capacity q.read_idx (len q)

  -- A call that returns `r` and leaves a valid ring of the same capacity that holds `xs`.
  pub record Refines {κ} {R : Type κ} (q : RwRoundQueue T) (call : Outcome (R × RwRoundQueue T))
      (spec : R × List T) : Type (ℓ ⊔ κ) where
    pub after : RwRoundQueue T
    pub returned : call ≡ done (spec.0, after)
    pub held : contents after ≡ spec.1
    pub valid : IsValid after
    pub same_capacity : after.capacity ≡ q.capacity

  pub length-contents : {q : RwRoundQueue T} → IsValid q → length (contents q) ≡ len q
  length-contents {q} v =
      length-window q.buffer q.capacity q.read_idx (len q) (omega (arith, v.slots)) v.read_in

  -- Writing to a full window and giving up its first element.
  window-overwrite :
      (slots : List T) (cap : ℕ) (x : T) (n h i : ℕ)
      → cap ≤ length slots
      → h < cap
      → n + 1 ≡ cap
      → i ≡ (h + n) % cap
      → window (set slots i x) cap ((h + 1) % cap) n ≡ drop 1 (window slots cap h n ++ x ∷ [])
  window-overwrite slots cap x zero h i hs hh e w = refl
  window-overwrite slots cap x (suc n) h i hs hh e w =
      let (y, found) = get_elem?-some slots h (omega arith) in
      rw found (
        window-extend slots cap x n ((h + 1) % cap) i hs (mod-lt (h + 1) (omega arith))
          (omega arith) (w ∙ shift-mod cap h n))

  -- Equal parts hold equal elements.
  pub contents-of :
      (q : RwRoundQueue T) (h n : ℕ)
      → q.read_idx ≡ h
      → len q ≡ n
      → contents q ≡ window q.buffer q.capacity h n
  contents-of q h n p e = λ i. window q.buffer q.capacity (p i) (e i)

  -- A step of an index, as a remainder.
  pub next_index-mod :
      {q : RwRoundQueue T}
      → IsValid q
      → (i : ℕ) → i < q.capacity
      → next_index q i ≡ (i + 1) % q.capacity
  next_index-mod {q} v i h = next_index-eq v i h ∙ sym (mod-next_slot q.capacity i h)

  pub contents-empty : (q : RwRoundQueue T) → q.read_idx ≡ q.write_idx → contents q ≡ []
  contents-empty q e = ap (λ n. window q.buffer q.capacity q.read_idx n) none_left
    where
      none_left : len q ≡ 0
      none_left = len-empty q e

  -- The oldest element, and what is left when the read index moves on.
  pub contents-cons :
      {q : RwRoundQueue T}
      → IsValid q
      → q.read_idx ≢ q.write_idx
      → (x : T) × (get_elem? q.buffer q.read_idx ≡ some x)
        × (contents q ≡ x ∷ contents (commit_read q))
  unfolding commit_read
  contents-cons {q} v ne =
      let (x, found) = get_elem?-some q.buffer q.read_idx (omega (arith, v.read_in, v.slots)) in
      (
        x,
        found,
        contents-of q q.read_idx (suc (len (commit_read q))) refl
              (omega (arith, len-commit_read v ne))
            ∙ rw found (
                ap (λ xs. x ∷ xs)
                  (sym (
                    contents-of (commit_read q) ((q.read_idx + 1) % q.capacity)
                      (len (commit_read q)) (next_index-mod v q.read_idx v.read_in) refl))),
      )

  try_read-empty : (q : RwRoundQueue T) → q.read_idx ≡ q.write_idx → try_read q ≡ done (none, q)
  unfolding try_read
  try_read-empty q e = ground arith

  try_read-some :
      (q : RwRoundQueue T) (x : T)
      → q.read_idx ≢ q.write_idx
      → get_elem? q.buffer q.read_idx ≡ some x
      → try_read q ≡ done (some x, commit_read q)
  unfolding try_read
  try_read-some q x ne e = ground arith

  -- `try_read` takes the oldest element of a valid ring, or reports that there is none.
  pub try_read-Refines :
      {q : RwRoundQueue T} → IsValid q → Refines q (try_read q) (Fifo.read (contents q))
  unfolding commit_read
  try_read-Refines {q} v = elim (ℕ_discrete q.read_idx q.write_idx) [
    | yes e ↦ rw (contents-empty q e) (record {
      after = q;
      returned = try_read-empty q e;
      held = contents-empty q e;
      valid = v;
      same_capacity = refl;
    })
    | no ne ↦
        let (x, found, split) = contents-cons v ne in
        rw split (record {
          after = commit_read q;
          returned = try_read-some q x ne found;
          held = refl;
          valid = commit_read-IsValid v;
          same_capacity = refl;
        })
  ]

  -- The queue after `write_overwrite`.
  abbrev pub written : T → RwRoundQueue T → RwRoundQueue T
  written x q =
      commit_write (next_index q q.write_idx == q.read_idx)
        (record q { buffer = set q.buffer q.write_idx x })

  pub write_overwrite-done :
      {q : RwRoundQueue T} (x : T)
      → IsValid q
      → write_overwrite x q ≡ done (next_index q q.write_idx == q.read_idx, written x q)
  unfolding write_overwrite
  write_overwrite-done {q} x v =
      rw (lt→ltb q.write_idx (length q.buffer) (omega (arith, v.write_in, v.slots)))

  written-IsValid : {q : RwRoundQueue T} (x : T) → IsValid q → IsValid (written x q)
  written-IsValid {q} x v = commit_write-IsValid _ (set-IsValid q.write_idx x v)

  len-written :
      {q : RwRoundQueue T} (x : T)
      → IsValid q
      → len (written x q) ≡ (if len q + 1 == q.capacity then len q else len q + 1)
  unfolding len commit_write
  len-written {q} x v = ground (
    arith,
    next_index-eq v q.write_idx v.write_in,
    next_index-eq (set-IsValid q.write_idx x v) q.write_idx v.write_in,
    next_index-eq (set-IsValid q.write_idx x v) q.read_idx v.read_in,
  )

  written-room :
      {q : RwRoundQueue T} (x : T)
      → IsValid q
      → len q + 1 ≢ q.capacity
      → contents (written x q) ≡ contents q ++ x ∷ []
  unfolding commit_write
  written-room {q} x v room =
      contents-of (written x q) q.read_idx (suc (len q)) (ground (arith, full_iff v))
        (ground (arith, len-written x v))
      ∙ window-extend q.buffer q.capacity x (len q) q.read_idx q.write_idx (omega (arith, v.slots))
          v.read_in (len-lt-capacity v) (write_idx-eq v)

  written-full :
      {q : RwRoundQueue T} (x : T)
      → IsValid q
      → len q + 1 ≡ q.capacity
      → contents (written x q) ≡ drop 1 (contents q ++ x ∷ [])
  unfolding commit_write
  written-full {q} x v full =
      contents-of (written x q) ((q.read_idx + 1) % q.capacity) (len q)
        (ground
          (arith, full_iff v, next_index-mod (set-IsValid q.write_idx x v) q.read_idx v.read_in))
        (ground (arith, len-written x v))
      ∙ window-overwrite q.buffer q.capacity x (len q) q.read_idx q.write_idx
          (omega (arith, v.slots)) v.read_in full (write_idx-eq v)

  -- `write_overwrite` appends to a valid ring that has room, and otherwise drops the oldest element
  -- too and says so.
  pub write_overwrite-Refines :
      {q : RwRoundQueue T} (x : T)
      → IsValid q
      → Refines q (write_overwrite x q) (Fifo.write (q.capacity - 1) x (contents q))
  unfolding commit_write
  write_overwrite-Refines {q} x v = elim (ℕ_discrete (len q + 1) q.capacity) [
    | yes full ↦
        rw (Fifo.write-full (q.capacity - 1) x (contents q) (omega (arith, length-contents v)))
          (record {
            after = written x q;
            returned =
                write_overwrite-done x v ∙ ap (λ b. done (b, written x q)) ((full_iff v).1 full);
            held = written-full x v full;
            valid = written-IsValid x v;
            same_capacity = refl;
          })
    | no room ↦
        rw
          (Fifo.write-room (q.capacity - 1) x (contents q)
            (omega (arith, length-contents v, len-lt-capacity v)))
          (record {
            after = written x q;
            returned =
                write_overwrite-done x v
                ∙ ap (λ b. done (b, written x q)) (ground (arith, full_iff v));
            held = written-room x v room;
            valid = written-IsValid x v;
            same_capacity = refl;
          })
  ]
