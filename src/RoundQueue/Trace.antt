-- ===== src/RoundQueue/Trace.antt =====
-- Any sequence of calls through the two handles, one call at a time, against the bounded queue.
use mathlib.Core.Path.{subst₂}
use comp2432_project.Prelude.{
  ℕ, zero, suc, ◌-◌, ◌≡◌, refl, sym, ap, ◌∙◌, Bool, Option, List, [], ◌∷◌, Outcome, done, ◌>>=◌,
  ◌==◌, length, take, drop, arith,
}
use comp2432_project.RoundQueue.{RwRoundQueue, try_read, read_batch, len, is_empty}
use comp2432_project.RoundQueue.Fifo
use comp2432_project.RoundQueue.Bounds.{IsValid}
use comp2432_project.RoundQueue.Refine.{
  contents, Refines, try_read-Refines, write_overwrite-Refines, length-contents,
}
use comp2432_project.RoundQueue.Handles.{
  reader_read, reader_len, reader_is_empty, writer_write, writer_capacity,
}

module _ {ℓ} {T : Type ℓ} where
  read_batch-step :
      (max : ℕ) {q : RwRoundQueue T} (xs : List T)
      → Refines q (try_read q) (Fifo.read xs)
      → ((q' : RwRoundQueue T)
          → IsValid q'
          → Refines q' (read_batch max q') (take max (contents q'), drop max (contents q')))
      → Refines q (read_batch (suc max) q) (take (suc max) xs, drop (suc max) xs)
  unfolding read_batch
  read_batch-step max [] r rest = record {
    after = r.after;
    returned = rw r.returned;
    held = r.held;
    valid = r.valid;
    same_capacity = r.same_capacity;
  }
  read_batch-step max (x ∷ xs) r rest =
      let next = rest r.after r.valid in
      record {
        after = next.after;
        returned =
            rw (r.returned, next.returned) (ap (λ ys. done (x ∷ take max ys, next.after)) r.held);
        held = next.held ∙ ap (drop max) r.held;
        valid = next.valid;
        same_capacity = next.same_capacity ∙ r.same_capacity;
      }

  -- `read_batch max` takes the `max` oldest elements of a valid ring, or all if there are fewer, in
  -- order, and leaves the rest.
  pub read_batch-Refines :
      (max : ℕ) {q : RwRoundQueue T}
      → IsValid q
      → Refines q (read_batch max q) (take max (contents q), drop max (contents q))
  unfolding read_batch
  read_batch-Refines zero {q} v = record {
    after = q;
    returned = refl;
    held = refl;
    valid = v;
    same_capacity = refl;
  }
  read_batch-Refines (suc max) {q} v =
      read_batch-step max (contents q) (try_read-Refines v)
        (λ q' v'. read_batch-Refines max {q = q'} v')

-- A call through a handle, and what it returns.
pub data Call {ℓ} (T : Type ℓ) : Type ℓ where
  write : T → Call T
  read : Call T
  batch : ℕ → Call T
  get_len : Call T
  get_is_empty : Call T
  get_capacity : Call T

pub data Reply {ℓ} (T : Type ℓ) : Type ℓ where
  overwrote : Bool → Reply T
  item : Option T → Reply T
  items : List T → Reply T
  number : ℕ → Reply T
  flag : Bool → Reply T

module _ {ℓ} {T : Type ℓ} where
  -- One call on the ring.
  unfoldable pub call : Call T → RwRoundQueue T → Outcome (Reply T × RwRoundQueue T)
  unfolding reader_read writer_write reader_len reader_is_empty writer_capacity
  call (write x) q = writer_write x q >>= (λ (b, q'). done (overwrote b, q'))
  call read q = reader_read q >>= (λ (o, q'). done (item o, q'))
  call (batch max) q = read_batch max q >>= (λ (xs, q'). done (items xs, q'))
  call get_len q = done (number (reader_len q), q)
  call get_is_empty q = done (flag (reader_is_empty q), q)
  call get_capacity q = done (number (writer_capacity q), q)

  unfoldable pub run : List (Call T) → RwRoundQueue T → Outcome (List (Reply T) × RwRoundQueue T)
  run [] q = done ([], q)
  run (c ∷ cs) q = call c q >>= (λ (r, q'). run cs q' >>= (λ (rs, q''). done (r ∷ rs, q'')))

  -- The same call on the bounded queue of `capacity - 1` elements.
  unfoldable pub fifo_call : ℕ → Call T → List T → Reply T × List T
  fifo_call cap (write x) xs = let (b, ys) = Fifo.write (cap - 1) x xs in (overwrote b, ys)
  fifo_call cap read xs = let (o, ys) = Fifo.read xs in (item o, ys)
  fifo_call cap (batch max) xs = (items (take max xs), drop max xs)
  fifo_call cap get_len xs = (number (length xs), xs)
  fifo_call cap get_is_empty xs = (flag (length xs == 0), xs)
  fifo_call cap get_capacity xs = (number cap, xs)

  unfoldable pub fifo_run : ℕ → List (Call T) → List T → List (Reply T) × List T
  unfolding fifo_call
  fifo_run cap [] xs = ([], xs)
  fifo_run cap (c ∷ cs) xs =
      let (r, ys) = fifo_call cap c xs in let (rs, zs) = fifo_run cap cs ys in (r ∷ rs, zs)

  -- A call that passes on the result of another.
  Refines-map {κ ι} :
      {R : Type κ} {S : Type ι} {q : RwRoundQueue T} (f : R → S) {m : Outcome (R × RwRoundQueue T)}
      {spec : R × List T}
      → Refines q m spec
      → Refines q (m >>= (λ (r, q'). done (f r, q'))) (f spec.0, spec.1)
  Refines-map f r = record {
    after = r.after;
    returned = rw r.returned;
    held = r.held;
    valid = r.valid;
    same_capacity = r.same_capacity;
  }

  -- A call that only looks.
  Refines-look :
      {q : RwRoundQueue T} {seen r : Reply T}
      → IsValid q
      → seen ≡ r
      → Refines q (done (seen, q)) (r, contents q)
  Refines-look {q} v e = record {
    after = q;
    returned = ap (λ r. done (r, q)) e;
    held = refl;
    valid = v;
    same_capacity = refl;
  }

  is_empty-contents : {q : RwRoundQueue T} → IsValid q → is_empty q ≡ (length (contents q) == 0)
  unfolding is_empty len
  is_empty-contents {q} v = ground (arith, length-contents v)

  pub call-Refines :
      (c : Call T) {q : RwRoundQueue T}
      → IsValid q
      → Refines q (call c q) (fifo_call q.capacity c (contents q))
  unfolding call fifo_call
  call-Refines (write x) v = Refines-map overwrote (write_overwrite-Refines x v)
  call-Refines read v = Refines-map item (try_read-Refines v)
  call-Refines (batch max) v = Refines-map items (read_batch-Refines max v)
  call-Refines get_len {q} v = Refines-look v (ap number (sym (length-contents v)))
  call-Refines get_is_empty {q} v = Refines-look v (ap flag (is_empty-contents v))
  call-Refines get_capacity v = Refines-look v refl

  run-cons :
      (c : Call T) (cs : List (Call T)) {q : RwRoundQueue T}
      → (first : Refines q (call c q) (fifo_call q.capacity c (contents q)))
      → Refines first.after
          (run cs first.after)
          (fifo_run q.capacity cs (fifo_call q.capacity c (contents q)).1)
      → Refines q (run (c ∷ cs) q) (fifo_run q.capacity (c ∷ cs) (contents q))
  unfolding run fifo_run
  run-cons c cs first rest = record {
    after = rest.after;
    returned = rw (first.returned, rest.returned);
    held = rest.held;
    valid = rest.valid;
    same_capacity = rest.same_capacity ∙ first.same_capacity;
  }

  pub run-Refines :
      (cs : List (Call T)) {q : RwRoundQueue T}
      → IsValid q
      → Refines q (run cs q) (fifo_run q.capacity cs (contents q))
  unfolding run fifo_run
  run-Refines [] {q} v = record {
    after = q;
    returned = refl;
    held = refl;
    valid = v;
    same_capacity = refl;
  }
  run-Refines (c ∷ cs) {q} v =
      let first = call-Refines c v in
      run-cons c cs first (
        subst₂ (λ cap xs. Refines first.after (run cs first.after) (fifo_run cap cs xs))
          first.same_capacity first.held (run-Refines cs first.valid))
