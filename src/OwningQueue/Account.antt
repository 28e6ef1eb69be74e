-- ===== src/OwningQueue/Account.antt =====
-- What each call does to the values of the queue, and to those that it accounts for.
use comp2432_project.Prelude.{
  ℕ, zero, suc, ◌+◌, ◌-◌, ◌≡◌, refl, sym, ap, ◌∙◌, List, [], ◌∷◌, ◌++◌, map, length, length-map,
  take, get_elem?, drop, arith, ltb, ◌==◌, Bool-cases, inl, inr, lt→ltb, Outcome, done, panic,
  fault,
}
use mathlib.Core.Path.{subst}
use mathlib.Core.List.{map-append}
use comp2432_project.Prelude.Totals.{total, total-append, total-set}
use comp2432_project.RoundQueue.{
  RwRoundQueue, next_index, acquire_write_ptr, ptr_write, commit_write,
}
use comp2432_project.RoundQueue as RoundQueue
use comp2432_project.RoundQueue.Fifo as Fifo
use comp2432_project.RoundQueue.Bounds.{IsValid}
use comp2432_project.RoundQueue.Window.{get_elem?-some}
use comp2432_project.RoundQueue.Refine.{
  contents, Refines, write_overwrite-Refines, write_overwrite-done, written,
}
use comp2432_project.OwningQueue.{MaybeUninit, init, OwningQueue, owned_at, write_overwrite, drain}
use comp2432_project.OwningQueue.Ownership.{
  Owns, slot_measure, account, try_read-none, try_read-Taken,
}

module _ {T : Type 0} where
  drop-map : (n : ℕ) (xs : List T) → drop n (map init xs) ≡ map init (drop n xs)
  drop-map zero xs = refl
  drop-map (suc n) [] = refl
  drop-map (suc n) (x ∷ xs) = drop-map n xs

  -- The abstract queue does not look at its elements.
  write-map :
      (room : ℕ) (v : T) (xs : List T)
      → Fifo.write room (init v) (map init xs)
        ≡ ((Fifo.write room v xs).0, map init (Fifo.write room v xs).1)
  write-map room v xs = elim (Bool-cases (ltb (length xs) room)) [
    | inl e ↦ rw (length-map xs init, e, map-append init xs (v ∷ [])) refl
    | inr e ↦
        rw (length-map xs init, e, sym (map-append init xs (v ∷ [])), drop-map 1 (xs ++ v ∷ []))
          refl
  ]

  done-injective :
      {R : Type 0} (a c : R) (b d : RwRoundQueue (MaybeUninit T))
      → ◌≡◌ {A = Outcome (R × RwRoundQueue (MaybeUninit T))} (done (a, b)) (done (c, d))
      → (a ≡ c) × (b ≡ d)
  done-injective a c b d e = (
    ap (λ o. elim o [ done p ↦ p.0 | panic ↦ a | fault ↦ a ]) e,
    ap (λ o. elim o [ done p ↦ p.1 | panic ↦ b | fault ↦ b ]) e,
  )

  -- A write puts its value in line, and leaks what its slot still owned.
  pub record Put (q : OwningQueue T) (v : T) (xs : List T) : Type 0 where
    pub after : OwningQueue T
    pub result : write_overwrite v q ≡ done ((Fifo.write (q.ring.capacity - 1) v xs).0, after)
    pub owns : Owns after (Fifo.write (q.ring.capacity - 1) v xs).1
    pub counted : (measure : T → ℕ) → account measure after ≡ account measure q + measure v
    pub capacity : after.ring.capacity ≡ q.ring.capacity

  overwritten : T → OwningQueue T → OwningQueue T
  overwritten v q = record {
    ring = written (init v) q.ring;
    leaked = q.leaked ++ owned_at (get_elem? q.ring.buffer q.ring.write_idx);
  }

  write-done :
      (v : T) (q : OwningQueue T)
      → IsValid q.ring
      → write_overwrite v q
        ≡ done (next_index q.ring q.ring.write_idx == q.ring.read_idx, overwritten v q)
  unfolding write_overwrite acquire_write_ptr ptr_write overwritten
  write-done v q i =
      rw (lt→ltb q.ring.write_idx (length q.ring.buffer) (omega (arith, i.write_in, i.slots))) refl

  pub write-Put : (q : OwningQueue T) (v : T) (xs : List T) → Owns q xs → Put q v xs
  unfolding overwritten commit_write
  write-Put q v xs o = record {
    after = overwritten v q;
    result =
        write-done v q o.valid
        ∙ ap (λ b. done (b, overwritten v q)) (sym same.0 ∙ ap (λ p. p.0) spec);
    owns = record {
      valid = subst IsValid same.1 r.valid;
      held = ap contents (sym same.1) ∙ r.held ∙ ap (λ p. p.1) spec;
    };
    counted = λ measure.
        let (slot, found) =
          get_elem?-some q.ring.buffer q.ring.write_idx
            (omega (arith, o.valid.write_in, o.valid.slots)) in
        omega (
          arith,
          total-set (slot_measure measure) q.ring.buffer q.ring.write_idx slot (init v) found,
          total-append measure q.leaked (owned_at (get_elem? q.ring.buffer q.ring.write_idx)),
          ap (λ s. total measure (owned_at s)) found,
        );
    capacity = refl;
  }
    where
      r :
          Refines q.ring
            (RoundQueue.write_overwrite (init v) q.ring)
            (Fifo.write (q.ring.capacity - 1) (init v) (contents q.ring))
      r = write_overwrite-Refines (init v) o.valid

      spec : Fifo.write (q.ring.capacity - 1) (init v) (contents q.ring) ≡ (
        (Fifo.write (q.ring.capacity - 1) v xs).0,
        map init (Fifo.write (q.ring.capacity - 1) v xs).1,
      )
      spec =
          ap (Fifo.write (q.ring.capacity - 1) (init v)) o.held
          ∙ write-map (q.ring.capacity - 1) v xs

      same :
          ((Fifo.write (q.ring.capacity - 1) (init v) (contents q.ring)).0
            ≡ (next_index q.ring q.ring.write_idx == q.ring.read_idx))
          × (r.after ≡ written (init v) q.ring)
      same =
          done-injective _ _ r.after (written (init v) q.ring)
            (sym r.returned ∙ write_overwrite-done (init v) o.valid)

  -- So many reads take the oldest values.
  pub record Drained (n : ℕ) (q : OwningQueue T) (xs : List T) : Type 0 where
    pub after : OwningQueue T
    pub result : drain n q ≡ done (take n xs, after)
    pub owns : Owns after (drop n xs)
    pub counted :
        (measure : T → ℕ) → account measure after + total measure (take n xs) ≡ account measure q
    pub capacity : after.ring.capacity ≡ q.ring.capacity

  pub drain-Drained : (n : ℕ) (q : OwningQueue T) (xs : List T) → Owns q xs → Drained n q xs
  unfolding drain
  drain-Drained zero q xs o = record {
    after = q;
    result = refl;
    owns = o;
    counted = λ measure. omega arith;
    capacity = refl;
  }
  drain-Drained (suc n) q [] o = record {
    after = q;
    result = rw (try_read-none q o) refl;
    owns = o;
    counted = λ measure. omega arith;
    capacity = refl;
  }
  drain-Drained (suc n) q (x ∷ xs) o =
      let t = try_read-Taken q x xs o in
      let d = drain-Drained n t.after xs t.owns in
      record {
        after = d.after;
        result = rw (t.result, d.result) refl;
        owns = d.owns;
        counted = λ measure. omega (arith, t.counted measure, d.counted measure);
        capacity = d.capacity ∙ t.capacity;
      }
