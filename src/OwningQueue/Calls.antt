-- ===== src/OwningQueue/Calls.antt =====
-- The calls of the handles: what they take, leave and account for.
use comp2432_project.Prelude.{
  ℕ, ◌+◌, ◌-◌, ◌≡◌, refl, ap, List, [], ◌∷◌, ◌++◌, length, length-append, length-drop, take,
  take-append-drop, drop, arith, ltb, Bool-cases, inl, inr, Outcome, done,
}
use comp2432_project.Prelude.Totals.{total, total-append}
use comp2432_project.RoundQueue.Fifo as Fifo
use comp2432_project.OwningQueue.{OwningQueue, once, Call, write, read, read_batch, Got, call, run}
use comp2432_project.OwningQueue.Ownership.{Owns, account, try_read-none, try_read-Taken}
use comp2432_project.OwningQueue.Account.{write-Put, drain-Drained}

module _ {T : Type 0} where
  abbrev pub written_by : Call T → List T
  written_by (write v) = v ∷ []
  written_by read = []
  written_by (read_batch max) = []

  abbrev pub written_in : List (Call T) → List T
  written_in [] = []
  written_in (c ∷ cs) = written_by c ++ written_in cs

  -- Calls that return, with what they leave and what they write.
  pub record Called (q : OwningQueue T) (xs written : List T) (o : Outcome (Got T × OwningQueue T))
      : Type 0 where
    pub got : Got T
    pub after : OwningQueue T
    pub left : List T
    pub result : o ≡ done (got, after)
    pub owns : Owns after left
    pub counted :
        (measure : T → ℕ)
        → account measure after + total measure got.items
          ≡ account measure q + total measure written
    pub sizes : length left + got.overwrites + length got.items ≡ length xs + length written

  length-write :
      (room : ℕ) (v : T) (xs : List T)
      → length (Fifo.write room v xs).1 + once (Fifo.write room v xs).0 ≡ length xs + 1
  length-write room v xs = elim (Bool-cases (ltb (length xs) room)) [
    | inl e ↦ rw e (omega (arith, length-append xs (v ∷ [])))
    | inr e ↦ rw e (omega (arith, length-append xs (v ∷ []), length-drop 1 (xs ++ v ∷ [])))
  ]

  call-Called :
      (c : Call T) (q : OwningQueue T) (xs : List T)
      → Owns q xs
      → Called q xs (written_by c) (call c q)
  unfolding call
  call-Called (write v) q xs o =
      let p = write-Put q v xs o in
      record {
        got = record { items = []; overwrites = once (Fifo.write (q.ring.capacity - 1) v xs).0 };
        after = p.after;
        left = (Fifo.write (q.ring.capacity - 1) v xs).1;
        result = rw p.result refl;
        owns = p.owns;
        counted = λ measure. omega (arith, p.counted measure);
        sizes = omega (arith, length-write (q.ring.capacity - 1) v xs);
      }
  call-Called read q [] o = record {
    got = record { items = []; overwrites = 0 };
    after = q;
    left = [];
    result = rw (try_read-none q o) refl;
    owns = o;
    counted = λ measure. refl;
    sizes = refl;
  }
  call-Called read q (x ∷ xs) o =
      let t = try_read-Taken q x xs o in
      record {
        got = record { items = x ∷ []; overwrites = 0 };
        after = t.after;
        left = xs;
        result = rw t.result refl;
        owns = t.owns;
        counted = λ measure. omega (arith, t.counted measure);
        sizes = omega arith;
      }
  call-Called (read_batch max) q xs o =
      let d = drain-Drained max q xs o in
      record {
        got = record { items = take max xs; overwrites = 0 };
        after = d.after;
        left = drop max xs;
        result = rw d.result refl;
        owns = d.owns;
        counted = λ measure. omega (arith, d.counted measure);
        sizes =
            omega (
              arith,
              length-append (take max xs) (drop max xs),
              ap length (take-append-drop max xs),
            );
      }

  pub run-Called :
      (cs : List (Call T)) (q : OwningQueue T) (xs : List T)
      → Owns q xs
      → Called q xs (written_in cs) (run cs q)
  unfolding run
  run-Called [] q xs o = record {
    got = record { items = []; overwrites = 0 };
    after = q;
    left = xs;
    result = refl;
    owns = o;
    counted = λ measure. refl;
    sizes = omega arith;
  }
  run-Called (c ∷ cs) q xs o =
      let first = call-Called c q xs o in
      let rest = run-Called cs first.after first.left first.owns in
      record {
        got = record {
          items = first.got.items ++ rest.got.items;
          overwrites = first.got.overwrites + rest.got.overwrites;
        };
        after = rest.after;
        left = rest.left;
        result = rw (first.result, rest.result) refl;
        owns = rest.owns;
        counted = λ measure. omega (
          arith,
          first.counted measure,
          rest.counted measure,
          total-append measure first.got.items rest.got.items,
          total-append measure (written_by c) (written_in cs),
        );
        sizes = omega (
          arith,
          first.sizes,
          rest.sizes,
          length-append first.got.items rest.got.items,
          length-append (written_by c) (written_in cs),
        );
      }
