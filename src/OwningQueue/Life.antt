-- ===== src/OwningQueue/Life.antt =====
-- The life of a queue, from `new` to its `Drop`: what becomes of every value written.
use comp2432_project.Prelude.{ℕ, ◌+◌, ◌≡◌, List, length, Outcome, done}
use comp2432_project.Prelude.Totals.{total}
use comp2432_project.OwningQueue.{OwningQueue, drop_queue, Got}

module _ {T : Type 0} where
  -- Every value that was written has been read, is dropped, or leaks.
  pub record Accounted (written : List T) (ran : Outcome (Got T × OwningQueue T)) : Type 0 where
    pub got : Got T
    pub after : OwningQueue T
    pub dropped : List T
    pub leaked : List T
    pub result : ran ≡ done (got, after)
    pub dropping : drop_queue after ≡ done (dropped, leaked)
    pub each_once :
        (measure : T → ℕ)
        → total measure got.items + total measure dropped + total measure leaked
          ≡ total measure written
    pub leaks : length leaked ≡ got.overwrites
