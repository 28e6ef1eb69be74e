-- ===== src/Dashboard/Shutdown/Watchers.antt =====
-- Who of the watchers gets the answer.
use comp2432_project.Prelude.{
  ℕ, zero, suc, ◌≡◌, refl, Bool, true, false, List, [], ◌∷◌, ◌++◌, if◌then◌else◌,
}
use comp2432_project.Dashboard.Shutdown.{
  WinnerPc, no_winner, notifying, looking_up, ended, ServerPc, binding, checking, serving,
  WatcherPc, arrived, seen_running, waiting, answered, World, Event, request_called, winner_turn,
  server_turn, watch_called, watcher_turn, request_shutdown, winner_step, server_step, watcher_step,
  turn_watchers, step, run,
}

-- The notification is over.
abbrev pub IsNotified : WinnerPc → Type 0
IsNotified looking_up = Unit {0}
IsNotified ended = Unit {0}
IsNotified _ = ⊥

-- A watcher that has seen the flag unset and waits for a notification that is over.
abbrev pub IsLost : WatcherPc → Type 0
IsLost seen_running = Unit {0}
IsLost waiting = Unit {0}
IsLost _ = ⊥

abbrev pub IsLostAt : List WatcherPc → ℕ → Type 0
IsLostAt [] i = ⊥
IsLostAt (pc ∷ pcs) zero = IsLost pc
IsLostAt (pc ∷ pcs) (suc i) = IsLostAt pcs i

IsLostAt-append :
    (pcs : List WatcherPc) (i : ℕ) (pc : WatcherPc) → IsLostAt pcs i → IsLostAt (pcs ++ pc ∷ []) i
IsLostAt-append [] i pc h = absurd h
IsLostAt-append (p ∷ pcs) zero pc h = h
IsLostAt-append (p ∷ pcs) (suc i) pc h = IsLostAt-append pcs i pc h

watcher-IsLost : (flag : Bool) (pc : WatcherPc) → IsLost pc → IsLost (watcher_step flag pc)
unfolding watcher_step
watcher-IsLost flag arrived h = absurd h
watcher-IsLost flag seen_running h = tt
watcher-IsLost flag waiting h = tt
watcher-IsLost flag answered h = absurd h

turn-IsLostAt :
    (flag : Bool) (k : ℕ) (pcs : List WatcherPc) (i : ℕ)
    → IsLostAt pcs i
    → IsLostAt (turn_watchers flag k pcs) i
unfolding turn_watchers
turn-IsLostAt flag k [] i h = h
turn-IsLostAt flag zero (pc ∷ pcs) zero h = watcher-IsLost flag pc h
turn-IsLostAt flag zero (pc ∷ pcs) (suc i) h = h
turn-IsLostAt flag (suc k) (pc ∷ pcs) zero h = h
turn-IsLostAt flag (suc k) (pc ∷ pcs) (suc i) h = turn-IsLostAt flag k pcs i h

-- The winner has notified, the flag is set, and the watcher `i` is lost.
record Missed (i : ℕ) (w : World) : Type 0 where
  flag : w.shutting_down ≡ true
  notified : IsNotified w.winner
  lost : IsLostAt w.watchers i

winner-Missed :
    (i : ℕ) (pc : WinnerPc) (w : World)
    → w.winner ≡ pc
    → IsNotified pc
    → Missed i w
    → Missed i (winner_step pc w)
unfolding winner_step
winner-Missed i no_winner w e n m = absurd n
winner-Missed i notifying w e n m = absurd n
winner-Missed i looking_up w e n m = record { flag = m.flag; notified = tt; lost = m.lost }
winner-Missed i ended w e n m = m

server-Missed : (i : ℕ) (pc : ServerPc) (w : World) → Missed i w → Missed i (server_step pc w)
unfolding server_step
server-Missed i binding w m = record { flag = m.flag; notified = m.notified; lost = m.lost }
server-Missed i checking w m = record { flag = m.flag; notified = m.notified; lost = m.lost }
server-Missed i serving w m = m

either-Missed :
    (i : ℕ) (b : Bool) (v w : World) → b ≡ true → Missed i v → Missed i (if b then v else w)
either-Missed i true v w e m = m
either-Missed i false v w e m = cc

step-Missed : (i : ℕ) (e : Event) (w : World) → Missed i w → Missed i (step e w)
unfolding step request_shutdown
step-Missed i request_called w m = either-Missed i w.shutting_down w _ m.flag m
step-Missed i winner_turn w m = winner-Missed i w.winner w refl m.notified m
step-Missed i server_turn w m = server-Missed i w.server w m
step-Missed i watch_called w m = record {
  flag = m.flag;
  notified = m.notified;
  lost = IsLostAt-append w.watchers i arrived m.lost;
}
step-Missed i (watcher_turn k) w m = record {
  flag = m.flag;
  notified = m.notified;
  lost = turn-IsLostAt w.shutting_down k w.watchers i m.lost;
}

run-Missed : (i : ℕ) (es : List Event) (w : World) → Missed i w → Missed i (run es w)
unfolding run
run-Missed i [] w m = m
run-Missed i (e ∷ es) w m = run-Missed i es (step e w) (step-Missed i e w m)

-- A watcher that has seen the flag unset and has not called `notified` when the waiters are notified
-- never gets an answer, whatever happens then: it stays before its wait or in it.
pub late_watcher_is_lost :
    (i : ℕ) (es : List Event) (w : World)
    → w.shutting_down ≡ true
    → IsNotified w.winner
    → IsLostAt w.watchers i
    → IsLostAt (run es w).watchers i
late_watcher_is_lost i es w flag notified lost =
    (run-Missed i es w (record { flag = flag; notified = notified; lost = lost })).lost
