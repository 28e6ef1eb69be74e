-- ===== src/Dashboard/Shutdown/Tests.antt =====
-- A request before the server has set its handle, and a watcher between its two steps.
use comp2432_project.Prelude.{◌≡◌, refl, true, [], ◌∷◌, ◌++◌, arith}
use comp2432_project.Dashboard.Shutdown.{
  World, start, request_called, winner_turn, server_turn, watch_called, watcher_turn, step, run,
  answered, waiting,
}
use comp2432_project.Dashboard.Shutdown.Stops.{shutdown_stops_server}
use comp2432_project.Dashboard.Shutdown.Watchers.{IsLostAt, late_watcher_is_lost}

shutdown_stops_server_example :
    (run
      ((server_turn ∷ [])
        ++ request_called ∷ winner_turn ∷ request_called ∷ winner_turn ∷ server_turn ∷ [])
      start).stop_requested
    ≡ true
shutdown_stops_server_example =
    shutdown_stops_server (server_turn ∷ [])
      (winner_turn ∷ request_called ∷ winner_turn ∷ server_turn ∷ []) (omega arith) (omega arith)

-- Both watchers look at the flag; the first calls `notified` in time, the second does not.
abbrev missed : World
missed =
    run
      (watch_called
        ∷ watch_called
        ∷ watcher_turn 0
        ∷ watcher_turn 1
        ∷ watcher_turn 0
        ∷ request_called
        ∷ winner_turn
        ∷ [])
      start

late_watcher_is_lost_example :
    IsLostAt (run (watcher_turn 1 ∷ watcher_turn 1 ∷ winner_turn ∷ []) missed).watchers 1
unfolding run step
late_watcher_is_lost_example =
    late_watcher_is_lost 1 (watcher_turn 1 ∷ watcher_turn 1 ∷ winner_turn ∷ []) missed refl tt tt

first_is_answered : (run (watcher_turn 1 ∷ []) missed).watchers ≡ answered ∷ waiting ∷ []
unfolding run step
first_is_answered = refl
