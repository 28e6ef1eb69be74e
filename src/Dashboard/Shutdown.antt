-- ===== src/Dashboard/Shutdown.antt =====
-- dashboard/src/lib.rs: the shutdown of the server. `request_shutdown`, `run` and the handlers that
-- watch are cut at each access to what they share: the flag, the server's handle and the notifier.
-- Only the call of `request_shutdown` that sets the flag goes on; it is the `winner`.
pub mod Stops
pub mod Watchers
mod Tests
use comp2432_project.Prelude.{
  ℕ, zero, suc, ◌+◌, Bool, true, false, ◌||◌, Option, none, some, List, [], ◌∷◌, ◌++◌, map,
  if◌then◌else◌,
}
use Prim.Native.String.{String}

-- Where the winner stands: not there yet, before `notify_waiters`, before it looks up the handle, and
-- at its end.
pub data WinnerPc : Type 0 where
  no_winner : WinnerPc
  notifying : WinnerPc
  looking_up : WinnerPc
  ended : WinnerPc

-- `run`: before it sets the handle, before it looks at the flag, and serving.
pub data ServerPc : Type 0 where
  binding : ServerPc
  checking : ServerPc
  serving : ServerPc

-- `shutdown_watch_api`: before it looks at the flag, before it calls `notified`, in its wait, and with
-- its answer.
pub data WatcherPc : Type 0 where
  arrived : WatcherPc
  seen_running : WatcherPc
  waiting : WatcherPc
  answered : WatcherPc

-- `stop_requested`: `stop_graceful` is called, or a thread will call it after 600 ms.
pub record World : Type 0 where
  pub shutting_down : Bool
  pub winner : WinnerPc
  pub server : ServerPc
  pub server_handle : Bool
  pub stop_requested : Bool
  pub watchers : List WatcherPc

abbrev pub start : World
start = record {
  shutting_down = false;
  winner = no_winner;
  server = binding;
  server_handle = false;
  stop_requested = false;
  watchers = [];
}

pub data Event : Type 0 where
  request_called : Event
  winner_turn : Event
  server_turn : Event
  watch_called : Event
  watcher_turn : ℕ → Event

-- `SHUTTING_DOWN.swap(true)`: a call that finds the flag set returns.
pub request_shutdown : World → World
request_shutdown w =
    if w.shutting_down then w else record w { shutting_down = true; winner = notifying }

-- `notify_waiters` wakes those who wait, and nobody later.
abbrev pub woken : WatcherPc → WatcherPc
woken waiting = answered
woken arrived = arrived
woken seen_running = seen_running
woken answered = answered

pub winner_step : WinnerPc → World → World
winner_step no_winner w = w
winner_step notifying w = record w { winner = looking_up; watchers = map woken w.watchers }
winner_step looking_up w = record w {
  winner = ended;
  stop_requested = w.stop_requested || w.server_handle;
}
winner_step ended w = w

-- The handle that `run` finds is the one that it has set.
pub server_step : ServerPc → World → World
server_step binding w = record w { server = checking; server_handle = true }
server_step checking w = record w {
  server = serving;
  stop_requested = w.stop_requested || w.shutting_down;
}
server_step serving w = w

pub watcher_step : Bool → WatcherPc → WatcherPc
watcher_step shutting_down arrived = if shutting_down then answered else seen_running
watcher_step shutting_down seen_running = waiting
watcher_step shutting_down waiting = waiting
watcher_step shutting_down answered = answered

pub turn_watchers : Bool → ℕ → List WatcherPc → List WatcherPc
unfolding watcher_step
turn_watchers shutting_down i [] = []
turn_watchers shutting_down zero (pc ∷ pcs) = watcher_step shutting_down pc ∷ pcs
turn_watchers shutting_down (suc i) (pc ∷ pcs) = pc ∷ turn_watchers shutting_down i pcs

unfoldable pub step : Event → World → World
unfolding request_shutdown winner_step server_step turn_watchers
step request_called w = request_shutdown w
step winner_turn w = winner_step w.winner w
step server_turn w = server_step w.server w
step watch_called w = record w { watchers = w.watchers ++ arrived ∷ [] }
step (watcher_turn i) w = record w { watchers = turn_watchers w.shutting_down i w.watchers }

unfoldable pub run : List Event → World → World
unfolding step
run [] w = w
run (e ∷ es) w = run es (step e w)

-- `shutdown_status_api`
pub shutdown_status_api : World → Bool × String
shutdown_status_api w = (
  w.shutting_down,
  if w.shutting_down then "Dashboard is shutting down. Program has stopped." else "",
)
