-- ===== src/Dashboard/Shutdown/Stops.antt =====
-- The server is told to stop, whichever comes first, its handle or the request.
use comp2432_project.Prelude.{
  ℕ, suc, ◌+◌, ◌≤◌, ◌≡◌, refl, sym, ap, ◌∙◌, min, Bool, true, false, List, [], ◌∷◌, ◌++◌,
  if◌then◌else◌, Bool-cases, inl, inr, arith,
}
use comp2432_project.Dashboard.Shutdown.{
  WinnerPc, no_winner, notifying, looking_up, ended, ServerPc, binding, checking, serving, World,
  start, Event, request_called, winner_turn, server_turn, watch_called, watcher_turn,
  request_shutdown, winner_step, server_step, step, run,
}

abbrev pub winner_place : WinnerPc → ℕ
winner_place no_winner = 0
winner_place notifying = 1
winner_place looking_up = 2
winner_place ended = 3

abbrev pub server_place : ServerPc → ℕ
server_place binding = 0
server_place checking = 1
server_place serving = 2

abbrev handle_of : ServerPc → Bool
handle_of binding = false
handle_of checking = true
handle_of serving = true

abbrev flag_of : WinnerPc → Bool
flag_of no_winner = false
flag_of notifying = true
flag_of looking_up = true
flag_of ended = true

-- The flag is set by the winner, the handle by the server; when both are through, the stop is requested.
record IsJoined (w : World) : Type 0 where
  flag : w.shutting_down ≡ flag_of w.winner
  handle : w.server_handle ≡ handle_of w.server
  stop : w.winner ≡ ended → w.server ≡ serving → w.stop_requested ≡ true

winner-IsJoined :
    (pc : WinnerPc) (w : World) → w.winner ≡ pc → IsJoined w → IsJoined (winner_step pc w)
unfolding winner_step
winner-IsJoined no_winner w e j = j
winner-IsJoined notifying w e j = record {
  flag = j.flag ∙ ap flag_of e;
  handle = j.handle;
  stop = λ ended' s. cc;
}
winner-IsJoined looking_up w e j = record {
  flag = j.flag ∙ ap flag_of e;
  handle = j.handle;
  stop = λ ended' s. ground (arith, j.handle, ap handle_of s);
}
winner-IsJoined ended w e j = j

server-IsJoined :
    (pc : ServerPc) (w : World) → w.server ≡ pc → IsJoined w → IsJoined (server_step pc w)
unfolding server_step
server-IsJoined binding w e j = record { flag = j.flag; handle = refl; stop = λ t serving'. cc }
server-IsJoined checking w e j = record {
  flag = j.flag;
  handle = j.handle ∙ ap handle_of e;
  stop = λ t serving'. ground (arith, j.flag, ap flag_of t);
}
server-IsJoined serving w e j = j

either-IsJoined : (b : Bool) (v w : World) → IsJoined v → IsJoined w → IsJoined (if b then v else w)
either-IsJoined true v w h k = h
either-IsJoined false v w h k = k

step-IsJoined : (e : Event) (w : World) → IsJoined w → IsJoined (step e w)
unfolding step request_shutdown
step-IsJoined request_called w j =
    either-IsJoined w.shutting_down w (record w { shutting_down = true; winner = notifying }) j
      (record { flag = refl; handle = j.handle; stop = λ t s. cc })
step-IsJoined winner_turn w j = winner-IsJoined w.winner w refl j
step-IsJoined server_turn w j = server-IsJoined w.server w refl j
step-IsJoined watch_called w j = record { flag = j.flag; handle = j.handle; stop = j.stop }
step-IsJoined (watcher_turn i) w j = record { flag = j.flag; handle = j.handle; stop = j.stop }

run-IsJoined : (es : List Event) (w : World) → IsJoined w → IsJoined (run es w)
unfolding run
run-IsJoined [] w j = j
run-IsJoined (e ∷ es) w j = run-IsJoined es (step e w) (step-IsJoined e w j)

abbrev pub winner_turns : List Event → ℕ
winner_turns [] = 0
winner_turns (winner_turn ∷ es) = suc (winner_turns es)
winner_turns (_ ∷ es) = winner_turns es

abbrev pub server_turns : List Event → ℕ
server_turns [] = 0
server_turns (server_turn ∷ es) = suc (server_turns es)
server_turns (_ ∷ es) = server_turns es

server-winner : (pc : ServerPc) (w : World) → (server_step pc w).winner ≡ w.winner
unfolding server_step
server-winner binding w = refl
server-winner checking w = refl
server-winner serving w = refl

winner-server : (pc : WinnerPc) (w : World) → (winner_step pc w).server ≡ w.server
unfolding winner_step
winner-server no_winner w = refl
winner-server notifying w = refl
winner-server looking_up w = refl
winner-server ended w = refl

either-server :
    (b : Bool) (v w : World) → v.server ≡ w.server → (if b then v else w).server ≡ w.server
either-server true v w e = e
either-server false v w e = refl

request-server : (w : World) → (request_shutdown w).server ≡ w.server
unfolding request_shutdown
request-server w = either-server w.shutting_down w _ refl

-- A turn of the winner takes it one place on, and no other event takes it back.
winner-moves :
    (pc : WinnerPc) (w : World)
    → w.winner ≡ pc
    → 1 ≤ winner_place pc
    → min 3 (suc (winner_place pc)) ≤ winner_place (winner_step pc w).winner
unfolding winner_step
winner-moves no_winner w e h = absurd (omega arith)
winner-moves notifying w e h = omega arith
winner-moves looking_up w e h = omega arith
winner-moves ended w e h = rw e (omega arith)

server-moves :
    (pc : ServerPc) (w : World)
    → w.server ≡ pc
    → min 2 (suc (server_place pc)) ≤ server_place (server_step pc w).server
unfolding server_step
server-moves binding w e = omega arith
server-moves checking w e = omega arith
server-moves serving w e = rw e (omega arith)

flag_of-set : (pc : WinnerPc) → 1 ≤ winner_place pc → flag_of pc ≡ true
flag_of-set no_winner h = absurd (omega arith)
flag_of-set notifying h = refl
flag_of-set looking_up h = refl
flag_of-set ended h = refl

taken : (b : Bool) (v w : World) → b ≡ true → (if b then v else w) ≡ v
taken true v w h = refl
taken false v w h = cc

-- A later request changes nothing.
request_again : (w : World) → IsJoined w → 1 ≤ winner_place w.winner → request_shutdown w ≡ w
unfolding request_shutdown
request_again w j h = taken w.shutting_down w _ (j.flag ∙ flag_of-set w.winner h)

step-winner :
    (e : Event) (w : World)
    → IsJoined w
    → 1 ≤ winner_place w.winner
    → min 3 (winner_place w.winner + winner_turns (e ∷ [])) ≤ winner_place (step e w).winner
unfolding step
step-winner request_called w j h =
    omega (arith, ap (λ u. winner_place u.winner) (request_again w j h))
step-winner winner_turn w j h = omega (arith, winner-moves w.winner w refl h)
step-winner server_turn w j h = omega (arith, ap winner_place (server-winner w.server w))
step-winner watch_called w j h = omega arith
step-winner (watcher_turn i) w j h = omega arith

turns-cons :
    (e : Event) (es : List Event)
    → (winner_turns (e ∷ es) ≡ winner_turns (e ∷ []) + winner_turns es)
      × (server_turns (e ∷ es) ≡ server_turns (e ∷ []) + server_turns es)
turns-cons request_called es = (omega arith, omega arith)
turns-cons winner_turn es = (omega arith, omega arith)
turns-cons server_turn es = (omega arith, omega arith)
turns-cons watch_called es = (omega arith, omega arith)
turns-cons (watcher_turn i) es = (omega arith, omega arith)

run-winner :
    (es : List Event) (w : World)
    → IsJoined w
    → 1 ≤ winner_place w.winner
    → min 3 (winner_place w.winner + winner_turns es) ≤ winner_place (run es w).winner
unfolding run
run-winner [] w j h = omega arith
run-winner (e ∷ es) w j h =
    let moved = step-winner e w j h in
    omega
      (arith, moved, turns-cons e es, run-winner es (step e w) (step-IsJoined e w j) (omega arith))

step-server :
    (e : Event) (w : World)
    → min 2 (server_place w.server + server_turns (e ∷ [])) ≤ server_place (step e w).server
unfolding step
step-server request_called w = omega (arith, ap server_place (request-server w))
step-server winner_turn w = omega (arith, ap server_place (winner-server w.winner w))
step-server server_turn w = omega (arith, server-moves w.server w refl)
step-server watch_called w = omega arith
step-server (watcher_turn i) w = omega arith

run-server :
    (es : List Event) (w : World)
    → min 2 (server_place w.server + server_turns es) ≤ server_place (run es w).server
unfolding run
run-server [] w = omega arith
run-server (e ∷ es) w = omega (arith, step-server e w, turns-cons e es, run-server es (step e w))

run-append : (es fs : List Event) (w : World) → run (es ++ fs) w ≡ run fs (run es w)
unfolding run
run-append [] fs w = refl
run-append (e ∷ es) fs w = run-append es fs (step e w)

at_end : (pc : WinnerPc) → 3 ≤ winner_place pc → pc ≡ ended
at_end no_winner h = absurd (omega arith)
at_end notifying h = absurd (omega arith)
at_end looking_up h = absurd (omega arith)
at_end ended h = refl

at_service : (pc : ServerPc) → 2 ≤ server_place pc → pc ≡ serving
at_service binding h = absurd (omega arith)
at_service checking h = absurd (omega arith)
at_service serving h = refl

start-IsJoined : IsJoined start
start-IsJoined = record { flag = refl; handle = refl; stop = λ t s. cc }

place-flag : (pc : WinnerPc) → flag_of pc ≡ true → 1 ≤ winner_place pc
place-flag no_winner h = cc
place-flag notifying h = omega arith
place-flag looking_up h = omega arith
place-flag ended h = omega arith

requested : (w : World) → IsJoined w → 1 ≤ winner_place (request_shutdown w).winner
unfolding request_shutdown
requested w j = elim (Bool-cases w.shutting_down) [
  | inl e ↦ omega (
    arith,
    ap (λ u. winner_place u.winner) (taken w.shutting_down w _ e),
    place-flag w.winner (sym j.flag ∙ e),
  )
  | inr e ↦ rw (e, request_shutdown) (omega arith)
]

-- Whatever happens before and after a call of `request_shutdown`, and in whatever order the requests,
-- the server and the watchers move: once two more turns of the requesting threads and two turns of
-- `run` in all have been made, the stop of the server is requested.
pub shutdown_stops_server :
    (before after : List Event)
    → 2 ≤ winner_turns after
    → 2 ≤ server_turns before + server_turns after
    → (run (before ++ request_called ∷ after) start).stop_requested ≡ true
unfolding run step
shutdown_stops_server before after h k =
    let u = run before start in
    let j = run-IsJoined before start start-IsJoined in
    let v = request_shutdown u in
    let j' = step-IsJoined request_called u j in
    let won = run-winner after v j' (requested u j) in
    let through : 3 ≤ winner_place (run after v).winner = omega (arith, won, requested u j) in
    let served : 2 ≤ server_place (run after v).server =
      omega
        (arith, run-server before start, ap server_place (request-server u), run-server after v) in
    ap (λ w. w.stop_requested) (run-append before (request_called ∷ after) start)
    ∙ (run-IsJoined after v j').stop (at_end _ through) (at_service _ served)
