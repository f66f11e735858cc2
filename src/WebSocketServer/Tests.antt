-- ===== src/WebSocketServer/Tests.antt =====
-- Runs of a web socket server, whose endpoints are numbers here.
use moboware.Base.{
  ℕ, true, false, none, some, List, [], ◌∷◌, nat_keys, ◌≡◌, ◌<◌, ◌⊎◌, refl, arith, length, ◌+◌,
  make_calls,
}
use moboware.SocketServer.Table.{find}
use moboware.WebSocketServer.{
  is_open, WebSocketSession, in_handshake, ended, reading, check_closed_sessions, WebSocketServer,
  new_web_socket_server, frame_closed, data_read, read_error, WebSocketEvent, socket_accepted,
  handshake_done, read_done, data_sent, check_runs, cancelled_run, run_web_socket, web_socket_step,
  start_web_socket, make_endpoint_address, open_socket, set_option, bind_socket,
}
use moboware.WebSocketServer.Checks.{open_only, check_closed_sessions-open_only}
use moboware.WebSocketServer.Closes.{run_web_socket-IsWaiting}
use moboware.WebSocketServer.Connecting.{resolve_name, connect_stream, connect_web_socket}
use moboware.WebSocketServer.Dangling.{run_web_socket_dangles}
use moboware.WebSocketServer.Sessions.{AllAre, IsWaiting}

-- Two clients connect; the first sends a text and closes while the second is in its handshake.
abbrev close_in_handshake : List (WebSocketEvent ℕ)
close_in_handshake =
    socket_accepted false 1
    ∷ handshake_done false 1
    ∷ read_done (data_read (7 ∷ [])) 1
    ∷ socket_accepted false 2
    ∷ read_done frame_closed 1
    ∷ []

run_web_socket-close_in_handshake :
    run_web_socket close_in_handshake (new_web_socket_server true)
    ≡ some (record {
      sessions = (2, in_handshake) ∷ (1, ended) ∷ [];
      posted_checks = 1;
      cancelled = [];
      has_receiver = true;
      received = (1, 7 ∷ []) ∷ [];
    })
unfolding run_web_socket web_socket_step
run_web_socket-close_in_handshake = refl

-- The check throws out both.
check-close_in_handshake :
    check_closed_sessions {E = ℕ} ((2, in_handshake) ∷ (1, ended) ∷ [])
    ≡ (2, [], in_handshake ∷ ended ∷ [])
unfolding check_closed_sessions is_open
check-close_in_handshake = refl

-- A read that fails posts no check.
run_web_socket-read_error :
    run_web_socket {E = ℕ}
      (socket_accepted false 1 ∷ handshake_done false 1 ∷ read_done read_error 1 ∷ check_runs ∷ [])
      (new_web_socket_server false)
    ≡ some (record (new_web_socket_server false) { sessions = (1, ended) ∷ [] })
unfolding run_web_socket web_socket_step
run_web_socket-read_error = refl

start-bind_socket :
    start_web_socket (λ c. elim c [ bind_socket ↦ true | _ ↦ false ])
    ≡ (false, make_endpoint_address ∷ open_socket ∷ set_option ∷ bind_socket ∷ [])
unfolding start_web_socket make_calls
start-bind_socket = refl

-- A name that is no address: the stream is connected to the unspecified one.
connect-no_address :
    connect_web_socket {Name = ℕ} {Address = ℕ} {Port = ℕ}
      (λ name. none)
      (λ c. elim c [ connect_stream a p ↦ true | _ ↦ false ])
      5
      80
    ≡ (false, resolve_name 5 80 ∷ connect_stream none 80 ∷ [])
unfolding connect_web_socket make_calls
connect-no_address = refl

abbrev three_sessions : List (ℕ × WebSocketSession)
three_sessions = (1, reading true) ∷ (2, in_handshake) ∷ (3, ended) ∷ []

check_closed_sessions-open_only_example :
    let checked = check_closed_sessions three_sessions in
    (find 2 checked.1 ≡ open_only (find 2 three_sessions))
    × (checked.0 + length checked.1 ≡ length three_sessions)
    × (check_closed_sessions checked.1 ≡ (0, checked.1, []))
unfolding find
check_closed_sessions-open_only_example =
    check_closed_sessions-open_only 2 three_sessions (refl, (refl, (refl, tt)))

run_web_socket-IsWaiting_example :
    (s : WebSocketServer ℕ) × (run_web_socket close_in_handshake (new_web_socket_server true)
      ≡ some s)
    × ((0 < s.posted_checks) ⊎ AllAre IsWaiting s.sessions)
unfolding run_web_socket find web_socket_step
run_web_socket-IsWaiting_example =
    run_web_socket-IsWaiting true close_in_handshake (refl, (tt, (tt, (refl, (tt, tt))))) (refl, tt)

abbrev two_readers : WebSocketServer ℕ
two_readers = record (new_web_socket_server true) {
  sessions = (1, reading true) ∷ (2, reading true) ∷ [];
}

run_web_socket_dangles_example :
    run_web_socket
      (data_sent 1 0 true ∷ read_done frame_closed 2 ∷ check_runs ∷ cancelled_run ∷ [])
      two_readers
    ≡ none
unfolding find
run_web_socket_dangles_example =
    run_web_socket_dangles 1 2 true 0 two_readers (λ e. omega (arith, e)) refl refl
