-- ===== src/WebSocketServer.antt =====
-- src/lib/web_socket: web_socket_server.cpp and the sessions of web_socket_session.cpp that it accepts. The
-- state is the table of the sessions, the checks that were posted to the service and have not run, the
-- handlers of the operations that were cancelled, since their session was destroyed, and the data that was
-- forwarded. What the streams do is an argument: which calls fail, what is read, how many bytes a write
-- sends. A stream is open, as boost::beast says, after its handshake and as long as no error has occurred.
pub mod Checks
pub mod Connecting
pub mod Closes
pub mod Dangling
pub mod Lifetimes
pub mod Sessions
mod Tests
use moboware.Base.{
  ℕ, Bool, true, false, Option, none, some, List, [], ◌∷◌, ◌++◌, HasEq, ◌==◌, ◌&&◌, not,
  if◌then◌else◌, zero, suc, ltb, ◌>>=◌, make_calls,
}
use moboware.SocketServer.Table.{find, erase}

-- A session by the operation that is pending on its stream: `async_accept`, `async_read`, of a stream that is
-- open or not, or none.
pub data WebSocketSession : Type 0 where
  in_handshake ended : WebSocketSession
  reading : Bool → WebSocketSession

unfoldable pub is_open : WebSocketSession → Bool
is_open in_handshake = false
is_open ended = false
is_open (reading healthy) = healthy

pub record WebSocketServer (E : Type 0) : Type 0 where
  pub sessions : List (E × WebSocketSession)
  pub posted_checks : ℕ
  pub cancelled : List WebSocketSession
  pub has_receiver : Bool
  pub received : List (E × List ℕ)

-- A server with or without a function for the data that is received.
abbrev pub new_web_socket_server : {E : Type 0} → Bool → WebSocketServer E
new_web_socket_server has_receiver = record {
  sessions = [];
  posted_checks = 0;
  cancelled = [];
  has_receiver = has_receiver;
  received = [];
}

-- The calls of `Start`, in their order; after them it starts to accept.
pub data WebSocketStartCall : Type 0 where
  make_endpoint_address open_socket set_option bind_socket listen_socket accept_sockets :
      WebSocketStartCall

unfoldable pub start_web_socket : (WebSocketStartCall → Bool) → Bool × List WebSocketStartCall
start_web_socket fails =
    make_calls fails accept_sockets
      (make_endpoint_address ∷ open_socket ∷ set_option ∷ bind_socket ∷ listen_socket ∷ [])

-- What `async_read` ends with: a close frame of the other side, another error, or data.
pub data ReadResult : Type 0 where
  frame_closed read_error : ReadResult
  data_read : List ℕ → ReadResult

-- The number of the sessions that are removed, those that are left, and those that are destroyed while an
-- operation is pending.
unfoldable pub check_closed_sessions :
    {E : Type 0}
    → List (E × WebSocketSession)
    → ℕ × List (E × WebSocketSession) × List WebSocketSession
check_closed_sessions [] = (0, [], [])
check_closed_sessions ((endpoint, session) ∷ table) =
    let (removed, left, destroyed) = check_closed_sessions table in
    if not (is_open session)
    then (suc removed, left, session ∷ destroyed)
    else (removed, (endpoint, session) ∷ left, destroyed)

-- The handlers of the operations that were cancelled. That of `async_accept` returns at once; that of
-- `async_read`, where errors are logged, asks its session whether it is open, and there is none: undefined.
unfoldable pub run_cancelled : List WebSocketSession → Option (List WebSocketSession)
run_cancelled [] = some []
run_cancelled (in_handshake ∷ rest) = run_cancelled rest
run_cancelled (ended ∷ rest) = run_cancelled rest
run_cancelled (reading healthy ∷ rest) = none

-- What a write that fails does to the stream.
unfoldable pub fail_session : WebSocketSession → WebSocketSession
fail_session in_handshake = in_handshake
fail_session ended = ended
fail_session (reading healthy) = reading false

-- What happens to a server: a connection, which may have failed; the end of a handshake, which may have
-- failed; the end of a read; data to send, with the bytes that are written and whether the write failed;
-- the service, which runs a check that was posted; and the handlers of what was cancelled.
pub data WebSocketEvent (E : Type 0) : Type 0 where
  socket_accepted : Bool → E → WebSocketEvent E
  handshake_done : Bool → E → WebSocketEvent E
  read_done : ReadResult → E → WebSocketEvent E
  data_sent : E → ℕ → Bool → WebSocketEvent E
  check_runs cancelled_run : WebSocketEvent E

module _ {E : Type 0} ⦃keys : HasEq E⦄ where
  -- A change of the session of an endpoint.
  unfoldable pub set_session :
      E → WebSocketSession → List (E × WebSocketSession) → List (E × WebSocketSession)
  set_session endpoint session [] = []
  set_session endpoint session ((e, old) ∷ table) =
      let rest = set_session endpoint session table in
      if e == endpoint then (e, session) ∷ table else (e, old) ∷ rest

  -- The handler of `Accept`: a new session takes the place of one that is there.
  unfoldable pub accept_web_socket : Bool → E → WebSocketServer E → WebSocketServer E
  unfolding find erase
  accept_web_socket true endpoint s = s
  accept_web_socket false endpoint s =
      let table = (endpoint, in_handshake) ∷ erase endpoint s.sessions in
      elim (find endpoint s.sessions) [
        | none ↦ record s { sessions = table }
        | some old ↦ record s { sessions = table; cancelled = s.cancelled ++ (old ∷ []) }
      ]

  -- The handler of the handshake: it starts to read, or does nothing.
  unfoldable pub finish_handshake :
      Bool → E → WebSocketSession → WebSocketServer E → WebSocketServer E
  unfolding set_session
  finish_handshake true endpoint in_handshake s = record s {
    sessions = set_session endpoint ended s.sessions;
  }
  finish_handshake false endpoint in_handshake s = record s {
    sessions = set_session endpoint (reading true) s.sessions;
  }
  finish_handshake failed endpoint ended s = s
  finish_handshake failed endpoint (reading healthy) s = s

  unfoldable pub on_session_closed : WebSocketServer E → WebSocketServer E
  on_session_closed s = record s { posted_checks = suc s.posted_checks }

  unfoldable pub forward_data : List ℕ → E → WebSocketServer E → WebSocketServer E
  forward_data bytes endpoint s =
      if s.has_receiver then record s { received = s.received ++ ((endpoint, bytes) ∷ []) } else s

  -- The handler of a read of a session that reads.
  unfoldable pub finish_read :
      ReadResult → E → WebSocketSession → WebSocketServer E → WebSocketServer E
  unfolding set_session on_session_closed forward_data
  finish_read result endpoint in_handshake s = s
  finish_read result endpoint ended s = s
  finish_read frame_closed endpoint (reading healthy) s =
      on_session_closed (record s { sessions = set_session endpoint ended s.sessions })
  finish_read read_error endpoint (reading healthy) s = record s {
    sessions = set_session endpoint ended s.sessions;
  }
  finish_read (data_read bytes) endpoint (reading healthy) s = forward_data bytes endpoint s

  -- Whether something was sent, and the server.
  unfoldable pub send_web_socket_data : E → ℕ → Bool → WebSocketServer E → Bool × WebSocketServer E
  unfolding find set_session fail_session
  send_web_socket_data endpoint written failed s = elim (find endpoint s.sessions) [
    | none ↦ (false, s)
    | some session ↦ (
      ltb 0 written && not failed,
      if failed
          then record s { sessions = set_session endpoint (fail_session session) s.sessions }
          else s,
    )
  ]

  -- The service runs a check, if one was posted.
  unfoldable pub run_check : WebSocketServer E → WebSocketServer E
  unfolding check_closed_sessions
  run_check s = elim s.posted_checks [
    | zero ↦ s
    | suc rest ↦
        let (removed, left, destroyed) = check_closed_sessions s.sessions in
        record s { sessions = left; posted_checks = rest; cancelled = s.cancelled ++ destroyed }
  ]

  -- A handler runs for a session that the server has.
  unfoldable pub with_session :
      (WebSocketSession → WebSocketServer E → WebSocketServer E)
      → E
      → WebSocketServer E
      → WebSocketServer E
  unfolding find
  with_session f endpoint s = elim (find endpoint s.sessions) [
    | none ↦ s
    | some session ↦ f session s
  ]

  unfoldable pub web_socket_step : WebSocketEvent E → WebSocketServer E → Option (WebSocketServer E)
  unfolding with_session finish_handshake finish_read accept_web_socket send_web_socket_data
      run_check run_cancelled
  web_socket_step (socket_accepted failed endpoint) s = some (accept_web_socket failed endpoint s)
  web_socket_step (handshake_done failed endpoint) s =
      some (with_session (finish_handshake failed endpoint) endpoint s)
  web_socket_step (read_done result endpoint) s =
      some (with_session (finish_read result endpoint) endpoint s)
  web_socket_step (data_sent endpoint written failed) s =
      some (send_web_socket_data endpoint written failed s).1
  web_socket_step check_runs s = some (run_check s)
  web_socket_step cancelled_run s = do
    left ← run_cancelled s.cancelled
    some (record s { cancelled = left })

  unfoldable pub run_web_socket :
      List (WebSocketEvent E) → WebSocketServer E → Option (WebSocketServer E)
  run_web_socket [] s = some s
  run_web_socket (e ∷ es) s = do s' ← web_socket_step e s; run_web_socket es s'
