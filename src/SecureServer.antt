-- ===== src/SecureServer.antt =====
-- src/lib/socket/include/socket: web_socket_server.hpp and web_socket_session.hpp, the web socket server over SSL
-- with its ping timer. Its table, its `Start`, `Accept` and `CheckClosedSessions` are those of the SSL server,
-- and so is the removal that it posts; its sessions call boost::beast. What the streams do is an argument. A
-- stream on which a call has failed is no longer open, and no more is one whose read has ended.
pub mod Connecting
pub mod Pings
pub mod Notices
mod Tests
use moboware.Base.{
  ℕ, Bool, true, false, Option, none, some, List, [], ◌∷◌, ◌++◌, HasEq, ◌==◌, if◌then◌else◌,
}
use moboware.SocketServer.{
  SocketServer, Session, ssl, session_closed_handler, close_socket, accept, run_posted, start,
  StartCall,
}
use moboware.SocketServer.Table.{find}

-- The frames of the control layer.
pub data ControlFrame : Type 0 where
  close_frame ping_frame pong_frame : ControlFrame

-- What happens to a server: a connection, which may have failed and whose session may not accept; the end of a
-- read, which may have failed; a frame, with whether the answer to it fails; data for one session or for all,
-- and the ping timer, with the writes that fail; and the service, which runs what was posted first.
pub data SecureEvent (E : Type 0) : Type 0 where
  client_connects : Bool → E → Bool → SecureEvent E
  read_ends : Bool → E → SecureEvent E
  frame_arrives : ControlFrame → Bool → E → SecureEvent E
  send_one : Bool → E → SecureEvent E
  send_all timer_ticks : (E → Bool) → SecureEvent E
  posted_runs : SecureEvent E

-- `Start` makes the calls of the SSL server, and starts the ping timer if none of them fails.
unfoldable pub start_secure : (StartCall → Bool) → Bool × List StartCall × Bool
start_secure fails = let (done, made) = start fails in (done, made, done)

module _ {E : Type 0} ⦃keys : HasEq E⦄ where
  -- The handler of `Accept`, whose session accepts or not.
  unfoldable pub accept_client : Bool → E → Bool → SocketServer E → SocketServer E
  unfolding accept
  accept_client failed endpoint accepted s = accept failed endpoint accepted s

  -- A call has failed on the stream of a session.
  unfoldable pub stream_fails : E → SocketServer E → SocketServer E
  unfolding close_socket
  stream_fails endpoint s = record s { sessions = close_socket endpoint s.sessions }

  -- `SendPingRequest` of a session, and `SendPongReply`, which is the same with another frame: if the write
  -- fails, the session's handler posts its removal.
  unfoldable pub send_control : Bool → E → SocketServer E → Bool × SocketServer E
  unfolding stream_fails session_closed_handler
  send_control true endpoint s =
      (false, session_closed_handler ssl endpoint (stream_fails endpoint s))
  send_control false endpoint s = (true, s)

  -- `SendWebSocketData` of a session: a write that fails posts nothing.
  unfoldable pub write_data : Bool → E → Session → SocketServer E → Bool × SocketServer E
  unfolding stream_fails
  write_data fails endpoint session s =
      if session.is_open
      then (if fails then (false, stream_fails endpoint s) else (true, s))
      else (false, s)

  unfoldable pub send_to_client : Bool → E → SocketServer E → Bool × SocketServer E
  unfolding find write_data
  send_to_client fails endpoint s = elim (find endpoint s.sessions) [
    | none ↦ (false, s)
    | some session ↦ write_data fails endpoint session s
  ]

  -- The loop over the entries of the table.
  unfoldable pub send_to_all_clients :
      (E → Bool) → List (E × Session) → SocketServer E → SocketServer E
  unfolding send_to_client
  send_to_all_clients fails [] s = s
  send_to_all_clients fails ((e, session) ∷ table) s =
      send_to_all_clients fails table (send_to_client (fails e) e s).1

  -- `SendPingRequest` of the server, with the entries that are left.
  unfoldable pub send_ping_requests :
      (E → Bool) → List (E × Session) → SocketServer E → SocketServer E
  unfolding send_control
  send_ping_requests fails [] s = s
  send_ping_requests fails ((e, session) ∷ table) s =
      send_ping_requests fails table (send_control (fails e) e s).1

  -- `HandleControlCallback`.
  unfoldable pub handle_control : ControlFrame → Bool → E → SocketServer E → SocketServer E
  unfolding send_control session_closed_handler
  handle_control close_frame fails endpoint s = session_closed_handler ssl endpoint s
  handle_control ping_frame fails endpoint s = (send_control fails endpoint s).1
  handle_control pong_frame fails endpoint s = s

  -- The handler of `ReadData`, which reads again, or calls the session's handler.
  unfoldable pub end_read : Bool → E → SocketServer E → SocketServer E
  unfolding stream_fails session_closed_handler
  end_read true endpoint s = session_closed_handler ssl endpoint (stream_fails endpoint s)
  end_read false endpoint s = s

  -- A handler runs for a session that the server has.
  unfoldable pub for_session :
      (SocketServer E → SocketServer E) → E → SocketServer E → SocketServer E
  unfolding find
  for_session f endpoint s = elim (find endpoint s.sessions) [ none ↦ s | some session ↦ f s ]

  unfoldable pub secure_step : SecureEvent E → SocketServer E → SocketServer E
  unfolding for_session handle_control end_read send_to_client send_to_all_clients
      send_ping_requests accept_client run_posted
  secure_step (client_connects failed endpoint accepted) s =
      accept_client failed endpoint accepted s
  secure_step (read_ends failed endpoint) s = for_session (end_read failed endpoint) endpoint s
  secure_step (frame_arrives frame fails endpoint) s =
      for_session (handle_control frame fails endpoint) endpoint s
  secure_step (send_one fails endpoint) s = (send_to_client fails endpoint s).1
  secure_step (send_all fails) s = send_to_all_clients fails s.sessions s
  secure_step (timer_ticks fails) s = send_ping_requests fails s.sessions s
  secure_step posted_runs s = run_posted s

  unfoldable pub run_secure : List (SecureEvent E) → SocketServer E → SocketServer E
  unfolding secure_step
  run_secure [] s = s
  run_secure (e ∷ es) s = run_secure es (secure_step e s)
