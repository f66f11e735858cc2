-- ===== src/TcpServer.antt =====
-- src/lib/common/tcp_server.cpp and session.cpp: the server of the common library, whose sessions are removed by
-- a function that is posted to the service. The state is the table of the sessions and what was posted. What
-- the sockets do is an argument of each event.
pub mod Client
pub mod Removal
mod Tests
use moboware.Base.{
  ℕ, Bool, true, false, Option, none, some, List, [], ◌∷◌, ◌++◌, HasEq, ◌==◌, if◌then◌else◌, length,
  ◌+◌, ◌*◌, ◌/◌, ◌%◌, ◌^◌, ltb, ◌&&◌,
}
use moboware.SocketSession.Connecting.{CallOutcome, call_socket}
use moboware.SocketServer.Table.{find, erase}

pub record TcpSession : Type 0 where
  pub is_connected : Bool
  pub is_receiving : Bool

pub record TcpServer (E : Type 0) : Type 0 where
  pub tcp_sessions : List (E × TcpSession)
  pub removals : List E

abbrev pub new_tcp_server : {E : Type 0} → TcpServer E
new_tcp_server = record { tcp_sessions = []; removals = [] }

-- The calls of `StartListening`, in their order; after them it accepts connections and starts its timer.
pub data ListenCall : Type 0 where
  open_v4 set_reuse bind_port listen_on_port accept_and_ping : ListenCall

unfoldable pub start_listening : (ListenCall → CallOutcome) → Option (Bool × List ListenCall)
start_listening outcome =
    call_socket outcome accept_and_ping (open_v4 ∷ set_reuse ∷ bind_port ∷ listen_on_port ∷ [])

-- What a write ends with: the bytes that were sent, one of the errors of a connection that is gone, or
-- another error.
pub data WriteOutcome : Type 0 where
  bytes_sent : ℕ → WriteOutcome
  connection_gone other_error : WriteOutcome

-- The bytes that `Send` writes, on a little-endian machine: the size as a `uint16_t`, and the buffer.
unfoldable pub framed : List ℕ → List ℕ
framed bytes = let size = length bytes % 2 ^ 16 in (size % 256) ∷ (size / 256) ∷ bytes

-- What `ReadData` finds: it failed to wait, to ask for the bytes or to read them; nothing, or some bytes.
pub data ReceiveOutcome : Type 0 where
  wait_failed available_failed read_data_failed : ReceiveOutcome
  nothing_available : ReceiveOutcome
  bytes_received : List ℕ → ReceiveOutcome

-- Whether the session goes on to receive, and what the callback is given.
unfoldable pub receive : ReceiveOutcome → Bool × Option (List ℕ)
receive wait_failed = (false, none)
receive available_failed = (false, none)
receive read_data_failed = (false, none)
receive nothing_available = (true, none)
receive (bytes_received bytes) = (true, some bytes)

-- What happens to a server: a connection, which may have failed; a session's socket can be read; data for one
-- session; the ping timer; and the service, which runs the removal that was posted first.
pub data TcpEvent (E : Type 0) : Type 0 where
  session_accepted : Bool → E → TcpEvent E
  session_readable : ReceiveOutcome → E → TcpEvent E
  data_written : WriteOutcome → E → TcpEvent E
  ping_timer : (E → WriteOutcome) → TcpEvent E
  removal_runs : TcpEvent E

module _ {E : Type 0} ⦃keys : HasEq E⦄ where
  -- A change of the session of an endpoint.
  unfoldable pub put_session : E → TcpSession → List (E × TcpSession) → List (E × TcpSession)
  put_session endpoint session [] = []
  put_session endpoint session ((e, old) ∷ table) =
      let rest = put_session endpoint session table in
      if e == endpoint then (e, session) ∷ table else (e, old) ∷ rest

  -- `AcceptSession`: the new session takes the place of one that is there.
  unfoldable pub accept_session : Bool → E → TcpServer E → TcpServer E
  unfolding erase
  accept_session true endpoint s = s
  accept_session false endpoint s = record s {
    tcp_sessions =
        (endpoint, record { is_connected = true; is_receiving = true })
        ∷ erase endpoint s.tcp_sessions;
  }

  -- `SessionDisconnected` posts the removal of the session of the endpoint.
  unfoldable pub session_disconnected : E → TcpServer E → TcpServer E
  session_disconnected endpoint s = record s { removals = s.removals ++ (endpoint ∷ []) }

  -- `Send` of a session: the bytes that were sent. A connection that is gone is closed.
  unfoldable pub send_session : WriteOutcome → E → TcpSession → TcpServer E → ℕ × TcpServer E
  unfolding session_disconnected put_session
  send_session (bytes_sent n) endpoint session s = (n, s)
  send_session connection_gone endpoint session s =
      let s' = session_disconnected endpoint s in
      (
        0,
        record s' {
          tcp_sessions =
              put_session endpoint (record session { is_connected = false }) s'.tcp_sessions;
        },
      )
  send_session other_error endpoint session s = (0, s)

  -- `SendWebSocketData` of the server.
  unfoldable pub send_to_endpoint : WriteOutcome → E → TcpServer E → ℕ × TcpServer E
  unfolding find send_session
  send_to_endpoint outcome endpoint s = elim (find endpoint s.tcp_sessions) [
    | none ↦ (0, s)
    | some session ↦ send_session outcome endpoint session s
  ]

  -- The loop of the ping timer over the entries of the table.
  unfoldable pub ping_sessions :
      (E → WriteOutcome) → List (E × TcpSession) → TcpServer E → TcpServer E
  unfolding send_to_endpoint
  ping_sessions outcome [] s = s
  ping_sessions outcome ((e, session) ∷ table) s =
      ping_sessions outcome table (send_to_endpoint (outcome e) e s).1

  -- The read handler of a session that the server has: after a failure it does not receive again.
  unfoldable pub read_session : ReceiveOutcome → E → TcpServer E → TcpServer E
  unfolding find put_session receive
  read_session outcome endpoint s = elim (find endpoint s.tcp_sessions) [
    | none ↦ s
    | some session ↦
        let goes_on = (receive outcome).0 && session.is_connected in
        record s {
          tcp_sessions =
              put_session endpoint (record session { is_receiving = goes_on }) s.tcp_sessions;
        }
  ]

  -- What `PostRemoveSession` posted runs: it erases what is at the endpoint by then.
  unfoldable pub run_removal : TcpServer E → TcpServer E
  unfolding erase
  run_removal s = elim s.removals [
    | [] ↦ s
    | endpoint ∷ rest ↦ record { tcp_sessions = erase endpoint s.tcp_sessions; removals = rest }
  ]

  unfoldable pub tcp_step : TcpEvent E → TcpServer E → TcpServer E
  unfolding accept_session read_session send_to_endpoint ping_sessions run_removal
  tcp_step (session_accepted failed endpoint) s = accept_session failed endpoint s
  tcp_step (session_readable outcome endpoint) s = read_session outcome endpoint s
  tcp_step (data_written outcome endpoint) s = (send_to_endpoint outcome endpoint s).1
  tcp_step (ping_timer outcome) s = ping_sessions outcome s.tcp_sessions s
  tcp_step removal_runs s = run_removal s

  unfoldable pub run_tcp : List (TcpEvent E) → TcpServer E → TcpServer E
  unfolding tcp_step
  run_tcp [] s = s
  run_tcp (e ∷ es) s = run_tcp es (tcp_step e s)

  -- The service runs as many of the posted removals as it is told.
  unfoldable pub run_removals : List E → TcpServer E → TcpServer E
  unfolding run_removal
  run_removals [] s = s
  run_removals (e ∷ es) s = run_removals es (run_removal s)
