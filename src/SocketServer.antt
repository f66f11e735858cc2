-- ===== src/SocketServer.antt =====
-- src/lib/socket/include/socket: tcp_socket_server.hpp and ssl_socket_server.hpp, which differ in what a
-- session does when it is closed, with `SendData`, `HandleClosedSocket` and the failed read of
-- socket_session_base.hpp. The state is the table of the sessions, the removals that were posted to the
-- service and have not run, and the calls of the callback's `OnSessionClosed`. What the sockets do is an
-- argument: which calls fail, and how many bytes a write sends.
pub mod Table
pub mod Sessions
pub mod Removal
pub mod Accepting
pub mod Tcp
mod Tests
use moboware.Base.{
  ℕ, Bool, true, false, Option, none, some, List, [], ◌∷◌, ◌++◌, HasEq, ◌==◌, length, ◌&&◌, not,
  is_empty, if◌then◌else◌, zero, suc,
}
use moboware.SocketServer.Table.{find, emplace, erase}

pub data ServerKind : Type 0 where
  tcp ssl : ServerKind

-- A session, of which the server asks whether its socket is open.
pub record Session : Type 0 where
  pub is_open : Bool

pub record SocketServer (E : Type 0) : Type 0 where
  pub sessions : List (E × Session)
  pub posted : List E
  pub closed_notices : List E

abbrev pub new_server : {E : Type 0} → SocketServer E
new_server = record { sessions = []; posted = []; closed_notices = [] }

-- The calls of `Start`, in their order; after them it starts to accept.
pub data StartCall : Type 0 where
  resolve open_acceptor set_reuse_address bind_acceptor start_listening accept_connections :
      StartCall

-- `Start` makes the calls until one fails: the result and the calls that were made.
unfoldable pub start_from : (StartCall → Bool) → List StartCall → Bool × List StartCall
start_from fails [] = (true, accept_connections ∷ [])
start_from fails (c ∷ cs) =
    let (done, made) = start_from fails cs in if fails c then (false, c ∷ []) else (done, c ∷ made)

unfoldable pub start : (StartCall → Bool) → Bool × List StartCall
unfolding start_from
start fails =
    start_from fails
      (resolve ∷ open_acceptor ∷ set_reuse_address ∷ bind_acceptor ∷ start_listening ∷ [])

-- What happens to a server: a connection, which may have failed and whose session may not accept; a read
-- that fails on a session; data for one session or for all, with what each write does; and the service,
-- which runs what was posted first.
pub data Event (E : Type 0) : Type 0 where
  connection : Bool → E → Bool → Event E
  read_fails : E → Event E
  data_for : E → Option ℕ → Event E
  data_for_all : (E → Option ℕ) → Event E
  service_runs : Event E

module _ {E : Type 0} ⦃keys : HasEq E⦄ where
  -- The handler of `Accept`. An entry that is there is not replaced; it is erased.
  unfoldable pub accept : Bool → E → Bool → SocketServer E → SocketServer E
  unfolding emplace erase
  accept true endpoint accepted s = s
  accept false endpoint accepted s =
      let (inserted, table) = emplace endpoint (record { is_open = true }) s.sessions in
      if inserted && accepted
      then record s { sessions = table }
      else record s { sessions = erase endpoint table }

  -- The sessions after the check of the session of an endpoint.
  unfoldable pub without_closed : E → List (E × Session) → List (E × Session)
  unfolding find erase
  without_closed endpoint table = elim (find endpoint table) [
    | none ↦ table
    | some session ↦ if session.is_open then table else erase endpoint table
  ]

  -- The number of the sessions that are left, and the server.
  unfoldable pub check_closed_sessions : E → SocketServer E → ℕ × SocketServer E
  unfolding without_closed
  check_closed_sessions endpoint s =
      let table : List (E × Session) = without_closed endpoint s.sessions in
      (length table, record s { sessions = table })

  -- The handler that a session calls when it is closed: it posts the removal, or does nothing.
  unfoldable pub session_closed_handler : ServerKind → E → SocketServer E → SocketServer E
  session_closed_handler tcp endpoint s = s
  session_closed_handler ssl endpoint s = record s { posted = s.posted ++ (endpoint ∷ []) }

  -- The posted removal: the check, and the notice.
  unfoldable pub remove_session : E → SocketServer E → SocketServer E
  unfolding check_closed_sessions
  remove_session endpoint s =
      let (left, s') = check_closed_sessions endpoint s in
      record s' { closed_notices = s'.closed_notices ++ (endpoint ∷ []) }

  -- The service runs what was posted first.
  unfoldable pub run_posted : SocketServer E → SocketServer E
  unfolding remove_session
  run_posted s = elim s.posted [
    | [] ↦ s
    | endpoint ∷ rest ↦ remove_session endpoint (record s { posted = rest })
  ]

  unfoldable pub close_socket : E → List (E × Session) → List (E × Session)
  close_socket endpoint [] = []
  close_socket endpoint ((e, session) ∷ table) =
      let rest = close_socket endpoint table in
      if e == endpoint then (e, record { is_open = false }) ∷ table else (e, session) ∷ rest

  -- The handler is called, then the socket is closed.
  unfoldable pub handle_closed_socket : ServerKind → E → SocketServer E → SocketServer E
  unfolding session_closed_handler close_socket
  handle_closed_socket kind endpoint s =
      let s' = session_closed_handler kind endpoint s in
      record s' { sessions = close_socket endpoint s'.sessions }

  -- `SendData` of a session: the bytes that were written, if the write does not fail.
  unfoldable pub send_data :
      ServerKind → E → Session → Option ℕ → SocketServer E → ℕ × SocketServer E
  unfolding handle_closed_socket
  send_data kind endpoint session written s =
      if session.is_open
      then (elim written [
        | none ↦ (0, handle_closed_socket kind endpoint s)
        | some bytes ↦ (bytes, s)
      ])
      else (0, s)

  unfoldable pub send_socket_data : ServerKind → E → Option ℕ → SocketServer E → ℕ × SocketServer E
  unfolding find send_data
  send_socket_data kind endpoint written s = elim (find endpoint s.sessions) [
    | none ↦ (0, s)
    | some session ↦ send_data kind endpoint session written s
  ]

  -- The loop over the entries of the table.
  unfoldable pub send_to_all :
      ServerKind → (E → Option ℕ) → List (E × Session) → SocketServer E → SocketServer E
  unfolding send_socket_data
  send_to_all kind written [] s = s
  send_to_all kind written ((e, session) ∷ table) s =
      send_to_all kind written table (send_socket_data kind e (written e) s).1

  unfoldable pub has_connected_clients : SocketServer E → Bool
  has_connected_clients s = not (is_empty s.sessions)

  -- The failed read of a session that the server has.
  unfoldable pub read_failed : ServerKind → E → SocketServer E → SocketServer E
  unfolding find handle_closed_socket
  read_failed kind endpoint s = elim (find endpoint s.sessions) [
    | none ↦ s
    | some session ↦ handle_closed_socket kind endpoint s
  ]

  unfoldable pub step : ServerKind → Event E → SocketServer E → SocketServer E
  unfolding accept read_failed send_socket_data send_to_all run_posted
  step kind (connection failed endpoint accepted) s = accept failed endpoint accepted s
  step kind (read_fails endpoint) s = read_failed kind endpoint s
  step kind (data_for endpoint written) s = (send_socket_data kind endpoint written s).1
  step kind (data_for_all written) s = send_to_all kind written s.sessions s
  step kind service_runs s = run_posted s

  unfoldable pub run_events : ServerKind → List (Event E) → SocketServer E → SocketServer E
  unfolding step
  run_events kind [] s = s
  run_events kind (e ∷ es) s = run_events kind es (step kind e s)

  -- The service runs as many of the posted removals as it is told.
  unfoldable pub run_service : ℕ → SocketServer E → SocketServer E
  unfolding run_posted
  run_service zero s = s
  run_service (suc n) s = run_service n (run_posted s)
