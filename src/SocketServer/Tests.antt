-- ===== src/SocketServer/Tests.antt =====
-- Runs of the servers, whose endpoints are numbers here.
use moboware.Base.{
  ℕ, Bool, true, false, none, some, List, [], ◌∷◌, ◌++◌, nat_keys, ◌≡◌, refl, length,
}
use moboware.SocketServer.{
  SocketServer, Session, Event, tcp, ssl, new_server, run_events, run_service, connection,
  read_fails, data_for, data_for_all, service_runs, start, StartCall, resolve, open_acceptor,
  set_reuse_address, bind_acceptor, start_listening, accept_connections,
}
use moboware.SocketServer.Table.{IsMap, find}
use moboware.SocketServer.Removal.{run_service-removes}

-- Two clients connect, a write to the first fails, and the second is read from without success.
abbrev two_failures : List (Event ℕ)
two_failures =
    connection false 1 true
    ∷ connection false 2 true
    ∷ connection false 3 true
    ∷ data_for 1 none
    ∷ read_fails 2
    ∷ []

abbrev one_closed : List (Event ℕ)
one_closed = connection false 1 true ∷ read_fails 1 ∷ []

abbrev quiet_events : List (Event ℕ)
quiet_events = connection false 2 true ∷ service_runs ∷ data_for_all (λ e. none) ∷ []

removed_run :
    let s : SocketServer ℕ = run_service 2 (run_events ssl two_failures new_server) in
    (s.sessions ≡ (3, record { is_open = true }) ∷ []) × (s.closed_notices ≡ 1 ∷ 2 ∷ [])
unfolding run_service run_events
removed_run = (refl, refl)

run_service-removes_example :
    let s : SocketServer ℕ = run_events ssl two_failures new_server in
    let s' : SocketServer ℕ = run_service (length s.posted) s in
    ((e : ℕ) (c : Session) → find e s'.sessions ≡ some c → c.is_open ≡ true)
    × (s'.posted ≡ [])
    × (s'.closed_notices ≡ s.closed_notices ++ s.posted)
run_service-removes_example = run_service-removes two_failures

abbrev one_client : SocketServer ℕ
one_client = record {
  sessions = (1, record { is_open = true }) ∷ [];
  posted = [];
  closed_notices = [];
}

found_client : find 1 one_client.sessions ≡ some (record { is_open = true })
unfolding find
found_client = refl

one_client-IsMap : IsMap one_client.sessions
unfolding find
one_client-IsMap = (refl, tt)

abbrev bind_fails : StartCall → Bool
bind_fails resolve = false
bind_fails open_acceptor = false
bind_fails set_reuse_address = false
bind_fails bind_acceptor = true
bind_fails start_listening = false
bind_fails accept_connections = false

start-bind_fails :
    start bind_fails ≡ (false, resolve ∷ open_acceptor ∷ set_reuse_address ∷ bind_acceptor ∷ [])
unfolding start
start-bind_fails = refl

one_closed_stale :
    find 1 (run_events tcp one_closed new_server).sessions ≡ some (record { is_open = false })
unfolding find run_events
one_closed_stale = refl
