-- ===== src/TcpServer/Tests.antt =====
-- Runs of the TCP server, whose endpoints are numbers here.
use moboware.Base.{ℕ, Bool, true, false, none, some, [], ◌∷◌, nat_keys, ◌≡◌, refl}
use moboware.SocketServer.Table.{find}
use moboware.SocketServer.Sessions.{occurs}
use moboware.SocketSession.Connecting.{works, fails, throws, call_socket}
use moboware.TcpServer.{
  start_listening, set_reuse, TcpServer, TcpSession, new_tcp_server, framed, session_accepted,
  session_readable, data_written, ping_timer, removal_runs, connection_gone, other_error,
  read_data_failed, run_tcp, run_removals,
}
use moboware.TcpServer.Client.{connect_client, parse_address}
use moboware.TcpServer.Removal.{run_removals_reconnected}

framed_text : framed (104 ∷ 105 ∷ []) ≡ 2 ∷ 0 ∷ 104 ∷ 105 ∷ []
unfolding framed
framed_text = refl

-- The option cannot be set: an exception.
start_listening-set_reuse : start_listening (λ c. elim c [ set_reuse ↦ throws | _ ↦ works ]) ≡ none
unfolding start_listening call_socket
start_listening-set_reuse = refl

abbrev session : Bool → Bool → TcpSession
session is_connected is_receiving = record {
  is_connected = is_connected;
  is_receiving = is_receiving;
}

-- A session that cannot be read is not removed until a ping finds that its connection is gone.
run_tcp-pings :
    run_tcp {E = ℕ}
      (session_accepted false 1
        ∷ session_accepted false 2
        ∷ session_readable read_data_failed 1
        ∷ ping_timer (λ e. other_error)
        ∷ removal_runs
        ∷ [])
      new_tcp_server
    ≡ record { tcp_sessions = (2, session true true) ∷ (1, session true false) ∷ []; removals = [] }
unfolding run_tcp
run_tcp-pings = refl

abbrev two_sessions : TcpServer ℕ
two_sessions = record {
  tcp_sessions = (2, session true true) ∷ (1, session true true) ∷ [];
  removals = [];
}

run_removals_reconnected_example :
    let s' : TcpServer ℕ =
      run_tcp (data_written connection_gone 1 ∷ session_accepted false 1 ∷ []) two_sessions in
    let left : TcpServer ℕ = run_removals s'.removals s' in
    (find 1 s'.tcp_sessions ≡ some (session true true))
    × (find 1 left.tcp_sessions ≡ none)
    × ((j : ℕ) → occurs j s'.removals ≡ false → find j left.tcp_sessions ≡ find j s'.tcp_sessions)
unfolding find
run_removals_reconnected_example =
    run_removals_reconnected 1 (session true true) two_sessions (refl, (refl, tt)) refl

-- The address is none.
connect_client-parse_address :
    connect_client (λ c. elim c [ parse_address ↦ fails | _ ↦ works ])
    ≡ some (false, parse_address ∷ [])
unfolding connect_client call_socket
connect_client-parse_address = refl
