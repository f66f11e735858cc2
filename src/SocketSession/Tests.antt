-- ===== src/SocketSession/Tests.antt =====
-- A session on concrete runs.
use moboware.Base.{false, ℕ, none, some, List, [], ◌∷◌, ◌++◌, ◌≡◌, refl, arith}
use moboware.RingBuffer.{write_with, read_with, flush}
use moboware.RingBuffer.Contents.{contents}
use moboware.SocketSession.Connecting.{
  connect_ssl, call_socket, works, fails, resolve_host, connect_socket, set_no_delay, set_linger,
  client_handshake,
}
use moboware.SocketSession.{
  SocketSession, SocketEvent, arrive, ready, new_session, read_buffer, readable, on_data_read,
  read_data, socket_step, run_session,
}
use moboware.SocketSession.Delivery.{arrived, run_session-arrived, run_session_stalls}

-- The handshake of a client fails.
connect_ssl-client_handshake :
    connect_ssl {Name = ℕ} {Port = ℕ} (λ c. elim c [ client_handshake ↦ fails | _ ↦ works ]) 5 443
    ≡ some (
      false,
      resolve_host 5 443 ∷ connect_socket ∷ set_no_delay ∷ set_linger ∷ client_handshake ∷ [],
    )
unfolding connect_ssl call_socket
connect_ssl-client_handshake = refl

-- A callback that takes everything.
abbrev take_all : List ℕ → ℕ → ℕ
take_all bytes n = n

-- A callback that takes whole messages of two bytes.
unfoldable take_pairs : List ℕ → ℕ → ℕ
take_pairs [] n = 0
take_pairs (x ∷ []) n = 0
take_pairs (x ∷ y ∷ rest) n = 2

abbrev two_reads : List SocketEvent
two_reads =
    arrive (1 ∷ 2 ∷ 3 ∷ []) ∷ ready (some 2) ∷ arrive (4 ∷ []) ∷ ready none ∷ ready (some 9) ∷ []

run_session-two_reads :
    run_session take_all two_reads (new_session (0 ∷ 0 ∷ 0 ∷ 0 ∷ []))
    ≡ some (record {
      receive_buffer = record { buffer = 3 ∷ 4 ∷ 0 ∷ 0 ∷ []; read_buffer = 0; write_buffer = 0 };
      incoming = [];
      taken = 1 ∷ 2 ∷ 3 ∷ 4 ∷ [];
    })
unfolding run_session socket_step read_data on_data_read readable read_buffer write_with read_with
    flush new_session
run_session-two_reads = refl

-- An odd byte waits for its partner.
run_session-take_pairs :
    run_session take_pairs
      (arrive (1 ∷ 2 ∷ 3 ∷ []) ∷ ready (some 9) ∷ arrive (4 ∷ []) ∷ ready (some 9) ∷ [])
      (new_session (0 ∷ 0 ∷ 0 ∷ 0 ∷ []))
    ≡ some (record {
      receive_buffer = record { buffer = 1 ∷ 2 ∷ 3 ∷ 4 ∷ []; read_buffer = 0; write_buffer = 0 };
      incoming = [];
      taken = 1 ∷ 2 ∷ 3 ∷ 4 ∷ [];
    })
unfolding run_session socket_step read_data on_data_read readable read_buffer write_with read_with
    flush take_pairs new_session
run_session-take_pairs = refl

run_session-arrived_example :
    (s : SocketSession) × (run_session take_all two_reads (new_session (0 ∷ 0 ∷ 0 ∷ 0 ∷ []))
      ≡ some s)
    × (s.taken ++ s.incoming ≡ arrived two_reads)
    × (contents s.receive_buffer ≡ [])
run_session-arrived_example =
    run_session-arrived take_all (λ xs. refl) (0 ∷ 0 ∷ 0 ∷ 0 ∷ []) two_reads

-- Three bytes for a buffer of two.
abbrev overfull : SocketSession
overfull = record (new_session (0 ∷ 0 ∷ [])) { incoming = 1 ∷ 2 ∷ 3 ∷ [] }

run_session_stalls_example :
    run_session take_all two_reads overfull
    ≡ some (record overfull { incoming = overfull.incoming ++ arrived two_reads })
unfolding new_session
run_session_stalls_example =
    run_session_stalls take_all two_reads overfull (omega arith, omega arith) (omega arith)
