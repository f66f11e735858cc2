-- ===== src/SecureServer/Tests.antt =====
-- Runs of the secure web socket server, whose endpoints are numbers here.
use moboware.Base.{
  ℕ, Bool, true, false, some, [], ◌∷◌, ◌++◌, nat_keys, nat_beq, ◌≡◌, refl, length, make_calls,
  arith,
}
use moboware.SocketServer.{SocketServer, Session, new_server, run_service}
use moboware.SocketServer.Table.{find}
use moboware.SecureServer.{
  client_connects, frame_arrives, close_frame, read_ends, send_one, timer_ticks, run_secure,
  secure_step,
}
use moboware.SecureServer.Connecting.{
  connect_secure, resolve_address, connect_resolved, ssl_handshake,
}
use moboware.SecureServer.Notices.{run_secure-closed_notices}
use moboware.SecureServer.Pings.{timer_ticks-removes}

abbrev client : Bool → Session
client is_open = record { is_open = is_open }

-- A write to the second of three clients fails.
abbrev one_broken : SocketServer ℕ
one_broken = record {
  sessions = (3, client true) ∷ (2, client false) ∷ (1, client true) ∷ [];
  posted = [];
  closed_notices = [];
}

run_secure-one_broken :
    run_secure
      (client_connects false 1 true
        ∷ client_connects false 2 true
        ∷ client_connects false 3 true
        ∷ send_one true 2
        ∷ [])
      new_server
    ≡ one_broken
unfolding run_secure
run_secure-one_broken = refl

-- The pings of the second client fail.
abbrev second_fails : ℕ → Bool
second_fails e = nat_beq e 2

is_second :
    (e : ℕ) (c : Session)
    → find e one_broken.sessions ≡ some c
    → c.is_open ≡ false
    → second_fails e ≡ true
unfolding find
is_second e c found closed = ground arith

timer_ticks-removes_example :
    let pinged : SocketServer ℕ = secure_step (timer_ticks second_fails) one_broken in
    let s' : SocketServer ℕ = run_service (length pinged.posted) pinged in
    (s'.posted ≡ []) × ((e : ℕ) (c : Session) → find e s'.sessions ≡ some c → c.is_open ≡ true)
unfolding find
timer_ticks-removes_example =
    timer_ticks-removes second_fails one_broken (refl, (refl, (refl, tt))) is_second

run_secure-closed_notices_example :
    let closed : SocketServer ℕ =
      run_secure (frame_arrives close_frame false 1 ∷ read_ends true 1 ∷ []) one_broken in
    (run_service (length closed.posted) closed).closed_notices ≡ ([] ++ []) ++ (1 ∷ (1 ∷ []))
unfolding find
run_secure-closed_notices_example = run_secure-closed_notices 1 (client true) one_broken refl

connect_secure-ssl_handshake :
    connect_secure {Name = ℕ} {Port = ℕ} (λ c. elim c [ ssl_handshake ↦ true | _ ↦ false ]) 5 443
    ≡ (false, resolve_address 5 443 ∷ connect_resolved ∷ ssl_handshake ∷ [])
unfolding connect_secure make_calls
connect_secure-ssl_handshake = refl
