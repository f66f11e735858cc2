-- ===== src/WebSocketServer/Lifetimes.antt =====
-- Sessions that are destroyed while a read is pending on them.
use moboware.Base.{
  ℕ, Bool, true, false, Option, none, some, List, [], ◌∷◌, HasEq, ◌≡◌, refl, ap, Bool-cases,
  Option-cases, inl, inr, subst,
}
use moboware.SocketServer.Table.{find}
use moboware.WebSocketServer.{
  WebSocketSession, in_handshake, ended, reading, check_closed_sessions, WebSocketServer,
  new_web_socket_server, ReadResult, frame_closed, read_error, data_read, run_cancelled,
  WebSocketEvent, socket_accepted, handshake_done, read_done, data_sent, check_runs, cancelled_run,
  accept_web_socket, finish_handshake, on_session_closed, forward_data, finish_read,
  send_web_socket_data, run_check, with_session, web_socket_step, run_web_socket,
}
use moboware.WebSocketServer.Sessions.{
  AllAre, IsSound, NoneReads, append-NoneReads, check_closed_sessions-AllAre,
  check_closed_sessions-NoneReads, erase-AllAre, set_session-AllAre, with_session_keeps,
  zero_or_suc,
}

run_cancelled-NoneReads : (ws : List WebSocketSession) → NoneReads ws → run_cancelled ws ≡ some []
unfolding run_cancelled
run_cancelled-NoneReads [] p = refl
run_cancelled-NoneReads (in_handshake ∷ ws) p = run_cancelled-NoneReads ws p
run_cancelled-NoneReads (ended ∷ ws) p = run_cancelled-NoneReads ws p
run_cancelled-NoneReads (reading healthy ∷ ws) p = absurd p

module _ {E : Type 0} ⦃keys : HasEq E⦄ where
  -- Every session that reads is open, and no read is pending on a session that is gone.
  abbrev pub IsAlive : WebSocketServer E → Type 0
  IsAlive s = AllAre IsSound s.sessions × NoneReads s.cancelled

  -- A connection has an endpoint of its own, and no write fails.
  abbrev pub Allowed : WebSocketEvent E → WebSocketServer E → Type 0
  Allowed (socket_accepted failed k) s = find k s.sessions ≡ none
  Allowed (handshake_done failed k) s = Unit
  Allowed (read_done result k) s = Unit
  Allowed (data_sent k n failed) s = failed ≡ false
  Allowed check_runs s = Unit
  Allowed cancelled_run s = Unit

  -- A predicate of what a step leaves, if it is defined.
  abbrev pub After : (WebSocketServer E → Type 0) → Option (WebSocketServer E) → Type 0
  After P none = Unit
  After P (some s) = P s

  abbrev pub AllAllowed : List (WebSocketEvent E) → WebSocketServer E → Type 0
  AllAllowed [] s = Unit
  AllAllowed (e ∷ es) s = Allowed e s × After (AllAllowed es) (web_socket_step e s)

  accept_web_socket-IsAlive :
      (failed : Bool) (k : E) (s : WebSocketServer E)
      → find k s.sessions ≡ none
      → IsAlive s
      → IsAlive (accept_web_socket failed k s)
  unfolding accept_web_socket
  accept_web_socket-IsAlive true k s free i = i
  accept_web_socket-IsAlive false k s free i =
      rw (free, accept_web_socket) ((tt, erase-AllAre IsSound k s.sessions i.0), i.1)

  finish_handshake-IsAlive :
      (failed : Bool) (k : E) (w : WebSocketSession) (s : WebSocketServer E)
      → IsAlive s
      → IsAlive (finish_handshake failed k w s)
  unfolding finish_handshake
  finish_handshake-IsAlive true k in_handshake s i =
      (set_session-AllAre IsSound k ended s.sessions tt i.0, i.1)
  finish_handshake-IsAlive false k in_handshake s i =
      (set_session-AllAre IsSound k (reading true) s.sessions refl i.0, i.1)
  finish_handshake-IsAlive failed k ended s i = i
  finish_handshake-IsAlive failed k (reading healthy) s i = i

  finish_read-IsAlive :
      (result : ReadResult) (k : E) (w : WebSocketSession) (s : WebSocketServer E)
      → IsAlive s
      → IsAlive (finish_read result k w s)
  unfolding finish_read on_session_closed forward_data
  finish_read-IsAlive result k in_handshake s i = i
  finish_read-IsAlive result k ended s i = i
  finish_read-IsAlive frame_closed k (reading healthy) s i =
      (set_session-AllAre IsSound k ended s.sessions tt i.0, i.1)
  finish_read-IsAlive read_error k (reading healthy) s i =
      (set_session-AllAre IsSound k ended s.sessions tt i.0, i.1)
  finish_read-IsAlive (data_read bytes) k (reading healthy) s i = elim (Bool-cases s.has_receiver) [
    | inl receiver ↦ rw receiver i
    | inr nobody ↦ rw nobody i
  ]

  send-sessions : (k : E) (n : ℕ) (s : WebSocketServer E) → (send_web_socket_data k n false s).1 ≡ s
  unfolding send_web_socket_data
  send-sessions k n s = elim (Option-cases (find k s.sessions)) [
    | inl absent ↦ rw (absent, send_web_socket_data) refl
    | inr (w, found) ↦ rw (found, send_web_socket_data) refl
  ]

  run_check-IsAlive : (s : WebSocketServer E) → IsAlive s → IsAlive (run_check s)
  unfolding run_check
  run_check-IsAlive s i = elim (zero_or_suc s.posted_checks) [
    | inl idle ↦ rw (idle, run_check) i
    | inr (rest, posted) ↦
        rw (posted, run_check)
          (
            check_closed_sessions-AllAre IsSound s.sessions i.0,
            append-NoneReads s.cancelled (check_closed_sessions s.sessions).2 i.1
                (check_closed_sessions-NoneReads s.sessions i.0),
          )
  ]

  pub web_socket_step-IsAlive :
      (e : WebSocketEvent E) (s : WebSocketServer E)
      → Allowed e s
      → IsAlive s
      → (s' : WebSocketServer E) × (web_socket_step e s ≡ some s') × IsAlive s'
  unfolding web_socket_step
  web_socket_step-IsAlive (socket_accepted failed k) s free i =
      (accept_web_socket failed k s, refl, accept_web_socket-IsAlive failed k s free i)
  web_socket_step-IsAlive (handshake_done failed k) s ok i = (
    with_session (finish_handshake failed k) k s,
    refl,
    with_session_keeps IsAlive (finish_handshake failed k) k s
        (λ w. finish_handshake-IsAlive failed k w s i) i,
  )
  web_socket_step-IsAlive (read_done result k) s ok i = (
    with_session (finish_read result k) k s,
    refl,
    with_session_keeps IsAlive (finish_read result k) k s (λ w. finish_read-IsAlive result k w s i)
        i,
  )
  web_socket_step-IsAlive (data_sent k n failed) s sent i =
      (s, rw sent (ap some (send-sessions k n s)), i)
  web_socket_step-IsAlive check_runs s ok i = (run_check s, refl, run_check-IsAlive s i)
  web_socket_step-IsAlive cancelled_run s ok i =
      (record s { cancelled = [] }, rw (run_cancelled-NoneReads s.cancelled i.1) refl, (i.0, tt))

  run_web_socket-IsAlive :
      (es : List (WebSocketEvent E)) (s : WebSocketServer E)
      → AllAllowed es s
      → IsAlive s
      → (s' : WebSocketServer E) × (run_web_socket es s ≡ some s') × IsAlive s'
  unfolding run_web_socket
  run_web_socket-IsAlive [] s ok i = (s, refl, i)
  run_web_socket-IsAlive (e ∷ es) s (ok, oks) i =
      let (s1, e1, i1) = web_socket_step-IsAlive e s ok i in
      let (s2, e2, i2) = run_web_socket-IsAlive es s1 (subst (After (AllAllowed es)) e1 oks) i1 in
      (s2, rw e1 e2, i2)

  pub run_web_socket-NoneReads :
      (has_receiver : Bool) (es : List (WebSocketEvent E))
      → AllAllowed es (new_web_socket_server has_receiver)
      → (s : WebSocketServer E) × (run_web_socket es (new_web_socket_server has_receiver) ≡ some s)
        × NoneReads s.cancelled
  run_web_socket-NoneReads has_receiver es ok =
      let (s, e, i) = run_web_socket-IsAlive es (new_web_socket_server has_receiver) ok (tt, tt) in
      (s, e, i.1)
