-- ===== src/WebSocketServer/Closes.antt =====
-- The sessions that their clients close.
use moboware.Base.{
  ◌<◌, ◌⊎◌, ℕ, Bool, true, false, some, List, [], ◌∷◌, HasEq, ◌≡◌, Bool-cases, Option-cases, inl,
  inr, subst, arith,
}
use moboware.SocketServer.Table.{find, erase}
use moboware.WebSocketServer.{
  WebSocketSession, in_handshake, ended, reading, set_session, WebSocketServer,
  new_web_socket_server, frame_closed, read_error, data_read, run_cancelled, WebSocketEvent,
  socket_accepted, handshake_done, read_done, data_sent, check_runs, cancelled_run,
  accept_web_socket, finish_handshake, fail_session, on_session_closed, forward_data, finish_read,
  send_web_socket_data, run_check, with_session, web_socket_step, run_web_socket,
}
use moboware.WebSocketServer.Sessions.{
  AllAre, IsWaiting, check_closed_sessions-IsWaiting, erase-AllAre, set_session-AllAre, find-AllAre,
  with_session_keeps, zero_or_suc,
}
use moboware.WebSocketServer.Lifetimes.{AllAllowed, After, run_web_socket-NoneReads}

-- No handshake fails, and no read ends but with data or with the other side's close frame.
abbrev pub IsOrderly : {E : Type 0} → List (WebSocketEvent E) → Type 0
IsOrderly [] = Unit
IsOrderly (socket_accepted failed k ∷ es) = IsOrderly es
IsOrderly (handshake_done failed k ∷ es) = (failed ≡ false) × IsOrderly es
IsOrderly (read_done frame_closed k ∷ es) = IsOrderly es
IsOrderly (read_done read_error k ∷ es) = ⊥
IsOrderly (read_done (data_read bytes) k ∷ es) = IsOrderly es
IsOrderly (data_sent k n failed ∷ es) = IsOrderly es
IsOrderly (check_runs ∷ es) = IsOrderly es
IsOrderly (cancelled_run ∷ es) = IsOrderly es

fail_session-IsWaiting : (w : WebSocketSession) → IsWaiting w → IsWaiting (fail_session w)
unfolding fail_session
fail_session-IsWaiting in_handshake p = tt
fail_session-IsWaiting ended p = p
fail_session-IsWaiting (reading healthy) p = tt

module _ {E : Type 0} ⦃keys : HasEq E⦄ where
  -- A check is to run, or an operation is pending on every session.
  abbrev pub IsSwept : WebSocketServer E → Type 0
  IsSwept s = (0 < s.posted_checks) ⊎ AllAre IsWaiting s.sessions

  -- A change to a session on which an operation is pending.
  set_session-IsSwept :
      (k : E) (w : WebSocketSession) (s : WebSocketServer E)
      → IsWaiting w
      → IsSwept s
      → IsSwept (record s { sessions = set_session k w s.sessions })
  set_session-IsSwept k w s p (inl posted) = inl posted
  set_session-IsSwept k w s p (inr all) = inr (set_session-AllAre IsWaiting k w s.sessions p all)

  accept_web_socket-IsSwept :
      (failed : Bool) (k : E) (s : WebSocketServer E)
      → IsSwept s
      → IsSwept (accept_web_socket failed k s)
  unfolding accept_web_socket
  accept_web_socket-IsSwept true k s i = i
  accept_web_socket-IsSwept false k s i =
      let new : (0 < s.posted_checks) ⊎ AllAre IsWaiting ((k, in_handshake) ∷ erase k s.sessions) =
        elim i [
          | inl posted ↦ inl posted
          | inr all ↦ inr (tt, erase-AllAre IsWaiting k s.sessions all)
        ] in
      elim (Option-cases (find k s.sessions)) [
        | inl free ↦ rw (free, accept_web_socket) new
        | inr (w, found) ↦ rw (found, accept_web_socket) new
      ]

  finish_handshake-IsSwept :
      (k : E) (w : WebSocketSession) (s : WebSocketServer E)
      → IsSwept s
      → IsSwept (finish_handshake false k w s)
  unfolding finish_handshake
  finish_handshake-IsSwept k in_handshake s i = set_session-IsSwept k (reading true) s tt i
  finish_handshake-IsSwept k ended s i = i
  finish_handshake-IsSwept k (reading healthy) s i = i

  finish_close-IsSwept :
      (k : E) (w : WebSocketSession) (s : WebSocketServer E)
      → IsSwept s
      → IsSwept (finish_read frame_closed k w s)
  unfolding finish_read on_session_closed
  finish_close-IsSwept k in_handshake s i = i
  finish_close-IsSwept k ended s i = i
  finish_close-IsSwept k (reading healthy) s i = inl (omega arith)

  finish_data-IsSwept :
      (bytes : List ℕ) (k : E) (w : WebSocketSession) (s : WebSocketServer E)
      → IsSwept s
      → IsSwept (finish_read (data_read bytes) k w s)
  unfolding finish_read forward_data
  finish_data-IsSwept bytes k in_handshake s i = i
  finish_data-IsSwept bytes k ended s i = i
  finish_data-IsSwept bytes k (reading healthy) s i = elim (Bool-cases s.has_receiver) [
    | inl receiver ↦ rw receiver i
    | inr nobody ↦ rw nobody i
  ]

  send_web_socket_data-IsSwept :
      (k : E) (n : ℕ) (failed : Bool) (s : WebSocketServer E)
      → IsSwept s
      → IsSwept (send_web_socket_data k n failed s).1
  unfolding send_web_socket_data
  send_web_socket_data-IsSwept k n failed s i = elim (Option-cases (find k s.sessions)) [
    | inl absent ↦ rw (absent, send_web_socket_data) i
    | inr (w, found) ↦
        let broken : IsSwept (record s { sessions = set_session k (fail_session w) s.sessions }) =
          elim i [
            | inl posted ↦ inl posted
            | inr all ↦
                let waits =
                  fail_session-IsWaiting w (find-AllAre IsWaiting k w s.sessions found all) in
                inr (set_session-AllAre IsWaiting k (fail_session w) s.sessions waits all)
          ] in
        elim (Bool-cases failed) [
          | inl fails ↦ rw (found, send_web_socket_data, fails) broken
          | inr sent ↦ rw (found, send_web_socket_data, sent) i
        ]
  ]

  run_check-IsSwept : (s : WebSocketServer E) → IsSwept s → IsSwept (run_check s)
  unfolding run_check
  run_check-IsSwept s i = elim (zero_or_suc s.posted_checks) [
    | inl idle ↦ rw (idle, run_check) i
    | inr (rest, posted) ↦ rw (posted, run_check) (inr (check_closed_sessions-IsWaiting s.sessions))
  ]

  run_web_socket-IsSwept :
      (es : List (WebSocketEvent E)) (s : WebSocketServer E)
      → IsOrderly es
      → IsSwept s
      → After IsSwept (run_web_socket es s)
  unfolding run_web_socket web_socket_step
  run_web_socket-IsSwept [] s orderly i = i
  run_web_socket-IsSwept (socket_accepted failed k ∷ es) s orderly i =
      run_web_socket-IsSwept es (accept_web_socket failed k s) orderly
        (accept_web_socket-IsSwept failed k s i)
  run_web_socket-IsSwept (handshake_done failed k ∷ es) s (done, orderly) i = rw done (
      run_web_socket-IsSwept es (with_session (finish_handshake false k) k s) orderly (
        with_session_keeps IsSwept (finish_handshake false k) k s
          (λ w. finish_handshake-IsSwept k w s i) i))
  run_web_socket-IsSwept (read_done frame_closed k ∷ es) s orderly i =
      run_web_socket-IsSwept es (with_session (finish_read frame_closed k) k s) orderly (
        with_session_keeps IsSwept (finish_read frame_closed k) k s
          (λ w. finish_close-IsSwept k w s i) i)
  run_web_socket-IsSwept (read_done read_error k ∷ es) s orderly i = absurd orderly
  run_web_socket-IsSwept (read_done (data_read bytes) k ∷ es) s orderly i =
      run_web_socket-IsSwept es (with_session (finish_read (data_read bytes) k) k s) orderly (
        with_session_keeps IsSwept (finish_read (data_read bytes) k) k s
          (λ w. finish_data-IsSwept bytes k w s i) i)
  run_web_socket-IsSwept (data_sent k n failed ∷ es) s orderly i =
      run_web_socket-IsSwept es (send_web_socket_data k n failed s).1 orderly
        (send_web_socket_data-IsSwept k n failed s i)
  run_web_socket-IsSwept (check_runs ∷ es) s orderly i =
      run_web_socket-IsSwept es (run_check s) orderly (run_check-IsSwept s i)
  run_web_socket-IsSwept (cancelled_run ∷ es) s orderly i =
      elim (Option-cases (run_cancelled s.cancelled)) [
        | inl undefined ↦ rw undefined tt
        | inr (left, ran) ↦
            rw ran (run_web_socket-IsSwept es (record s { cancelled = left }) orderly i)
      ]

  -- As long as no write, no handshake and no read fails, and each connection that is accepted has an endpoint
  -- that no session of the server has: after any run of a new server, either a check is posted that has not
  -- run, or the server keeps no session that its client has closed.
  pub run_web_socket-IsWaiting :
      (has_receiver : Bool) (es : List (WebSocketEvent E))
      → AllAllowed es (new_web_socket_server has_receiver)
      → IsOrderly es
      → (s : WebSocketServer E) × (run_web_socket es (new_web_socket_server has_receiver) ≡ some s)
        × ((0 < s.posted_checks) ⊎ AllAre IsWaiting s.sessions)
  run_web_socket-IsWaiting has_receiver es ok orderly =
      let (s, e, gone) = run_web_socket-NoneReads has_receiver es ok in
      (
        s,
        e,
        subst (After IsSwept) e
            (run_web_socket-IsSwept es (new_web_socket_server has_receiver) orderly (inr tt)),
      )
