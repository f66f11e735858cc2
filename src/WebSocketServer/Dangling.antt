-- ===== src/WebSocketServer/Dangling.antt =====
-- A write that fails, and a session that is destroyed while it reads.
use moboware.Base.{
  ◌≢◌, ℕ, Bool, true, false, none, some, List, [], ◌∷◌, ◌++◌, HasEq, ◌==◌, ◌≡◌, refl, sym, ◌∙◌, suc,
  Bool-cases, inl, inr,
}
use moboware.SocketServer.Table.{find, other_key}
use moboware.WebSocketServer.{
  WebSocketSession, in_handshake, ended, reading, is_open, check_closed_sessions, set_session,
  WebSocketServer, frame_closed, run_cancelled, fail_session, read_done, data_sent, check_runs,
  cancelled_run, on_session_closed, finish_read, send_web_socket_data, run_check, with_session,
  web_socket_step, run_web_socket,
}

run_cancelled-append :
    (xs ys : List WebSocketSession) → run_cancelled ys ≡ none → run_cancelled (xs ++ ys) ≡ none
unfolding run_cancelled
run_cancelled-append [] ys e = e
run_cancelled-append (in_handshake ∷ xs) ys e = run_cancelled-append xs ys e
run_cancelled-append (ended ∷ xs) ys e = run_cancelled-append xs ys e
run_cancelled-append (reading healthy ∷ xs) ys e = refl

run_cancelled_skip :
    (w : WebSocketSession) (ws : List WebSocketSession)
    → run_cancelled ws ≡ none
    → run_cancelled (w ∷ ws) ≡ none
run_cancelled_skip w ws e = run_cancelled-append (w ∷ []) ws e

module _ {E : Type 0} ⦃keys : HasEq E⦄ where
  find-set_session_self :
      (k : E) (v w : WebSocketSession) (table : List (E × WebSocketSession))
      → find k table ≡ some w
      → find k (set_session k v table) ≡ some v
  unfolding find set_session
  find-set_session_self k v w [] found = cc
  find-set_session_self k v w ((e, u) ∷ table) found = elim (Bool-cases (e == k)) [
    | inl same ↦ rw (same, same) refl
    | inr other ↦
        let deeper : find k table ≡ some w = rw other at found in
        rw (other, other) (find-set_session_self k v w table deeper)
  ]

  pub find-set_session_ne :
      (k j : E) (v : WebSocketSession) (table : List (E × WebSocketSession))
      → k ≢ j
      → find j (set_session k v table) ≡ find j table
  unfolding find set_session
  find-set_session_ne k j v [] n = refl
  find-set_session_ne k j v ((e, u) ∷ table) n = elim (Bool-cases (e == k)) [
    | inl at_k ↦ rw at_k (rw (other_key k j e n at_k) refl)
    | inr off_k ↦ elim (Bool-cases (e == j)) [
      | inl at_j ↦ rw (off_k, at_j) refl
      | inr off_j ↦ rw (off_k, off_j) (find-set_session_ne k j v table n)
    ]
  ]

  check_destroys :
      (k : E) (table : List (E × WebSocketSession))
      → find k table ≡ some (reading false)
      → run_cancelled (check_closed_sessions table).2 ≡ none
  unfolding find check_closed_sessions
  check_destroys k [] found = cc
  check_destroys k ((e, w) ∷ table) found = elim (Bool-cases (e == k)) [
    | inl same ↦
        let q : some w ≡ some (reading false) = rw same at found in
        let here : w ≡ reading false = cc in rw here (unfold is_open run_cancelled in refl)
    | inr other ↦
        let deeper : find k table ≡ some (reading false) = rw other at found in
        let rest = check_destroys k table deeper in
        elim (Bool-cases (is_open w)) [
          | inl o ↦ rw o rest
          | inr c ↦ rw c (run_cancelled_skip w (check_closed_sessions table).2 rest)
        ]
  ]

  failed_write :
      (k : E) (n : ℕ) (s : WebSocketServer E)
      → find k s.sessions ≡ some (reading true)
      → (send_web_socket_data k n true s).1
        ≡ record s { sessions = set_session k (reading false) s.sessions }
  unfolding send_web_socket_data fail_session
  failed_write k n s found = rw (found, send_web_socket_data) refl

  closed_by_peer :
      (j : E) (h : Bool) (s : WebSocketServer E)
      → find j s.sessions ≡ some (reading h)
      → with_session (finish_read frame_closed j) j s ≡ record s {
        sessions = set_session j ended s.sessions;
        posted_checks = suc s.posted_checks;
      }
  unfolding with_session finish_read on_session_closed
  closed_by_peer j h s found = rw (found, with_session) refl

  -- A write to one client that fails, and then another client that closes: the service's check destroys the
  -- first client's session while a read is pending on it, and the handler of that read runs on a session
  -- that is gone, which is undefined.
  pub run_web_socket_dangles :
      (k j : E) (h : Bool) (n : ℕ) (s : WebSocketServer E)
      → k ≢ j
      → find k s.sessions ≡ some (reading true)
      → find j s.sessions ≡ some (reading h)
      → run_web_socket
          (data_sent k n true ∷ read_done frame_closed j ∷ check_runs ∷ cancelled_run ∷ [])
          s
        ≡ none
  unfolding run_web_socket web_socket_step run_check
  run_web_socket_dangles k j h n s other found_k found_j =
      let table = set_session k (reading false) s.sessions in
      let s1 : WebSocketServer E = record s { sessions = table } in
      let at_j : find j table ≡ some (reading h) =
        find-set_session_ne k j (reading false) s.sessions other ∙ found_j in
      let at_k : find k (set_session j ended table) ≡ some (reading false) =
        find-set_session_ne j k ended table (λ e. other (sym e))
        ∙ find-set_session_self k (reading false) (reading true) s.sessions found_k in
      let destroyed : run_cancelled (check_closed_sessions (set_session j ended table)).2 ≡ none =
        check_destroys k (set_session j ended table) at_k in
      rw
        (
          failed_write k n s found_k,
          closed_by_peer j h s1 at_j,
          run_cancelled-append s.cancelled (check_closed_sessions (set_session j ended table)).2
              destroyed,
        )
        refl
