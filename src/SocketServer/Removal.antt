-- ===== src/SocketServer/Removal.antt =====
-- The servers whose sessions post their removal: what becomes of the sessions that are closed.
use moboware.Base.{
  ℕ, Bool, true, false, Option, some, List, [], ◌∷◌, ◌++◌, HasEq, ◌≡◌, refl, sym, ◌∙◌, length,
  Bool-cases, Option-cases, inl, inr, append_assoc, append-nil,
}
use moboware.SocketServer.{
  without_closed, SocketServer, Session, Event, ssl, new_server, accept, check_closed_sessions,
  session_closed_handler, remove_session, run_posted, handle_closed_socket, send_data,
  send_socket_data, send_to_all, read_failed, step, run_events, run_service, connection, read_fails,
  data_for, data_for_all, service_runs,
}
use moboware.SocketServer.Table.{find, find-emplace, emplace_taken}
use moboware.SocketServer.Sessions.{
  occurs, IsTended, emplace-IsTended, erase-IsTended, close_socket-IsTended,
  without_closed-IsTended,
}

module _ {E : Type 0} ⦃keys : HasEq E⦄ where
  abbrev pub IsServed : SocketServer E → Type 0
  IsServed s = IsTended s.sessions s.posted

  pub accept-IsServed :
      (failed : Bool) (k : E) (accepted : Bool) (s : SocketServer E)
      → IsServed s
      → IsServed (accept failed k accepted s)
  unfolding accept
  accept-IsServed true k accepted s i = i
  accept-IsServed false k accepted s i = elim (Option-cases (find k s.sessions)) [
    | inl free ↦
        let new = emplace-IsTended k s.sessions s.posted free i in
        rw (find-emplace k (record { is_open = true }) s.sessions free)
          (elim (Bool-cases accepted) [
            | inl taken ↦ rw taken new
            | inr refused ↦
                rw refused
                  (erase-IsTended k ((k, record { is_open = true }) ∷ s.sessions) s.posted new)
          ])
    | inr (c, found) ↦
        rw (emplace_taken k (record { is_open = true }) c s.sessions found)
          (erase-IsTended k s.sessions s.posted i)
  ]

  handle_closed_socket-IsServed :
      (k : E) (s : SocketServer E) → IsServed s → IsServed (handle_closed_socket ssl k s)
  unfolding handle_closed_socket session_closed_handler
  handle_closed_socket-IsServed k s i = close_socket-IsTended k s.sessions s.posted i

  send_data-IsServed :
      (k : E) (c : Session) (written : Option ℕ) (s : SocketServer E)
      → IsServed s
      → IsServed (send_data ssl k c written s).1
  unfolding send_data
  send_data-IsServed k c written s i = elim (Bool-cases c.is_open) [
    | inr closed ↦ rw closed i
    | inl o ↦ elim (Option-cases written) [
      | inl fails ↦ rw (o, fails) (handle_closed_socket-IsServed k s i)
      | inr (n, sent) ↦ rw (o, sent) i
    ]
  ]

  send_socket_data-IsServed :
      (k : E) (written : Option ℕ) (s : SocketServer E)
      → IsServed s
      → IsServed (send_socket_data ssl k written s).1
  unfolding send_socket_data
  send_socket_data-IsServed k written s i = elim (Option-cases (find k s.sessions)) [
    | inl absent ↦ rw (absent, send_socket_data) i
    | inr (c, found) ↦ rw (found, send_socket_data) (send_data-IsServed k c written s i)
  ]

  send_to_all-IsServed :
      (written : E → Option ℕ) (t : List (E × Session)) (s : SocketServer E)
      → IsServed s
      → IsServed (send_to_all ssl written t s)
  unfolding send_to_all
  send_to_all-IsServed written [] s i = i
  send_to_all-IsServed written ((e, c) ∷ t) s i =
      send_to_all-IsServed written t (send_socket_data ssl e (written e) s).1
        (send_socket_data-IsServed e (written e) s i)

  read_failed-IsServed : (k : E) (s : SocketServer E) → IsServed s → IsServed (read_failed ssl k s)
  unfolding read_failed
  read_failed-IsServed k s i = elim (Option-cases (find k s.sessions)) [
    | inl absent ↦ rw (absent, read_failed) i
    | inr (c, found) ↦ rw (found, read_failed) (handle_closed_socket-IsServed k s i)
  ]

  -- The service takes the first of what was posted, and sends its notice.
  run_posted_lem :
      (t : List (E × Session)) (p n : List E)
      → IsTended t p
      → let s : SocketServer E =
          run_posted (record { sessions = t; posted = p; closed_notices = n }) in
        IsServed s × (s.closed_notices ++ s.posted ≡ n ++ p)
  unfolding run_posted remove_session check_closed_sessions
  run_posted_lem t [] n i = (i, refl)
  run_posted_lem t (k ∷ p) n i = (without_closed-IsTended k t p i, append_assoc n (k ∷ []) p)

  step-IsServed : (e : Event E) (s : SocketServer E) → IsServed s → IsServed (step ssl e s)
  unfolding step
  step-IsServed (connection failed k accepted) s i = accept-IsServed failed k accepted s i
  step-IsServed (read_fails k) s i = read_failed-IsServed k s i
  step-IsServed (data_for k written) s i = send_socket_data-IsServed k written s i
  step-IsServed (data_for_all written) s i = send_to_all-IsServed written s.sessions s i
  step-IsServed service_runs s i = (run_posted_lem s.sessions s.posted s.closed_notices i).0

  run_events_from-IsServed :
      (es : List (Event E)) (s : SocketServer E) → IsServed s → IsServed (run_events ssl es s)
  unfolding run_events
  run_events_from-IsServed [] s i = i
  run_events_from-IsServed (e ∷ es) s i =
      run_events_from-IsServed es (step ssl e s) (step-IsServed e s i)

  -- Whatever the events on an SSL server that started without sessions: the keys of its table are
  -- distinct, and the removal of each session of it that is closed is posted.
  run_events-IsServed : (es : List (Event E)) → IsServed (run_events ssl es new_server)
  unfolding find
  run_events-IsServed es =
      run_events_from-IsServed es new_server (tt, λ e c found closed. absurd (cc))

  pub run_service_lem :
      (p : List E) (t : List (E × Session)) (n : List E)
      → IsTended t p
      → let s : SocketServer E =
          run_service (length p) (record { sessions = t; posted = p; closed_notices = n }) in
        IsTended s.sessions [] × (s.posted ≡ []) × (s.closed_notices ≡ n ++ p)
  unfolding run_service run_posted remove_session check_closed_sessions
  run_service_lem [] t n i = (i, refl, sym (append-nil n))
  run_service_lem (k ∷ p) t n i =
      let rest =
        run_service_lem p (without_closed k t) (n ++ (k ∷ [])) (without_closed-IsTended k t p i) in
      (rest.0, rest.1, rest.2 ∙ append_assoc n (k ∷ []) p)

  -- After any events on an SSL server that started without sessions, the service runs what is posted:
  -- nothing is left to run, each session that is left in the table is open, and the callback's notices
  -- are the earlier ones and then one for each removal that was posted, in that order.
  pub run_service-removes :
      (es : List (Event E))
      → let s : SocketServer E = run_events ssl es new_server in
        let s' : SocketServer E = run_service (length s.posted) s in
        ((e : E) (c : Session) → find e s'.sessions ≡ some c → c.is_open ≡ true)
        × (s'.posted ≡ [])
        × (s'.closed_notices ≡ s.closed_notices ++ s.posted)
  unfolding occurs
  run_service-removes es =
      let s : SocketServer E = run_events ssl es new_server in
      let lem = run_service_lem s.posted s.sessions s.closed_notices (run_events-IsServed es) in
      (
        λ e c found. elim (Bool-cases c.is_open) [
          | inl o ↦ o
          | inr closed ↦ let h = lem.0.1 e c found closed in absurd (cc)
        ],
        lem.1,
        lem.2,
      )
