-- ===== src/SocketServer/Tcp.antt =====
-- The TCP server, whose sessions call an empty handler when they are closed.
use moboware.Base.{
  is_empty, true, false, Option, some, List, [], ◌∷◌, HasEq, ◌==◌, ◌≡◌, ◌≢◌, refl, ◌∙◌, All, ℕ,
  Bool-cases, Option-cases, inl, inr, not,
}
use moboware.SocketServer.{
  SocketServer, Session, Event, tcp, new_server, session_closed_handler, run_posted,
  handle_closed_socket, send_data, send_socket_data, send_to_all, read_failed, close_socket, step,
  run_events, connection, read_fails, data_for, data_for_all, service_runs, has_connected_clients,
}
use moboware.SocketServer.Table.{find}
use moboware.SocketServer.Accepting.{find-accept_ne, accept-notices}

module _ {E : Type 0} ⦃keys : HasEq E⦄ where
  -- The endpoint's session is in the table, and closed.
  abbrev IsStale : E → SocketServer E → Type 0
  IsStale k s = find k s.sessions ≡ some (record { is_open = false })

  close_socket-IsStale :
      (j k : E) (t : List (E × Session))
      → find k t ≡ some (record { is_open = false })
      → find k (close_socket j t) ≡ some (record { is_open = false })
  unfolding find close_socket
  close_socket-IsStale j k [] h = h
  close_socket-IsStale j k ((e, c) ∷ t) h = elim (Bool-cases (e == j)) [
    | inl at_j ↦ elim (Bool-cases (e == k)) [
      | inl at_k ↦ rw (at_j, at_k) refl
      | inr off_k ↦ rw (at_j, off_k) (rw off_k at h)
    ]
    | inr off_j ↦ elim (Bool-cases (e == k)) [
      | inl at_k ↦ rw (off_j, at_k) (rw at_k at h)
      | inr off_k ↦ rw (off_j, off_k) (close_socket-IsStale j k t (rw off_k at h))
    ]
  ]

  -- What the TCP server keeps: nothing is posted, nothing is noticed, and the stale endpoint stays.
  abbrev Keeps : SocketServer E → SocketServer E → Type 0
  Keeps s s' =
      (s'.posted ≡ s.posted)
      × (s'.closed_notices ≡ s.closed_notices)
      × ((k : E) → IsStale k s → IsStale k s')

  handle_closed_socket-Keeps : (j : E) (s : SocketServer E) → Keeps s (handle_closed_socket tcp j s)
  unfolding handle_closed_socket session_closed_handler
  handle_closed_socket-Keeps j s = (refl, refl, λ k. close_socket-IsStale j k s.sessions)

  send_socket_data-Keeps :
      (j : E) (written : Option ℕ) (s : SocketServer E)
      → Keeps s (send_socket_data tcp j written s).1
  unfolding send_socket_data send_data
  send_socket_data-Keeps j written s = elim (Option-cases (find j s.sessions)) [
    | inl absent ↦ rw (absent, send_socket_data) (refl, refl, λ k h. h)
    | inr (c, found) ↦
        rw (found, send_socket_data)
          (elim (Bool-cases c.is_open) [
            | inr closed ↦ rw closed (refl, refl, λ k h. h)
            | inl o ↦ elim (Option-cases written) [
              | inl fails ↦ rw (o, fails) (handle_closed_socket-Keeps j s)
              | inr (n, sent) ↦ rw (o, sent) (refl, refl, λ k h. h)
            ]
          ])
  ]

  Keeps-trans : (s t u : SocketServer E) → Keeps s t → Keeps t u → Keeps s u
  Keeps-trans s t u p q = (q.0 ∙ p.0, q.1 ∙ p.1, λ k h. q.2 k (p.2 k h))

  send_to_all-Keeps :
      (written : E → Option ℕ) (t : List (E × Session)) (s : SocketServer E)
      → Keeps s (send_to_all tcp written t s)
  unfolding send_to_all
  send_to_all-Keeps written [] s = (refl, refl, λ k h. h)
  send_to_all-Keeps written ((e, c) ∷ t) s =
      let s' : SocketServer E = (send_socket_data tcp e (written e) s).1 in
      Keeps-trans s s' (send_to_all tcp written t s') (send_socket_data-Keeps e (written e) s)
        (send_to_all-Keeps written t s')

  read_failed-Keeps : (j : E) (s : SocketServer E) → Keeps s (read_failed tcp j s)
  unfolding read_failed
  read_failed-Keeps j s = elim (Option-cases (find j s.sessions)) [
    | inl absent ↦ rw (absent, read_failed) (refl, refl, λ k h. h)
    | inr (c, found) ↦ rw (found, read_failed) (handle_closed_socket-Keeps j s)
  ]

  -- The event is not a connection from the endpoint.
  abbrev pub NotFrom : E → Event E → Type 0
  NotFrom k (connection failed e accepted) = e ≢ k
  NotFrom k (read_fails e) = Unit
  NotFrom k (data_for e written) = Unit
  NotFrom k (data_for_all written) = Unit
  NotFrom k service_runs = Unit

  -- The server never posts a removal or sends a notice.
  abbrev IsSilent : SocketServer E → Type 0
  IsSilent s = (s.posted ≡ []) × (s.closed_notices ≡ [])

  run_none :
      (t : List (E × Session)) (p n : List E)
      → p ≡ []
      → let s : SocketServer E = record { sessions = t; posted = p; closed_notices = n } in
        run_posted s ≡ s
  unfolding run_posted
  run_none t [] n h = refl
  run_none t (k ∷ p) n h = absurd (cc)

  run_posted-silent : (s : SocketServer E) → s.posted ≡ [] → run_posted s ≡ s
  unfolding run_posted
  run_posted-silent s h = run_none s.sessions s.posted s.closed_notices h

  Keeps-IsSilent : (s t : SocketServer E) → Keeps s t → IsSilent s → IsSilent t
  Keeps-IsSilent s t p i = (p.0 ∙ i.0, p.1 ∙ i.1)

  step-IsSilent : (e : Event E) (s : SocketServer E) → IsSilent s → IsSilent (step tcp e s)
  unfolding step
  step-IsSilent (connection failed k accepted) s i =
      let n = accept-notices failed k accepted s in (n.0 ∙ i.0, n.1 ∙ i.1)
  step-IsSilent (read_fails k) s i =
      Keeps-IsSilent s (read_failed tcp k s) (read_failed-Keeps k s) i
  step-IsSilent (data_for k written) s i =
      Keeps-IsSilent s (send_socket_data tcp k written s).1 (send_socket_data-Keeps k written s) i
  step-IsSilent (data_for_all written) s i =
      Keeps-IsSilent s (send_to_all tcp written s.sessions s)
        (send_to_all-Keeps written s.sessions s) i
  step-IsSilent service_runs s i = rw (run_posted-silent s i.0) i

  step-IsStale :
      (k : E) (e : Event E) (s : SocketServer E)
      → IsSilent s
      → NotFrom k e
      → IsStale k s
      → IsStale k (step tcp e s)
  unfolding step
  step-IsStale k (connection failed j accepted) s i n h = find-accept_ne failed j accepted s k n ∙ h
  step-IsStale k (read_fails j) s i n h = (read_failed-Keeps j s).2 k h
  step-IsStale k (data_for j written) s i n h = (send_socket_data-Keeps j written s).2 k h
  step-IsStale k (data_for_all written) s i n h = (send_to_all-Keeps written s.sessions s).2 k h
  step-IsStale k service_runs s i n h = rw (run_posted-silent s i.0) h

  run_events_from-IsSilent :
      (es : List (Event E)) (s : SocketServer E) → IsSilent s → IsSilent (run_events tcp es s)
  unfolding run_events
  run_events_from-IsSilent [] s i = i
  run_events_from-IsSilent (e ∷ es) s i =
      run_events_from-IsSilent es (step tcp e s) (step-IsSilent e s i)

  run_events_from-IsStale :
      (k : E) (es : List (Event E)) (s : SocketServer E)
      → IsSilent s
      → All (NotFrom k) es
      → IsStale k s
      → IsStale k (run_events tcp es s)
  unfolding run_events
  run_events_from-IsStale k [] s i a h = h
  run_events_from-IsStale k (e ∷ es) s i a h =
      run_events_from-IsStale k es (step tcp e s) (step-IsSilent e s i) a.1
        (step-IsStale k e s i a.0 h)

  found-not_empty :
      (k : E) (c : Session) (t : List (E × Session)) → find k t ≡ some c → not (is_empty t) ≡ true
  unfolding find
  found-not_empty k c [] h = absurd (cc)
  found-not_empty k c (x ∷ t) h = refl

  has_connected_clients-found :
      (k : E) (c : Session) (s : SocketServer E)
      → find k s.sessions ≡ some c
      → has_connected_clients s ≡ true
  unfolding has_connected_clients find
  has_connected_clients-found k c s h = found-not_empty k c s.sessions h

  -- Whatever the events on a TCP server that started without sessions, no removal is posted and the
  -- callback is not told of any closed session.
  run_events_tcp-silent :
      (es : List (Event E))
      → let s : SocketServer E = run_events tcp es new_server in
        (s.posted ≡ []) × (s.closed_notices ≡ [])
  run_events_tcp-silent es = run_events_from-IsSilent es new_server (refl, refl)

  -- On a TCP server that started without sessions, a closed session stays in the table through any
  -- further events without a connection from its endpoint, and the server says that it has clients.
  run_events_tcp-stale :
      (k : E) (es es' : List (Event E))
      → let s : SocketServer E = run_events tcp es new_server in
        let s' : SocketServer E = run_events tcp es' s in
        find k s.sessions ≡ some (record { is_open = false })
        → All (NotFrom k) es'
        → (find k s'.sessions ≡ some (record { is_open = false }))
          × (has_connected_clients s' ≡ true)
  run_events_tcp-stale k es es' h a =
      let s : SocketServer E = run_events tcp es new_server in
      let stays = run_events_from-IsStale k es' s (run_events_tcp-silent es) a h in
      (
        stays,
        has_connected_clients-found k (record { is_open = false }) (run_events tcp es' s) stays,
      )
