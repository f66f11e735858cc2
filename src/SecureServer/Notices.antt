-- ===== src/SecureServer/Notices.antt =====
-- The notices of `OnSessionClosed` that a client's close causes.
use moboware.Base.{
  true, false, some, List, [], ◌∷◌, ◌++◌, HasEq, ◌≡◌, refl, sym, ◌∙◌, ap, length, append_assoc,
  append-nil,
}
use moboware.SocketServer.{
  SocketServer, Session, session_closed_handler, run_service, run_posted, remove_session,
  check_closed_sessions, without_closed,
}
use moboware.SocketServer.Table.{find}
use moboware.SecureServer.{
  close_frame, frame_arrives, read_ends, stream_fails, handle_control, end_read, for_session,
  secure_step, run_secure,
}

module _ {E : Type 0} ⦃keys : HasEq E⦄ where
  -- Each removal that is posted gives a notice, whether it finds its session or not.
  run_service-notices :
      (p : List E) (t : List (E × Session)) (n : List E)
      → let s : SocketServer E =
          run_service (length p) (record { sessions = t; posted = p; closed_notices = n }) in
        s.closed_notices ≡ n ++ p
  unfolding run_service run_posted remove_session check_closed_sessions
  run_service-notices [] t n = sym (append-nil n)
  run_service-notices (k ∷ p) t n =
      run_service-notices p (without_closed k t) (n ++ (k ∷ [])) ∙ append_assoc n (k ∷ []) p

  for_session_found :
      (f : SocketServer E → SocketServer E) (k : E) (c : Session) (s : SocketServer E)
      → find k s.sessions ≡ some c
      → for_session f k s ≡ f s
  unfolding for_session
  for_session_found f k c s found = rw (found, for_session) refl

  posted_twice :
      (k : E) (c : Session) (s : SocketServer E)
      → find k s.sessions ≡ some c
      → (run_secure (frame_arrives close_frame false k ∷ read_ends true k ∷ []) s).posted
        ≡ s.posted ++ (k ∷ (k ∷ []))
  unfolding run_secure secure_step handle_control end_read session_closed_handler stream_fails
  posted_twice k c s found =
      let s1 : SocketServer E = record s { posted = s.posted ++ (k ∷ []) } in
      rw
        (
          for_session_found (handle_control close_frame false k) k c s found,
          for_session_found (end_read true k) k c s1 found,
        )
        (append_assoc s.posted (k ∷ []) (k ∷ []))

  closed_before :
      (k : E) (c : Session) (s : SocketServer E)
      → find k s.sessions ≡ some c
      → (run_secure (frame_arrives close_frame false k ∷ read_ends true k ∷ []) s).closed_notices
        ≡ s.closed_notices
  unfolding run_secure secure_step handle_control end_read session_closed_handler stream_fails
  closed_before k c s found =
      let s1 : SocketServer E = record s { posted = s.posted ++ (k ∷ []) } in
      rw
        (
          for_session_found (handle_control close_frame false k) k c s found,
          for_session_found (end_read true k) k c s1 found,
        )
        refl

  -- A client that closes its connection: its close frame arrives, and then the read of its session ends. Once
  -- the service has run what is posted, the callback has had two notices that this client's session was
  -- closed, after those that were due before.
  pub run_secure-closed_notices :
      (k : E) (c : Session) (s : SocketServer E)
      → find k s.sessions ≡ some c
      → let closed : SocketServer E =
          run_secure (frame_arrives close_frame false k ∷ read_ends true k ∷ []) s in
        (run_service (length closed.posted) closed).closed_notices
        ≡ (s.closed_notices ++ s.posted) ++ (k ∷ (k ∷ []))
  run_secure-closed_notices k c s found =
      let closed : SocketServer E =
        run_secure (frame_arrives close_frame false k ∷ read_ends true k ∷ []) s in
      run_service-notices closed.posted closed.sessions closed.closed_notices
      ∙ ap (λ n. n ++ closed.posted) (closed_before k c s found)
      ∙ ap (λ p. s.closed_notices ++ p) (posted_twice k c s found)
      ∙ sym (append_assoc s.closed_notices s.posted (k ∷ (k ∷ [])))
