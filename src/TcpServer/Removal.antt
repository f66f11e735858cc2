-- ===== src/TcpServer/Removal.antt =====
-- The removals that were posted, and the sessions that they find.
use moboware.Base.{
  Bool, true, false, Option, none, some, List, [], ◌∷◌, ◌++◌, HasEq, ◌==◌, ◌≡◌, ◌≢◌, refl, sym, ◌∙◌,
  subst, if◌then◌else◌, Bool-cases, inl, inr,
}
use moboware.SocketServer.Table.{
  find, erase, IsMap, find-erase_self, find-erase_ne, erase-IsMap, other_key, key_cases,
}
use moboware.SocketServer.Sessions.{occurs, occurs-append_self}
use moboware.TcpServer.{
  TcpServer, TcpSession, put_session, connection_gone, session_disconnected, send_session,
  send_to_endpoint, accept_session, run_removal, run_removals, data_written, session_accepted,
  tcp_step, run_tcp,
}

either_none :
    {A : Type 0} (b : Bool)
    → let nothing : Option A = none in (if b then nothing else nothing) ≡ nothing
either_none true = refl
either_none false = refl

module _ {E : Type 0} ⦃keys : HasEq E⦄ where
  find-put_session_ne :
      (k j : E) (w : TcpSession) (t : List (E × TcpSession))
      → k ≢ j
      → find j (put_session k w t) ≡ find j t
  unfolding find put_session
  find-put_session_ne k j w [] n = refl
  find-put_session_ne k j w ((e, c) ∷ t) n = elim (Bool-cases (e == k)) [
    | inl at_k ↦ rw at_k (rw (other_key k j e n at_k) refl)
    | inr off_k ↦ elim (Bool-cases (e == j)) [
      | inl at_j ↦ rw (off_k, at_j) refl
      | inr off_j ↦ rw (off_k, off_j) (find-put_session_ne k j w t n)
    ]
  ]

  put_session-IsMap :
      (k : E) (w : TcpSession) (t : List (E × TcpSession)) → IsMap t → IsMap (put_session k w t)
  unfolding find put_session
  put_session-IsMap k w [] m = tt
  put_session-IsMap k w ((e, c) ∷ t) m = elim (Bool-cases (e == k)) [
    | inl same ↦ rw same m
    | inr other ↦
        let n : k ≢ e = λ q. let s : (e == k) ≡ true = (keys.same_iff e k).1 (sym q) in cc in
        rw other (find-put_session_ne k e w t n ∙ m.0, put_session-IsMap k w t m.1)
  ]

  -- The sessions that the removals leave: those at the endpoints that no removal is for.
  run_removals-find :
      (p : List E) (t : List (E × TcpSession)) (j : E)
      → IsMap t
      → find j (run_removals p (record { tcp_sessions = t; removals = p })).tcp_sessions
        ≡ (if occurs j p then none else find j t)
  unfolding run_removals run_removal occurs
  run_removals-find [] t j m = refl
  run_removals-find (k ∷ p) t j m =
      let rest = run_removals-find p (erase k t) j (erase-IsMap k t m) in
      elim (key_cases k j) [
        | inl same ↦
            let here : (k == j) ≡ true = (keys.same_iff k j).1 same in
            let gone : find j (erase k t) ≡ none =
              subst (λ i. find i (erase k t) ≡ none) same (find-erase_self k t m) in
            rw here (rest ∙ (rw gone (either_none (occurs j p))))
        | inr other ↦
            let off : (k == j) ≡ false = elim (Bool-cases (k == j)) [
              | inl at_j ↦ absurd (other ((keys.same_iff k j).0 at_j))
              | inr off_j ↦ off_j
            ] in
            rw off (rest ∙ rw (find-erase_ne k j t other) refl)
      ]

  connection_gone_lem :
      (k : E) (w : TcpSession) (s : TcpServer E)
      → find k s.tcp_sessions ≡ some w
      → (send_to_endpoint connection_gone k s).1 ≡ record {
        tcp_sessions = put_session k (record w { is_connected = false }) s.tcp_sessions;
        removals = s.removals ++ (k ∷ []);
      }
  unfolding send_to_endpoint send_session session_disconnected
  connection_gone_lem k w s found = rw (found, send_to_endpoint) refl

  accept_after_gone :
      (k : E) (w : TcpSession) (s : TcpServer E)
      → find k s.tcp_sessions ≡ some w
      → run_tcp (data_written connection_gone k ∷ session_accepted false k ∷ []) s ≡ record {
        tcp_sessions =
            (k, record { is_connected = true; is_receiving = true })
            ∷ erase k (put_session k (record w { is_connected = false }) s.tcp_sessions);
        removals = s.removals ++ (k ∷ []);
      }
  unfolding run_tcp tcp_step accept_session
  accept_after_gone k w s found = rw (connection_gone_lem k w s found) refl

  -- The connection of a client is gone when data is sent to it, and the client connects again from the same
  -- endpoint before the service runs: the server has the new session; once the service has run what is
  -- posted, it has none at that endpoint, and at every endpoint that no removal is for the session that it
  -- had.
  pub run_removals_reconnected :
      (k : E) (w : TcpSession) (s : TcpServer E)
      → IsMap s.tcp_sessions
      → find k s.tcp_sessions ≡ some w
      → let s' : TcpServer E =
          run_tcp (data_written connection_gone k ∷ session_accepted false k ∷ []) s in
        let left : TcpServer E = run_removals s'.removals s' in
        (find k s'.tcp_sessions ≡ some (record { is_connected = true; is_receiving = true }))
        × (find k left.tcp_sessions ≡ none)
        × ((j : E)
            → occurs j s'.removals ≡ false
            → find j left.tcp_sessions ≡ find j s'.tcp_sessions)
  unfolding find
  run_removals_reconnected k w s m found =
      let new : TcpSession = record { is_connected = true; is_receiving = true } in
      let closed = put_session k (record w { is_connected = false }) s.tcp_sessions in
      let closed-IsMap = put_session-IsMap k (record w { is_connected = false }) s.tcp_sessions m in
      let t : List (E × TcpSession) = (k, new) ∷ erase k closed in
      let t-IsMap : IsMap t =
        (find-erase_self k closed closed-IsMap, erase-IsMap k closed closed-IsMap) in
      let p = s.removals ++ (k ∷ []) in
      let self : (k == k) ≡ true = (keys.same_iff k k).1 refl in
      rw (accept_after_gone k w s found) (
        rw self refl,
        run_removals-find p t k t-IsMap ∙ rw (occurs-append_self k s.removals) refl,
        λ j free. run_removals-find p t j t-IsMap ∙ rw free refl,
      )
