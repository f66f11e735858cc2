-- ===== src/SecureServer/Pings.antt =====
-- The ping timer finds the sessions that are no longer open.
use moboware.Base.{
  ◌⊎◌, Bool, true, false, some, List, [], ◌∷◌, ◌++◌, HasEq, ◌==◌, ◌≡◌, ◌≢◌, sym, ◌∙◌, subst, length,
  Bool-cases, inl, inr,
}
use moboware.SocketServer.{SocketServer, Session, session_closed_handler, run_service}
use moboware.SocketServer.Table.{find, key_cases, IsMap}
use moboware.SocketServer.Sessions.{
  occurs, IsTended, occurs-append_left, occurs-append_self, find-close_socket_ne,
  close_socket-IsMap,
}
use moboware.SocketServer.Removal.{run_service_lem}
use moboware.SecureServer.{stream_fails, send_control, send_ping_requests, secure_step, timer_ticks}

module _ {E : Type 0} ⦃keys : HasEq E⦄ (fails : E → Bool) where
  -- Of a session that is closed, the removal is posted, or it is still to be pinged, which fails.
  abbrev IsSought : List (E × Session) → SocketServer E → Type 0
  IsSought rest s =
      IsMap s.sessions
      × ((e : E) (c : Session)
          → find e s.sessions ≡ some c
          → c.is_open ≡ false
          → (occurs e s.posted ≡ true)
            ⊎ ((d : Session) × (find e rest ≡ some d) × (fails e ≡ true)))

  find_behind :
      (k e : E) (d c : Session) (rest : List (E × Session))
      → k ≢ e
      → find e ((k, d) ∷ rest) ≡ some c
      → find e rest ≡ some c
  unfolding find
  find_behind k e d c rest other found = elim (Bool-cases (k == e)) [
    | inl same ↦ absurd (other ((keys.same_iff k e).0 same))
    | inr differ ↦ (rw differ at found)
  ]

  send_control-IsSought :
      (k : E) (d : Session) (rest : List (E × Session)) (s : SocketServer E)
      → IsSought ((k, d) ∷ rest) s
      → IsSought rest (send_control (fails k) k s).1
  unfolding send_control stream_fails session_closed_handler
  send_control-IsSought k d rest s i = elim (Bool-cases (fails k)) [
    | inr works ↦ rw works (
      i.0,
      λ e c found closed. elim (i.1 e c found closed) [
        | inl posted ↦ inl posted
        | inr (d', listed, fails_too) ↦ elim (key_cases k e) [
          | inl same ↦
              let w : fails e ≡ false = subst (λ j. fails j ≡ false) same works in absurd (cc)
          | inr other ↦ inr (d', find_behind k e d d' rest other listed, fails_too)
        ]
      ],
    )
    | inl broken ↦ rw broken (
      close_socket-IsMap k s.sessions i.0,
      λ e c found closed. elim (key_cases k e) [
        | inl same ↦ inl (
            subst (λ j. occurs j (s.posted ++ (k ∷ [])) ≡ true) same
              (occurs-append_self k s.posted))
        | inr other ↦
            elim (i.1 e c (sym (find-close_socket_ne k e s.sessions other) ∙ found) closed) [
              | inl posted ↦ inl (occurs-append_left e s.posted (k ∷ []) posted)
              | inr (d', listed, fails_too) ↦
                  inr (d', find_behind k e d d' rest other listed, fails_too)
            ]
      ],
    )
  ]

  send_ping_requests-IsSought :
      (rest : List (E × Session)) (s : SocketServer E)
      → IsSought rest s
      → IsSought [] (send_ping_requests fails rest s)
  unfolding send_ping_requests
  send_ping_requests-IsSought [] s i = i
  send_ping_requests-IsSought ((k, d) ∷ rest) s i =
      send_ping_requests-IsSought rest (send_control (fails k) k s).1
        (send_control-IsSought k d rest s i)

  -- If a ping fails on each session of the table that is not open: after the ping timer has run, whatever
  -- happened to the server before and whichever other pings fail, and the service has then run what is
  -- posted, nothing is left to run, and each session that is left in the table is open.
  pub timer_ticks-removes :
      (s : SocketServer E)
      → IsMap s.sessions
      → ((e : E) (c : Session) → find e s.sessions ≡ some c → c.is_open ≡ false → fails e ≡ true)
      → let pinged : SocketServer E = secure_step (timer_ticks fails) s in
        let s' : SocketServer E = run_service (length pinged.posted) pinged in
        (s'.posted ≡ []) × ((e : E) (c : Session) → find e s'.sessions ≡ some c → c.is_open ≡ true)
  unfolding secure_step occurs find
  timer_ticks-removes s map dead =
      let pinged : SocketServer E = send_ping_requests fails s.sessions s in
      let sought : IsSought [] pinged =
        send_ping_requests-IsSought s.sessions s
          (map, λ e c found closed. inr (c, found, dead e c found closed)) in
      let tended : IsTended pinged.sessions pinged.posted = (
        sought.0,
        λ e c found closed. elim (sought.1 e c found closed) [
          | inl posted ↦ posted
          | inr (d, listed, fails_too) ↦ absurd (cc)
        ],
      ) in
      let left = run_service_lem pinged.posted pinged.sessions pinged.closed_notices tended in
      (
        left.1,
        λ e c found. elim (Bool-cases c.is_open) [
          | inl o ↦ o
          | inr closed ↦ let h = left.0.1 e c found closed in absurd (cc)
        ],
      )
