-- ===== src/SocketServer/Accepting.antt =====
-- The start of a server, and its table after a connection.
use moboware.Base.{
  ◌||◌, arith, Bool, true, false, none, some, List, [], ◌∷◌, HasEq, ◌==◌, ◌≡◌, ◌≢◌, refl, ◌∙◌, All,
  Bool-cases, Option-cases, inl, inr, ◌&&◌, not,
}
use moboware.SocketServer.{
  SocketServer, Session, accept, start, StartCall, start_from, resolve, open_acceptor,
  set_reuse_address, bind_acceptor, start_listening, accept_connections,
}
use moboware.SocketServer.Table.{
  IsMap, find, emplace, find-emplace, emplace_taken, find-erase_self, find-erase_ne,
}

module _ {E : Type 0} ⦃keys : HasEq E⦄ where
  find-cons_ne :
      (k j : E) (c : Session) (t : List (E × Session)) → k ≢ j → find j ((k, c) ∷ t) ≡ find j t
  unfolding find
  find-cons_ne k j c t n = elim (Bool-cases (k == j)) [
    | inl same ↦ absurd (n ((keys.same_iff k j).0 same))
    | inr other ↦ rw other
  ]

  pub find-accept_ne :
      (failed : Bool) (k : E) (accepted : Bool) (s : SocketServer E) (j : E)
      → k ≢ j
      → find j (accept failed k accepted s).sessions ≡ find j s.sessions
  unfolding accept
  find-accept_ne true k accepted s j n = refl
  find-accept_ne false k accepted s j n = elim (Option-cases (find k s.sessions)) [
    | inl free ↦
        let new : Session = record { is_open = true } in
        rw (find-emplace k new s.sessions free) (elim (Bool-cases accepted) [
          | inl taken ↦ rw taken (find-cons_ne k j new s.sessions n)
          | inr refused ↦
              rw refused
                (find-erase_ne k j ((k, new) ∷ s.sessions) n ∙ find-cons_ne k j new s.sessions n)
        ])
    | inr (c, found) ↦
        rw (emplace_taken k (record { is_open = true }) c s.sessions found)
          (find-erase_ne k j s.sessions n)
  ]

  -- A connection from an endpoint that has a session in the table, whether that session is open or not:
  -- the session is erased and the new one is not stored, and every other endpoint keeps its session.
  accept_taken :
      (k : E) (c : Session) (accepted : Bool) (s : SocketServer E)
      → IsMap s.sessions
      → find k s.sessions ≡ some c
      → (find k (accept false k accepted s).sessions ≡ none)
        × ((j : E) → k ≢ j → find j (accept false k accepted s).sessions ≡ find j s.sessions)
  unfolding accept
  accept_taken k c accepted s m found = (
    rw (emplace_taken k (record { is_open = true }) c s.sessions found)
        (find-erase_self k s.sessions m),
    λ j n. find-accept_ne false k accepted s j n,
  )

  pub accept-notices :
      (failed : Bool) (k : E) (accepted : Bool) (s : SocketServer E)
      → let s' : SocketServer E = accept failed k accepted s in
        (s'.posted ≡ s.posted) × (s'.closed_notices ≡ s.closed_notices)
  unfolding accept
  accept-notices true k accepted s = (refl, refl)
  accept-notices false k accepted s =
      let (inserted, table) = emplace k (record { is_open = true }) s.sessions in
      elim (Bool-cases (inserted && accepted)) [
        | inl stored ↦ rw stored (refl, refl)
        | inr dropped ↦ rw dropped (refl, refl)
      ]

start_from-stops :
    (fails : StartCall → Bool) (cs : List StartCall)
    → All (λ c. c ≢ accept_connections) cs
    → (start_from fails cs).0 ≡ false
    → All (λ c. c ≢ accept_connections) (start_from fails cs).1
unfolding start_from
start_from-stops fails [] a h = absurd (cc)
start_from-stops fails (c ∷ cs) a h = elim (Bool-cases (fails c)) [
  | inl failed ↦ rw failed (a.0, tt)
  | inr made ↦ rw made (a.0, start_from-stops fails cs a.1 (rw made at h))
]

-- `Start` succeeds exactly if none of its five calls fails; and when it does not succeed it does not
-- start to accept.
pub start_lem :
    (fails : StartCall → Bool)
    → ((start fails).0
        ≡ not (
            fails resolve
            || (fails open_acceptor
                || (fails set_reuse_address || (fails bind_acceptor || fails start_listening)))))
      × ((start fails).0 ≡ false → All (λ c. c ≢ accept_connections) (start fails).1)
unfolding start start_from
start_lem fails = (
  ground arith,
  λ h.
      start_from-stops fails
        (resolve ∷ open_acceptor ∷ set_reuse_address ∷ bind_acceptor ∷ start_listening ∷ [])
        (λ e. cc, (λ e. cc, (λ e. cc, (λ e. cc, (λ e. cc, tt))))) h,
)
