-- ===== src/WebSocketServer/Checks.antt =====
-- The check of the closed sessions.
use moboware.Base.{
  Option, none, some, List, [], ◌∷◌, HasEq, ◌==◌, ◌≡◌, refl, ◌∙◌, ap, length, ◌+◌, if◌then◌else◌,
  Bool-cases, inl, inr, subst, arith,
}
use moboware.SocketServer.Table.{find, IsMap}
use moboware.WebSocketServer.{WebSocketSession, is_open, check_closed_sessions}

-- A session if it is open.
unfoldable pub open_only : Option WebSocketSession → Option WebSocketSession
open_only none = none
open_only (some session) = if is_open session then some session else none

module _ {E : Type 0} ⦃keys : HasEq E⦄ where
  -- A second check finds nothing to remove.
  check_closed_sessions_again :
      (table : List (E × WebSocketSession))
      → let left = (check_closed_sessions table).1 in check_closed_sessions left ≡ (0, left, [])
  unfolding check_closed_sessions
  check_closed_sessions_again [] = refl
  check_closed_sessions_again ((e, w) ∷ table) = elim (Bool-cases (is_open w)) [
    | inl o ↦ rw (o, check_closed_sessions, o, check_closed_sessions_again table) refl
    | inr c ↦ rw c (check_closed_sessions_again table)
  ]

  check_closed_sessions-length :
      (table : List (E × WebSocketSession))
      → let checked = check_closed_sessions table in checked.0 + length checked.1 ≡ length table
  unfolding check_closed_sessions
  check_closed_sessions-length [] = refl
  check_closed_sessions-length ((e, w) ∷ table) =
      let h = check_closed_sessions-length table in
      elim (Bool-cases (is_open w)) [
        | inl o ↦ rw o (omega (arith, h))
        | inr c ↦ rw c (omega (arith, h))
      ]

  pub find_left :
      (k : E) (table : List (E × WebSocketSession))
      → IsMap table
      → find k (check_closed_sessions table).1 ≡ open_only (find k table)
  unfolding check_closed_sessions find open_only
  find_left k [] m = refl
  find_left k ((e, w) ∷ table) m =
      let h = find_left k table m.1 in
      elim (Bool-cases (is_open w)) [
        | inl o ↦ elim (Bool-cases (e == k)) [
          | inl same ↦ rw (o, same, o) refl
          | inr other ↦ rw (o, other) h
        ]
        | inr c ↦ elim (Bool-cases (e == k)) [
          | inl same ↦
              let gone : find k table ≡ none =
                subst (λ i. find i table ≡ none) ((keys.same_iff e k).0 same) m.0 in
              rw (c, same, c) (h ∙ ap open_only gone)
          | inr other ↦ rw (c, other) h
        ]
      ]

  -- A check of the sessions leaves at each endpoint the session that is there if it is open, and no session
  -- if it is not, as one that is still in its handshake is not; its result is the number of the sessions
  -- that are gone; and a second check removes nothing.
  pub check_closed_sessions-open_only :
      (k : E) (table : List (E × WebSocketSession))
      → IsMap table
      → let checked = check_closed_sessions table in
        (find k checked.1 ≡ open_only (find k table))
        × (checked.0 + length checked.1 ≡ length table)
        × (check_closed_sessions checked.1 ≡ (0, checked.1, []))
  check_closed_sessions-open_only k table m =
      (find_left k table m, check_closed_sessions-length table, check_closed_sessions_again table)
