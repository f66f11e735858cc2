-- ===== src/WebSocketServer/Sessions.antt =====
-- What holds of every session of a server.
use moboware.Base.{
  ℕ, true, false, some, List, [], ◌∷◌, ◌++◌, HasEq, ◌==◌, ◌≡◌, refl, subst, Bool-cases,
  Option-cases, inl, inr, zero, suc, ◌⊎◌,
}
use moboware.SocketServer.Table.{find, erase}
use moboware.WebSocketServer.{
  WebSocketSession, in_handshake, ended, reading, is_open, check_closed_sessions, set_session,
  WebSocketServer, with_session,
}

-- A predicate of every session of a table.
abbrev pub AllAre :
    {E : Type 0} → (WebSocketSession → Type 0) → List (E × WebSocketSession) → Type 0
AllAre P [] = Unit
AllAre P ((e, w) ∷ table) = P w × AllAre P table

-- A session whose stream is open as long as it reads.
abbrev pub IsSound : WebSocketSession → Type 0
IsSound in_handshake = Unit
IsSound ended = Unit
IsSound (reading healthy) = healthy ≡ true

-- A session with an operation that is pending.
abbrev pub IsWaiting : WebSocketSession → Type 0
IsWaiting in_handshake = Unit
IsWaiting ended = ⊥
IsWaiting (reading healthy) = Unit

-- Sessions of which none reads.
abbrev pub NoneReads : List WebSocketSession → Type 0
NoneReads [] = Unit
NoneReads (in_handshake ∷ rest) = NoneReads rest
NoneReads (ended ∷ rest) = NoneReads rest
NoneReads (reading healthy ∷ rest) = ⊥

pub append-NoneReads :
    (xs ys : List WebSocketSession) → NoneReads xs → NoneReads ys → NoneReads (xs ++ ys)
append-NoneReads [] ys p q = q
append-NoneReads (in_handshake ∷ xs) ys p q = append-NoneReads xs ys p q
append-NoneReads (ended ∷ xs) ys p q = append-NoneReads xs ys p q
append-NoneReads (reading healthy ∷ xs) ys p q = absurd p

pub zero_or_suc : (n : ℕ) → (n ≡ 0) ⊎ ((m : ℕ) × (n ≡ suc m))
zero_or_suc zero = inl refl
zero_or_suc (suc m) = inr (m, refl)

module _ {E : Type 0} where
  pub check_closed_sessions-AllAre :
      (P : WebSocketSession → Type 0) (table : List (E × WebSocketSession))
      → AllAre P table
      → AllAre P (check_closed_sessions table).1
  unfolding check_closed_sessions
  check_closed_sessions-AllAre P [] all = tt
  check_closed_sessions-AllAre P ((e, w) ∷ table) all =
      let rest = check_closed_sessions-AllAre P table all.1 in
      elim (Bool-cases (is_open w)) [ inl o ↦ rw o (all.0, rest) | inr c ↦ rw c rest ]

  -- Every session that is left reads.
  pub check_closed_sessions-IsWaiting :
      (table : List (E × WebSocketSession)) → AllAre IsWaiting (check_closed_sessions table).1
  unfolding check_closed_sessions is_open
  check_closed_sessions-IsWaiting [] = tt
  check_closed_sessions-IsWaiting ((e, in_handshake) ∷ table) =
      check_closed_sessions-IsWaiting table
  check_closed_sessions-IsWaiting ((e, ended) ∷ table) = check_closed_sessions-IsWaiting table
  check_closed_sessions-IsWaiting ((e, reading true) ∷ table) =
      (tt, check_closed_sessions-IsWaiting table)
  check_closed_sessions-IsWaiting ((e, reading false) ∷ table) =
      check_closed_sessions-IsWaiting table

  -- Of sound sessions none is destroyed while it reads.
  pub check_closed_sessions-NoneReads :
      (table : List (E × WebSocketSession))
      → AllAre IsSound table
      → NoneReads (check_closed_sessions table).2
  unfolding check_closed_sessions is_open
  check_closed_sessions-NoneReads [] all = tt
  check_closed_sessions-NoneReads ((e, in_handshake) ∷ table) all =
      check_closed_sessions-NoneReads table all.1
  check_closed_sessions-NoneReads ((e, ended) ∷ table) all =
      check_closed_sessions-NoneReads table all.1
  check_closed_sessions-NoneReads ((e, reading healthy) ∷ table) all =
      rw all.0 (check_closed_sessions-NoneReads table all.1)

module _ {E : Type 0} ⦃keys : HasEq E⦄ where
  pub erase-AllAre :
      (P : WebSocketSession → Type 0) (k : E) (table : List (E × WebSocketSession))
      → AllAre P table
      → AllAre P (erase k table)
  unfolding erase
  erase-AllAre P k [] all = tt
  erase-AllAre P k ((e, w) ∷ table) all = elim (Bool-cases (e == k)) [
    | inl same ↦ rw same all.1
    | inr other ↦ rw other (all.0, erase-AllAre P k table all.1)
  ]

  pub set_session-AllAre :
      (P : WebSocketSession → Type 0) (k : E) (v : WebSocketSession)
      (table : List (E × WebSocketSession))
      → P v
      → AllAre P table
      → AllAre P (set_session k v table)
  unfolding set_session
  set_session-AllAre P k v [] p all = tt
  set_session-AllAre P k v ((e, w) ∷ table) p all = elim (Bool-cases (e == k)) [
    | inl same ↦ rw same (p, all.1)
    | inr other ↦ rw other (all.0, set_session-AllAre P k v table p all.1)
  ]

  pub find-AllAre :
      (P : WebSocketSession → Type 0) (k : E) (w : WebSocketSession)
      (table : List (E × WebSocketSession))
      → find k table ≡ some w
      → AllAre P table
      → P w
  unfolding find
  find-AllAre P k w [] found all = cc
  find-AllAre P k w ((e, v) ∷ table) found all = elim (Bool-cases (e == k)) [
    | inl same ↦
        let here : some v ≡ some w = rw same at found in let it : v ≡ w = cc in subst P it all.0
    | inr other ↦
        let deeper : find k table ≡ some w = rw other at found in
        find-AllAre P k w table deeper all.1
  ]

  -- What a handler keeps of every session, it keeps of the session that it runs for.
  pub with_session_keeps :
      (P : WebSocketServer E → Type 0)
      (f : WebSocketSession → WebSocketServer E → WebSocketServer E) (k : E) (s : WebSocketServer E)
      → ((w : WebSocketSession) → P (f w s))
      → P s
      → P (with_session f k s)
  unfolding with_session
  with_session_keeps P f k s all p = elim (Option-cases (find k s.sessions)) [
    | inl absent ↦ rw (absent, with_session) p
    | inr (w, found) ↦ rw (found, with_session) (all w)
  ]
