-- ===== src/SocketServer/Sessions.antt =====
-- Which sessions of a server are closed and not removed: the tables after each operation of the server.
pub use moboware.SocketServer.Table.{IsMap}
use moboware.Base.{
  Bool, true, false, none, some, List, [], ◌∷◌, ◌++◌, HasEq, ◌==◌, ◌||◌, ◌≡◌, ◌≢◌, refl, sym, ◌∙◌,
  Bool-cases, Option-cases, inl, inr, subst,
}
use moboware.SocketServer.{Session, close_socket, without_closed}
use moboware.SocketServer.Table.{
  find, erase, key_cases, other_key, find-erase_self, find-erase_ne, erase-IsMap,
}

module _ {E : Type 0} ⦃keys : HasEq E⦄ where
  unfoldable pub occurs : E → List E → Bool
  occurs e [] = false
  occurs e (x ∷ xs) = (x == e) || occurs e xs

  pub occurs-append_left :
      (e : E) (xs ys : List E) → occurs e xs ≡ true → occurs e (xs ++ ys) ≡ true
  unfolding occurs
  occurs-append_left e [] ys h = cc
  occurs-append_left e (x ∷ xs) ys h = elim (Bool-cases (x == e)) [
    | inl same ↦ rw same refl
    | inr other ↦ rw other (occurs-append_left e xs ys (rw other at h))
  ]

  pub occurs-append_self : (e : E) (xs : List E) → occurs e (xs ++ (e ∷ [])) ≡ true
  unfolding occurs
  occurs-append_self e [] = rw ((keys.same_iff e e).1 refl) refl
  occurs-append_self e (x ∷ xs) = elim (Bool-cases (x == e)) [
    | inl same ↦ rw same refl
    | inr other ↦ rw other (occurs-append_self e xs)
  ]

  occurs_ne : (x e : E) (xs : List E) → x ≢ e → occurs e (x ∷ xs) ≡ true → occurs e xs ≡ true
  unfolding occurs
  occurs_ne x e xs n h = elim (Bool-cases (x == e)) [
    | inl same ↦ absurd (n ((keys.same_iff x e).0 same))
    | inr other ↦ (rw other at h)
  ]

  -- The removal of every closed session of the table is posted.
  abbrev pub IsTended : List (E × Session) → List E → Type 0
  IsTended table posted =
      IsMap table
      × ((e : E) (c : Session) → find e table ≡ some c → c.is_open ≡ false → occurs e posted ≡ true)

  pub find-close_socket_ne :
      (k j : E) (t : List (E × Session)) → k ≢ j → find j (close_socket k t) ≡ find j t
  unfolding find close_socket
  find-close_socket_ne k j [] n = refl
  find-close_socket_ne k j ((e, c) ∷ t) n = elim (Bool-cases (e == k)) [
    | inl at_k ↦ rw at_k (rw (other_key k j e n at_k) refl)
    | inr off_k ↦ elim (Bool-cases (e == j)) [
      | inl at_j ↦ rw (off_k, at_j) refl
      | inr off_j ↦ rw (off_k, off_j) (find-close_socket_ne k j t n)
    ]
  ]

  pub close_socket-IsMap : (k : E) (t : List (E × Session)) → IsMap t → IsMap (close_socket k t)
  unfolding find close_socket
  close_socket-IsMap k [] m = tt
  close_socket-IsMap k ((e, c) ∷ t) m = elim (Bool-cases (e == k)) [
    | inl same ↦ rw same m
    | inr other ↦
        let n : k ≢ e = λ q. let s : (e == k) ≡ true = (keys.same_iff e k).1 (sym q) in cc in
        rw other (find-close_socket_ne k e t n ∙ m.0, close_socket-IsMap k t m.1)
  ]

  pub emplace-IsTended :
      (k : E) (t : List (E × Session)) (p : List E)
      → find k t ≡ none
      → IsTended t p
      → IsTended ((k, record { is_open = true }) ∷ t) p
  unfolding find
  emplace-IsTended k t p free i = (
    (free, i.0),
    λ e c at_e closed. elim (Bool-cases (k == e)) [
      | inl same ↦
          let q : some (record { is_open = true }) ≡ some c = rw same at at_e in absurd (cc)
      | inr other ↦ i.1 e c (rw other at at_e) closed
    ],
  )

  pub erase-IsTended :
      (k : E) (t : List (E × Session)) (p : List E) → IsTended t p → IsTended (erase k t) p
  erase-IsTended k t p i = (
    erase-IsMap k t i.0,
    λ e c at_e closed. elim (key_cases k e) [
      | inl same ↦
          let gone : find e (erase k t) ≡ none =
            subst (λ j. find j (erase k t) ≡ none) same (find-erase_self k t i.0) in
          absurd (cc)
      | inr other ↦ i.1 e c (sym (find-erase_ne k e t other) ∙ at_e) closed
    ],
  )

  pub close_socket-IsTended :
      (k : E) (t : List (E × Session)) (p : List E)
      → IsTended t p
      → IsTended (close_socket k t) (p ++ (k ∷ []))
  close_socket-IsTended k t p i = (
    close_socket-IsMap k t i.0,
    λ e c at_e closed. elim (key_cases k e) [
      | inl same ↦ subst (λ j. occurs j (p ++ (k ∷ [])) ≡ true) same (occurs-append_self k p)
      | inr other ↦
          occurs-append_left e p (k ∷ [])
            (i.1 e c (sym (find-close_socket_ne k e t other) ∙ at_e) closed)
    ],
  )

  without_closed_absent :
      (k : E) (t : List (E × Session)) → find k t ≡ none → without_closed k t ≡ t
  unfolding without_closed
  without_closed_absent k t h = rw (h, without_closed)

  without_closed_open :
      (k : E) (t : List (E × Session)) (c : Session)
      → find k t ≡ some c
      → c.is_open ≡ true
      → without_closed k t ≡ t
  unfolding without_closed
  without_closed_open k t c h o = rw (h, without_closed) (rw o)

  without_closed_closed :
      (k : E) (t : List (E × Session)) (c : Session)
      → find k t ≡ some c
      → c.is_open ≡ false
      → without_closed k t ≡ erase k t
  unfolding without_closed
  without_closed_closed k t c h o = rw (h, without_closed) (rw o)

  -- A posted removal is not needed while its endpoint has no closed session.
  drop_posted :
      (k : E) (t : List (E × Session)) (p : List E)
      → IsTended t (k ∷ p)
      → ((c : Session) → find k t ≡ some c → c.is_open ≡ true)
      → IsTended t p
  drop_posted k t p i none_closed = (
    i.0,
    λ e c at_e closed. elim (key_cases k e) [
      | inl same ↦
          let o : c.is_open ≡ true =
            none_closed c (subst (λ j. find j t ≡ some c) (sym same) at_e) in
          absurd (cc)
      | inr other ↦ occurs_ne k e p other (i.1 e c at_e closed)
    ],
  )

  pub without_closed-IsTended :
      (k : E) (t : List (E × Session)) (p : List E)
      → IsTended t (k ∷ p)
      → IsTended (without_closed k t) p
  without_closed-IsTended k t p i = elim (Option-cases (find k t)) [
    | inl absent ↦ rw (without_closed_absent k t absent) (drop_posted k t p i (λ c h. absurd (cc)))
    | inr (c, found) ↦ elim (Bool-cases c.is_open) [
      | inl o ↦ rw (without_closed_open k t c found o) (drop_posted k t p i (λ d h. cc))
      | inr closed ↦ rw (without_closed_closed k t c found closed) (
          drop_posted k (erase k t) p (erase-IsTended k t (k ∷ p) i)
            (λ d h. let gone : find k (erase k t) ≡ none = find-erase_self k t i.0 in absurd (cc)))
    ]
  ]
