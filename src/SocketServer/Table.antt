-- ===== src/SocketServer/Table.antt =====
-- The `std::map` from endpoints to sessions, without its order.
use moboware.Base.{
  ◌⊎◌, Bool, true, false, Option, none, some, List, [], ◌∷◌, HasEq, ◌==◌, ◌≡◌, ◌≢◌, refl,
  if◌then◌else◌, Bool-cases, inl, inr, subst, sym, ◌∙◌,
}

module _ {K : Type 0} ⦃keys : HasEq K⦄ where
  pub other_key : (k j i : K) → k ≢ j → (i == k) ≡ true → (i == j) ≡ false
  other_key k j i n at_k = elim (Bool-cases (i == j)) [
    | inl at_j ↦ absurd (n (sym ((keys.same_iff i k).0 at_k) ∙ (keys.same_iff i j).0 at_j))
    | inr off_j ↦ off_j
  ]

  pub key_cases : (k j : K) → (k ≡ j) ⊎ (k ≢ j)
  key_cases k j = elim (Bool-cases (k == j)) [
    | inl same ↦ inl ((keys.same_iff k j).0 same)
    | inr other ↦ inr (λ e. let s : (k == j) ≡ true = (keys.same_iff k j).1 e in cc)
  ]

module _ {K V : Type 0} ⦃keys : HasEq K⦄ where
  unfoldable pub find : K → List (K × V) → Option V
  find k [] = none
  find k ((j, v) ∷ t) = if j == k then some v else find k t

  -- Whether the entry is new; an entry that is there stays.
  unfoldable pub emplace : K → V → List (K × V) → Bool × List (K × V)
  unfolding find
  emplace k v t = elim (find k t) [ none ↦ (true, (k, v) ∷ t) | some w ↦ (false, t) ]

  unfoldable pub erase : K → List (K × V) → List (K × V)
  erase k [] = []
  erase k ((j, v) ∷ t) = let rest = erase k t in if j == k then t else (j, v) ∷ rest

  -- The keys are distinct, as in a map.
  abbrev pub IsMap : List (K × V) → Type 0
  IsMap [] = Unit
  IsMap ((k, v) ∷ t) = (find k t ≡ none) × IsMap t

  pub find-erase_self : (k : K) (t : List (K × V)) → IsMap t → find k (erase k t) ≡ none
  unfolding find erase
  find-erase_self k [] m = refl
  find-erase_self k ((j, v) ∷ t) m = elim (Bool-cases (j == k)) [
    | inl same ↦
        let e : j ≡ k = (keys.same_iff j k).0 same in rw same (subst (λ i. find i t ≡ none) e m.0)
    | inr other ↦ rw (other, other) (find-erase_self k t m.1)
  ]

  pub find-erase_ne : (k j : K) (t : List (K × V)) → k ≢ j → find j (erase k t) ≡ find j t
  unfolding find erase
  find-erase_ne k j [] n = refl
  find-erase_ne k j ((i, v) ∷ t) n = elim (Bool-cases (i == k)) [
    | inl at_k ↦ rw at_k (rw (other_key k j i n at_k) refl)
    | inr off_k ↦ elim (Bool-cases (i == j)) [
      | inl at_j ↦ rw (off_k, at_j) refl
      | inr off_j ↦ rw (off_k, off_j) (find-erase_ne k j t n)
    ]
  ]

  pub erase-IsMap : (k : K) (t : List (K × V)) → IsMap t → IsMap (erase k t)
  unfolding erase find
  erase-IsMap k [] m = tt
  erase-IsMap k ((j, v) ∷ t) m = elim (Bool-cases (j == k)) [
    | inl same ↦ rw same m.1
    | inr other ↦
        let n : k ≢ j = λ e. let s : (j == k) ≡ true = (keys.same_iff j k).1 (sym e) in cc in
        rw other (find-erase_ne k j t n ∙ m.0, erase-IsMap k t m.1)
  ]

  pub find-emplace :
      (k : K) (v : V) (t : List (K × V)) → find k t ≡ none → emplace k v t ≡ (true, (k, v) ∷ t)
  unfolding emplace
  find-emplace k v t e = rw (e, emplace) refl

  pub emplace_taken :
      (k : K) (v w : V) (t : List (K × V)) → find k t ≡ some w → emplace k v t ≡ (false, t)
  unfolding emplace
  emplace_taken k v w t e = rw (e, emplace) refl
