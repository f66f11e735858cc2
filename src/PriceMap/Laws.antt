-- ===== src/PriceMap/Laws.antt =====
-- The laws of the sorted map: its order is kept, and how a lookup follows each operation.
use moboware.Base.{
  ℕ, ◌<◌, ◌≡◌, refl, true, false, none, some, List, [], ◌∷◌, arith, nat_beq, if◌then◌else◌,
  Bool-cases, inl, inr,
}
use moboware.PriceMap.{
  Side, bid, ask, compare_price, find, assign, emplace, erase, Behind, IsSorted,
}

-- `j` stands strictly behind `k`.
abbrev pub Before : Side → ℕ → ℕ → Type 0
Before bid k j = j < k
Before ask k j = k < j

module _ {ℓ} {V : Type ℓ} where
  pub Behind-trans :
      (s : Side) (k j : ℕ) (m : List (ℕ × V)) → Before s k j → Behind s j m → Behind s k m
  Behind-trans s k j [] h b = tt
  Behind-trans bid k j ((i, w) ∷ m) h b = (omega arith, Behind-trans bid k j m h b.1)
  Behind-trans ask k j ((i, w) ∷ m) h b = (omega arith, Behind-trans ask k j m h b.1)

  -- A key in front of all others is not there.
  pub find-Behind : (s : Side) (k : ℕ) (m : List (ℕ × V)) → Behind s k m → find k m ≡ none
  unfolding find
  find-Behind s k [] b = refl
  find-Behind bid k ((j, w) ∷ m) b = ground (arith, find-Behind bid k m b.1)
  find-Behind ask k ((j, w) ∷ m) b = ground (arith, find-Behind ask k m b.1)

  pub Behind-assign :
      (s : Side) (i k : ℕ) (v : V) (m : List (ℕ × V)) → Behind s i m → Behind s i (assign k v m)
  unfolding assign
  Behind-assign s i k v [] b = tt
  Behind-assign bid i k v ((j, w) ∷ m) b = ground (arith, Behind-assign bid i k v m b.1)
  Behind-assign ask i k v ((j, w) ∷ m) b = ground (arith, Behind-assign ask i k v m b.1)

  pub assign-IsSorted :
      (s : Side) (k : ℕ) (v : V) (m : List (ℕ × V)) → IsSorted s m → IsSorted s (assign k v m)
  unfolding assign
  assign-IsSorted s k v [] h = tt
  assign-IsSorted s k v ((j, w) ∷ m) h =
      ground (arith, assign-IsSorted s k v m h.1, Behind-assign s j k v m h.0)

  pub Behind-erase : (s : Side) (i k : ℕ) (m : List (ℕ × V)) → Behind s i m → Behind s i (erase k m)
  unfolding erase
  Behind-erase s i k [] b = tt
  Behind-erase bid i k ((j, w) ∷ m) b = ground (arith, Behind-erase bid i k m b.1)
  Behind-erase ask i k ((j, w) ∷ m) b = ground (arith, Behind-erase ask i k m b.1)

  pub erase-IsSorted : (s : Side) (k : ℕ) (m : List (ℕ × V)) → IsSorted s m → IsSorted s (erase k m)
  unfolding erase
  erase-IsSorted s k [] h = tt
  erase-IsSorted s k ((j, w) ∷ m) h =
      ground (arith, erase-IsSorted s k m h.1, Behind-erase s j k m h.0)

  pub Behind-emplace :
      (s : Side) (i k : ℕ) (v : V) (m : List (ℕ × V))
      → Before s i k
      → Behind s i m
      → Behind s i (emplace s k v m).1
  unfolding emplace
  Behind-emplace bid i k v [] h b = (h, tt)
  Behind-emplace ask i k v [] h b = (h, tt)
  Behind-emplace bid i k v ((j, w) ∷ m) h b = ground (arith, Behind-emplace bid i k v m h b.1)
  Behind-emplace ask i k v ((j, w) ∷ m) h b = ground (arith, Behind-emplace ask i k v m h b.1)

  pub emplace-IsSorted :
      (s : Side) (k : ℕ) (v : V) (m : List (ℕ × V)) → IsSorted s m → IsSorted s (emplace s k v m).1
  unfolding emplace
  emplace-IsSorted s k v [] h = (tt, tt)
  emplace-IsSorted bid k v ((j, w) ∷ m) h =
      ground
        (arith, emplace-IsSorted bid k v m h.1, Behind-emplace bid j k v m, Behind-trans bid k j m)
  emplace-IsSorted ask k v ((j, w) ∷ m) h =
      ground
        (arith, emplace-IsSorted ask k v m h.1, Behind-emplace ask j k v m, Behind-trans ask k j m)

  pub find-assign :
      (k j : ℕ) (v w : V) (m : List (ℕ × V))
      → find k m ≡ some w
      → find j (assign k v m) ≡ (if nat_beq k j then some v else find j m)
  unfolding find assign
  find-assign k j v w [] e = cc
  find-assign k j v w ((i, u) ∷ m) e = ground (arith, find-assign k j v w m)

  pub find-erase :
      (s : Side) (k j : ℕ) (m : List (ℕ × V))
      → IsSorted s m
      → find j (erase k m) ≡ (if nat_beq k j then none else find j m)
  unfolding find erase
  find-erase s k j [] h = ground arith
  find-erase s k j ((i, u) ∷ m) h = ground (arith, find-erase s k j m h.1, find-Behind s i m h.0)

  -- A new key is found with its value, and the others as before; a key that is there keeps its value.
  pub find-emplace :
      (s : Side) (k j : ℕ) (v : V) (m : List (ℕ × V))
      → IsSorted s m
      → find k m ≡ none
      → find j (emplace s k v m).1 ≡ (if nat_beq k j then some v else find j m)
  unfolding find emplace
  find-emplace s k j v [] h n = refl
  find-emplace bid k j v ((i, u) ∷ m) h n =
      ground (arith, find-emplace bid k j v m h.1, find-Behind bid i m h.0)
  find-emplace ask k j v ((i, u) ∷ m) h n =
      ground (arith, find-emplace ask k j v m h.1, find-Behind ask i m h.0)

  pub emplace_absent :
      (s : Side) (k : ℕ) (v : V) (m : List (ℕ × V)) → find k m ≡ none → (emplace s k v m).0 ≡ true
  unfolding find emplace
  emplace_absent s k v [] e = refl
  emplace_absent s k v ((i, u) ∷ m) e = ground (arith, emplace_absent s k v m)

pub emplace_present :
    {V : Type 0} (s : Side) (k : ℕ) (v w : V) (m : List (ℕ × V))
    → IsSorted s m
    → find k m ≡ some w
    → emplace s k v m ≡ (false, m)
unfolding find emplace
emplace_present s k v w [] h e = cc
emplace_present bid k v w ((i, u) ∷ m) h e =
    ground (arith, emplace_present bid k v w m h.1, find-Behind bid k m, Behind-trans bid k i m)
emplace_present ask k v w ((i, u) ∷ m) h e =
    ground (arith, emplace_present ask k v w m h.1, find-Behind ask k m, Behind-trans ask k i m)

pub Behind-parts {ℓ} :
    {V : Type ℓ} (s : Side) (k j : ℕ) (w : V) (m : List (ℕ × V))
    → Behind s k ((j, w) ∷ m)
    → Before s k j × Behind s k m
Behind-parts bid k j w m h = h
Behind-parts ask k j w m h = h

pub compare_price-Before : (s : Side) (k j : ℕ) → Before s k j → compare_price s k j ≡ true
compare_price-Before bid k j h = ground arith
compare_price-Before ask k j h = ground arith

pub compare_price_behind : (s : Side) (k j : ℕ) → Before s k j → compare_price s j k ≡ false
compare_price_behind bid k j h = ground arith
compare_price_behind ask k j h = ground arith

pub compare_price_self : (s : Side) (k : ℕ) → compare_price s k k ≡ false
compare_price_self bid k = ground arith
compare_price_self ask k = ground arith

pub Before-of_compare : (s : Side) (k j : ℕ) → compare_price s k j ≡ true → Before s k j
Before-of_compare bid k j h = ground arith
Before-of_compare ask k j h = ground arith

-- A key that is found behind `k` stands strictly behind it.
pub Before-of_find {ℓ} :
    {V : Type ℓ} (s : Side) (k j : ℕ) (w : V) (m : List (ℕ × V))
    → Behind s k m
    → find j m ≡ some w
    → Before s k j
unfolding find
Before-of_find s k j w [] b e = absurd (cc)
Before-of_find bid k j w ((i, u) ∷ m) b e = elim (Bool-cases (nat_beq i j)) [
  | inl t ↦ ground arith
  | inr f ↦ Before-of_find bid k j w m b.1 (rw f at e)
]
Before-of_find ask k j w ((i, u) ∷ m) b e = elim (Bool-cases (nat_beq i j)) [
  | inl t ↦ ground arith
  | inr f ↦ Before-of_find ask k j w m b.1 (rw f at e)
]

pub Before-ne : (s : Side) (k j : ℕ) → Before s k j → nat_beq j k ≡ false
Before-ne bid k j h = ground arith
Before-ne ask k j h = ground arith

-- A write to one entry and the emplacing of another price do not see one another.
pub assign-emplace :
    {V : Type 0} (s : Side) (k n : ℕ) (v w : V) (m : List (ℕ × V))
    → nat_beq k n ≡ false
    → assign k v (emplace s n w m).1 ≡ (emplace s n w (assign k v m)).1
unfolding assign emplace
assign-emplace s k n v w [] h = ground arith
assign-emplace s k n v w ((i, u) ∷ m) h = ground (arith, assign-emplace s k n v w m h)
