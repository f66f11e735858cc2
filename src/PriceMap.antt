-- ===== src/PriceMap.antt =====
-- `std::map<PriceType_t, V, TCompare>` of order_book.h: the entries in the comparator's order.
-- `std::greater` sorts the bids, `std::less` the asks.
pub mod Laws
use moboware.Base.{
  ℕ, ◌<◌, Bool, true, false, Option, none, some, List, [], ◌∷◌, ltb, nat_beq, if◌then◌else◌,
}

pub data Side : Type 0 where
  bid ask : Side

-- `TCompare{}(a, b)`.
abbrev pub compare_price : Side → ℕ → ℕ → Bool
compare_price bid a b = ltb b a
compare_price ask a b = ltb a b

module _ {ℓ} {V : Type ℓ} where
  unfoldable pub find : ℕ → List (ℕ × V) → Option V
  find k [] = none
  find k ((j, w) ∷ m) = if nat_beq j k then some w else find k m

  -- The map after a write through an iterator to the entry of a key.
  unfoldable pub assign : ℕ → V → List (ℕ × V) → List (ℕ × V)
  assign k v [] = []
  assign k v ((j, w) ∷ m) = if nat_beq j k then (j, v) ∷ m else (j, w) ∷ assign k v m

  -- The flag says whether an entry was added: a key that is there keeps its value.
  unfoldable pub emplace : Side → ℕ → V → List (ℕ × V) → Bool × List (ℕ × V)
  emplace s k v [] = (true, (k, v) ∷ [])
  emplace s k v ((j, w) ∷ m) =
      let (added, rest) = emplace s k v m in
      if nat_beq j k
      then (false, (j, w) ∷ m)
      else if compare_price s k j
      then (true, (k, v) ∷ (j, w) ∷ m)
      else (added, (j, w) ∷ rest)

  -- `erase` of the entry of a key.
  unfoldable pub erase : ℕ → List (ℕ × V) → List (ℕ × V)
  erase k [] = []
  erase k ((j, w) ∷ m) = if nat_beq j k then m else (j, w) ∷ erase k m

-- Every key of the map stands behind `k`.
abbrev pub Behind {ℓ} : {V : Type ℓ} → Side → ℕ → List (ℕ × V) → Type 0
Behind s k [] = Unit
Behind bid k ((j, w) ∷ m) = (j < k) × Behind bid k m
Behind ask k ((j, w) ∷ m) = (k < j) × Behind ask k m

-- The keys stand strictly in the comparator's order.
abbrev pub IsSorted {ℓ} : {V : Type ℓ} → Side → List (ℕ × V) → Type 0
IsSorted s [] = Unit
IsSorted s ((k, v) ∷ m) = Behind s k m × IsSorted s m
