-- ===== src/FastMap.antt =====
-- src/lib/common/include/common/unordered_fast_map.hpp: a map as two vectors side by side. An iterator
-- is a position in both. The const overload of `find` calls itself, and is not modelled.
pub mod Entries
pub mod Calls
mod Tests
use moboware.Base.{
  ℕ, zero, suc, ◌+◌, Bool, true, false, Option, none, some, List, [], ◌∷◌, ◌++◌, HasEq, ◌==◌,
  length, is_empty, get_elem?, if◌then◌else◌,
}

pub record FastMap {ℓ κ} (K : Type ℓ) (V : Type κ) : Type (ℓ ⊔ κ) where
  pub keys : List K
  pub values : List V

module _ {ℓ κ} {K : Type ℓ} {V : Type κ} where
  -- A new map; the constructor's size only reserves memory.
  unfoldable pub new_map : FastMap K V
  new_map = record { keys = []; values = [] }

  -- `insert`: the pair goes to the end, also where the key is there.
  unfoldable pub insert : K × V → FastMap K V → (ℕ × Bool) × FastMap K V
  insert (k, v) m =
      ((length m.keys, true), record { keys = m.keys ++ (k ∷ []); values = m.values ++ (v ∷ []) })

  unfoldable pub begin : FastMap K V → ℕ
  begin m = 0

  unfoldable pub end : FastMap K V → ℕ
  end m = length m.keys

  unfoldable pub size : FastMap K V → ℕ
  size m = length m.keys

  unfoldable pub map_is_empty : FastMap K V → Bool
  map_is_empty m = is_empty m.keys

  unfoldable pub clear : FastMap K V → FastMap K V
  clear m = record { keys = []; values = [] }

  -- `first` and `second` of an iterator; `none` is an access at the end.
  unfoldable pub first : ℕ → FastMap K V → Option K
  first i m = get_elem? m.keys i

  unfoldable pub second : ℕ → FastMap K V → Option V
  second i m = get_elem? m.values i

-- `operator++(int)`: the iterator afterwards, and the result, which is the advanced one as well.
unfoldable pub post_increment : ℕ → ℕ × ℕ
post_increment i = (i + 1, i + 1)

pub find_from {ℓ} : {K : Type ℓ} ⦃keys_eq : HasEq K⦄ → K → List K → ℕ → ℕ
find_from key [] i = i
find_from key (k ∷ ks) i = let later = find_from key ks (i + 1) in if k == key then i else later

module _ {ℓ κ} {K : Type ℓ} {V : Type κ} ⦃keys_eq : HasEq K⦄ where
  -- `find`: the first position of the key, or the end.
  unfoldable pub find : K → FastMap K V → ℕ
  unfolding find_from
  find key m = find_from key m.keys 0

  -- The loop of `erase`, over both vectors; the position is that of the element behind the erased one.
  pub erase_from : K → List K → List V → ℕ → ℕ × List K × List V
  erase_from key [] vs i = (i, [], vs)
  erase_from key (k ∷ ks) [] i = (i, k ∷ ks, [])
  erase_from key (k ∷ ks) (v ∷ vs) i =
      let (at, ks', vs') = erase_from key ks vs (i + 1) in
      if k == key then (i, ks, vs) else (at, k ∷ ks', v ∷ vs')

  unfoldable pub erase : K → FastMap K V → ℕ × FastMap K V
  unfolding erase_from
  erase key m =
      let (at, ks, vs) = erase_from key m.keys m.values 0 in (at, record { keys = ks; values = vs })

  -- `erase` of an iterator erases the first entry of its key; `none` is an access at the end.
  unfoldable pub erase_at : ℕ → FastMap K V → Option (ℕ × FastMap K V)
  unfolding first erase
  erase_at i m = elim (first i m) [ none ↦ none | some key ↦ some (erase key m) ]
