-- ===== src/FastMap/Entries.antt =====
-- The map as the list of its entries.
use moboware.Base.{
  ℕ, zero, suc, is_empty, ◌>>=◌, ◌+◌, Option, none, some, List, [], ◌∷◌, ◌++◌, HasEq, ◌==◌, length,
  get_elem?, length-append, if◌then◌else◌, Bool-cases, inl, inr, ◌≡◌, refl, ap, arith,
}
use moboware.FastMap.{FastMap, insert, find, find_from, erase, erase_from, second}

module _ {K V : Type 0} where
  -- The vectors are of one length.
  abbrev pub IsAligned : FastMap K V → Type 0
  IsAligned m = length m.keys ≡ length m.values

  unfoldable pub pairs : List K → List V → List (K × V)
  pairs [] vs = []
  pairs (k ∷ ks) [] = []
  pairs (k ∷ ks) (v ∷ vs) = (k, v) ∷ pairs ks vs

  abbrev pub entries : FastMap K V → List (K × V)
  entries m = pairs m.keys m.values

  pairs-append :
      (ks : List K) (vs : List V) (k : K) (v : V)
      → length ks ≡ length vs
      → pairs (ks ++ (k ∷ [])) (vs ++ (v ∷ [])) ≡ pairs ks vs ++ ((k, v) ∷ [])
  unfolding pairs
  pairs-append [] [] k v h = refl
  pairs-append [] (w ∷ vs) k v h = absurd (omega arith)
  pairs-append (j ∷ ks) [] k v h = absurd (omega arith)
  pairs-append (j ∷ ks) (w ∷ vs) k v h = ap (◌∷◌ (j, w)) (pairs-append ks vs k v (omega arith))

  pub length-pairs :
      (ks : List K) (vs : List V) → length ks ≡ length vs → length (pairs ks vs) ≡ length ks
  unfolding pairs
  length-pairs [] vs h = refl
  length-pairs (k ∷ ks) [] h = absurd (omega arith)
  length-pairs (k ∷ ks) (v ∷ vs) h = ap suc (length-pairs ks vs (omega arith))

  pub is_empty-pairs :
      (ks : List K) (vs : List V) → length ks ≡ length vs → is_empty (pairs ks vs) ≡ is_empty ks
  unfolding pairs
  is_empty-pairs [] vs h = refl
  is_empty-pairs (k ∷ ks) [] h = absurd (omega arith)
  is_empty-pairs (k ∷ ks) (v ∷ vs) h = refl

  pub get_elem?-pairs :
      (ks : List K) (vs : List V) (i : ℕ)
      → length ks ≡ length vs
      → get_elem? ks i ≡ (get_elem? (pairs ks vs) i >>= λ e. some e.0)
  unfolding pairs
  get_elem?-pairs [] vs i h = refl
  get_elem?-pairs (k ∷ ks) [] i h = absurd (omega arith)
  get_elem?-pairs (k ∷ ks) (v ∷ vs) zero h = refl
  get_elem?-pairs (k ∷ ks) (v ∷ vs) (suc i) h = get_elem?-pairs ks vs i (omega arith)

  -- `insert` adds an entry at the end, also where the key is there, and keeps the vectors aligned.
  pub insert-entries :
      (k : K) (v : V) (m : FastMap K V)
      → IsAligned m
      → IsAligned (insert (k, v) m).1 × (entries (insert (k, v) m).1 ≡ entries m ++ ((k, v) ∷ []))
  unfolding insert
  insert-entries k v m h = (
    omega (arith, length-append m.keys (k ∷ []), length-append m.values (v ∷ [])),
    pairs-append m.keys m.values k v h,
  )

module _ {K : Type 0} ⦃keys_eq : HasEq K⦄ where
  pub find_from-suc :
      (key : K) (ks : List K) (i : ℕ) → find_from key ks (suc i) ≡ suc (find_from key ks i)
  unfolding find_from
  find_from-suc key [] i = refl
  find_from-suc key (k ∷ ks) i =
      let e : suc i + 1 ≡ suc (i + 1) = omega arith in
      rw (e, find_from-suc key ks (i + 1)) (ground arith)

module _ {K V : Type 0} ⦃keys_eq : HasEq K⦄ where
  -- The value of the first entry of the key.
  unfoldable pub first_value : K → List (K × V) → Option V
  first_value key [] = none
  first_value key ((k, v) ∷ es) = if k == key then some v else first_value key es

  -- The entries without the first one of the key.
  unfoldable pub without : K → List (K × V) → List (K × V)
  without key [] = []
  without key ((k, v) ∷ es) = if k == key then es else (k, v) ∷ without key es

  get_elem?-find_from :
      (key : K) (ks : List K) (vs : List V)
      → length ks ≡ length vs
      → get_elem? vs (find_from key ks 0) ≡ first_value key (pairs ks vs)
  unfolding find_from pairs first_value
  get_elem?-find_from key [] [] h = refl
  get_elem?-find_from key [] (v ∷ vs) h = absurd (omega arith)
  get_elem?-find_from key (k ∷ ks) [] h = absurd (omega arith)
  get_elem?-find_from key (k ∷ ks) (v ∷ vs) h =
      let e : find_from key ks 1 ≡ suc (find_from key ks 0) = find_from-suc key ks 0 in
      elim (Bool-cases (keys_eq.same k key)) [
        | inl t ↦ rw t
        | inr f ↦ rw (f, e) (get_elem?-find_from key ks vs (omega arith))
      ]

  -- On aligned vectors, `second` of the result of `find` is the value of the first entry of the key, and
  -- there is none where the key is not there.
  pub second-find :
      (key : K) (m : FastMap K V)
      → IsAligned m
      → second (find key m) m ≡ first_value key (entries m)
  unfolding second find
  second-find key m h = get_elem?-find_from key m.keys m.values h

  erase_from-pairs :
      (key : K) (ks : List K) (vs : List V) (i : ℕ)
      → length ks ≡ length vs
      → let r = erase_from key ks vs i in
        (length r.1 ≡ length r.2) × (pairs r.1 r.2 ≡ without key (pairs ks vs))
  unfolding erase_from pairs without
  erase_from-pairs key [] [] i h = (refl, refl)
  erase_from-pairs key [] (v ∷ vs) i h = absurd (omega arith)
  erase_from-pairs key (k ∷ ks) [] i h = absurd (omega arith)
  erase_from-pairs key (k ∷ ks) (v ∷ vs) i h =
      ground (arith, erase_from-pairs key ks vs (i + 1) (omega arith))

  -- On aligned vectors, `erase` takes out the first entry of the key and no other, and keeps the vectors aligned.
  pub erase-without :
      (key : K) (m : FastMap K V)
      → IsAligned m
      → IsAligned (erase key m).1 × (entries (erase key m).1 ≡ without key (entries m))
  unfolding erase
  erase-without key m h = erase_from-pairs key m.keys m.values 0 h
