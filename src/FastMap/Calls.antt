-- ===== src/FastMap/Calls.antt =====
-- Sequences of calls of the map against the list of its entries.
use moboware.Base.{
  ℕ, suc, ◌+◌, Bool, true, Option, none, some, List, [], ◌∷◌, ◌++◌, HasEq, ◌==◌, length, is_empty,
  get_elem?, if◌then◌else◌, ◌>>=◌, Option-cases, inl, inr, ◌≡◌, ◌∙◌, refl, sym, subst, arith,
}
use moboware.FastMap.{
  FastMap, insert, find, find_from, erase, erase_from, erase_at, first, second, size, map_is_empty,
  clear,
}
use moboware.FastMap.Entries.{
  IsAligned, length-pairs, is_empty-pairs, get_elem?-pairs, pairs, entries, first_value, without,
  insert-entries, erase-without, second-find, find_from-suc,
}

-- A call of the map. A lookup reads the value at the iterator that `find` returns.
pub data MapCall (K V : Type 0) : Type 0 where
  insert_call : K → V → MapCall K V
  find_call : K → MapCall K V
  erase_call : K → MapCall K V
  erase_at_call : ℕ → MapCall K V
  size_call : MapCall K V
  clear_call : MapCall K V

-- What a call reports.
pub data MapReport (V : Type 0) : Type 0 where
  inserted : ℕ → Bool → MapReport V
  found : ℕ → Option V → MapReport V
  erased : ℕ → MapReport V
  sized : ℕ → Bool → MapReport V
  cleared : MapReport V

module _ {K V : Type 0} ⦃keys_eq : HasEq K⦄ where
  -- `none` is an access at the end, or behind it, which is undefined.
  map_call : MapCall K V → FastMap K V → Option (MapReport V × FastMap K V)
  unfolding insert find erase erase_at second size map_is_empty clear
  map_call (insert_call k v) m =
      let ((at, done), m') = insert (k, v) m in some (inserted at done, m')
  map_call (find_call k) m = some (found (find k m) (second (find k m) m), m)
  map_call (erase_call k) m = let (at, m') = erase k m in some (erased at, m')
  map_call (erase_at_call i) m = do (at, m') ← erase_at i m; some (erased at, m')
  map_call size_call m = some (sized (size m) (map_is_empty m), m)
  map_call clear_call m = some (cleared, clear m)

  unfoldable pub run_map :
      List (MapCall K V) → FastMap K V → Option (List (MapReport V) × FastMap K V)
  unfolding map_call
  run_map [] m = some ([], m)
  run_map (c ∷ cs) m = do
    (report, m') ← map_call c m
    (reports, m'') ← run_map cs m'
    some (report ∷ reports, m'')

  -- The position of the first entry of the key, or the number of the entries.
  unfoldable pub position : K → List (K × V) → ℕ
  position key [] = 0
  position key ((k, v) ∷ es) = if k == key then 0 else suc (position key es)

  -- The same calls on a list of entries, which may have a key more than once.
  entries_call : MapCall K V → List (K × V) → Option (MapReport V × List (K × V))
  unfolding position first_value without
  entries_call (insert_call k v) es = some (inserted (length es) true, es ++ ((k, v) ∷ []))
  entries_call (find_call k) es = some (found (position k es) (first_value k es), es)
  entries_call (erase_call k) es = some (erased (position k es), without k es)
  entries_call (erase_at_call i) es = do
    (k, v) ← get_elem? es i
    some (erased (position k es), without k es)
  entries_call size_call es = some (sized (length es) (is_empty es), es)
  entries_call clear_call es = some (cleared, [])

  unfoldable pub run_entries :
      List (MapCall K V) → List (K × V) → Option (List (MapReport V) × List (K × V))
  unfolding entries_call
  run_entries [] es = some ([], es)
  run_entries (c ∷ cs) es = do
    (report, es') ← entries_call c es
    (reports, es'') ← run_entries cs es'
    some (report ∷ reports, es'')

  find_from-position :
      (key : K) (ks : List K) (vs : List V)
      → length ks ≡ length vs
      → find_from key ks 0 ≡ position key (pairs ks vs)
  unfolding pairs find_from position
  find_from-position key [] vs h = refl
  find_from-position key (k ∷ ks) [] h = absurd (omega arith)
  find_from-position key (k ∷ ks) (v ∷ vs) h =
      let e : find_from key ks 1 ≡ suc (find_from key ks 0) = find_from-suc key ks 0 in
      rw (e, find_from-position key ks vs (omega arith)) refl

  erase_from-position :
      (key : K) (ks : List K) (vs : List V) (i : ℕ)
      → length ks ≡ length vs
      → (erase_from key ks vs i).0 ≡ i + position key (pairs ks vs)
  unfolding pairs erase_from position
  erase_from-position key [] [] i h = omega arith
  erase_from-position key [] (v ∷ vs) i h = absurd (omega arith)
  erase_from-position key (k ∷ ks) [] i h = absurd (omega arith)
  erase_from-position key (k ∷ ks) (v ∷ vs) i h =
      ground (arith, erase_from-position key ks vs (i + 1) (omega arith))

  -- The map of a result as the list of its entries.
  abbrev pub view : {R : Type 0} → Option (R × FastMap K V) → Option (R × List (K × V))
  view o = o >>= λ r. some (r.0, entries r.1)

  -- A call does to the map what it does to its entries.
  abbrev Simulates : MapCall K V → FastMap K V → Type 0
  Simulates c m =
      ((report : MapReport V) (m' : FastMap K V) → map_call c m ≡ some (report, m') → IsAligned m')
      × (view (map_call c m) ≡ entries_call c (entries m))

  erase-position :
      (key : K) (m : FastMap K V) → IsAligned m → (erase key m).0 ≡ position key (entries m)
  unfolding erase
  erase-position key m h = erase_from-position key m.keys m.values 0 h ∙ (omega arith)

  find-position : (key : K) (m : FastMap K V) → IsAligned m → find key m ≡ position key (entries m)
  unfolding find
  find-position key m h = find_from-position key m.keys m.values h

  erase_call-view :
      (key : K) (m : FastMap K V)
      → IsAligned m
      → view {R = MapReport V} (some (erased (erase key m).0, (erase key m).1))
        ≡ some (erased (position key (entries m)), without key (entries m))
  erase_call-view key m h = rw (erase-position key m h, (erase-without key m h).1) refl

  map_call-entries_call :
      (c : MapCall K V) (m : FastMap K V)
      → IsAligned m
      → view (map_call c m) ≡ entries_call c (entries m)
  unfolding map_call entries_call
  map_call-entries_call (insert_call k v) m h =
      rw (length-pairs m.keys m.values h, (insert-entries k v m h).1, insert) refl
  map_call-entries_call (find_call k) m h =
      rw (sym (find-position k m h), sym (second-find k m h)) refl
  map_call-entries_call (erase_call k) m h = erase_call-view k m h
  map_call-entries_call (erase_at_call i) m h =
      let same = get_elem?-pairs m.keys m.values i h in
      elim (Option-cases (get_elem? (entries m) i)) [
        | inl e ↦
            let e' : get_elem? m.keys i ≡ none = same ∙ (rw e refl) in
            rw (e, erase_at, first, e') refl
        | inr ((k, v), e) ↦
            let e' : get_elem? m.keys i ≡ some k = same ∙ (rw e refl) in
            rw (e, erase_at, first, e') (erase_call-view k m h)
      ]
  map_call-entries_call size_call m h =
      unfold size map_is_empty in
      rw (length-pairs m.keys m.values h, is_empty-pairs m.keys m.values h) refl
  map_call-entries_call clear_call m h = unfold clear pairs in refl

  -- Where a call is defined, the vectors are of one length afterwards.
  abbrev IsAlignedAfter : Option (MapReport V × FastMap K V) → Type 0
  IsAlignedAfter none = Unit
  IsAlignedAfter (some (report, m)) = IsAligned m

  map_call-IsAlignedAfter :
      (c : MapCall K V) (m : FastMap K V) → IsAligned m → IsAlignedAfter (map_call c m)
  unfolding map_call
  map_call-IsAlignedAfter (insert_call k v) m h = (insert-entries k v m h).0
  map_call-IsAlignedAfter (find_call k) m h = h
  map_call-IsAlignedAfter (erase_call k) m h = (erase-without k m h).0
  map_call-IsAlignedAfter (erase_at_call i) m h = elim (Option-cases (get_elem? m.keys i)) [
    | inl e ↦ rw (erase_at, first, e) tt
    | inr (k, e) ↦ rw (erase_at, first, e) (erase-without k m h).0
  ]
  map_call-IsAlignedAfter size_call m h = h
  map_call-IsAlignedAfter clear_call m h = unfold clear in refl

  -- On aligned vectors, any sequence of calls reports what the list of the map's entries reports, in which
  -- an insert adds at the end, and a lookup and an erase take the first entry of the key; it ends with
  -- that list's entries, and is undefined exactly where the list has no entry at an iterator to erase.
  pub run_map-run_entries :
      (cs : List (MapCall K V)) (m : FastMap K V)
      → IsAligned m
      → view (run_map cs m) ≡ run_entries cs (entries m)
  unfolding run_map run_entries
  run_map-run_entries [] m h = refl
  run_map-run_entries (c ∷ cs) m h =
      let step = map_call-entries_call c m h in
      elim (Option-cases (map_call c m)) [
        | inl e ↦
            let e' : entries_call c (entries m) ≡ none = sym step ∙ (rw e refl) in rw (e, e') refl
        | inr ((report, m'), e) ↦
            let e' : entries_call c (entries m) ≡ some (report, entries m') =
              sym step ∙ (rw e refl) in
            let aligned : IsAligned m' = subst IsAlignedAfter e (map_call-IsAlignedAfter c m h) in
            let rest = run_map-run_entries cs m' aligned in
            elim (Option-cases (run_map cs m')) [
              | inl d ↦
                  let d' : run_entries cs (entries m') ≡ none = sym rest ∙ (rw d refl) in
                  rw (e, e', d, d') refl
              | inr ((reports, m''), d) ↦
                  let d' : run_entries cs (entries m') ≡ some (reports, entries m'') =
                    sym rest ∙ (rw d refl) in
                  rw (e, e', d, d') refl
            ]
      ]
