-- ===== src/FastMap/Tests.antt =====
-- The map with numbers as keys, on small inputs.
use moboware.Base.{ℕ, true, false, List, none, some, [], ◌∷◌, ◌≡◌, refl, nat_keys}
use moboware.FastMap.{FastMap, find, erase, erase_at}
use moboware.FastMap.Calls.{
  MapCall, insert_call, find_call, erase_call, erase_at_call, size_call, inserted, erased, found,
  sized, run_map, view, run_entries, run_map-run_entries,
}
use moboware.FastMap.Entries.{entries, pairs}

-- The key 3 is there twice.
abbrev three_entries : FastMap ℕ ℕ
three_entries = record { keys = 3 ∷ 5 ∷ 3 ∷ []; values = 30 ∷ 50 ∷ 31 ∷ [] }

find_second_key : find 5 three_entries ≡ 1
unfolding find
find_second_key = refl

find_missing_key : find 4 three_entries ≡ 3
unfolding find
find_missing_key = refl

erase_at_last :
    erase_at 2 three_entries ≡ some (0, record { keys = 5 ∷ 3 ∷ []; values = 50 ∷ 31 ∷ [] })
unfolding erase_at erase
erase_at_last = refl

-- The first entry of the key 3, then what is left of it, and an iterator at the end.
abbrev some_calls : List (MapCall ℕ ℕ)
some_calls = insert_call 7 70 ∷ erase_call 3 ∷ find_call 3 ∷ erase_at_call 0 ∷ size_call ∷ []

run_map-run_entries_example :
    view (run_map some_calls three_entries)
    ≡ some (
      inserted 3 true ∷ erased 0 ∷ found 1 (some 31) ∷ erased 0 ∷ sized 2 false ∷ [],
      (3, 31) ∷ (7, 70) ∷ [],
    )
unfolding run_entries pairs
run_map-run_entries_example = run_map-run_entries some_calls three_entries refl

erase_behind_end : run_entries (erase_at_call 3 ∷ []) (entries three_entries) ≡ none
unfolding run_entries pairs
erase_behind_end = refl
