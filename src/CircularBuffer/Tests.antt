-- ===== src/CircularBuffer/Tests.antt =====
-- A buffer of three numbers.
use moboware.Base.{ℕ, Bool, List, [], ◌∷◌, ◌++◌, ◌≡◌, refl, arith, ltb}
use moboware.CircularBuffer.{new_circular, add, loop}
use moboware.CircularBuffer.Latest.{walk, add_all, loop-latest}

abbrev three_slots : List ℕ
three_slots = 0 ∷ 0 ∷ 0 ∷ []

-- A function that keeps the elements, and stops at one above 8.
abbrev keep : ℕ → List ℕ → Bool × List ℕ
keep x seen = (ltb x 9, seen ++ (x ∷ []))

fifth_overwrites :
    add_all (4 ∷ 5 ∷ 6 ∷ 7 ∷ 8 ∷ []) (new_circular three_slots)
    ≡ record { start_index = 2; end_index = 5; ring_queue = 7 ∷ 8 ∷ 6 ∷ [] }
unfolding add_all add new_circular
fifth_overwrites = refl

loop-latest_example :
    loop keep (add_all (4 ∷ 5 ∷ 9 ∷ 7 ∷ []) (new_circular three_slots)) [] ≡ 5 ∷ 9 ∷ []
unfolding walk
loop-latest_example =
    loop-latest keep three_slots (4 ∷ 5 ∷ 9 ∷ 7 ∷ []) [] (omega arith) (omega arith)
