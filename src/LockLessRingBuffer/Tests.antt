-- ===== src/LockLessRingBuffer/Tests.antt =====
-- Runs of a buffer with room for four numbers.
use moboware.Base.{
  ℕ, ◌+◌, ◌%◌, true, false, none, some, List, [], ◌∷◌, length, get_elem?, ◌≡◌, refl, arith,
}
use moboware.LockLessRingBuffer.{LockLessRingBuffer, new_lock_less, size, has_space, capacity}
use moboware.LockLessRingBuffer.Fifo.{IsValid}
use moboware.LockLessRingBuffer.Calls.{
  Call, push_call, pop_call, run_calls, run_queue, run_calls-run_queue,
}
use moboware.LockLessRingBuffer.Overrun.{fill_two, fill_two_overrun}

abbrev four_slots : List ℕ
four_slots = 0 ∷ 0 ∷ 0 ∷ 0 ∷ []

abbrev some_calls : List (Call ℕ)
some_calls =
    push_call 1 true
    ∷ push_call 2 false
    ∷ push_call 3 true
    ∷ push_call 4 true
    ∷ push_call 5 true
    ∷ pop_call
    ∷ pop_call
    ∷ []

-- The fifth push finds no space; the value of the failed push is read.
some_reports :
    run_calls some_calls (new_lock_less four_slots)
    ≡ (true, none)
      ∷ (false, none)
      ∷ (true, none)
      ∷ (true, none)
      ∷ (false, none)
      ∷ (true, some 1)
      ∷ (true, some 2)
      ∷ []
unfolding run_calls new_lock_less
some_reports = refl

run_calls-run_queue_example :
    run_calls some_calls (new_lock_less four_slots) ≡ run_queue 4 some_calls []
run_calls-run_queue_example =
    run_calls-run_queue four_slots some_calls (omega arith) (omega arith) (omega arith)

-- Three values, the counters past their wrap-around.
abbrev three_values : LockLessRingBuffer ℕ
three_values = record { head = 1; tail = 65534; queue = 7 ∷ 0 ∷ 5 ∷ 6 ∷ [] }

three_values-IsValid : IsValid three_values
unfolding size
three_values-IsValid = record {
  room = omega arith;
  multiple = omega arith;
  narrow = omega arith;
  head_small = omega arith;
  tail_small = omega arith;
  fits = omega arith;
}

three_values-size : size three_values + 1 ≡ 4
unfolding size
three_values-size = omega arith

fill_two_overrun_example :
    let b' : LockLessRingBuffer ℕ = fill_two 8 true 9 true three_values in
    (has_space three_values ≡ true)
    × (size b' ≡ 4 + 1)
    × (get_elem? b'.queue (b'.tail % length b'.queue) ≡ some 9)
unfolding capacity
fill_two_overrun_example =
    fill_two_overrun 8 9 true true three_values three_values-IsValid three_values-size
