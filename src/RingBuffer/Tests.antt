-- ===== src/RingBuffer/Tests.antt =====
-- A buffer of four numbers.
use moboware.Base.{ℕ, true, none, some, [], ◌∷◌, ◌≡◌, refl, ◌↔◌, inr, arith}
use moboware.RingBuffer.{RingBuffer, write_data, read_with, get_read_buffer_size, flush}
use moboware.RingBuffer.Contents.{
  IsWritten, write_data-contents, write_data-MovesOntoItself, MovesOntoItself,
}

-- One number that was not read yet, at the end.
abbrev last_of_four : RingBuffer ℕ
last_of_four = record { buffer = 1 ∷ 2 ∷ 3 ∷ 4 ∷ []; write_buffer = 4; read_buffer = 3 }

-- Three numbers that were not read yet.
abbrev three_of_four : RingBuffer ℕ
three_of_four = record { buffer = 1 ∷ 2 ∷ 3 ∷ 4 ∷ []; write_buffer = 4; read_buffer = 1 }

write_moves :
    write_data (8 ∷ 9 ∷ []) last_of_four
    ≡ some (2, record { buffer = 4 ∷ 8 ∷ 9 ∷ 4 ∷ []; write_buffer = 3; read_buffer = 0 })
unfolding write_data
write_moves = refl

-- A flush beyond the end is not refused, and the size of the read buffer wraps.
flush_beyond : get_read_buffer_size (flush 5 last_of_four) ≡ 18446744073709551612
unfolding get_read_buffer_size flush
flush_beyond = refl

-- The function is called where there is nothing to read, and can make the call succeed.
read_of_nothing :
    read_with {A = ℕ}
      (λ xs n. 1)
      (record { buffer = 1 ∷ 2 ∷ []; write_buffer = 0; read_buffer = 0 })
    ≡ (true, record { buffer = 1 ∷ 2 ∷ []; write_buffer = 0; read_buffer = 1 })
unfolding read_with
read_of_nothing = refl

write_data-contents_example :
    (r' : RingBuffer ℕ) × (write_data (8 ∷ 9 ∷ []) last_of_four ≡ some (2, r'))
    × IsWritten (8 ∷ 9 ∷ []) last_of_four r'
write_data-contents_example =
    write_data-contents (8 ∷ 9 ∷ []) last_of_four (omega arith, omega arith)
      (inr (omega arith, omega arith))

write_data-MovesOntoItself_example :
    (write_data (7 ∷ []) three_of_four ≡ none) ↔ MovesOntoItself 1 three_of_four
write_data-MovesOntoItself_example =
    write_data-MovesOntoItself (7 ∷ []) three_of_four (omega arith, omega arith)
