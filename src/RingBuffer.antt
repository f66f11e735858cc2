-- ===== src/RingBuffer.antt =====
-- src/lib/common/include/common/ring_buffer.hpp: the byte buffer of a socket session. The two pointers
-- are positions in the array, whose length is BufferSize. A result of `none` is undefined behaviour: a
-- `memcpy` between overlapping parts of the array.
pub mod Windows
pub mod Contents
pub mod Reading
mod Tests
use moboware.Base.{
  ℕ, zero, suc, ◌+◌, ◌-◌, ◌*◌, ◌^◌, Bool, true, false, Option, none, some, List, [], ◌∷◌, length,
  take, drop, ltb, leb, nat_beq, if◌then◌else◌, ◌>>=◌,
}

pub record RingBuffer {ℓ} (A : Type ℓ) : Type ℓ where
  pub buffer : List A
  pub write_buffer : ℕ
  pub read_buffer : ℕ

-- The difference of two pointers as a std::size_t.
unfoldable pub pointer_diff : ℕ → ℕ → ℕ
pointer_diff p q = if leb q p then p - q else 2 ^ 64 - (q - p)

module _ {ℓ} {A : Type ℓ} where
  -- `memcpy` of the elements to a position; nothing is written behind the end of the array.
  unfoldable pub copy_to : List A → ℕ → List A → List A
  copy_to [] i bs = bs
  copy_to (x ∷ xs) i [] = []
  copy_to (x ∷ xs) zero (b ∷ bs) = x ∷ copy_to xs zero bs
  copy_to (x ∷ xs) (suc i) (b ∷ bs) = b ∷ copy_to (x ∷ xs) i bs

  -- The constructor: the array is not initialised, so any array will do.
  unfoldable pub new_buffer : List A → RingBuffer A
  new_buffer array = record { buffer = array; write_buffer = 0; read_buffer = 0 }

  unfoldable pub get_write_buffer_size : RingBuffer A → ℕ
  get_write_buffer_size r = r.write_buffer

  unfoldable pub get_free_write_buffer_size : RingBuffer A → ℕ
  unfolding get_write_buffer_size
  get_free_write_buffer_size r = length r.buffer - get_write_buffer_size r

  unfoldable pub get_read_buffer_size : RingBuffer A → ℕ
  unfolding pointer_diff
  get_read_buffer_size r = pointer_diff r.write_buffer r.read_buffer

  unfoldable pub commit : ℕ → RingBuffer A → RingBuffer A
  commit size r = record r { write_buffer = r.write_buffer + size }

  -- `memcpy` of the elements from a position to the beginning: undefined where the parts overlap.
  unfoldable pub move_to_start : ℕ → ℕ → List A → Option (List A)
  unfolding copy_to
  move_to_start from n bs =
      if nat_beq n 0
      then some bs
      else if ltb from n
      then none
      else some (copy_to (take n (drop from bs)) 0 bs)

  -- `GetWriteBuffer`: the position to write at, if there is one; the used part may have moved.
  unfoldable pub get_write_buffer : ℕ → RingBuffer A → Option (Option ℕ × RingBuffer A)
  unfolding pointer_diff move_to_start
  get_write_buffer size r =
      let used_size = pointer_diff r.write_buffer r.read_buffer in
      let low_free_size = r.read_buffer in
      let high_free_size = pointer_diff (length r.buffer) r.write_buffer in
      if leb (r.write_buffer + size) (length r.buffer)
      then some (some r.write_buffer, r)
      else if leb size (low_free_size + high_free_size)
      then (do
        moved ← move_to_start r.read_buffer used_size r.buffer
        some (some used_size, record { buffer = moved; write_buffer = used_size; read_buffer = 0 }))
      else some (none, r)

  -- `WriteBuffer` of data: the number of elements written.
  unfoldable pub write_data : List A → RingBuffer A → Option (ℕ × RingBuffer A)
  unfolding get_write_buffer commit copy_to
  write_data xs r = do
    (ptr, r') ← get_write_buffer (length xs) r
    elim ptr [
      | none ↦ some (0, r')
      | some i ↦
          some (length xs, commit (length xs) (record r' { buffer = copy_to xs i r'.buffer }))
    ]

  -- `WriteBuffer` with a function: what it writes for the size asked for, and the size it returns.
  unfoldable pub write_with : (ℕ → List A × ℕ) → ℕ → RingBuffer A → Option (Bool × RingBuffer A)
  unfolding get_write_buffer commit copy_to
  write_with write_fn requested_size r = do
    (ptr, r') ← get_write_buffer requested_size r
    elim ptr [
      | none ↦ some (false, r')
      | some i ↦
          let (written, bytes_to_commit) = write_fn requested_size in
          let r'' : RingBuffer A = record r' { buffer = copy_to written i r'.buffer } in
          if ltb 0 bytes_to_commit
          then (if leb bytes_to_commit requested_size
              then some (true, commit bytes_to_commit r'')
              else some (false, r''))
          else some (false, r'')
    ]

  -- `GetReadBuffer`: the position to read at.
  unfoldable pub get_read_buffer : ℕ → RingBuffer A → Option ℕ
  unfolding pointer_diff
  get_read_buffer size r =
      if leb size (pointer_diff r.write_buffer r.read_buffer) then some r.read_buffer else none

  -- `Flush`: the error for a size beyond the array is made and not thrown.
  unfoldable pub flush : ℕ → RingBuffer A → RingBuffer A
  flush size r =
      let read = r.read_buffer + size in
      if nat_beq r.write_buffer read
      then record r { write_buffer = 0; read_buffer = 0 }
      else record r { read_buffer = read }

  -- `ReadBuffer`: the function is given the elements that can be read, and their number.
  unfoldable pub read_with : (List A → ℕ → ℕ) → RingBuffer A → Bool × RingBuffer A
  unfolding get_read_buffer_size get_read_buffer flush
  read_with read_fn r =
      let available = get_read_buffer_size r in
      elim (get_read_buffer available r) [
        | none ↦ (false, r)
        | some i ↦
            let bytes_to_flush = read_fn (take available (drop i r.buffer)) available in
            if ltb 0 bytes_to_flush then (true, flush bytes_to_flush r) else (false, r)
      ]
