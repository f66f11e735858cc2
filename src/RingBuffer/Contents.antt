-- ===== src/RingBuffer/Contents.antt =====
-- The contents of the buffer are the elements between the two pointers; what the writes do to them.
use moboware.Base.{
  ℕ, ◌+◌, ◌-◌, ◌≤◌, ◌<◌, none, some, List, ◌++◌, ◌≡◌, ap, ◌∙◌, ◌⊎◌, ◌↔◌, inl, inr, length, take,
  drop, arith,
}
use moboware.RingBuffer.{
  RingBuffer, pointer_diff, copy_to, move_to_start, get_write_buffer, commit, write_data,
}
use moboware.RingBuffer.Windows.{length-copy_to, take-copy_to, window-copy_to, length-window}

pub pointer_diff_le : (p q : ℕ) → q ≤ p → pointer_diff p q ≡ p - q
unfolding pointer_diff
pointer_diff_le p q h = ground arith

pub fits_or_not : (a b : ℕ) → (a ≤ b) ⊎ (b < a)
fits_or_not a b = ground arith

module _ {A : Type 0} where
  -- The read position is not beyond the write position, and that is in the array.
  abbrev pub IsValid : RingBuffer A → Type 0
  IsValid r = (r.read_buffer ≤ r.write_buffer) × (r.write_buffer ≤ length r.buffer)

  abbrev pub contents : RingBuffer A → List A
  contents r = take (r.write_buffer - r.read_buffer) (drop r.read_buffer r.buffer)

  -- Room behind the contents; or in total, where the contents fit in front of where they are.
  abbrev pub HasRoom : ℕ → RingBuffer A → Type 0
  HasRoom size r =
      (r.write_buffer + size ≤ length r.buffer)
      ⊎ ((size ≤ r.read_buffer + (length r.buffer - r.write_buffer))
          × (r.write_buffer - r.read_buffer ≤ r.read_buffer))

  -- `copied` is `r` with the elements behind its contents.
  unfoldable pub IsWritten : List A → RingBuffer A → RingBuffer A → Type 0
  IsWritten xs r copied =
      (contents copied ≡ contents r ++ xs)
      × IsValid copied
      × (length copied.buffer ≡ length r.buffer)

  pub commit-copy_to :
      (xs : List A) (r : RingBuffer A)
      → IsValid r
      → r.write_buffer + length xs ≤ length r.buffer
      → IsWritten xs r
          (commit (length xs) (record r { buffer = copy_to xs r.write_buffer r.buffer }))
  unfolding commit IsWritten
  commit-copy_to xs r (h, k) room =
      let w : r.write_buffer ≡ r.read_buffer + (r.write_buffer - r.read_buffer) = omega arith in
      let n : r.write_buffer + length xs - r.read_buffer
          ≡ r.write_buffer - r.read_buffer + length xs =
        omega arith in
      let m : ℕ = r.write_buffer - r.read_buffer + length xs in
      (
        ap (λ i. take i (drop r.read_buffer (copy_to xs r.write_buffer r.buffer))) n
            ∙ ap (λ i. take m (drop r.read_buffer (copy_to xs i r.buffer))) w
            ∙ window-copy_to r.read_buffer (r.write_buffer - r.read_buffer) xs r.buffer
                (omega arith),
        (omega arith, omega (arith, length-copy_to xs r.write_buffer r.buffer)),
        length-copy_to xs r.write_buffer r.buffer,
      )

  -- The contents, moved to the beginning of the array.
  unfoldable pub moved : RingBuffer A → RingBuffer A
  moved r = record {
    buffer = copy_to (contents r) 0 r.buffer;
    write_buffer = r.write_buffer - r.read_buffer;
    read_buffer = 0;
  }

  pub contents-moved :
      (r : RingBuffer A)
      → IsValid r
      → (contents (moved r) ≡ contents r)
        × IsValid (moved r)
        × (length (moved r).buffer ≡ length r.buffer)
  unfolding moved
  contents-moved r (h, k) =
      let n : length (contents r) ≡ r.write_buffer - r.read_buffer =
        length-window r.read_buffer (r.write_buffer - r.read_buffer) r.buffer (omega arith) in
      let m : r.write_buffer - r.read_buffer - 0 ≡ length (contents r) = omega (arith, n) in
      (
        ap (λ i. take i (copy_to (contents r) 0 r.buffer)) m
            ∙ take-copy_to (contents r) r.buffer (omega (arith, n)),
        (omega arith, omega (arith, length-copy_to (contents r) 0 r.buffer)),
        length-copy_to (contents r) 0 r.buffer,
      )

  -- `GetWriteBuffer` where the size fits behind the contents, and where the contents are moved.
  pub get_write_buffer_behind :
      (size : ℕ) (r : RingBuffer A)
      → r.write_buffer + size ≤ length r.buffer
      → get_write_buffer size r ≡ some (some r.write_buffer, r)
  unfolding get_write_buffer
  get_write_buffer_behind size r h = ground arith

  pub get_write_buffer-moved :
      (size : ℕ) (r : RingBuffer A)
      → IsValid r
      → length r.buffer < r.write_buffer + size
      → size ≤ r.read_buffer + (length r.buffer - r.write_buffer)
      → r.write_buffer - r.read_buffer ≤ r.read_buffer
      → get_write_buffer size r ≡ some (some (r.write_buffer - r.read_buffer), moved r)
  unfolding get_write_buffer move_to_start moved
  get_write_buffer-moved size r (h, k) beyond room apart =
      rw
        (
          pointer_diff_le r.write_buffer r.read_buffer h,
          pointer_diff_le (length r.buffer) r.write_buffer k,
        )
        (ground arith)

  pub get_write_buffer_full :
      (size : ℕ) (r : RingBuffer A)
      → IsValid r
      → r.read_buffer + (length r.buffer - r.write_buffer) < size
      → get_write_buffer size r ≡ some (none, r)
  unfolding get_write_buffer
  get_write_buffer_full size r (h, k) full =
      rw
        (
          pointer_diff_le r.write_buffer r.read_buffer h,
          pointer_diff_le (length r.buffer) r.write_buffer k,
        )
        (ground arith)

  pub get_write_buffer_overlaps :
      (size : ℕ) (r : RingBuffer A)
      → IsValid r
      → length r.buffer < r.write_buffer + size
      → size ≤ r.read_buffer + (length r.buffer - r.write_buffer)
      → r.read_buffer < r.write_buffer - r.read_buffer
      → get_write_buffer size r ≡ none
  unfolding get_write_buffer move_to_start
  get_write_buffer_overlaps size r (h, k) beyond room overlap =
      rw
        (
          pointer_diff_le r.write_buffer r.read_buffer h,
          pointer_diff_le (length r.buffer) r.write_buffer k,
        )
        (ground arith)

  -- Data that is too long for what is free in total is not written: the result is 0.
  write_data_full :
      (xs : List A) (r : RingBuffer A)
      → IsValid r
      → r.read_buffer + (length r.buffer - r.write_buffer) < length xs
      → write_data xs r ≡ some (0, r)
  unfolding write_data
  write_data_full xs r valid full = rw (get_write_buffer_full (length xs) r valid full)

  write_data_overlaps :
      (xs : List A) (r : RingBuffer A)
      → IsValid r
      → length r.buffer < r.write_buffer + length xs
      → length xs ≤ r.read_buffer + (length r.buffer - r.write_buffer)
      → r.read_buffer < r.write_buffer - r.read_buffer
      → write_data xs r ≡ none
  unfolding write_data
  write_data_overlaps xs r valid beyond room overlap =
      rw (get_write_buffer_overlaps (length xs) r valid beyond room overlap)

  write_data_behind :
      (xs : List A) (r : RingBuffer A)
      → IsValid r
      → r.write_buffer + length xs ≤ length r.buffer
      → (r' : RingBuffer A) × (write_data xs r ≡ some (length xs, r')) × IsWritten xs r r'
  unfolding write_data
  write_data_behind xs r valid room =
      (_, (rw (get_write_buffer_behind (length xs) r room)), commit-copy_to xs r valid room)

  -- On a buffer whose pointers are in order, data for which there is room (behind the contents,
  -- or in total where the contents are no longer than what is free in front of them) is written
  -- as a whole: it is behind the contents afterwards, the pointers stay in the array, and the
  -- array keeps its length.
  pub write_data-contents :
      (xs : List A) (r : RingBuffer A)
      → IsValid r
      → HasRoom (length xs) r
      → (r' : RingBuffer A) × (write_data xs r ≡ some (length xs, r')) × IsWritten xs r r'
  unfolding write_data IsWritten moved
  write_data-contents xs r valid (inl room) = write_data_behind xs r valid room
  write_data-contents xs r valid (inr (room, apart)) =
      elim (fits_or_not (r.write_buffer + length xs) (length r.buffer)) [
        | inl behind ↦ write_data_behind xs r valid behind
        | inr beyond ↦
            let (same, still_valid, size) = contents-moved r valid in
            let (more, now_valid, size') =
              commit-copy_to xs (moved r) still_valid
                (unfold moved in omega (arith, valid.0, size)) in
            (
              _,
              (rw (get_write_buffer-moved (length xs) r valid beyond room apart)),
              (more ∙ ap (λ c. c ++ xs) same, now_valid, size' ∙ size),
            )
      ]

  -- The size fits only after a move of contents that are longer than what is free in front of them.
  abbrev pub MovesOntoItself : ℕ → RingBuffer A → Type 0
  MovesOntoItself size r =
      (length r.buffer < r.write_buffer + size)
      × (size ≤ r.read_buffer + (length r.buffer - r.write_buffer))
      × (r.read_buffer < r.write_buffer - r.read_buffer)

  -- On a buffer whose pointers are in order, `WriteBuffer` calls `memcpy` with overlapping parts of the
  -- array, which is undefined, exactly where the data fits only after a move, and the contents are longer than what is free
  -- in front of them.
  pub write_data-MovesOntoItself :
      (xs : List A) (r : RingBuffer A)
      → IsValid r
      → (write_data xs r ≡ none) ↔ MovesOntoItself (length xs) r
  write_data-MovesOntoItself xs r valid = (
    λ e. elim (fits_or_not (r.write_buffer + length xs) (length r.buffer)) [
      | inl behind ↦ let (r', written, _) = write_data_behind xs r valid behind in absurd (cc)
      | inr beyond ↦
          elim (fits_or_not (length xs) (r.read_buffer + (length r.buffer - r.write_buffer))) [
            | inr full ↦ let written = write_data_full xs r valid full in absurd (cc)
            | inl room ↦ elim (fits_or_not (r.write_buffer - r.read_buffer) r.read_buffer) [
              | inl apart ↦
                  let (r', written, _) = write_data-contents xs r valid (inr (room, apart)) in
                  absurd (cc)
              | inr overlap ↦ (beyond, room, overlap)
            ]
          ]
    ],
    λ h. write_data_overlaps xs r valid h.0 h.1 h.2,
  )
