-- ===== src/SocketSession/Writing.antt =====
-- `WriteBuffer` of the ring buffer with a function that reads a socket.
use moboware.Base.{
  ◌⊎◌, ℕ, ◌+◌, ◌-◌, ◌≤◌, ◌<◌, Bool, true, false, Option, none, some, List, [], ◌∷◌, ◌++◌, ◌≡◌, ◌∙◌,
  refl, ap, sym, length, ltb, leb, arith, append-nil, if◌then◌else◌, inl, inr,
}
use moboware.RingBuffer.{RingBuffer, commit, copy_to, write_with}
use moboware.RingBuffer.Contents.{
  IsValid, contents, IsWritten, commit-copy_to, contents-moved, get_write_buffer_behind,
  get_write_buffer-moved, get_write_buffer_full, get_write_buffer_overlaps, moved, fits_or_not,
}

module _ {A : Type 0} where
  -- `r'` is `r` with the elements behind its contents.
  abbrev pub Appends : List A → RingBuffer A → RingBuffer A → Type 0
  Appends xs r r' =
      (contents r' ≡ contents r ++ xs) × IsValid r' × (length r'.buffer ≡ length r.buffer)

  -- A write that returns added what the function gave if it reports success, and nothing if not.
  abbrev pub Writes : List A → RingBuffer A → Option (Bool × RingBuffer A) → Type 0
  Writes got r none = Unit
  Writes got r (some (true, r')) = Appends got r r'
  Writes got r (some (false, r')) = Appends [] r r'

  commit_lem :
      (xs : List A) (r : RingBuffer A)
      → IsValid r
      → r.write_buffer + length xs ≤ length r.buffer
      → Appends xs r (commit (length xs) (record r { buffer = copy_to xs r.write_buffer r.buffer }))
  unfolding IsWritten
  commit_lem = commit-copy_to

  -- What `WriteBuffer` does with a position.
  filled : List A → ℕ → RingBuffer A → Option (Bool × RingBuffer A)
  unfolding commit copy_to
  filled got n r =
      let r' : RingBuffer A = record r { buffer = copy_to got r.write_buffer r.buffer } in
      if ltb 0 (length got)
      then (if leb (length got) n then some (true, commit (length got) r') else some (false, r'))
      else some (false, r')

  filled-Writes :
      (got : List A) (n : ℕ) (r r0 : RingBuffer A)
      → length got ≤ n
      → IsValid r0
      → r0.write_buffer + n ≤ length r0.buffer
      → contents r0 ≡ contents r
      → length r0.buffer ≡ length r.buffer
      → Writes got r (filled got n r0)
  unfolding filled
  filled-Writes [] n r r0 fits valid room same size =
      (same ∙ sym (append-nil (contents r)), valid, size)
  filled-Writes (x ∷ xs) n r r0 fits valid room same size =
      let t : ltb 0 (length (x ∷ xs)) ≡ true = ground arith in
      let u : leb (length (x ∷ xs)) n ≡ true = ground arith in
      let (more, now_valid, size') = commit_lem (x ∷ xs) r0 valid (omega arith) in
      rw (t, u) (more ∙ ap (λ c. c ++ (x ∷ xs)) same, now_valid, size' ∙ size)

  pub write_with-Writes :
      (f : ℕ → List A × ℕ) (got : List A) (n : ℕ) (r : RingBuffer A)
      → f n ≡ (got, length got)
      → length got ≤ n
      → IsValid r
      → Writes got r (write_with f n r)
  unfolding write_with filled moved
  write_with-Writes f got n r e fits valid =
      elim (fits_or_not (r.write_buffer + n) (length r.buffer)) [
        | inl behind ↦
            rw (get_write_buffer_behind n r behind, e)
              (filled-Writes got n r r fits valid behind refl refl)
        | inr beyond ↦ elim (fits_or_not n (r.read_buffer + (length r.buffer - r.write_buffer))) [
          | inr full ↦
              rw (get_write_buffer_full n r valid full) (sym (append-nil (contents r)), valid, refl)
          | inl room ↦ elim (fits_or_not (r.write_buffer - r.read_buffer) r.read_buffer) [
            | inr overlap ↦ rw (get_write_buffer_overlaps n r valid beyond room overlap) tt
            | inl apart ↦
                let (same, still_valid, size) = contents-moved r valid in
                rw (get_write_buffer-moved n r valid beyond room apart, e)
                  (filled-Writes got n r (moved r) fits still_valid
                    (unfold moved in omega (arith, valid.0, size)) same size)
          ]
        ]
      ]

  -- The buffer is empty, and starts anew.
  abbrev pub AtStart : RingBuffer A → Type 0
  AtStart r = (r.write_buffer ≡ 0) × (r.read_buffer ≡ 0)

  -- A write that returns: it changes no pointer, or it added something.
  abbrev pub Returns : List A → Option (Bool × RingBuffer A) → Type 0
  Returns got o =
      (r' : RingBuffer A) × (((o ≡ some (false, r')) × AtStart r')
        ⊎ ((o ≡ some (true, r')) × (0 < length got)))

  filled-Returns :
      (got : List A) (n : ℕ) (r : RingBuffer A)
      → length got ≤ n
      → AtStart r
      → Returns got (filled got n r)
  unfolding filled
  filled-Returns [] n r fits start = (_, inl (refl, start))
  filled-Returns (x ∷ xs) n r fits start =
      let t : ltb 0 (length (x ∷ xs)) ≡ true = ground arith in
      let u : leb (length (x ∷ xs)) n ≡ true = ground arith in
      let r' : RingBuffer A = record r { buffer = copy_to (x ∷ xs) r.write_buffer r.buffer } in
      (commit (length (x ∷ xs)) r', inr (rw (t, u) refl, omega arith))

  pub write_with-Returns :
      (f : ℕ → List A × ℕ) (got : List A) (n : ℕ) (r : RingBuffer A)
      → f n ≡ (got, length got)
      → length got ≤ n
      → AtStart r
      → Returns got (write_with f n r)
  unfolding write_with filled
  write_with-Returns f got n r e fits start = elim (fits_or_not n (length r.buffer)) [
    | inl behind ↦
        rw (get_write_buffer_behind n r (omega (arith, start.0)), e)
          (filled-Returns got n r fits start)
    | inr full ↦
        let valid : IsValid r = (omega (arith, start.0, start.1), omega (arith, start.0)) in
        rw (get_write_buffer_full n r valid (omega (arith, start.0, start.1)))
          (r, inl (refl, start))
  ]
