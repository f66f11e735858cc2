-- ===== src/RingBuffer/Reading.antt =====
-- What the reads do to the contents of the buffer.
use moboware.Base.{
  ℕ, ◌+◌, ◌-◌, ◌≤◌, true, false, List, ◌≡◌, refl, ap, ◌∙◌, inl, inr, length, take, drop, ltb,
  nat_beq, if◌then◌else◌, arith, sym, Bool-cases,
}
use moboware.RingBuffer.{RingBuffer, get_read_buffer_size, get_read_buffer, flush, read_with}
use moboware.RingBuffer.Windows.{length-window, window-drop}
use moboware.RingBuffer.Contents.{IsValid, contents, pointer_diff_le}

module _ {A : Type 0} where
  flush-contents :
      (k : ℕ) (r : RingBuffer A)
      → IsValid r
      → k ≤ r.write_buffer - r.read_buffer
      → (contents (flush k r) ≡ drop k (contents r)) × IsValid (flush k r)
  unfolding flush
  flush-contents k r (h, h') fits =
      let front = window-drop k (r.write_buffer - r.read_buffer) r.read_buffer r.buffer fits in
      elim (Bool-cases (nat_beq r.write_buffer (r.read_buffer + k))) [
        | inl t ↦
            let none_left : r.write_buffer - r.read_buffer - k ≡ 0 = ground arith in
            let at_start : ◌≡◌ {A = ℕ} (0 - 0) 0 = omega arith in
            rw (t, at_start)
              (
                ap (λ n. take n (drop (r.read_buffer + k) r.buffer)) (sym none_left) ∙ front,
                (omega arith, omega arith),
              )
        | inr f ↦
            let left : r.write_buffer - (r.read_buffer + k) ≡ r.write_buffer - r.read_buffer - k =
              omega arith in
            rw (f, left) (front, (omega arith, h'))
      ]

  pub read_with_step :
      (read_fn : List A → ℕ → ℕ) (r : RingBuffer A)
      → IsValid r
      → let k = read_fn (contents r) (length (contents r)) in
        read_with read_fn r ≡ (if ltb 0 k then (true, flush k r) else (false, r))
  unfolding read_with get_read_buffer_size get_read_buffer
  read_with_step read_fn r (h, h') =
      let n = length-window r.read_buffer (r.write_buffer - r.read_buffer) r.buffer (omega arith) in
      rw
        (
          read_with,
          get_read_buffer_size,
          get_read_buffer,
          pointer_diff_le r.write_buffer r.read_buffer h,
          n,
        )
        (ground arith)

  -- On a buffer whose pointers are in order, `ReadBuffer` gives the function the contents and takes off
  -- their front what the function returns, if that is no more than there is; it reports whether it is
  -- more than 0.
  pub read_with-contents :
      (read_fn : List A → ℕ → ℕ) (r : RingBuffer A)
      → IsValid r
      → let k = read_fn (contents r) (length (contents r)) in
        k ≤ length (contents r)
        → ((read_with read_fn r).0 ≡ ltb 0 k)
          × (contents (read_with read_fn r).1 ≡ drop k (contents r))
          × IsValid (read_with read_fn r).1
  read_with-contents read_fn r valid fits =
      let n =
        length-window r.read_buffer (r.write_buffer - r.read_buffer) r.buffer
          (omega (arith, valid.0, valid.1)) in
      let k = read_fn (contents r) (length (contents r)) in
      let step = read_with_step read_fn r valid in
      elim (Bool-cases (ltb 0 k)) [
        | inl t ↦
            let (left, now_valid) = flush-contents k r valid (omega (arith, n, fits)) in
            rw (step, t) (refl, left, now_valid)
        | inr f ↦
            let none_read : k ≡ 0 = ground arith in
            rw (step, f) (refl, ap (λ j. drop j (contents r)) (sym none_read), valid)
      ]
