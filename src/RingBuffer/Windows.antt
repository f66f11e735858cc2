-- ===== src/RingBuffer/Windows.antt =====
-- Parts of an array, read after a copy into it.
use moboware.Base.{
  ℕ, zero, suc, ◌+◌, ◌-◌, ◌≤◌, List, [], ◌∷◌, ◌++◌, ◌≡◌, refl, ap, length, take, drop, arith, sym,
}
use native.Mathlib.Numerals.{unary_clauses}
use moboware.RingBuffer.{copy_to}

module _ {A : Type 0} where
  copy_to-suc :
      (xs : List A) (i : ℕ) (b : A) (bs : List A)
      → copy_to xs (suc i) (b ∷ bs) ≡ b ∷ copy_to xs i bs
  unfolding copy_to
  copy_to-suc [] i b bs = refl
  copy_to-suc (x ∷ xs) i b bs = refl

  pub length-copy_to : (xs : List A) (i : ℕ) (bs : List A) → length (copy_to xs i bs) ≡ length bs
  unfolding copy_to
  length-copy_to [] i bs = refl
  length-copy_to (x ∷ xs) i [] = refl
  length-copy_to (x ∷ xs) zero (b ∷ bs) = ap suc (length-copy_to xs 0 bs)
  length-copy_to (x ∷ xs) (suc i) (b ∷ bs) = ap suc (length-copy_to (x ∷ xs) i bs)

  pub take-copy_to :
      (xs bs : List A) → length xs ≤ length bs → take (length xs) (copy_to xs 0 bs) ≡ xs
  unfolding copy_to
  take-copy_to [] bs h = refl
  take-copy_to (x ∷ xs) [] h = absurd (omega arith)
  take-copy_to (x ∷ xs) (b ∷ bs) h = ap (◌∷◌ x) (take-copy_to xs bs (omega arith))

  -- What is copied behind a part of the array is behind it when the two are read.
  take-copy_to_behind :
      (n : ℕ) (xs bs : List A)
      → n + length xs ≤ length bs
      → take (n + length xs) (copy_to xs n bs) ≡ take n bs ++ xs
  take-copy_to_behind zero xs bs h =
      let e : 0 + length xs ≡ length xs = omega arith in rw e (take-copy_to xs bs (omega arith))
  take-copy_to_behind (suc n) xs [] h = absurd (omega arith)
  take-copy_to_behind (suc n) xs (b ∷ bs) h =
      let e : suc n + length xs ≡ suc (n + length xs) = omega arith in
      rw (e, copy_to-suc xs n b bs) (ap (◌∷◌ b) (take-copy_to_behind n xs bs (omega arith)))

  pub window-copy_to :
      (i n : ℕ) (xs bs : List A)
      → i + n + length xs ≤ length bs
      → take (n + length xs) (drop i (copy_to xs (i + n) bs)) ≡ take n (drop i bs) ++ xs
  window-copy_to zero n xs bs h =
      let e : 0 + n ≡ n = omega arith in rw e (take-copy_to_behind n xs bs (omega arith))
  window-copy_to (suc i) n xs [] h = absurd (omega arith)
  window-copy_to (suc i) n xs (b ∷ bs) h =
      let e : suc i + n ≡ suc (i + n) = omega arith in
      rw (e, copy_to-suc xs (i + n) b bs) (window-copy_to i n xs bs (omega arith))

  pub length-window : (i n : ℕ) (bs : List A) → i + n ≤ length bs → length (take n (drop i bs)) ≡ n
  length-window zero zero bs h = refl
  length-window zero (suc n) [] h = absurd (omega arith)
  length-window zero (suc n) (b ∷ bs) h = ap suc (length-window zero n bs (omega arith))
  length-window (suc i) n [] h = absurd (omega arith)
  length-window (suc i) n (b ∷ bs) h = length-window i n bs (omega arith)

  take-nil : (n : ℕ) → take {A = A} n [] ≡ []
  take-nil zero = refl
  take-nil (suc n) = refl

  drop-nil : (n : ℕ) → drop {A = A} n [] ≡ []
  drop-nil zero = refl
  drop-nil (suc n) = refl

  -- The contents without the first `k`, as the code leaves them.
  pub window-drop :
      (k n i : ℕ) (bs : List A)
      → k ≤ n
      → take (n - k) (drop (i + k) bs) ≡ drop k (take n (drop i bs))
  window-drop k n (suc i) [] h =
      rw (drop-nil (suc i + k), take-nil (n - k), take-nil n) (sym (drop-nil k))
  window-drop k n (suc i) (b ∷ bs) h =
      let e : suc i + k ≡ suc (i + k) = omega arith in rw e (window-drop k n i bs h)
  window-drop zero n zero bs h = simp unary_clauses refl
  window-drop (suc k) zero zero bs h = absurd (omega arith)
  window-drop (suc k) (suc n) zero [] h = simp (unary_clauses, take-nil)
  window-drop (suc k) (suc n) zero (b ∷ bs) h =
      simp unary_clauses (window-drop k n zero bs (omega arith))
