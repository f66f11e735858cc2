-- ===== src/Logger/Buffers.antt =====
-- What is in a buffer that a text was formatted into.
use moboware.Base.{
  ℕ, zero, suc, ◌+◌, ◌≤◌, ◌<◌, true, false, List, [], ◌∷◌, ◌++◌, ◌≡◌, ◌∙◌, refl, ap, sym, arith,
  Text, codes, append_assoc, length, set, take, length-set, take-set_self, ltb, dec_lt, append-nil,
}
use moboware.Logger.{TrivialBuffer, push_back, format_to, written_data, log_buffer}

module _ {A : Type 0} where
  take-append_full : (w ys : List A) → take (length w) (w ++ ys) ≡ w
  take-append_full [] ys = refl
  take-append_full (x ∷ w) ys = ap (◌∷◌ x) (take-append_full w ys)

  take_all : (n : ℕ) (w : List A) → length w ≤ n → take n w ≡ w
  take_all zero [] h = refl
  take_all zero (x ∷ w) h = absurd (omega arith)
  take_all (suc n) [] h = refl
  take_all (suc n) (x ∷ w) h = ap (◌∷◌ x) (take_all n w (omega arith))

  length-take : (n : ℕ) (w : List A) → n ≤ length w → length (take n w) ≡ n
  length-take zero w h = refl
  length-take (suc n) [] h = absurd (omega arith)
  length-take (suc n) (x ∷ w) h = ap suc (length-take n w (omega arith))

  -- The index of a buffer is in its array, or just behind it.
  abbrev IsValid : TrivialBuffer A → Type 0
  IsValid b = b.index ≤ length b.array

  push_back-room :
      (x : A) (b : TrivialBuffer A)
      → b.index < length b.array
      → push_back x b ≡ record { array = set b.array b.index x; index = suc b.index }
  unfolding push_back
  push_back-room x b h =
      let t : ltb b.index (length b.array) ≡ true = ground arith in
      let n : b.index + 1 ≡ suc b.index = omega arith in rw (t, n)

  push_back_full : (x : A) (b : TrivialBuffer A) → length b.array ≤ b.index → push_back x b ≡ b
  unfolding push_back
  push_back_full x b h = let f : ltb b.index (length b.array) ≡ false = ground arith in rw f

  pub format_to_lem :
      (xs : List A) (b : TrivialBuffer A)
      → IsValid b
      → written_data (format_to xs b) ≡ take (length b.array) (written_data b ++ xs)
  unfolding format_to written_data
  format_to_lem [] b v = sym (
      ap (take (length b.array)) (append-nil (take b.index b.array))
      ∙ take_all (length b.array) (take b.index b.array)
          (omega (arith, length-take b.index b.array v)))
  format_to_lem (x ∷ xs) b v = elim (dec_lt b.index (length b.array)) [
    | yes room ↦
        let b' : TrivialBuffer A = record { array = set b.array b.index x; index = suc b.index } in
        let kept = length-set b.array b.index x in
        ap (λ c. written_data (format_to xs c)) (push_back-room x b room)
        ∙ format_to_lem xs b' (omega (arith, kept))
        ∙ ap (λ n. take n (take (suc b.index) (set b.array b.index x) ++ xs)) kept
        ∙ ap (λ w. take (length b.array) (w ++ xs)) (take-set_self b.array b.index x room)
        ∙ ap (take (length b.array)) (append_assoc (take b.index b.array) (x ∷ []) xs)
    | no full ↦
        let w = take b.index b.array in
        let n : length w ≡ length b.array = omega (arith, length-take b.index b.array v) in
        ap (λ c. written_data (format_to xs c)) (push_back_full x b (omega arith))
        ∙ format_to_lem xs b v
        ∙ ap (λ k. take k (w ++ xs)) (sym n)
        ∙ take-append_full w xs
        ∙ sym (take-append_full w (x ∷ xs))
        ∙ ap (λ k. take k (w ++ (x ∷ xs))) n
  ]

  format_to-append :
      (xs ys : List A) (b : TrivialBuffer A)
      → format_to (xs ++ ys) b ≡ format_to ys (format_to xs b)
  unfolding format_to
  format_to-append [] ys b = refl
  format_to-append (x ∷ xs) ys b = format_to-append xs ys (push_back x b)

-- The line as far as it fits, its end included.
pub written_data-log_buffer :
    (memory before line : Text)
    → written_data (log_buffer memory before line)
      ≡ take (length memory) (before ++ (line ++ codes "\n"))
unfolding log_buffer
written_data-log_buffer memory before line =
    let b : TrivialBuffer ℕ = record { array = memory; index = 0 } in
    ap written_data (
      sym (format_to-append line (codes "\n") (format_to before b))
      ∙ sym (format_to-append before (line ++ codes "\n") b))
    ∙ format_to_lem (before ++ (line ++ codes "\n")) b (omega arith)
    ∙ (unfold written_data in refl)
