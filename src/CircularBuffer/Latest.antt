-- ===== src/CircularBuffer/Latest.antt =====
-- The buffer against the list of everything that was added.
use moboware.Base.{
  ℕ, zero, suc, ◌+◌, ◌-◌, ◌%◌, ◌^◌, ◌≤◌, ◌<◌, min, Bool, true, false, List, [], ◌∷◌, ◌++◌, ◌≡◌, ◌∙◌,
  refl, ap, sym, arith, length-set, get_elem?_in, length, drop, ltb, if◌then◌else◌, dec_lt,
  length-append, length-drop, append_assoc, append-nil,
}
use native.Mathlib.Nat.{mod-lt, mod-eq_of_lt}
use moboware.CircularBuffer.{CircularBuffer, new_circular, add, queue_size, loop_from, loop}
use moboware.CircularBuffer.Visits.{
  visited, visited-suc, length-visited, IsValid, contents, queue_size-min, add-contents,
}

-- The function called on the elements in turn, until it returns false.
unfoldable pub walk : {A S : Type 0} → (A → S → Bool × S) → List A → S → S
walk f [] s = s
walk f (x ∷ xs) s = let (more, s') = f x s in let rest = walk f xs s' in if more then rest else s'

module _ {A : Type 0} where
  -- The last `m` elements of a list.
  abbrev pub latest : ℕ → List A → List A
  latest m xs = drop (length xs - m) xs

  unfoldable pub add_all : List A → CircularBuffer A → CircularBuffer A
  add_all [] b = b
  add_all (x ∷ xs) b = add_all xs (add x b).1

  drop-append_le : (n : ℕ) (xs ys : List A) → n ≤ length xs → drop n (xs ++ ys) ≡ drop n xs ++ ys
  drop-append_le zero xs ys h = refl
  drop-append_le (suc n) [] ys h = absurd (omega arith)
  drop-append_le (suc n) (x ∷ xs) ys h = drop-append_le n xs ys (omega arith)

  drop-nil : (n : ℕ) → drop {A = A} n [] ≡ []
  drop-nil zero = refl
  drop-nil (suc n) = refl

  drop-drop : (n k : ℕ) (xs : List A) → drop n (drop k xs) ≡ drop (k + n) xs
  drop-drop n zero xs = let e : n ≡ 0 + n = omega arith in ap (λ j. drop j xs) e
  drop-drop n (suc k) [] = rw (drop-nil n, drop-nil (suc k + n))
  drop-drop n (suc k) (x ∷ xs) =
      let e : suc (k + n) ≡ suc k + n = omega arith in
      drop-drop n k xs ∙ ap (λ j. drop j (x ∷ xs)) e

  -- What is forgotten early is forgotten at the end.
  latest-append : (m : ℕ) (xs ys : List A) → latest m (latest m xs ++ ys) ≡ latest m (xs ++ ys)
  latest-append m xs ys =
      let d = length xs - m in
      let n : d + (length (drop d xs ++ ys) - m) ≡ length (xs ++ ys) - m =
        omega (arith, length-append (drop d xs) ys, length-append xs ys, length-drop d xs) in
      ap (λ l. drop (length (drop d xs ++ ys) - m) l) (sym (drop-append_le d xs ys (omega arith)))
      ∙ drop-drop (length (drop d xs ++ ys) - m) d (xs ++ ys)
      ∙ ap (λ j. drop j (xs ++ ys)) n

  latest-snoc :
      (m : ℕ) (xs : List A) (x : A)
      → length xs ≤ m
      → 0 < m
      → latest m (xs ++ (x ∷ [])) ≡ (if ltb (length xs) m then xs else drop 1 xs) ++ (x ∷ [])
  latest-snoc m xs x h room = elim (dec_lt (length xs) m) [
    | yes below ↦
        let n : length (xs ++ (x ∷ [])) - m ≡ 0 = omega (arith, length-append xs (x ∷ [])) in
        let t : ltb (length xs) m ≡ true = ground arith in rw (t, n) refl
    | no full ↦
        let n : length (xs ++ (x ∷ [])) - m ≡ 1 = omega (arith, length-append xs (x ∷ [])) in
        let f : ltb (length xs) m ≡ false = ground arith in
        rw (f, n) (drop-append_le 1 xs (x ∷ []) (omega arith))
  ]

  length-contents :
      (b : CircularBuffer A)
      → IsValid b
      → length (contents b) ≡ min b.end_index (length b.ring_queue)
  length-contents b v =
      length-visited b.ring_queue (queue_size b) b.start_index v.room ∙ queue_size-min b v

  add-latest :
      (x : A) (b : CircularBuffer A)
      → IsValid b
      → b.end_index + 1 < 2 ^ 64
      → contents (add x b).1 ≡ latest (length b.ring_queue) (contents b ++ (x ∷ []))
  add-latest x b v small =
      let n = length-contents b v in
      let size : queue_size b ≡ length (contents b) = queue_size-min b v ∙ sym n in
      (add-contents x b v small).1
      ∙ ap
          (λ k.
            (if ltb k (length b.ring_queue) then contents b else drop 1 (contents b)) ++ (x ∷ []))
          size
      ∙ sym (latest-snoc (length b.ring_queue) (contents b) x (omega (arith, n)) v.room)

  ring-add : (x : A) (b : CircularBuffer A) → length (add x b).1.ring_queue ≡ length b.ring_queue
  unfolding add
  ring-add x b = length-set b.ring_queue (b.end_index % length b.ring_queue) x

  end-add :
      (x : A) (b : CircularBuffer A)
      → b.end_index + 1 < 2 ^ 64
      → (add x b).1.end_index ≡ b.end_index + 1
  unfolding add
  end-add x b small = mod-eq_of_lt small

  add_all-latest :
      (xs : List A) (b : CircularBuffer A)
      → IsValid b
      → b.end_index + length xs < 2 ^ 64
      → contents (add_all xs b) ≡ latest (length b.ring_queue) (contents b ++ xs)
  unfolding add_all
  add_all-latest [] b v small =
      let n = length-contents b v in
      let none_over : length (contents b) - length b.ring_queue ≡ 0 = omega (arith, n) in
      rw (append-nil (contents b), none_over) refl
  add_all-latest (x ∷ xs) b v small =
      let m = length b.ring_queue in
      let one : b.end_index + 1 < 2 ^ 64 = omega arith in
      let rest =
        add_all-latest xs (add x b).1 (add-contents x b v one).0 (omega (arith, end-add x b one)) in
      rest
      ∙ ap (λ k. latest k (contents (add x b).1 ++ xs)) (ring-add x b)
      ∙ ap (λ l. latest m (l ++ xs)) (add-latest x b v one)
      ∙ latest-append m (contents b ++ (x ∷ [])) xs
      ∙ ap (latest m) (append_assoc (contents b) (x ∷ []) xs)

  ring-add_all :
      (xs : List A) (b : CircularBuffer A) → length (add_all xs b).ring_queue ≡ length b.ring_queue
  unfolding add_all
  ring-add_all [] b = refl
  ring-add_all (x ∷ xs) b = ring-add_all xs (add x b).1 ∙ ring-add x b

  new_circular-IsValid : (array : List A) → 0 < length array → IsValid (new_circular array)
  unfolding new_circular
  new_circular-IsValid array h = record {
    room = h;
    filling = λ _. refl;
    full = λ beyond. absurd (omega arith);
  }

  contents-new_circular : (array : List A) → 0 < length array → contents (new_circular array) ≡ []
  contents-new_circular array h =
      let v = new_circular-IsValid array h in
      let none_yet : queue_size (new_circular array) ≡ 0 =
        queue_size-min (new_circular array) v ∙ (unfold new_circular in omega arith) in
      rw none_yet (unfold visited in refl)

module _ {A S : Type 0} where
  loop_from-walk :
      (f : A → S → Bool × S) (q : List A) (n i : ℕ) (s : S)
      → 0 < length q
      → loop_from f q n i s ≡ walk f (visited q n i) s
  unfolding loop_from walk
  loop_from-walk f q zero i s h = unfold loop_from visited walk in refl
  loop_from-walk f q (suc n) i s h =
      let (x, there) = get_elem?_in q (i % length q) (mod-lt i h) in
      rw (visited-suc q n i x there, loop_from, there, walk)
        (ap (λ rest. if (f x s).0 then rest else (f x s).1)
          (loop_from-walk f q n (i + 1) (f x s).1 h))

  -- After fewer than 2 ^ 64 calls of `Add` on a new buffer with room, `Loop` calls the function on the
  -- last maxQueueSize elements that were added, the oldest first, until it returns false.
  pub loop-latest :
      (f : A → S → Bool × S) (array xs : List A) (s : S)
      → 0 < length array
      → length xs < 2 ^ 64
      → loop f (add_all xs (new_circular array)) s ≡ walk f (latest (length array) xs) s
  unfolding loop
  loop-latest f array xs s room small =
      let b = new_circular array in
      let end = add_all xs b in
      let v = new_circular-IsValid array room in
      let same = ring-add_all xs b in
      loop_from-walk f end.ring_queue (queue_size end) end.start_index s
        (unfold new_circular in omega (arith, same))
      ∙ ap (λ l. walk f l s) (add_all-latest xs b v (unfold new_circular in omega arith))
      ∙ ap (λ l. walk f (latest (length b.ring_queue) (l ++ xs)) s)
          (contents-new_circular array room)
      ∙ (unfold new_circular in refl)
