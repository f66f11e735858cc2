-- ===== src/CircularBuffer/Visits.antt =====
-- The elements that `Loop` visits, oldest first, and what `Add` does to them.
use moboware.Base.{
  ℕ, zero, suc, ◌+◌, ◌-◌, ◌%◌, ◌^◌, ◌≤◌, ◌<◌, min, true, false, none, some, List, [], ◌∷◌, ◌++◌,
  ◌≡◌, ◌≢◌, ◌∙◌, refl, ap, ap₂, sym, arith, length-set, get_elem?-set_self, get_elem?-set_ne,
  get_elem?_in, length, get_elem?, set, drop, ltb, if◌then◌else◌, dec_lt,
}
use native.Mathlib.Nat.{
  mod-add-mod, mod-eq_of_lt, mod-eq-sub-mod, mod-lt, mod-mod, mod_self, zero-mod,
}
use moboware.CircularBuffer.{CircularBuffer, add, queue_size}

module _ {A : Type 0} where
  -- The `n` elements from index `i` on, going round at the end of the array.
  unfoldable pub visited : List A → ℕ → ℕ → List A
  visited q zero i = []
  visited q (suc n) i = elim (get_elem? q (i % length q)) [
    | none ↦ []
    | some x ↦ x ∷ visited q n (i + 1)
  ]

mod_next : (i j m : ℕ) → i % m ≡ j % m → (i + 1) % m ≡ (j + 1) % m
mod_next i j m h = sym (mod-add-mod i m 1) ∙ ap (λ r. (r + 1) % m) h ∙ mod-add-mod j m 1

-- Fewer than `m` steps round an array do not come back to where they started.
add-mod-ne : (m i k : ℕ) → suc k < m → (i + suc k) % m ≢ i % m
add-mod-ne m i k h = grind arith

module _ {A : Type 0} where
  pub visited-suc :
      (q : List A) (n i : ℕ) (x : A)
      → get_elem? q (i % length q) ≡ some x
      → visited q (suc n) i ≡ x ∷ visited q n (i + 1)
  unfolding visited
  visited-suc q n i x e = ground (arith)

  -- Only the rest of the index matters.
  pub visited-mod :
      (q : List A) (n i j : ℕ) → i % length q ≡ j % length q → visited q n i ≡ visited q n j
  unfolding visited
  visited-mod q zero i j h = refl
  visited-mod q (suc n) i j h =
      let e = mod_next i j (length q) h in
      rw (h, visited) (ground (arith, visited-mod q n (i + 1) (j + 1) e))

  get_elem?-set_at :
      (q : List A) (i j : ℕ) (x : A)
      → i % length q ≡ j % length q
      → 0 < length q
      → get_elem? (set q (j % length q) x) (i % length (set q (j % length q) x)) ≡ some x
  get_elem?-set_at q i j x e h =
      rw (length-set q (j % length q) x, e) (get_elem?-set_self q (j % length q) x (mod-lt j h))

  -- A write just behind the elements that are visited adds one to them.
  pub visited-set :
      (q : List A) (n i : ℕ) (x : A)
      → n < length q
      → visited (set q ((i + n) % length q) x) (suc n) i ≡ visited q n i ++ (x ∷ [])
  visited-set q zero i x h =
      visited-suc (set q ((i + 0) % length q) x) 0 i x
        (get_elem?-set_at q i (i + 0) x (ap (λ k. k % length q) (omega arith)) h)
      ∙ (unfold visited in refl)
  visited-set q (suc n) i x h =
      let m = length q in
      let at = (i + suc n) % m in
      let (y, there) = get_elem?_in q (i % m) (mod-lt i (omega arith)) in
      let kept : get_elem? (set q at x) (i % length (set q at x)) ≡ some y =
        rw (length-set q at x) (get_elem?-set_ne q at (i % m) x (add-mod-ne m i n h) ∙ there) in
      let same : i + suc n ≡ i + 1 + n = omega arith in
      visited-suc (set q at x) (suc n) i y kept
      ∙ ap (◌∷◌ y) (
          ap (λ k. visited (set q (k % m) x) (suc n) (i + 1)) same
          ∙ visited-set q n (i + 1) x (omega arith))
      ∙ ap (λ l. l ++ (x ∷ [])) (sym (visited-suc q n i y there))

  pub length-visited : (q : List A) (n i : ℕ) → 0 < length q → length (visited q n i) ≡ n
  length-visited q zero i h = unfold visited in refl
  length-visited q (suc n) i h =
      let (x, there) = get_elem?_in q (i % length q) (mod-lt i h) in
      rw (visited-suc q n i x there) (ap suc (length-visited q n (i + 1) h))

  -- The array has room; the start index follows the end index once the array is full.
  pub record IsValid (b : CircularBuffer A) : Type 0 where
    pub room : 0 < length b.ring_queue
    pub filling : b.end_index ≤ length b.ring_queue → b.start_index ≡ 0
    pub full : length b.ring_queue < b.end_index → b.start_index ≡ b.end_index % length b.ring_queue

  -- What `Loop` visits.
  abbrev pub contents : CircularBuffer A → List A
  contents b = visited b.ring_queue (queue_size b) b.start_index

  pub queue_size-min :
      (b : CircularBuffer A) → IsValid b → queue_size b ≡ min b.end_index (length b.ring_queue)
  unfolding queue_size
  queue_size-min b v = ground (arith, v.filling)

  start_full :
      (b : CircularBuffer A)
      → IsValid b
      → length b.ring_queue ≤ b.end_index
      → b.start_index % length b.ring_queue ≡ b.end_index % length b.ring_queue
  start_full b v h = elim (dec_lt (length b.ring_queue) b.end_index) [
    | yes beyond ↦ rw (v.full beyond) (mod-mod b.end_index (length b.ring_queue))
    | no upto ↦
        let at_end : b.end_index ≡ length b.ring_queue = omega arith in
        rw (v.filling (omega arith), at_end, mod_self) (zero-mod (length b.ring_queue))
  ]

  start_behind :
      (b : CircularBuffer A)
      → IsValid b
      → b.start_index % length b.ring_queue
        ≡ (b.end_index - length b.ring_queue) % length b.ring_queue
  start_behind b v = elim (dec_lt b.end_index (length b.ring_queue)) [
    | yes below ↦
        let none_over : b.end_index - length b.ring_queue ≡ 0 = omega arith in
        rw (v.filling (omega arith), none_over) refl
    | no over ↦ start_full b v (omega arith) ∙ mod-eq-sub-mod (omega arith)
  ]

  contents_at :
      (b : CircularBuffer A)
      → IsValid b
      → contents b
        ≡ visited b.ring_queue
            (min b.end_index (length b.ring_queue))
            (b.end_index - length b.ring_queue)
  contents_at b v =
      ap₂ (λ n i. visited b.ring_queue n i) (queue_size-min b v) refl
      ∙ visited-mod b.ring_queue (min b.end_index (length b.ring_queue)) b.start_index
          (b.end_index - length b.ring_queue) (start_behind b v)

  add-IsValid :
      (x : A) (b : CircularBuffer A) → IsValid b → b.end_index + 1 < 2 ^ 64 → IsValid (add x b).1
  unfolding add
  add-IsValid x b v small =
      let m = length b.ring_queue in
      let kept = length-set b.ring_queue (b.end_index % m) x in
      let next : (b.end_index + 1) % 2 ^ 64 ≡ b.end_index + 1 = mod-eq_of_lt small in
      let stay : length b.ring_queue < b.end_index + 1
          → (b.start_index + 1) % m ≡ (b.end_index + 1) % m =
        λ h. mod_next b.start_index b.end_index m (start_full b v (omega arith)) in
      rw next (record {
        room = omega (arith, v.room, kept);
        filling = λ h. ground (arith, v.filling, kept);
        full = rw kept (λ h. ground (arith, stay h));
      })

  visited_below :
      (q : List A) (e : ℕ) (x : A)
      → e < length q
      → visited (set q (e % length q) x) (min (e + 1) (length q)) (e + 1 - length q)
        ≡ visited q (min e (length q)) (e - length q) ++ (x ∷ [])
  visited_below q e x h =
      let m = length q in
      let n : min (e + 1) m ≡ suc e = omega arith in
      let n' : min e m ≡ e = omega arith in
      let i : e + 1 - m ≡ 0 = omega arith in
      let i' : e - m ≡ 0 = omega arith in
      rw (n, n', i, i')
        (ap (λ k. visited (set q (k % m) x) (suc e) 0) (let p : e ≡ 0 + e = omega arith in p)
          ∙ visited-set q e 0 x h)

  visited_over :
      (q : List A) (e : ℕ) (x : A)
      → 0 < length q
      → length q ≤ e
      → visited (set q (e % length q) x) (min (e + 1) (length q)) (e + 1 - length q)
        ≡ drop 1 (visited q (min e (length q)) (e - length q)) ++ (x ∷ [])
  visited_over q e x room h =
      let m = length q in
      let n : min (e + 1) m ≡ suc (m - 1) = omega arith in
      let n' : min e m ≡ suc (m - 1) = omega arith in
      let i : e + 1 - m ≡ e - m + 1 = omega arith in
      let p : e ≡ e - m + 1 + (m - 1) = omega arith in
      let (y, there) = get_elem?_in q ((e - m) % m) (mod-lt (e - m) room) in
      rw (n, n', i, visited-suc q (m - 1) (e - m) y there)
        (ap (λ k. visited (set q (k % m) x) (suc (m - 1)) (e - m + 1)) p
          ∙ visited-set q (m - 1) (e - m + 1) x (omega arith))

  -- `Add` forgets the oldest element of a full buffer, and adds the new one behind the others.
  pub add-contents :
      (x : A) (b : CircularBuffer A)
      → IsValid b
      → b.end_index + 1 < 2 ^ 64
      → IsValid (add x b).1
        × (contents (add x b).1
            ≡ (if ltb (queue_size b) (length b.ring_queue) then contents b else drop 1 (contents b))
              ++ (x ∷ []))
  add-contents x b v small =
      let v' = add-IsValid x b v small in
      let kept = length-set b.ring_queue (b.end_index % length b.ring_queue) x in
      let next : (b.end_index + 1) % 2 ^ 64 ≡ b.end_index + 1 = mod-eq_of_lt small in
      let after : contents (add x b).1
          ≡ visited (set b.ring_queue (b.end_index % length b.ring_queue) x)
              (min (b.end_index + 1) (length b.ring_queue))
              (b.end_index + 1 - length b.ring_queue) =
        contents_at (add x b).1 v' ∙ (unfold add in rw (next, kept)) in
      let size = queue_size-min b v in
      (
        v',
        after ∙ (elim (dec_lt b.end_index (length b.ring_queue)) [
          | yes below ↦
              let t : ltb (queue_size b) (length b.ring_queue) ≡ true = ground (arith, size) in
              rw t (
                visited_below b.ring_queue b.end_index x below
                ∙ ap (λ l. l ++ (x ∷ [])) (sym (contents_at b v)))
          | no over ↦
              let f : ltb (queue_size b) (length b.ring_queue) ≡ false = ground (arith, size) in
              rw f (
                visited_over b.ring_queue b.end_index x v.room (omega arith)
                ∙ ap (λ l. drop 1 l ++ (x ∷ [])) (sym (contents_at b v)))
        ]),
      )
