-- ===== src/LockLessRingBuffer/Overrun.antt =====
-- Two calls of `Push` that overlap: both make their check before one of them takes its slot.
use moboware.Base.{
  suc, ◌+◌, ◌%◌, ◌^◌, ◌<◌, Bool, true, some, ◌≡◌, ◌∙◌, ap, sym, arith, length, get_elem?, set,
  length-set, get_elem?-set_self, dec_lt,
}
use native.Mathlib.Nat.{mod-lt, add-mod_right}
use moboware.LockLessRingBuffer.{LockLessRingBuffer, size, has_space, fill_slot, capacity}
use moboware.LockLessRingBuffer.Fifo.{
  IsValid, store, fill_slot-store, pushed_slot-contents, pushed_slot, head_at, size-push,
}

module _ {A : Type 0} where
  -- What two overlapping calls do to the buffer after their checks.
  unfoldable pub fill_two : A → Bool → A → Bool → LockLessRingBuffer A → LockLessRingBuffer A
  unfolding fill_slot
  fill_two x filled y filled' b = (fill_slot (store y filled') (fill_slot (store x filled) b).1).1

  fill_two-pushed_slot :
      (x y : A) (filled filled' : Bool) (b : LockLessRingBuffer A)
      → IsValid b
      → size b < length b.queue
      → fill_two x filled y filled' b ≡ pushed_slot y (pushed_slot x b)
  unfolding fill_two
  fill_two-pushed_slot x y filled filled' b v h =
      ap (λ r. (fill_slot (store y filled') r.1).1) (fill_slot-store x filled b v)
      ∙ ap (λ r. r.1) (fill_slot-store y filled' (pushed_slot x b) (pushed_slot-contents x b v h).0)

  pushed_slot-size :
      (x : A) (b : LockLessRingBuffer A)
      → IsValid b
      → size b + 1 < 2 ^ 16
      → size (pushed_slot x b) ≡ suc (size b)
  unfolding size
  pushed_slot-size x b v h = size-push b.head b.tail v.head_small v.tail_small h

  not_last : (b : LockLessRingBuffer A) → IsValid b → length b.queue + 1 < 2 ^ 16
  not_last b v = elim (dec_lt (length b.queue + 1) (2 ^ 16)) [
    | yes below ↦ below
    | no above ↦
        let n : length b.queue ≡ 65535 = omega (arith, v.narrow) in
        let one : 2 ^ 16 % 65535 ≡ 0 = ap (λ k. 2 ^ 16 % k) (sym n) ∙ v.multiple in
        absurd (omega arith)
  ]

  pushed_full :
      (y : A) (b : LockLessRingBuffer A)
      → IsValid b
      → size b ≡ length b.queue
      → get_elem? (pushed_slot y b).queue (b.tail % length b.queue) ≡ some y
  pushed_full y b v full =
      let m = length b.queue in
      let at : b.head % m ≡ b.tail % m =
        head_at b v ∙ ap (λ n. (b.tail + n) % m) full ∙ add-mod_right b.tail m in
      ap (λ k. get_elem? (set b.queue k y) (b.tail % m)) at
      ∙ get_elem?-set_self b.queue (b.tail % m) y (mod-lt b.tail v.room)

  -- On a valid buffer with room for one value, two calls of Push that both make their check before one
  -- takes its slot: the buffer then says that it holds one value more than its capacity, and the slot at
  -- the tail, of the oldest value, holds the value of the second call.
  pub fill_two_overrun :
      (x y : A) (filled filled' : Bool) (b : LockLessRingBuffer A)
      → IsValid b
      → size b + 1 ≡ length b.queue
      → let b' : LockLessRingBuffer A = fill_two x filled y filled' b in
        (has_space b ≡ true)
        × (size b' ≡ capacity b + 1)
        × (get_elem? b'.queue (b'.tail % length b'.queue) ≡ some y)
  unfolding has_space capacity
  fill_two_overrun x y filled filled' b v one_left =
      let last = not_last b v in
      let b1 = pushed_slot x b in
      let v1 = (pushed_slot-contents x b v (omega arith)).0 in
      let n1 = pushed_slot-size x b v (omega arith) in
      let kept = length-set b.queue (b.head % length b.queue) x in
      let kept' = length-set b1.queue (b1.head % length b1.queue) y in
      let full : size b1 ≡ length b1.queue = omega arith in
      rw (fill_two-pushed_slot x y filled filled' b v (omega arith)) (
        ground arith,
        omega (arith, pushed_slot-size y b1 v1 (omega arith)),
        ap (λ n. get_elem? (pushed_slot y b1).queue (b.tail % n)) kept' ∙ pushed_full y b1 v1 full,
      )
