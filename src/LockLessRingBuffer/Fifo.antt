-- ===== src/LockLessRingBuffer/Fifo.antt =====
-- The slots of the buffer between its tail and its head, as a queue.
use moboware.Base.{
  ℕ, suc, ◌+◌, ◌-◌, ◌%◌, ◌^◌, ◌≤◌, ◌<◌, Bool, Option, some, List, [], ◌∷◌, ◌++◌, ◌≡◌, ◌∙◌, ap, sym,
  arith, length, get_elem?, get_elem?_in, set, length-set, nat_beq,
}
use native.Mathlib.Nat.{mod-lt, mod-mod_of_dvd, dvd_of_mod-eq-zero}
use moboware.CircularBuffer.Visits.{visited, visited-suc, visited-mod, visited-set}
use moboware.LockLessRingBuffer.{LockLessRingBuffer, size, is_drained, fill_slot}

-- The counters are 16-bit numbers no further apart than the array is long, and their wrap-around is at
-- a multiple of its length.
pub record IsValid {A : Type 0} (b : LockLessRingBuffer A) : Type 0 where
  pub room : 0 < length b.queue
  pub multiple : 2 ^ 16 % length b.queue ≡ 0
  pub narrow : length b.queue < 2 ^ 16
  pub head_small : b.head < 2 ^ 16
  pub tail_small : b.tail < 2 ^ 16
  pub fits : size b ≤ length b.queue

pub size-push :
    (h t : ℕ)
    → h < 2 ^ 16
    → t < 2 ^ 16
    → (h + (2 ^ 16 - t)) % 2 ^ 16 + 1 < 2 ^ 16
    → ((h + 1) % 2 ^ 16 + (2 ^ 16 - t)) % 2 ^ 16 ≡ suc ((h + (2 ^ 16 - t)) % 2 ^ 16)
size-push h t a b c = omega arith

size-pop :
    (h t : ℕ)
    → h < 2 ^ 16
    → t < 2 ^ 16
    → 0 < (h + (2 ^ 16 - t)) % 2 ^ 16
    → suc ((h + (2 ^ 16 - (t + 1) % 2 ^ 16)) % 2 ^ 16) ≡ (h + (2 ^ 16 - t)) % 2 ^ 16
size-pop h t a b c = omega arith

module _ {A : Type 0} where
  -- What was pushed and not popped, the oldest first.
  abbrev pub contents : LockLessRingBuffer A → List A
  contents b = visited b.queue (size b) b.tail

  wrap_mod : (q : List A) (i : ℕ) → 2 ^ 16 % length q ≡ 0 → i % 2 ^ 16 % length q ≡ i % length q
  wrap_mod q i h = mod-mod_of_dvd (length q) i (dvd_of_mod-eq-zero (length q) h)

  pub head_at :
      (b : LockLessRingBuffer A)
      → IsValid b
      → b.head % length b.queue ≡ (b.tail + size b) % length b.queue
  unfolding size
  head_at b v =
      let sum : b.head ≡ (b.tail + (b.head + (2 ^ 16 - b.tail)) % 2 ^ 16) % 2 ^ 16 =
        omega (arith, v.head_small, v.tail_small) in
      ap (λ k. k % length b.queue) sum
      ∙ wrap_mod b.queue (b.tail + (b.head + (2 ^ 16 - b.tail)) % 2 ^ 16) v.multiple

  pub size_full : (b : LockLessRingBuffer A) → IsValid b → size b < 2 ^ 16
  size_full b v = omega (arith, v.fits, v.narrow)

  -- The function that stores a value, and reports what it is told to.
  abbrev pub store : A → Bool → A → ℕ → A × Bool
  store x filled slot position = (x, filled)

  -- The function that copies the slot.
  abbrev pub copy : A → Option A → Option A
  copy slot s = some slot

  abbrev pub pushed_slot : A → LockLessRingBuffer A → LockLessRingBuffer A
  pushed_slot x b = record b {
    head = (b.head + 1) % 2 ^ 16;
    queue = set b.queue (b.head % length b.queue) x;
  }

  pub fill_slot-store :
      (x : A) (filled : Bool) (b : LockLessRingBuffer A)
      → IsValid b
      → fill_slot (store x filled) b ≡ (filled, pushed_slot x b)
  unfolding fill_slot
  fill_slot-store x filled b v =
      let (y, there) = get_elem?_in b.queue (b.head % length b.queue) (mod-lt b.head v.room) in
      rw (there, fill_slot)

  pub pushed_slot-contents :
      (x : A) (b : LockLessRingBuffer A)
      → IsValid b
      → size b < length b.queue
      → IsValid (pushed_slot x b) × (contents (pushed_slot x b) ≡ contents b ++ (x ∷ []))
  pushed_slot-contents x b v h =
      let kept = length-set b.queue (b.head % length b.queue) x in
      let grown : size (pushed_slot x b) ≡ suc (size b) =
        unfold size in
        size-push b.head b.tail v.head_small v.tail_small (omega (arith, v.narrow)) in
      (
        record {
          room = rw kept v.room;
          multiple = rw kept v.multiple;
          narrow = rw kept v.narrow;
          head_small = omega arith;
          tail_small = v.tail_small;
          fits = omega (arith, kept, grown);
        },
        ap (λ n. visited (set b.queue (b.head % length b.queue) x) n b.tail) grown
            ∙ ap (λ k. visited (set b.queue k x) (suc (size b)) b.tail) (head_at b v)
            ∙ visited-set b.queue (size b) b.tail x h,
      )

  abbrev pub popped_slot : LockLessRingBuffer A → LockLessRingBuffer A
  popped_slot b = record b { tail = (b.tail + 1) % 2 ^ 16 }

  pub popped_slot-contents :
      (b : LockLessRingBuffer A)
      → IsValid b
      → 0 < size b
      → IsValid (popped_slot b)
        × ((x : A) × (get_elem? b.queue (b.tail % length b.queue) ≡ some x)
            × (contents b ≡ x ∷ contents (popped_slot b)))
  popped_slot-contents b v h =
      let q = b.queue in
      let (x, there) = get_elem?_in q (b.tail % length q) (mod-lt b.tail v.room) in
      let shrunk : suc (size (popped_slot b)) ≡ size b =
        unfold size in size-pop b.head b.tail v.head_small v.tail_small (unfold size in h) in
      (
        record {
          room = v.room;
          multiple = v.multiple;
          narrow = v.narrow;
          head_small = v.head_small;
          tail_small = omega arith;
          fits = omega (arith, v.fits, shrunk);
        },
        (
          x,
          there,
          ap (λ n. visited q n b.tail) (sym shrunk)
              ∙ visited-suc q (size (popped_slot b)) b.tail x there
              ∙ ap (◌∷◌ x) (
                  visited-mod q (size (popped_slot b)) (b.tail + 1) ((b.tail + 1) % 2 ^ 16)
                    (sym (wrap_mod q (b.tail + 1) v.multiple))),
        ),
      )

  pub is_drained-size : (b : LockLessRingBuffer A) → IsValid b → is_drained b ≡ nat_beq (size b) 0
  unfolding is_drained size
  is_drained-size b v = grind (arith, v.head_small, v.tail_small)
