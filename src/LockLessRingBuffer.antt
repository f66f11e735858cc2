-- ===== src/LockLessRingBuffer.antt =====
-- src/lib/common/include/common/lock_less_ring_buffer.h: a queue in an array with 16-bit counters of what
-- was pushed and popped. Each call is modelled as a whole; `fill_slot` and `read_slot` are what a call
-- does after its check, which other threads may come between. queueLength is the length of the array.
pub mod Fifo
pub mod Calls
pub mod Overrun
mod Tests
use moboware.Base.{
  ℕ, ◌+◌, ◌-◌, ◌%◌, ◌^◌, Bool, true, false, Option, none, some, List, length, get_elem?, set, ltb,
  nat_beq, if◌then◌else◌,
}

pub record LockLessRingBuffer (A : Type 0) : Type 0 where
  pub head : ℕ
  pub tail : ℕ
  pub queue : List A

module _ {A : Type 0} where
  -- The counters of a new buffer are 0; its array may hold anything.
  unfoldable pub new_lock_less : List A → LockLessRingBuffer A
  new_lock_less array = record { head = 0; tail = 0; queue = array }

  -- The difference of the counters, as a 16-bit number.
  unfoldable pub size : LockLessRingBuffer A → ℕ
  size b = (b.head + (2 ^ 16 - b.tail)) % 2 ^ 16

  unfoldable pub capacity : LockLessRingBuffer A → ℕ
  capacity b = length b.queue

  unfoldable pub has_space : LockLessRingBuffer A → Bool
  unfolding size capacity
  has_space b = ltb (size b) (capacity b)

  -- The difference is taken as an int here.
  unfoldable pub is_drained : LockLessRingBuffer A → Bool
  is_drained b = nat_beq b.head b.tail

  -- `Push` after its check: it takes the slot at the head, and the function fills it and may fail.
  unfoldable pub fill_slot : (A → ℕ → A × Bool) → LockLessRingBuffer A → Bool × LockLessRingBuffer A
  fill_slot f b =
      let position = b.head % length b.queue in
      elim (get_elem? b.queue position) [
        | none ↦ (false, b)
        | some slot ↦
            let (slot', filled) = f slot position in
            (filled, record b { head = (b.head + 1) % 2 ^ 16; queue = set b.queue position slot' })
      ]

  unfoldable pub push : (A → ℕ → A × Bool) → LockLessRingBuffer A → Bool × LockLessRingBuffer A
  unfolding has_space fill_slot
  push f b = let pushed = fill_slot f b in if has_space b then pushed else (false, b)

module _ {A S : Type 0} where
  -- `Pop` after its check: it takes the slot at the tail, and the function reads it.
  unfoldable pub read_slot :
      (A → S → S) → LockLessRingBuffer A → S → (Bool × S) × LockLessRingBuffer A
  read_slot f b s = elim (get_elem? b.queue (b.tail % length b.queue)) [
    | none ↦ ((true, s), b)
    | some slot ↦ ((true, f slot s), record b { tail = (b.tail + 1) % 2 ^ 16 })
  ]

  unfoldable pub pop : (A → S → S) → LockLessRingBuffer A → S → (Bool × S) × LockLessRingBuffer A
  unfolding is_drained read_slot
  pop f b s = let popped = read_slot f b s in if is_drained b then ((false, s), b) else popped
