-- ===== src/CircularBuffer.antt =====
-- src/lib/common/include/common/circular_buffer.hpp: an array in which each new value overwrites the
-- oldest one. maxQueueSize is the length of the array.
pub mod Visits
pub mod Latest
mod Tests
use moboware.Base.{
  ℕ, zero, suc, ◌+◌, ◌-◌, ◌%◌, ◌^◌, Bool, Option, none, some, List, length, get_elem?, set, ltb,
  if◌then◌else◌,
}

pub record CircularBuffer {ℓ} (A : Type ℓ) : Type ℓ where
  pub start_index : ℕ
  pub end_index : ℕ
  pub ring_queue : List A

module _ {ℓ} {A : Type ℓ} where
  -- A new buffer. The array is not initialised, so any array will do.
  unfoldable pub new_circular : List A → CircularBuffer A
  new_circular array = record { start_index = 0; end_index = 0; ring_queue = array }

  -- `Add`: the index that was written, and the buffer. The end index is a std::size_t.
  unfoldable pub add : A → CircularBuffer A → ℕ × CircularBuffer A
  add value b =
      let max = length b.ring_queue in
      let current = b.end_index % max in
      let end' = (b.end_index + 1) % 2 ^ 64 in
      (
        current,
        record {
          start_index = if ltb max end' then (b.start_index + 1) % max else b.start_index;
          end_index = end';
          ring_queue = set b.ring_queue current value;
        },
      )

  unfoldable pub queue_size : CircularBuffer A → ℕ
  queue_size b =
      if ltb (length b.ring_queue) b.end_index
      then length b.ring_queue
      else b.end_index - b.start_index

module _ {ℓ κ} {A : Type ℓ} {S : Type κ} where
  -- The rounds of `Loop` from the index `i`. The function may change its captures, and stops the loop by
  -- returning false.
  unfoldable pub loop_from : (A → S → Bool × S) → List A → ℕ → ℕ → S → S
  loop_from f q zero i s = s
  loop_from f q (suc n) i s = elim (get_elem? q (i % length q)) [
    | none ↦ s
    | some x ↦
        let (more, s') = f x s in let rest = loop_from f q n (i + 1) s' in if more then rest else s'
  ]

  unfoldable pub loop : (A → S → Bool × S) → CircularBuffer A → S → S
  unfolding queue_size loop_from
  loop f b s = loop_from f b.ring_queue (queue_size b) b.start_index s
