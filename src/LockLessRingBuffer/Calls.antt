-- ===== src/LockLessRingBuffer/Calls.antt =====
-- Sequences of calls of the buffer against a bounded queue.
use moboware.Base.{
  ℕ, ◌%◌, ◌^◌, ◌<◌, Bool, true, false, Option, none, some, List, [], ◌∷◌, ◌++◌, ◌≡◌, ◌∙◌, refl, ap,
  sym, arith, length, length-set, ltb, if◌then◌else◌, dec_lt,
}
use moboware.CircularBuffer.Visits.{visited, length-visited}
use moboware.LockLessRingBuffer.{
  LockLessRingBuffer, new_lock_less, size, has_space, is_drained, push, read_slot, pop, capacity,
}
use moboware.LockLessRingBuffer.Fifo.{
  IsValid, contents, store, copy, fill_slot-store, pushed_slot-contents, popped_slot-contents,
  is_drained-size,
}

-- A call of `Push` with a function that stores a value and reports whether it did, or of `Pop`.
pub data Call (A : Type 0) : Type 0 where
  push_call : A → Bool → Call A
  pop_call : Call A

-- What a call reports, and the value that it read.
abbrev pub Report : Type 0 → Type 0
Report A = Bool × Option A

module _ {A : Type 0} where
  unfoldable pub call : Call A → LockLessRingBuffer A → Report A × LockLessRingBuffer A
  unfolding push pop
  call (push_call x filled) b = let (done, b') = push (store x filled) b in ((done, none), b')
  call pop_call b = pop copy b none

  unfoldable pub run_calls : List (Call A) → LockLessRingBuffer A → List (Report A)
  unfolding call
  run_calls [] b = []
  run_calls (c ∷ cs) b = let (report, b') = call c b in report ∷ run_calls cs b'

  -- A queue that holds at most `room` values. A push whose function fails leaves its value all the same.
  unfoldable pub queue_call : ℕ → Call A → List A → Report A × List A
  queue_call room (push_call x filled) xs =
      if ltb (length xs) room then ((filled, none), xs ++ (x ∷ [])) else ((false, none), xs)
  queue_call room pop_call [] = ((false, none), [])
  queue_call room pop_call (x ∷ xs) = ((true, some x), xs)

  unfoldable pub run_queue : ℕ → List (Call A) → List A → List (Report A)
  unfolding queue_call
  run_queue room [] xs = []
  run_queue room (c ∷ cs) xs =
      let (report, xs') = queue_call room c xs in report ∷ run_queue room cs xs'

  -- A call does to the buffer what it does to the queue of its contents.
  abbrev Simulates : ℕ → Call A → LockLessRingBuffer A → Type 0
  Simulates room c b =
      IsValid (call c b).1
      × (length (call c b).1.queue ≡ room)
      × (((call c b).0, contents (call c b).1) ≡ queue_call room c (contents b))

  call-Simulates :
      (c : Call A) (b : LockLessRingBuffer A) → IsValid b → Simulates (length b.queue) c b
  unfolding call push queue_call has_space capacity pop read_slot
  call-Simulates (push_call x filled) b v =
      let n : length (contents b) ≡ size b = length-visited b.queue (size b) b.tail v.room in
      elim (dec_lt (size b) (length b.queue)) [
        | yes space ↦
            let t : ltb (size b) (length b.queue) ≡ true = ground arith in
            let after = pushed_slot-contents x b v space in
            rw (n, t, fill_slot-store x filled b v)
              (
                after.0,
                length-set b.queue (b.head % length b.queue) x,
                ap (λ l. ((filled, none), l)) after.1,
              )
        | no full ↦
            let f : ltb (size b) (length b.queue) ≡ false = ground arith in
            rw (n, f) (v, refl, refl)
      ]
  call-Simulates pop_call b v = elim (dec_lt 0 (size b)) [
    | yes more ↦
        let d : is_drained b ≡ false = is_drained-size b v ∙ ground arith in
        let after = popped_slot-contents b v more in
        let (x, there, c) = after.1 in
        rw (d, there, read_slot) (after.0, refl, sym (ap (queue_call (length b.queue) pop_call) c))
    | no drained ↦
        let z : size b ≡ 0 = omega arith in
        let d : is_drained b ≡ true = is_drained-size b v ∙ ground arith in
        let e : contents b ≡ [] = ap (λ n. visited b.queue n b.tail) z ∙ (unfold visited in refl) in
        rw (d, e) (v, refl, refl)
  ]

  run_calls_from-queue :
      (cs : List (Call A)) (b : LockLessRingBuffer A)
      → IsValid b
      → run_calls cs b ≡ run_queue (length b.queue) cs (contents b)
  unfolding run_calls run_queue
  run_calls_from-queue [] b v = refl
  run_calls_from-queue (c ∷ cs) b v =
      let (v', kept, same) = call-Simulates c b v in
      let rest = run_calls_from-queue cs (call c b).1 v' in
      ap (◌∷◌ (call c b).0) (rest ∙ ap (λ n. run_queue n cs (contents (call c b).1)) kept)
      ∙ ap (λ r. r.0 ∷ run_queue (length b.queue) cs r.1) same

  new_lock_less-IsValid :
      (array : List A)
      → 0 < length array
      → length array < 2 ^ 16
      → 2 ^ 16 % length array ≡ 0
      → IsValid (new_lock_less array)
  unfolding new_lock_less size
  new_lock_less-IsValid array room narrow multiple = record {
    room = room;
    multiple = multiple;
    narrow = narrow;
    head_small = omega arith;
    tail_small = omega arith;
    fits = omega arith;
  }

  -- On a new buffer whose length is above 0, below 2 ^ 16 and a divisor of it, any sequence of calls of
  -- Push and Pop, none of which overlap, reports what a queue of at most that length reports, in which a
  -- push whose function fails leaves its value all the same; however often the counters wrap.
  pub run_calls-run_queue :
      (array : List A) (cs : List (Call A))
      → 0 < length array
      → length array < 2 ^ 16
      → 2 ^ 16 % length array ≡ 0
      → run_calls cs (new_lock_less array) ≡ run_queue (length array) cs []
  unfolding new_lock_less size visited
  run_calls-run_queue array cs room narrow multiple =
      run_calls_from-queue cs (new_lock_less array)
        (new_lock_less-IsValid array room narrow multiple)
