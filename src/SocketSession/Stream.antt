-- ===== src/SocketSession/Stream.antt =====
-- The bytes that arrive at a session, on their way through the ring buffer to the callback.
use moboware.Base.{
  ℕ, zero, suc, ◌≤◌, Bool, true, false, Option, none, some, List, [], ◌∷◌, ◌++◌, ◌≡◌, ◌∙◌, refl, ap,
  sym, length, take, drop, min, ltb, arith, append_assoc, append-nil, if◌then◌else◌, inl, inr,
  Bool-cases, ◌>>=◌, ap₂,
}
use moboware.RingBuffer.{RingBuffer, write_with, read_with, flush}
use moboware.RingBuffer.Contents.{IsValid, contents, pointer_diff_le}
use moboware.RingBuffer.Reading.{read_with-contents, read_with_step}
use moboware.SocketSession.{SocketSession, read_buffer, readable, on_data_read, read_data}
use moboware.SocketSession.Writing.{Writes, write_with-Writes}

take-append-drop {ℓ} : {A : Type ℓ} (k : ℕ) (xs : List A) → take k xs ++ drop k xs ≡ xs
take-append-drop zero xs = refl
take-append-drop (suc k) [] = refl
take-append-drop (suc k) (x ∷ xs) = ap (◌∷◌ x) (take-append-drop k xs)

length-take-le {ℓ} : {A : Type ℓ} (k : ℕ) (xs : List A) → length (take k xs) ≤ k
length-take-le zero xs = omega arith
length-take-le (suc k) [] = omega arith
length-take-le (suc k) (x ∷ xs) = omega (arith, length-take-le k xs)

take-length-take {ℓ} : {A : Type ℓ} (k : ℕ) (xs : List A) → take k xs ≡ take (length (take k xs)) xs
take-length-take zero xs = refl
take-length-take (suc k) [] = refl
take-length-take (suc k) (x ∷ xs) = ap (◌∷◌ x) (take-length-take k xs)

readable-contents : (r : RingBuffer ℕ) → IsValid r → readable r ≡ contents r
unfolding readable
readable-contents r valid =
    ap (λ n. take n (drop r.read_buffer r.buffer))
      (pointer_diff_le r.write_buffer r.read_buffer valid.0)

-- What the callback has, what the buffer holds and what the socket holds, in this order.
abbrev pub stream : SocketSession → List ℕ
stream s = s.taken ++ (contents s.receive_buffer ++ s.incoming)

-- A session whose stream is the same, and whose buffer is in order.
abbrev pub Keeps : SocketSession → SocketSession → Type 0
Keeps s s' =
    (stream s' ≡ stream s)
    × IsValid s'.receive_buffer
    × (length s'.receive_buffer.buffer ≡ length s.receive_buffer.buffer)

-- The first bytes of the socket, and how many.
pub read_buffer_lem :
    (amount : Option ℕ) (incoming : List ℕ) (n : ℕ)
    → let got = read_buffer amount incoming n in
      (got ≡ (got.0, length got.0)) × (length got.0 ≤ n) × (got.0 ++ drop got.1 incoming ≡ incoming)
unfolding read_buffer
read_buffer_lem none incoming n = (refl, omega arith, refl)
read_buffer_lem (some k) incoming n =
    let m = min k n in
    (
      refl,
      omega (arith, length-take-le m incoming),
      ap (λ xs. xs ++ drop (length (take m incoming)) incoming) (take-length-take m incoming)
          ∙ take-append-drop (length (take m incoming)) incoming,
    )

flush-buffer : (k : ℕ) (r : RingBuffer ℕ) → (flush k r).buffer ≡ r.buffer
unfolding flush
flush-buffer k r = ground arith

module _ (handle : List ℕ → ℕ → ℕ) where
  -- The callback takes no more than it is shown.
  abbrev pub IsModest : Type 0
  IsModest = (xs : List ℕ) → handle xs (length xs) ≤ length xs

  read_with-length :
      (r : RingBuffer ℕ) → IsValid r → length (read_with handle r).1.buffer ≡ length r.buffer
  read_with-length r valid =
      let k = handle (contents r) (length (contents r)) in
      elim (Bool-cases (ltb 0 k)) [
        | inl some_read ↦
            rw (read_with_step handle r valid, some_read) (ap length (flush-buffer k r))
        | inr none_read ↦ rw (read_with_step handle r valid, none_read) refl
      ]

  on_data_read-Keeps :
      (s : SocketSession) → IsModest → IsValid s.receive_buffer → Keeps s (on_data_read handle s)
  unfolding on_data_read
  on_data_read-Keeps s modest valid =
      let r = s.receive_buffer in
      let c = contents r in
      let k = handle c (length c) in
      let (done, left, now_valid) = read_with-contents handle r valid (modest c) in
      (
        ap₂ (λ b rest. (s.taken ++ take (handle b (length b)) b) ++ (rest ++ s.incoming))
              (readable-contents r valid) left
            ∙ append_assoc s.taken (take k c) (drop k c ++ s.incoming)
            ∙ ap (◌++◌ s.taken) (
                sym (append_assoc (take k c) (drop k c) s.incoming)
                ∙ ap (λ xs. xs ++ s.incoming) (take-append-drop k c)),
        now_valid,
        read_with-length r valid,
      )

  Keeps-trans : (s t u : SocketSession) → Keeps s t → Keeps t u → Keeps s u
  Keeps-trans s t u p q = (q.0 ∙ p.0, q.1, q.2 ∙ p.2)

  -- What the handler does that returns.
  abbrev pub KeepsOf : SocketSession → Option SocketSession → Type 0
  KeepsOf s none = Unit
  KeepsOf s (some s') = Keeps s s'

  -- What is left of `ReadData` once `WriteBuffer` has returned.
  after_write : SocketSession → ℕ → Option (Bool × RingBuffer ℕ) → Option SocketSession
  after_write s got r = do
    (written, buffer) ← r
    some (
        if written
        then on_data_read handle
            (record s { receive_buffer = buffer; incoming = drop got s.incoming })
        else record s { receive_buffer = buffer })

  after_write-KeepsOf :
      (s : SocketSession) (got : List ℕ) (n : ℕ) (r : Option (Bool × RingBuffer ℕ))
      → IsModest
      → got ++ drop n s.incoming ≡ s.incoming
      → Writes got s.receive_buffer r
      → KeepsOf s (after_write s n r)
  unfolding after_write
  after_write-KeepsOf s got n none modest e w = tt
  after_write-KeepsOf s got n (some (true, buffer)) modest e (more, valid, size) =
      let s' : SocketSession = record s { receive_buffer = buffer; incoming = drop n s.incoming } in
      Keeps-trans s s' (on_data_read handle s')
        (
          ap (λ c. s.taken ++ (c ++ drop n s.incoming)) more
              ∙ ap (◌++◌ s.taken) (
                  append_assoc (contents s.receive_buffer) got (drop n s.incoming)
                  ∙ ap (◌++◌ (contents s.receive_buffer)) e),
          valid,
          size,
        )
        (on_data_read-Keeps s' modest valid)
  after_write-KeepsOf s got n (some (false, buffer)) modest e (same, valid, size) = (
    ap (λ c. s.taken ++ (c ++ s.incoming)) (same ∙ append-nil (contents s.receive_buffer)),
    valid,
    size,
  )

  pub read_data-KeepsOf :
      (amount : Option ℕ) (s : SocketSession)
      → IsModest
      → IsValid s.receive_buffer
      → KeepsOf s (read_data handle amount s)
  unfolding read_data after_write
  read_data-KeepsOf amount s modest valid =
      let n = length s.incoming in
      let got = read_buffer amount s.incoming n in
      let (pair, fits, first) = read_buffer_lem amount s.incoming n in
      elim (Bool-cases (ltb 0 n)) [
        | inr nothing ↦ rw nothing (refl, valid, refl)
        | inl waiting ↦ rw waiting (
            after_write-KeepsOf s got.0 got.1
              (write_with (read_buffer amount s.incoming) n s.receive_buffer) modest first
              (write_with-Writes (read_buffer amount s.incoming) got.0 n s.receive_buffer pair fits
                valid))
      ]
