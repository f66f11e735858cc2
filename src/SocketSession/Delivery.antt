-- ===== src/SocketSession/Delivery.antt =====
-- A callback that takes everything it is shown; and a socket that holds more than the buffer.
use moboware.Base.{
  ℕ, take, ◌+◌, ◌-◌, ◌<◌, true, Option, some, List, [], ◌∷◌, ◌++◌, ◌≡◌, ◌∙◌, refl, ap, sym, subst,
  length, ltb, arith, append_assoc, append-nil, inl, inr, Bool-cases, drop, length-append,
}
use moboware.RingBuffer.{RingBuffer, write_with, flush}
use moboware.RingBuffer.Contents.{IsValid, contents, get_write_buffer_full}
use moboware.RingBuffer.Reading.{read_with_step}
use moboware.RingBuffer.Windows.{length-window}
use moboware.SocketSession.{
  SocketSession, SocketEvent, arrive, ready, new_session, read_buffer, on_data_read, read_data,
  socket_step, run_session,
}
use moboware.SocketSession.Writing.{AtStart, write_with-Writes, Writes, write_with-Returns}
use moboware.SocketSession.Stream.{IsModest, Keeps, KeepsOf, read_data-KeepsOf, read_buffer_lem}

-- What arrives, in its order.
unfoldable pub arrived : List SocketEvent → List ℕ
arrived [] = []
arrived (arrive bytes ∷ es) = bytes ++ arrived es
arrived (ready amount ∷ es) = arrived es

flush_all : (k : ℕ) (r : RingBuffer ℕ) → r.read_buffer + k ≡ r.write_buffer → AtStart (flush k r)
unfolding flush
flush_all k r h = ground arith

module _ (handle : List ℕ → ℕ → ℕ)
    (takes_all : (xs : List ℕ) → handle xs (length xs) ≡ length xs) where
  modest : IsModest handle
  modest xs = omega (arith, takes_all xs)

  on_data_read-AtStart :
      (s : SocketSession)
      → IsValid s.receive_buffer
      → 0 < length (contents s.receive_buffer)
      → AtStart (on_data_read handle s).receive_buffer
  unfolding on_data_read
  on_data_read-AtStart s valid h =
      let r = s.receive_buffer in
      let n =
        length-window r.read_buffer (r.write_buffer - r.read_buffer) r.buffer
          (omega (arith, valid.0, valid.1)) in
      let k = takes_all (contents r) in
      let t : ltb 0 (handle (contents r) (length (contents r))) ≡ true = ground (arith, k) in
      rw (read_with_step handle r valid, t)
        (flush_all (handle (contents r) (length (contents r))) r (omega (arith, n, k, valid.0)))

  read_data-returns :
      (amount : Option ℕ) (s : SocketSession)
      → AtStart s.receive_buffer
      → (s' : SocketSession) × (read_data handle amount s ≡ some s') × AtStart s'.receive_buffer
  unfolding read_data
  read_data-returns amount s start =
      let n = length s.incoming in
      let r = s.receive_buffer in
      let f = read_buffer amount s.incoming in
      let got = f n in
      let (pair, fits, first) = read_buffer_lem amount s.incoming n in
      let valid : IsValid r = (omega (arith, start.0, start.1), omega (arith, start.0)) in
      let (r', returned) = write_with-Returns f got.0 n r pair fits start in
      elim (Bool-cases (ltb 0 n)) [
        | inr nothing ↦ (s, rw nothing refl, start)
        | inl waiting ↦ elim returned [
          | inl (e, still) ↦ (record s { receive_buffer = r' }, rw (waiting, e) refl, still)
          | inr (e, more) ↦
              let written : Writes got.0 r (some (true, r')) =
                subst (Writes got.0 r) e (write_with-Writes f got.0 n r pair fits valid) in
              let s' : SocketSession = record s {
                receive_buffer = r';
                incoming = drop got.1 s.incoming;
              } in
              (
                on_data_read handle s',
                rw (waiting, e) refl,
                on_data_read-AtStart s' written.1
                    (omega (arith, ap length written.0, length-append (contents r) got.0)),
              )
        ]
      ]

  contents-AtStart : (r : RingBuffer ℕ) → AtStart r → contents r ≡ []
  contents-AtStart r (w, e) =
      let z : r.write_buffer - r.read_buffer ≡ 0 = omega arith in
      ap (λ n. take n (drop r.read_buffer r.buffer)) z

  run_session_from :
      (es : List SocketEvent) (s : SocketSession)
      → AtStart s.receive_buffer
      → (s' : SocketSession) × (run_session handle es s ≡ some s')
        × (s'.taken ++ s'.incoming ≡ (s.taken ++ s.incoming) ++ arrived es)
        × AtStart s'.receive_buffer
  unfolding run_session socket_step arrived
  run_session_from [] s start = (s, refl, sym (append-nil (s.taken ++ s.incoming)), start)
  run_session_from (arrive bytes ∷ es) s start =
      let s1 : SocketSession = record s { incoming = s.incoming ++ bytes } in
      let (s', e, same, still) = run_session_from es s1 start in
      (
        s',
        e,
        same
            ∙ ap (λ xs. xs ++ arrived es) (sym (append_assoc s.taken s.incoming bytes))
            ∙ append_assoc (s.taken ++ s.incoming) bytes (arrived es),
        still,
      )
  run_session_from (ready amount ∷ es) s start =
      let r = s.receive_buffer in
      let valid : IsValid r = (omega (arith, start.0, start.1), omega (arith, start.0)) in
      let (s1, e1, start1) = read_data-returns amount s start in
      let (s', e, same, still) = run_session_from es s1 start1 in
      let kept : Keeps s s1 =
        subst (KeepsOf handle s) e1 (read_data-KeepsOf handle amount s modest valid) in
      let whole : s1.taken ++ s1.incoming ≡ s.taken ++ s.incoming =
        ap (λ c. s1.taken ++ (c ++ s1.incoming)) (sym (contents-AtStart s1.receive_buffer start1))
        ∙ kept.0
        ∙ ap (λ c. s.taken ++ (c ++ s.incoming)) (contents-AtStart r start) in
      (s', rw e1 e, same ∙ ap (λ xs. xs ++ arrived es) whole, still)

  -- With a callback that takes everything it is shown, a new session never runs into undefined
  -- behaviour, whatever arrives and however much each read yields: what the callback has taken and
  -- what is still in the socket are together what arrived, in its order, and the ring buffer is empty.
  pub run_session-arrived :
      (array : List ℕ) (es : List SocketEvent)
      → (s : SocketSession) × (run_session handle es (new_session array) ≡ some s)
        × (s.taken ++ s.incoming ≡ arrived es)
        × (contents s.receive_buffer ≡ [])
  unfolding new_session
  run_session-arrived array es =
      let (s, e, same, start) = run_session_from es (new_session array) (refl, refl) in
      (s, e, same, contents-AtStart s.receive_buffer start)

read_data_stalls :
    (handle : List ℕ → ℕ → ℕ) (amount : Option ℕ) (s : SocketSession)
    → IsValid s.receive_buffer
    → length s.receive_buffer.buffer < length s.incoming
    → read_data handle amount s ≡ some s
unfolding read_data write_with
read_data_stalls handle amount s valid more =
    let t : ltb 0 (length s.incoming) ≡ true = ground arith in
    rw
      (
        t,
        get_write_buffer_full (length s.incoming) s.receive_buffer valid
            (omega (arith, valid.0, valid.1)),
      )
      refl

-- A session whose ring buffer is in order, and whose socket holds more bytes than the buffer is long:
-- whatever arrives and however often the socket is ready, the callback takes nothing any more, and the
-- buffer stays as it is.
pub run_session_stalls :
    (handle : List ℕ → ℕ → ℕ) (es : List SocketEvent) (s : SocketSession)
    → IsValid s.receive_buffer
    → length s.receive_buffer.buffer < length s.incoming
    → run_session handle es s ≡ some (record s { incoming = s.incoming ++ arrived es })
unfolding run_session socket_step arrived
run_session_stalls handle [] s valid more =
    ap (λ xs. some (record s { incoming = xs })) (sym (append-nil s.incoming))
run_session_stalls handle (arrive bytes ∷ es) s valid more =
    let s' : SocketSession = record s { incoming = s.incoming ++ bytes } in
    run_session_stalls handle es s' valid (omega (arith, length-append s.incoming bytes))
    ∙ ap (λ xs. some (record s { incoming = xs })) (append_assoc s.incoming bytes (arrived es))
run_session_stalls handle (ready amount ∷ es) s valid more =
    rw (read_data_stalls handle amount s valid more) (run_session_stalls handle es s valid more)
