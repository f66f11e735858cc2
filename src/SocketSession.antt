-- ===== src/SocketSession.antt =====
-- src/lib/socket/include/socket: the read of socket_session_base.hpp over the ring buffer, with the read of
-- tcp_socket_session.hpp, where the bytes that are available are those that are read. The bytes that have
-- arrived at the socket and are not read yet are part of the state, and so are those that the callback has
-- taken. Connecting has `Accept` and `Connect` of the sessions over TCP and over SSL.
pub mod Connecting
pub mod Writing
pub mod Stream
pub mod Delivery
mod Tests
use moboware.Base.{
  ℕ, zero, suc, Bool, true, false, Option, none, some, List, [], ◌∷◌, ◌++◌, length, take, drop, min,
  ltb, if◌then◌else◌, ◌>>=◌,
}
use moboware.RingBuffer.{RingBuffer, new_buffer, write_with, read_with, get_read_buffer_size}

pub record SocketSession : Type 0 where
  pub receive_buffer : RingBuffer ℕ
  pub incoming : List ℕ
  pub taken : List ℕ

abbrev pub new_session : List ℕ → SocketSession
unfolding new_buffer
new_session array = record { receive_buffer = new_buffer array; incoming = []; taken = [] }

-- `ReadBuffer`: what `read_some` yields of the bytes that have arrived, and their number; an error yields
-- nothing.
unfoldable pub read_buffer : Option ℕ → List ℕ → ℕ → List ℕ × ℕ
read_buffer none incoming requested = ([], 0)
read_buffer (some amount) incoming requested =
    let got = take (min amount requested) incoming in (got, length got)

-- What `ReadBuffer` of the ring buffer shows to a function.
unfoldable pub readable : RingBuffer ℕ → List ℕ
unfolding get_read_buffer_size
readable r = take (get_read_buffer_size r) (drop r.read_buffer r.buffer)

-- `OnDataRead` of a callback that reads the buffer once; `handle` is how many bytes it takes.
unfoldable pub on_data_read : (List ℕ → ℕ → ℕ) → SocketSession → SocketSession
on_data_read handle s =
    let bytes = readable s.receive_buffer in
    let (done, buffer) = read_with handle s.receive_buffer in
    record s {
      receive_buffer = buffer;
      taken = s.taken ++ take (handle bytes (length bytes)) bytes;
    }

-- The handler of `ReadData` for a socket that can be read without an error. A read that fills nothing
-- in, or that finds no room, does not call back.
unfoldable pub read_data : (List ℕ → ℕ → ℕ) → Option ℕ → SocketSession → Option SocketSession
read_data handle amount s =
    let available = length s.incoming in
    let got = (read_buffer amount s.incoming available).1 in
    if ltb 0 available
    then (do
      (written, buffer) ← write_with (read_buffer amount s.incoming) available s.receive_buffer
      some (
          if written
          then on_data_read handle
              (record s { receive_buffer = buffer; incoming = drop got s.incoming })
          else record s { receive_buffer = buffer }))
    else some s

-- Bytes arrive, or the handler runs.
pub data SocketEvent : Type 0 where
  arrive : List ℕ → SocketEvent
  ready : Option ℕ → SocketEvent

unfoldable pub socket_step : (List ℕ → ℕ → ℕ) → SocketEvent → SocketSession → Option SocketSession
socket_step handle (arrive bytes) s = some (record s { incoming = s.incoming ++ bytes })
socket_step handle (ready amount) s = read_data handle amount s

unfoldable pub run_session :
    (List ℕ → ℕ → ℕ) → List SocketEvent → SocketSession → Option SocketSession
run_session handle [] s = some s
run_session handle (e ∷ es) s = do s' ← socket_step handle e s; run_session handle es s'
