-- ===== src/TcpServer/Client.antt =====
-- src/lib/common/tcp_client.cpp: a session that connects, pings, and takes the header off what it receives.
use moboware.Base.{
  ℕ, Bool, false, Option, none, some, List, [], ◌∷◌, ◌++◌, ◌≡◌, refl, length, drop, ltb,
  if◌then◌else◌, arith,
}
use moboware.SocketSession.Connecting.{CallOutcome, call_socket}
use moboware.TcpServer.{framed}

-- The calls of `Connect`, in their order. What the reading of the address and the connection throw is caught, and
-- is a failure; what `Start` of the session throws is not.
pub data ClientCall : Type 0 where
  parse_address connect_session start_session start_ping_timer : ClientCall

unfoldable pub connect_client : (ClientCall → CallOutcome) → Option (Bool × List ClientCall)
connect_client outcome =
    call_socket outcome start_ping_timer (parse_address ∷ connect_session ∷ start_session ∷ [])

-- The ping, of which some bytes were sent or none: whether the timer is restarted.
unfoldable pub ping_again : ℕ → Bool
ping_again bytes_sent = ltb 0 bytes_sent

-- `HandleReceivedData` makes a text of what follows the header: with fewer bytes than the header has, its size
-- wraps round, and the text is too long, an exception that nothing catches.
unfoldable pub handle_received_data : List ℕ → Option (List ℕ)
handle_received_data bytes = if ltb (length bytes) 2 then none else some (drop 2 bytes)

-- What was sent as one message is received as it was sent, whatever its length; two messages that are received
-- together are one text, with the header of the second in it; and one byte alone is an exception.
handle_received_data-framed :
    (xs ys : List ℕ) (b : ℕ)
    → (handle_received_data (framed xs) ≡ some xs)
      × (handle_received_data (framed xs ++ framed ys) ≡ some (xs ++ framed ys))
      × (handle_received_data (b ∷ []) ≡ none)
unfolding handle_received_data framed
handle_received_data-framed xs ys b =
    let t : ltb (length (framed xs)) 2 ≡ false = ground arith in
    let u : ltb (length (framed xs ++ framed ys)) 2 ≡ false = ground arith in
    (rw t refl, rw u refl, refl)
