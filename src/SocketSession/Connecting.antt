-- ===== src/SocketSession/Connecting.antt =====
-- `Accept` and `Connect` of tcp_socket_session.hpp and ssl_socket_session.hpp: the calls that they make until one
-- fails. What each call does is an argument; the options of a socket are set by calls that throw.
use moboware.Base.{Bool, true, false, Option, none, some, List, [], ◌∷◌, ◌>>=◌}

pub data CallOutcome : Type 0 where
  works fails throws : CallOutcome

-- The calls of the socket; the last is the callback's notice of the connection, after which the session reads.
pub data SocketCall (Name Port : Type 0) : Type 0 where
  resolve_host : Name → Port → SocketCall Name Port
  connect_socket set_no_delay set_linger server_handshake client_handshake
        notify_session_connected :
      SocketCall Name Port

-- Whether the calls worked, and those that were made, with a last one if all worked; none is an exception.
unfoldable pub call_socket : {C : Type 0} → (C → CallOutcome) → C → List C → Option (Bool × List C)
call_socket outcome last [] = some (true, last ∷ [])
call_socket outcome last (c ∷ cs) =
    let rest = call_socket outcome last cs in
    elim (outcome c) [
      | works ↦ do (done, made) ← rest; some (done, c ∷ made)
      | fails ↦ some (false, c ∷ [])
      | throws ↦ none
    ]

module _ {Name Port : Type 0} (outcome : SocketCall Name Port → CallOutcome) where
  unfoldable pub accept_tcp : Option (Bool × List (SocketCall Name Port))
  unfolding call_socket
  accept_tcp = call_socket outcome notify_session_connected []

  unfoldable pub connect_tcp : Name → Port → Option (Bool × List (SocketCall Name Port))
  unfolding call_socket
  connect_tcp name port =
      call_socket outcome notify_session_connected
        (resolve_host name port ∷ connect_socket ∷ set_no_delay ∷ set_linger ∷ [])

  unfoldable pub accept_ssl : Option (Bool × List (SocketCall Name Port))
  unfolding call_socket
  accept_ssl = call_socket outcome notify_session_connected (server_handshake ∷ [])

  unfoldable pub connect_ssl : Name → Port → Option (Bool × List (SocketCall Name Port))
  unfolding call_socket
  connect_ssl name port =
      call_socket outcome notify_session_connected (
        resolve_host name port ∷ connect_socket ∷ set_no_delay ∷ set_linger ∷ client_handshake ∷ [])
