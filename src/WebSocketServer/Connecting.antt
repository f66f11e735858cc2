-- ===== src/WebSocketServer/Connecting.antt =====
-- `Connect` of web_socket_session.cpp. The parser of addresses and the calls that fail are arguments.
use moboware.Base.{Bool, Option, List, [], ◌∷◌, make_calls}

-- The calls of `Connect`, with the names and endpoints that they are given; no address is the one that is
-- unspecified.
pub data ConnectCall (Name Address Port : Type 0) : Type 0 where
  resolve_name : Name → Port → ConnectCall Name Address Port
  connect_stream : Option Address → Port → ConnectCall Name Address Port
  web_socket_handshake : Name → Port → ConnectCall Name Address Port
  start_read : ConnectCall Name Address Port

module _ {Name Address Port : Type 0} where
  -- The stream is connected to the address that the name is when it is read as one, not to what was found
  -- for the name.
  unfoldable pub connect_web_socket :
      (Name → Option Address)
      → (ConnectCall Name Address Port → Bool)
      → Name
      → Port
      → Bool × List (ConnectCall Name Address Port)
  connect_web_socket address_of fails name port = make_calls fails start_read (
      resolve_name name port
      ∷ connect_stream (address_of name) port
      ∷ web_socket_handshake name port
      ∷ [])
