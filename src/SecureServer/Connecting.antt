-- ===== src/SecureServer/Connecting.antt =====
-- `Accept` and `Connect` of web_socket_session.hpp: the calls that they make until one fails. Which calls fail is
-- an argument.
use moboware.Base.{Bool, List, [], ◌∷◌, make_calls}

-- The calls of the stream, and the callback's notice of the connection, after which the session reads.
pub data SecureCall (Name Port : Type 0) : Type 0 where
  resolve_address : Name → Port → SecureCall Name Port
  connect_resolved ssl_handshake accept_stream notify_connected : SecureCall Name Port
  upgrade_handshake : Name → Port → SecureCall Name Port

module _ {Name Port : Type 0} (fails : SecureCall Name Port → Bool) where
  unfoldable pub accept_secure : Bool × List (SecureCall Name Port)
  accept_secure = make_calls fails notify_connected (ssl_handshake ∷ accept_stream ∷ [])

  -- The SSL handshake is made twice.
  unfoldable pub connect_secure : Name → Port → Bool × List (SecureCall Name Port)
  connect_secure name port = make_calls fails notify_connected (
      resolve_address name port
      ∷ connect_resolved
      ∷ ssl_handshake
      ∷ ssl_handshake
      ∷ upgrade_handshake name port
      ∷ [])
