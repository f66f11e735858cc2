-- ===== src/Binance/Streams.antt =====
-- The names of the streams: those that `Connect` asks for, and how a message is told by them.
use moboware.Base.{[], ◌∷◌, ◌++◌, ◌≡◌, ◌≢◌, Text, codes, All}
use moboware.Exchange.{
  MarketDataStreamType, none_stream, trade_tick_stream, book_ticker_stream, depth_100ms_stream,
  depth_5_levels_stream, depth_10_levels_stream, depth_20_levels_stream, depth_100_levels_stream,
}
use moboware.Exchange.Search.{occurs_in-append}
use moboware.Binance.{stream_type_of, feed_of}

-- The name of an instrument has no @, byte 64.
abbrev pub IsSymbol : Text → Type 0
IsSymbol s = All (λ c. c ≢ 64) s

stream_type_of-append :
    (symbol suffix : Text)
    → IsSymbol symbol
    → stream_type_of (symbol ++ suffix) ≡ stream_type_of suffix
unfolding stream_type_of
stream_type_of-append symbol suffix h =
    let at = λ (pattern : Text). occurs_in-append 64 pattern symbol suffix h in
    rw (
      at (codes "trade"),
      at (codes "bookTicker"),
      at (codes "depth@100ms"),
      at (codes "depth5@100ms"),
      at (codes "depth10@100ms"),
      at (codes "depth20@100ms"),
    )

stream_type_of_named :
    (symbol suffix name : Text)
    → IsSymbol symbol
    → (symbol ++ suffix) ∷ [] ≡ name ∷ []
    → stream_type_of name ≡ stream_type_of suffix
stream_type_of_named symbol suffix name h e =
    let same : name ≡ symbol ++ suffix = (cc) in rw same (stream_type_of-append symbol suffix h)

-- The name of a stream that `Connect` asks for, for a symbol with no @, is classified by the parser as
-- the subscription that it was asked for.
pub stream_type_of-feed_of :
    (t : MarketDataStreamType) (symbol name : Text)
    → IsSymbol symbol
    → feed_of t symbol ≡ name ∷ []
    → stream_type_of name ≡ t
unfolding feed_of stream_type_of
stream_type_of-feed_of none_stream symbol name h e = absurd (cc)
stream_type_of-feed_of trade_tick_stream symbol name h e =
    stream_type_of_named symbol (codes "@trade") name h e
stream_type_of-feed_of book_ticker_stream symbol name h e =
    stream_type_of_named symbol (codes "@bookTicker") name h e
stream_type_of-feed_of depth_100ms_stream symbol name h e =
    stream_type_of_named symbol (codes "@depth@100ms") name h e
stream_type_of-feed_of depth_5_levels_stream symbol name h e =
    stream_type_of_named symbol (codes "@depth5@100ms") name h e
stream_type_of-feed_of depth_10_levels_stream symbol name h e =
    stream_type_of_named symbol (codes "@depth10@100ms") name h e
stream_type_of-feed_of depth_20_levels_stream symbol name h e =
    stream_type_of_named symbol (codes "@depth20@100ms") name h e
stream_type_of-feed_of depth_100_levels_stream symbol name h e = absurd (cc)
