-- ===== src/Binance.antt =====
-- src/lib/exchanges/binance/include/binance: the feed of one instrument. Parsers has the parsers of the
-- three kinds of streams; here they are put together (binance_stream_parser.hpp), a message is handled
-- (binance_market_data_session_handler.hpp), and the streams are subscribed to
-- (binance_market_data_feed.hpp).
pub mod Parsers
pub mod Streams
pub mod Books
pub mod Ticks
mod Tests
use moboware.Base.{
  ℕ, zero, suc, ◌+◌, Bool, true, false, Option, none, some, List, [], ◌∷◌, ◌++◌, Text, codes,
  text_keys, ◌==◌, ◌||◌, ◌&&◌, if◌then◌else◌, ◌>>=◌,
}
use moboware.Exchange.{
  Doubles, MarketDataStreamType, none_stream, trade_tick_stream, book_ticker_stream,
  depth_100ms_stream, depth_5_levels_stream, depth_10_levels_stream, depth_20_levels_stream,
  depth_100_levels_stream, Instrument, MarketSubscription, TopOfTheBook, TradeTick, OrderbookLevel,
  Orderbook,
}
use moboware.Exchange.Sax.{SaxEvent, sax_parse}
use moboware.Exchange.Search.{occurs_in}
use moboware.Binance.Parsers.{
  TradeTickStreamParser, BookTickerStreamParser, OrderbookLevelsParser, new_trade_tick_parser,
  new_book_ticker_parser, new_orderbook_levels_parser, handle_trade_tick_number,
  handle_trade_tick_text, handle_book_ticker, handle_order_book_level, array_start, array_end,
}

pub record BinanceStreamParser (D : Type 0) : Type 0 where
  pub current_key : Text
  pub trade_tick_parser : TradeTickStreamParser D
  pub book_ticker_parser : BookTickerStreamParser D
  pub orderbook_levels_parser : OrderbookLevelsParser D
  pub stream_type : MarketDataStreamType

-- The stream that a message names; the type stays as it is where no name is found.
unfoldable pub stream_type_of : Text → MarketDataStreamType
unfolding occurs_in
stream_type_of value =
    if occurs_in (codes "@trade") value
    then trade_tick_stream
    else if occurs_in (codes "@bookTicker") value
    then book_ticker_stream
    else if occurs_in (codes "@depth@100ms") value
    then depth_100ms_stream
    else if occurs_in (codes "@depth5@100ms") value
    then depth_5_levels_stream
    else if occurs_in (codes "@depth10@100ms") value
    then depth_10_levels_stream
    else if occurs_in (codes "@depth20@100ms") value
    then depth_20_levels_stream
    else none_stream

-- One of the three snapshot streams.
abbrev pub is_levels_stream : MarketDataStreamType → Bool
is_levels_stream depth_5_levels_stream = true
is_levels_stream depth_10_levels_stream = true
is_levels_stream depth_20_levels_stream = true
is_levels_stream _ = false

abbrev pub is_none_stream : MarketDataStreamType → Bool
is_none_stream none_stream = true
is_none_stream _ = false

module _ (doubles : Doubles) where
  open doubles use {Double}

  unfoldable pub new_parser : BinanceStreamParser Double
  unfolding new_trade_tick_parser new_book_ticker_parser new_orderbook_levels_parser
  new_parser = record {
    current_key = [];
    trade_tick_parser = new_trade_tick_parser doubles;
    book_ticker_parser = new_book_ticker_parser doubles;
    orderbook_levels_parser = new_orderbook_levels_parser;
    stream_type = none_stream;
  }

  -- `string` for a stream that is known.
  unfoldable pub string_of_stream :
      MarketDataStreamType
      → Text
      → BinanceStreamParser Double
      → Option (Bool × BinanceStreamParser Double)
  unfolding handle_trade_tick_text handle_book_ticker handle_order_book_level
  string_of_stream trade_tick_stream value p =
      let (more, ticks) = handle_trade_tick_text doubles p.current_key value p.trade_tick_parser in
      some (more, record p { trade_tick_parser = ticks })
  string_of_stream book_ticker_stream value p =
      let (more, ticker) = handle_book_ticker doubles p.current_key value p.book_ticker_parser in
      some (more, record p { book_ticker_parser = ticker })
  string_of_stream depth_5_levels_stream value p = do
    (more, levels) ← handle_order_book_level doubles p.current_key value p.orderbook_levels_parser
    some (more, record p { orderbook_levels_parser = levels })
  string_of_stream depth_10_levels_stream value p = do
    (more, levels) ← handle_order_book_level doubles p.current_key value p.orderbook_levels_parser
    some (more, record p { orderbook_levels_parser = levels })
  string_of_stream depth_20_levels_stream value p = do
    (more, levels) ← handle_order_book_level doubles p.current_key value p.orderbook_levels_parser
    some (more, record p { orderbook_levels_parser = levels })
  string_of_stream _ value p = some (true, p)

  -- `number_unsigned` for a stream.
  unfoldable pub number_of_stream :
      MarketDataStreamType
      → ℕ
      → BinanceStreamParser Double
      → Option (Bool × BinanceStreamParser Double)
  unfolding handle_trade_tick_number
  number_of_stream trade_tick_stream value p = do
    (more, ticks) ← handle_trade_tick_number p.current_key value p.trade_tick_parser
    some (more, record p { trade_tick_parser = ticks })
  number_of_stream _ value p = some (true, p)

  -- The calls of the SAX parser; `none` is undefined behaviour: a write outside of a vector of levels, or a
  -- time that overflows.
  unfoldable pub handle :
      SaxEvent → BinanceStreamParser Double → Option (Bool × BinanceStreamParser Double)
  unfolding stream_type_of string_of_stream number_of_stream array_start array_end
  handle (SaxEvent.number_unsigned value) p = number_of_stream p.stream_type value p
  handle (SaxEvent.string value) p =
      if is_none_stream p.stream_type && p.current_key == codes "stream"
      then some (true, record p { stream_type = stream_type_of value })
      else string_of_stream p.stream_type value p
  handle (SaxEvent.start_array elements) p = some (
    true,
    if is_levels_stream p.stream_type
        then record p {
          orderbook_levels_parser = array_start p.current_key p.orderbook_levels_parser;
        }
        else p,
  )
  handle SaxEvent.end_array p = some (
    true,
    if is_levels_stream p.stream_type
        then record p {
          orderbook_levels_parser = array_end p.current_key p.orderbook_levels_parser;
        }
        else p,
  )
  handle (SaxEvent.key value) p = some (true, record p { current_key = value })
  handle (SaxEvent.parse_error position) p = some (false, p)
  handle SaxEvent.null p = some (true, p)
  handle (SaxEvent.boolean value) p = some (true, p)
  handle (SaxEvent.number_integer value) p = some (true, p)
  handle (SaxEvent.number_float text) p = some (true, p)
  handle (SaxEvent.start_object elements) p = some (true, p)
  handle SaxEvent.end_object p = some (true, p)
  handle (SaxEvent.binary value) p = some (true, p)

  -- What `OnDataRead` hands to the data handler.
  pub data Delivery : Type 0 where
    on_trade_tick : Instrument → TradeTick Double → Delivery
    on_top_of_the_book : Instrument → TopOfTheBook Double → Delivery
    on_orderbook : Instrument → Orderbook Double → Delivery

  -- The switch on the stream type, also after a parse that was stopped or failed.
  unfoldable pub deliver :
      MarketDataStreamType → Instrument → BinanceStreamParser Double → List Delivery
  deliver trade_tick_stream i p = on_trade_tick i p.trade_tick_parser.trade_tick ∷ []
  deliver book_ticker_stream i p = on_top_of_the_book i p.book_ticker_parser.best_bid_offer ∷ []
  deliver depth_5_levels_stream i p = on_orderbook i p.orderbook_levels_parser.orderbook ∷ []
  deliver depth_10_levels_stream i p = on_orderbook i p.orderbook_levels_parser.orderbook ∷ []
  deliver depth_20_levels_stream i p = on_orderbook i p.orderbook_levels_parser.orderbook ∷ []
  deliver _ i p = []

  -- `OnDataRead` of a message with these events.
  unfoldable pub on_data_read : MarketSubscription → List SaxEvent → Option (List Delivery)
  unfolding sax_parse handle new_parser deliver
  on_data_read subscription events = do
    (result, p) ← sax_parse handle events new_parser
    some (deliver p.stream_type subscription.instrument p)

-- The stream of `Connect` for a subscription; others add none.
unfoldable pub feed_of : MarketDataStreamType → Text → List Text
feed_of book_ticker_stream symbol = (symbol ++ codes "@bookTicker") ∷ []
feed_of trade_tick_stream symbol = (symbol ++ codes "@trade") ∷ []
feed_of depth_100ms_stream symbol = (symbol ++ codes "@depth@100ms") ∷ []
feed_of depth_5_levels_stream symbol = (symbol ++ codes "@depth5@100ms") ∷ []
feed_of depth_10_levels_stream symbol = (symbol ++ codes "@depth10@100ms") ∷ []
feed_of depth_20_levels_stream symbol = (symbol ++ codes "@depth20@100ms") ∷ []
feed_of _ symbol = []

unfoldable pub feeds_of : List MarketDataStreamType → Text → List Text
unfolding feed_of
feeds_of [] symbol = []
feeds_of (t ∷ ts) symbol = feed_of t symbol ++ feeds_of ts symbol

-- The loop that puts a slash between the streams.
unfoldable pub join_feeds : List Text → Text
join_feeds [] = []
join_feeds (f ∷ []) = f
join_feeds (f ∷ g ∷ fs) = f ++ codes "/" ++ join_feeds (g ∷ fs)

-- The target that `Connect` sets before it starts the client.
unfoldable pub connect_target : MarketSubscription → Text
unfolding feeds_of join_feeds
connect_target s =
    codes "/stream?streams="
    ++ join_feeds (feeds_of s.stream_subscriptions s.instrument.exchange_symbol)
