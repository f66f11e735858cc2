-- ===== src/Bitstamp.antt =====
-- src/lib/exchanges/bitstamp: the feed of one instrument. bitstamp_stream_parser.hpp and its .cpp file,
-- trade_tick_stream_parser.hpp, bitstamp_market_data_session_handler.hpp and
-- bitstamp_market_data_feed.hpp. The fields of the trade tick parser and their test are those of the
-- Binance parser; the overload for numbers, and the parser of levels, are never called.
pub mod Trades
mod Tests
use moboware.Base.{
  ℕ, ◌+◌, ◌-◌, ◌*◌, Bool, true, false, List, [], ◌∷◌, ◌++◌, Text, codes, text_keys, ◌==◌, ◌||◌,
  ◌&&◌, leb, nat_beq, if◌then◌else◌, Option, some, ◌>>=◌,
}
use moboware.OrderData.Wire.{ℤ, pos, negsuc}
use moboware.Exchange.{
  Doubles, MarketDataStreamType, none_stream, trade_tick_stream, depth_100_levels_stream,
  Instrument, MarketSubscription, TradeTick, OrderbookLevel, Orderbook, init_orderbook,
  default_trade_tick, int64, duration_cast,
}
use moboware.Exchange.Sax.{SaxEvent, sax_parse}
use moboware.Exchange.Search.{occurs_in}
use moboware.Binance.Parsers.{TradeTickStreamParser, TradeTickFields, tested, new_trade_tick_parser}

-- `atol`: white space, a sign, and the digits up to the first other byte.
abbrev pub is_digit : ℕ → Bool
is_digit c = leb 48 c && leb c 57

unfoldable pub digits_from : ℕ → Text → ℕ
digits_from n [] = n
digits_from n (c ∷ s) =
    let rest = digits_from (n * 10 + (c - 48)) s in if is_digit c then rest else n

unfoldable pub negated : ℕ → ℤ
negated n = if nat_beq n 0 then pos 0 else negsuc (n - 1)

-- The number may be any; `none` is one that is out of the range of `long`, for which `atol` is undefined.
unfoldable pub read_digits : Text → ℤ
unfolding digits_from negated
read_digits [] = pos 0
read_digits (c ∷ s) =
    let skipped = read_digits s in
    if nat_beq c 32 || leb 9 c && leb c 13
    then skipped
    else if nat_beq c 45
    then negated (digits_from 0 s)
    else if nat_beq c 43
    then pos (digits_from 0 s)
    else pos (digits_from 0 (c ∷ s))

unfoldable pub atol : Text → Option ℤ
unfolding read_digits int64
atol s = int64 (read_digits s)

-- The time of a text of microseconds; `none` is an overflow.
unfoldable pub time_of_microseconds : Text → Option ℤ
unfolding atol duration_cast
time_of_microseconds value = do count ← atol value; duration_cast 1000 count

pub record BitstampStreamParser (D : Type 0) : Type 0 where
  pub current_key : Text
  pub trade_tick_parser : TradeTickStreamParser D
  pub orderbook : Orderbook D
  pub stream_type : MarketDataStreamType

module _ (doubles : Doubles) where
  open doubles use {Double, strtod}

  -- `HandleTradeTick` of a text.
  unfoldable pub handle_trade_tick_text :
      Text → Text → TradeTickStreamParser Double → Option (Bool × TradeTickStreamParser Double)
  unfolding tested time_of_microseconds
  handle_trade_tick_text key value p =
      if key == codes "price_str"
      then some (
          tested (record {
            trade_tick = record p.trade_tick { trade_price = strtod value };
            fields = record p.fields { price_field = true };
          }))
      else if key == codes "amount_str"
      then some (
          tested (record {
            trade_tick = record p.trade_tick { trade_volume = strtod value };
            fields = record p.fields { volume_field = true };
          }))
      else if key == codes "microtimestamp"
      then (do
        time ← time_of_microseconds value
        some (
            tested (record {
              trade_tick = record p.trade_tick { trade_time = time };
              fields = record p.fields { time_field = true };
            })))
      else some (tested p)

  -- The constructor looks for the event in the message.
  unfoldable pub new_parser : Text → BitstampStreamParser Double
  unfolding new_trade_tick_parser init_orderbook occurs_in
  new_parser msg = record {
    current_key = [];
    trade_tick_parser = new_trade_tick_parser doubles;
    orderbook = init_orderbook;
    stream_type =
        if occurs_in (codes "\"event\":\"trade\"") msg then trade_tick_stream else none_stream;
  }

  unfoldable pub string_of_stream :
      MarketDataStreamType
      → Text
      → BitstampStreamParser Double
      → Option (Bool × BitstampStreamParser Double)
  unfolding handle_trade_tick_text
  string_of_stream trade_tick_stream value p = do
    (more, ticks) ← handle_trade_tick_text p.current_key value p.trade_tick_parser
    some (more, record p { trade_tick_parser = ticks })
  string_of_stream _ value p = some (true, p)

  -- The calls of the SAX parser; `none` is a time that overflows, which is undefined.
  unfoldable pub handle :
      SaxEvent → BitstampStreamParser Double → Option (Bool × BitstampStreamParser Double)
  unfolding string_of_stream
  handle (SaxEvent.string value) p = string_of_stream p.stream_type value p
  handle (SaxEvent.key value) p = some (true, record p { current_key = value })
  handle (SaxEvent.parse_error position) p = some (false, p)
  handle SaxEvent.null p = some (true, p)
  handle (SaxEvent.boolean value) p = some (true, p)
  handle (SaxEvent.number_integer value) p = some (true, p)
  handle (SaxEvent.number_unsigned value) p = some (true, p)
  handle (SaxEvent.number_float text) p = some (true, p)
  handle (SaxEvent.start_object elements) p = some (true, p)
  handle SaxEvent.end_object p = some (true, p)
  handle (SaxEvent.start_array elements) p = some (true, p)
  handle SaxEvent.end_array p = some (true, p)
  handle (SaxEvent.binary value) p = some (true, p)

  -- What `OnDataRead` hands to the data handler.
  pub data Delivery : Type 0 where
    on_trade_tick : Instrument → TradeTick Double → Delivery
    on_orderbook : Instrument → Orderbook Double → Delivery

  unfoldable pub deliver :
      MarketDataStreamType → Instrument → BitstampStreamParser Double → List Delivery
  deliver trade_tick_stream i p = on_trade_tick i p.trade_tick_parser.trade_tick ∷ []
  deliver depth_100_levels_stream i p = on_orderbook i p.orderbook ∷ []
  deliver _ i p = []

  -- `OnDataRead` of a message, as its bytes and its events.
  unfoldable pub on_data_read : MarketSubscription → Text → List SaxEvent → Option (List Delivery)
  unfolding sax_parse handle new_parser deliver
  on_data_read subscription msg events = do
    (result, p) ← sax_parse handle events (new_parser msg)
    some (deliver p.stream_type subscription.instrument p)

-- `SubscribeLiveTradeFeed`: the text that is sent.
unfoldable pub subscribe_message : Instrument → Text
subscribe_message i =
    codes "{\"event\":\"bts:subscribe\",\"data\":{\"channel\":\"live_trades_"
    ++ i.exchange_symbol
    ++ codes "\"}}"

-- The texts that `Connect` sends. One that is not sent ends nothing.
unfoldable pub subscriptions : Instrument → List MarketDataStreamType → List Text
unfolding subscribe_message
subscriptions i [] = []
subscriptions i (trade_tick_stream ∷ ts) = subscribe_message i ∷ subscriptions i ts
subscriptions i (t ∷ ts) = subscriptions i ts

-- `Connect`: its result, and the texts sent, where the client has started or not.
unfoldable pub connect : Bool → MarketSubscription → Bool × List Text
unfolding subscriptions
connect false s = (false, [])
connect true s = (true, subscriptions s.instrument s.stream_subscriptions)
