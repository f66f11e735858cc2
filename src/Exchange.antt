-- ===== src/Exchange.antt =====
-- src/lib/exchanges/exchange/include/exchange/exchange.hpp: the data of a market data feed. `double` is
-- a parameter. The events of nlohmann's SAX parser are a data type, and the parser calls the handler on
-- the events of the document in turn.
pub mod Sax
pub mod Search
pub mod Tests
use moboware.Base.{
  ℕ, ◌+◌, ◌-◌, ◌*◌, ◌^◌, Bool, ltb, if◌then◌else◌, Option, none, some, List, [], Text,
}
use moboware.OrderData.Wire.{ℤ, pos, negsuc}

-- `double` and what the code does with it; `strtod` reads one from a text.
pub record Doubles : Type 1 where
  pub Double : Type 0
  pub zero_double : Double
  pub plus : Double → Double → Double
  pub times : Double → Double → Double
  pub divided_by : Double → Double → Double
  pub exceeds : Double → Double → Bool
  pub strtod : Text → Double

pub data MarketDataStreamType : Type 0 where
  none_stream : MarketDataStreamType
  trade_tick_stream : MarketDataStreamType
  book_ticker_stream : MarketDataStreamType
  depth_100ms_stream : MarketDataStreamType
  depth_5_levels_stream : MarketDataStreamType
  depth_10_levels_stream : MarketDataStreamType
  depth_20_levels_stream : MarketDataStreamType
  depth_100_levels_stream : MarketDataStreamType

pub record Instrument : Type 0 where
  pub exchange : Text
  pub exchange_symbol : Text
  pub symbol : Text

pub record MarketSubscription : Type 0 where
  pub instrument : Instrument
  pub stream_subscriptions : List MarketDataStreamType

pub record TopOfTheBook (D : Type 0) : Type 0 where
  pub bid_price : D
  pub bid_volume : D
  pub ask_price : D
  pub ask_volume : D

-- The time is a count of nanoseconds, a signed 64-bit number.
pub record TradeTick (D : Type 0) : Type 0 where
  pub trade_id : Text
  pub trade_price : D
  pub trade_volume : D
  pub trade_time : ℤ

pub record OrderbookLevel (D : Type 0) : Type 0 where
  pub price : D
  pub volume : D

-- The vectors of the levels as the lists of their elements, and the counts that the parsers keep.
pub record Orderbook (D : Type 0) : Type 0 where
  pub bids : List (OrderbookLevel D)
  pub number_of_bid_levels : ℕ
  pub asks : List (OrderbookLevel D)
  pub number_of_ask_levels : ℕ

module _ (doubles : Doubles) where
  open doubles use {Double, zero_double}

  -- The values that the members are initialised with.
  unfoldable pub default_top_of_the_book : TopOfTheBook Double
  default_top_of_the_book = record {
    bid_price = zero_double;
    bid_volume = zero_double;
    ask_price = zero_double;
    ask_volume = zero_double;
  }

  unfoldable pub default_trade_tick : TradeTick Double
  default_trade_tick = record {
    trade_id = [];
    trade_price = zero_double;
    trade_volume = zero_double;
    trade_time = pos 0;
  }

-- `Init` reserves memory, which adds no element to a vector.
unfoldable pub init_orderbook : {D : Type 0} → Orderbook D
init_orderbook = record { bids = []; number_of_bid_levels = 0; asks = []; number_of_ask_levels = 0 }

-- A signed 64-bit number; `none` is an overflow, which is undefined.
unfoldable pub int64 : ℤ → Option ℤ
int64 (pos n) = if ltb n (2 ^ 63) then some (pos n) else none
int64 (negsuc n) = if ltb n (2 ^ 63) then some (negsuc n) else none

-- The conversion of a duration to a unit that is so many times as fine, on signed 64-bit numbers.
unfoldable pub duration_cast : ℕ → ℤ → Option ℤ
unfolding int64
duration_cast times (pos n) = int64 (pos (n * times))
duration_cast times (negsuc n) = int64 (negsuc (n * times + (times - 1)))
