-- ===== src/Binance/Parsers.antt =====
-- src/lib/exchanges/binance/include/binance: trade_tick_stream_parser.hpp,
-- book_ticker_stream_parser.hpp and orderbook_levels_snapshot_parser.hpp.
use moboware.Base.{
  ℕ, ◌+◌, ◌-◌, ◌%◌, ◌^◌, Bool, true, false, Option, some, List, Text, codes, text_keys, ◌==◌, ◌||◌,
  ◌&&◌, not, nat_beq, ltb, get_elem?, set, if◌then◌else◌, ◌>>=◌,
}
use moboware.OrderData.Wire.{ℤ, pos, negsuc, to_string}
use moboware.Exchange.{
  Doubles, TopOfTheBook, TradeTick, OrderbookLevel, Orderbook, default_trade_tick,
  default_top_of_the_book, init_orderbook, duration_cast,
}

-- The bits of m_TradeTickFields.
pub record TradeTickFields : Type 0 where
  pub id_field : Bool
  pub price_field : Bool
  pub volume_field : Bool
  pub time_field : Bool

pub record TradeTickStreamParser (D : Type 0) : Type 0 where
  pub trade_tick : TradeTick D
  pub fields : TradeTickFields

-- `TestTradeTickFields`: no bit is set, or not all of them are.
unfoldable pub test_trade_tick_fields : TradeTickFields → Bool
test_trade_tick_fields f =
    not (f.id_field || f.price_field || f.volume_field || f.time_field)
    || not (f.id_field && f.price_field && f.volume_field && f.time_field)

-- The conversion of a 64-bit number to a signed one.
unfoldable pub to_int64 : ℕ → ℤ
to_int64 value = let n = value % 2 ^ 64 in if ltb n (2 ^ 63) then pos n else negsuc (2 ^ 64 - 1 - n)

-- The time of a number of milliseconds, which is converted to a signed 64-bit number.
unfoldable pub time_of_milliseconds : ℕ → Option ℤ
unfolding to_int64 duration_cast
time_of_milliseconds value = duration_cast 1000000 (to_int64 value)

module _ {D : Type 0} where
  unfoldable pub tested : TradeTickStreamParser D → Bool × TradeTickStreamParser D
  unfolding test_trade_tick_fields
  tested p = (test_trade_tick_fields p.fields, p)

  -- `HandleTradeTick` of a number: milliseconds for the time.
  unfoldable pub handle_trade_tick_number :
      Text → ℕ → TradeTickStreamParser D → Option (Bool × TradeTickStreamParser D)
  unfolding tested to_string time_of_milliseconds
  handle_trade_tick_number key value p =
      if key == codes "T"
      then (do
        time ← time_of_milliseconds value
        some (
            tested (record {
              trade_tick = record p.trade_tick { trade_time = time };
              fields = record p.fields { time_field = true };
            })))
      else if key == codes "t"
      then some (
          tested (record {
            trade_tick = record p.trade_tick { trade_id = to_string value };
            fields = record p.fields { id_field = true };
          }))
      else some (tested p)

module _ (doubles : Doubles) where
  open doubles use {Double, strtod}

  unfoldable pub new_trade_tick_parser : TradeTickStreamParser Double
  unfolding default_trade_tick
  new_trade_tick_parser = record {
    trade_tick = default_trade_tick doubles;
    fields = record {
      id_field = false;
      price_field = false;
      volume_field = false;
      time_field = false;
    };
  }

  -- `HandleTradeTick` of a text.
  unfoldable pub handle_trade_tick_text :
      Text → Text → TradeTickStreamParser Double → Bool × TradeTickStreamParser Double
  unfolding tested
  handle_trade_tick_text key value p = tested (
      if key == codes "p"
      then record {
        trade_tick = record p.trade_tick { trade_price = strtod value };
        fields = record p.fields { price_field = true };
      }
      else if key == codes "q"
      then record {
        trade_tick = record p.trade_tick { trade_volume = strtod value };
        fields = record p.fields { volume_field = true };
      }
      else p)

-- m_BookTickerFields is a number that nothing sets.
pub record BookTickerStreamParser (D : Type 0) : Type 0 where
  pub best_bid_offer : TopOfTheBook D
  pub book_ticker_fields : ℕ

-- `TestBookTickerFields`; the mask of all fields is 15.
unfoldable pub test_book_ticker_fields : ℕ → Bool
test_book_ticker_fields fields = nat_beq fields 0 || not (nat_beq (fields % 16) 15)

module _ (doubles : Doubles) where
  open doubles use {Double, strtod}

  unfoldable pub new_book_ticker_parser : BookTickerStreamParser Double
  unfolding default_top_of_the_book
  new_book_ticker_parser = record {
    best_bid_offer = default_top_of_the_book doubles;
    book_ticker_fields = 0;
  }

  unfoldable pub set_book_ticker : Text → Double → TopOfTheBook Double → TopOfTheBook Double
  set_book_ticker key value b =
      if key == codes "b"
      then record b { bid_price = value }
      else if key == codes "B"
      then record b { bid_volume = value }
      else if key == codes "a"
      then record b { ask_price = value }
      else if key == codes "A"
      then record b { ask_volume = value }
      else b

  unfoldable pub handle_book_ticker :
      Text → Text → BookTickerStreamParser Double → Bool × BookTickerStreamParser Double
  unfolding set_book_ticker test_book_ticker_fields
  handle_book_ticker key value p = (
    test_book_ticker_fields p.book_ticker_fields,
    record p { best_bid_offer = set_book_ticker key (strtod value) p.best_bid_offer },
  )

pub record OrderbookLevelsParser (D : Type 0) : Type 0 where
  pub orderbook : Orderbook D
  pub array_indentation : ℕ
  pub price_volume_fields_index : ℕ

unfoldable pub is_side : Text → Bool
is_side key = key == codes "bids" || key == codes "asks"

module _ {D : Type 0} where
  unfoldable pub new_orderbook_levels_parser : OrderbookLevelsParser D
  unfolding init_orderbook
  new_orderbook_levels_parser = record {
    orderbook = init_orderbook;
    array_indentation = 0;
    price_volume_fields_index = 0;
  }

  -- A write to a field of a level: the index modulo 2 says which. The number of levels grows with the
  -- volume. `none` is a write at an index that is not below the size of the vector, which is undefined.
  unfoldable pub write_level :
      ℕ → D → ℕ → List (OrderbookLevel D) → Option (ℕ × List (OrderbookLevel D))
  write_level index value n levels = do
    level ← get_elem? levels n
    if nat_beq (index % 2) 1
        then some (n, set levels n (record level { price = value }))
        else some (n + 1, set levels n (record level { volume = value }))

  unfoldable pub write_book : Text → ℕ → D → Orderbook D → Option (Orderbook D)
  unfolding write_level
  write_book key index value book =
      if key == codes "bids"
      then (do
        (n, levels) ← write_level index value book.number_of_bid_levels book.bids
        some (record book { bids = levels; number_of_bid_levels = n }))
      else if key == codes "asks"
      then (do
        (n, levels) ← write_level index value book.number_of_ask_levels book.asks
        some (record book { asks = levels; number_of_ask_levels = n }))
      else some book

  -- The indentation is a std::size_t.
  unfoldable pub array_start : Text → OrderbookLevelsParser D → OrderbookLevelsParser D
  unfolding is_side
  array_start key p =
      if is_side key then record p { array_indentation = (p.array_indentation + 1) % 2 ^ 64 } else p

  unfoldable pub array_end : Text → OrderbookLevelsParser D → OrderbookLevelsParser D
  unfolding is_side
  array_end key p =
      if is_side key
      then record p { array_indentation = (p.array_indentation + (2 ^ 64 - 1)) % 2 ^ 64 }
      else p

module _ (doubles : Doubles) where
  open doubles use {Double, strtod}

  unfoldable pub handle_order_book_level :
      Text → Text → OrderbookLevelsParser Double → Option (Bool × OrderbookLevelsParser Double)
  unfolding write_book
  handle_order_book_level key value p =
      let index = (p.price_volume_fields_index + 1) % 2 ^ 64 in
      if nat_beq p.array_indentation 2
      then (do
        book ← write_book key index (strtod value) p.orderbook
        some (true, record p { orderbook = book; price_volume_fields_index = index }))
      else some (true, p)
