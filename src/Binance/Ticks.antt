-- ===== src/Binance/Ticks.antt =====
-- The messages of the trade and the book ticker streams.
use moboware.Base.{
  ℕ, Bool, some, ◌>>=◌, Option-cases, inl, inr, List, [], ◌∷◌, ◌++◌, ◌≡◌, refl, Text, codes,
  text_beq,
}
use moboware.OrderData.Wire.{to_string}
use moboware.Exchange.{Doubles, trade_tick_stream, book_ticker_stream, MarketSubscription}
use moboware.Binance.Parsers.{time_of_milliseconds}
use moboware.Exchange.Sax.{SaxEvent}
use moboware.Binance.{stream_type_of, on_data_read, on_trade_tick, on_top_of_the_book}

-- A field of a message.
abbrev pub number_field : Text → ℕ → List SaxEvent
number_field name n = SaxEvent.key name ∷ SaxEvent.number_unsigned n ∷ []

abbrev pub text_field : Text → Text → List SaxEvent
text_field name s = SaxEvent.key name ∷ SaxEvent.string s ∷ []

-- The calls in front of the data of a message.
abbrev pub message_events : Text → List SaxEvent → List SaxEvent
message_events name data_events =
    SaxEvent.start_object 2
    ∷ SaxEvent.key (codes "stream")
    ∷ SaxEvent.string name
    ∷ SaxEvent.key (codes "data")
    ∷ SaxEvent.start_object 9
    ∷ (data_events ++ (SaxEvent.end_object ∷ SaxEvent.end_object ∷ []))

-- The data of a trade: event type and time, symbol, id, price, quantity, time, and two flags.
abbrev pub trade_events : Text → ℕ → Text → ℕ → Text → Text → ℕ → Bool → Bool → List SaxEvent
trade_events kind event_time symbol id price quantity time maker ignored =
    text_field (codes "e") kind
    ++ (number_field (codes "E") event_time
        ++ (text_field (codes "s") symbol
            ++ (number_field (codes "t") id
                ++ (text_field (codes "p") price
                    ++ (text_field (codes "q") quantity
                        ++ (number_field (codes "T") time
                            ++ (SaxEvent.key (codes "m")
                                ∷ SaxEvent.boolean maker
                                ∷ SaxEvent.key (codes "M")
                                ∷ SaxEvent.boolean ignored
                                ∷ [])))))))

-- The data of a book ticker: update id, symbol, and the best bid and ask.
abbrev pub ticker_events : ℕ → Text → Text → Text → Text → Text → List SaxEvent
ticker_events update_id symbol bid bid_quantity ask ask_quantity =
    number_field (codes "u") update_id
    ++ (text_field (codes "s") symbol
        ++ (text_field (codes "b") bid
            ++ (text_field (codes "B") bid_quantity
                ++ (text_field (codes "a") ask ++ text_field (codes "A") ask_quantity))))

module _ (doubles : Doubles) (subscription : MarketSubscription) where
  open doubles use {strtod}

  -- A message of a trade stream, with its fields in the documented order, delivers one trade tick with
  -- the id, price, quantity and time of the message, whatever its other fields are; a time that overflows
  -- is undefined.
  on_data_read_trade :
      (name kind symbol price quantity : Text) (event_time id time : ℕ) (maker ignored : Bool)
      → stream_type_of name ≡ trade_tick_stream
      → on_data_read doubles subscription (
          message_events name
            (trade_events kind event_time symbol id price quantity time maker ignored))
        ≡ (time_of_milliseconds time >>= λ trade_time. some (
            on_trade_tick subscription.instrument (record {
              trade_id = to_string id;
              trade_price = strtod price;
              trade_volume = strtod quantity;
              trade_time = trade_time;
            })
            ∷ []))
  unfolding on_data_read text_beq
  on_data_read_trade name kind symbol price quantity event_time id time maker ignored known =
      rw known (elim (Option-cases (time_of_milliseconds time)) [
        | inl overflows ↦ rw overflows refl
        | inr (t, fits) ↦ rw fits refl
      ])

  -- A message of a book ticker stream, with its fields in the documented order, delivers the best bid and
  -- ask of the message with their quantities.
  on_data_read_ticker :
      (name symbol bid bid_quantity ask ask_quantity : Text) (update_id : ℕ)
      → stream_type_of name ≡ book_ticker_stream
      → on_data_read doubles subscription
          (message_events name (ticker_events update_id symbol bid bid_quantity ask ask_quantity))
        ≡ some (
            on_top_of_the_book subscription.instrument (record {
              bid_price = strtod bid;
              bid_volume = strtod bid_quantity;
              ask_price = strtod ask;
              ask_volume = strtod ask_quantity;
            })
            ∷ [])
  unfolding on_data_read text_beq
  on_data_read_ticker name symbol bid bid_quantity ask ask_quantity update_id known = rw known refl
