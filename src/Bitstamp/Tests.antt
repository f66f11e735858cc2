-- ===== src/Bitstamp/Tests.antt =====
-- A trade message, with whole numbers for prices.
use moboware.Base.{none, true, some, [], ◌∷◌, ◌≡◌, refl, Text, codes}
use moboware.OrderData.Wire.{pos, negsuc, to_string}
use moboware.Exchange.{trade_tick_stream, depth_100_levels_stream}
use moboware.Exchange.Search.{occurs_in}
use moboware.Exchange.Tests.{whole_numbers, bitcoin}
use moboware.Bitstamp.{on_data_read, on_trade_tick, atol, connect}
use moboware.Bitstamp.Trades.{trade_events, on_data_read_trade_event}

abbrev live_trade_text : Text
live_trade_text = codes "{\"data\":{},\"event\":\"trade\"}"

reads_a_sign : atol (codes " -42x") ≡ some (negsuc 41)
unfolding atol
reads_a_sign = refl

out_of_range : atol (codes "9223372036854775808") ≡ none
unfolding atol
out_of_range = refl

subscribes_to_trades :
    connect true
      (record bitcoin { stream_subscriptions = depth_100_levels_stream ∷ trade_tick_stream ∷ [] })
    ≡ (
      true,
      codes "{\"event\":\"bts:subscribe\",\"data\":{\"channel\":\"live_trades_btcusdt\"}}" ∷ [],
    )
unfolding connect
subscribes_to_trades = refl

on_data_read_trade_event_example :
    on_data_read whole_numbers bitcoin live_trade_text (
      trade_events 343272513
        (codes "17")
        (codes "0.5")
        (codes "5.1")
        69431
        (codes "69431")
        0
        (codes "1717840425")
        1
        2
        (codes "live_trades_btcusd"))
    ≡ some (
        on_trade_tick bitcoin.instrument (record {
          trade_id = [];
          trade_price = 69431;
          trade_volume = 5;
          trade_time = pos 1717840425000;
        })
        ∷ [])
unfolding occurs_in to_string
on_data_read_trade_event_example =
    on_data_read_trade_event whole_numbers bitcoin live_trade_text (codes "17") (codes "0.5")
      (codes "5.1") (codes "69431") (codes "live_trades_btcusd") 1717840425 343272513 69431 0 1 2
      refl
