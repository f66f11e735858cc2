-- ===== src/Binance/Tests.antt =====
-- Messages for one instrument, with whole numbers for prices.
use moboware.Base.{arith, text_beq, none, some, List, [], ◌∷◌, ◌≡◌, refl, Text, codes}
use moboware.Exchange.{trade_tick_stream, depth_5_levels_stream, depth_20_levels_stream}
use moboware.Exchange.Tests.{whole_numbers, bitcoin}
use moboware.Binance.{stream_type_of, connect_target, on_data_read}
use moboware.Binance.Streams.{stream_type_of-feed_of}
use moboware.Binance.{feed_of}
use moboware.Binance.Parsers.{time_of_milliseconds}
use moboware.Binance.Books.{snapshot_events, empty_delivery, on_data_read_snapshot}

two_streams :
    connect_target
      (record bitcoin { stream_subscriptions = trade_tick_stream ∷ depth_5_levels_stream ∷ [] })
    ≡ codes "/stream?streams=btcusdt@trade/btcusdt@depth5@100ms"
unfolding connect_target
two_streams = refl

abbrev some_bids : List (Text × Text)
some_bids = (codes "68790.00", codes "2.08") ∷ (codes "68789.95", codes "2.03") ∷ []

no_levels :
    on_data_read whole_numbers bitcoin (snapshot_events (codes "btcusdt@depth20@100ms") 47 [] [])
    ≡ some (empty_delivery whole_numbers bitcoin)
unfolding on_data_read text_beq
no_levels = refl

on_data_read_snapshot_example :
    on_data_read whole_numbers bitcoin
      (snapshot_events (codes "btcusdt@depth5@100ms") 47 some_bids [])
    ≡ none
unfolding stream_type_of
on_data_read_snapshot_example =
    on_data_read_snapshot whole_numbers bitcoin (codes "btcusdt@depth5@100ms") 47 some_bids [] refl

late_trade : time_of_milliseconds 9223372036855 ≡ none
unfolding time_of_milliseconds
late_trade = refl

stream_type_of-feed_of_example :
    stream_type_of (codes "btcusdt@depth20@100ms") ≡ depth_20_levels_stream
unfolding feed_of
stream_type_of-feed_of_example =
    stream_type_of-feed_of depth_20_levels_stream (codes "btcusdt") (codes "btcusdt@depth20@100ms")
      (
        λ e. omega (arith, e),
        (
          λ e. omega (arith, e),
          (
            λ e. omega (arith, e),
            (
              λ e. omega (arith, e),
              (λ e. omega (arith, e), (λ e. omega (arith, e), (λ e. omega (arith, e), tt))),
            ),
          ),
        ),
      )
      refl
