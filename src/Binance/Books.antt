-- ===== src/Binance/Books.antt =====
-- The messages of the streams of order book snapshots.
use moboware.Base.{
  ℕ, true, none, some, List, [], ◌∷◌, ◌++◌, ◌≡◌, refl, Text, codes, text_beq, length, is_empty,
  ◌&&◌, if◌then◌else◌,
}
use moboware.Exchange.{
  Doubles, MarketDataStreamType, none_stream, trade_tick_stream, book_ticker_stream,
  depth_100ms_stream, depth_5_levels_stream, depth_10_levels_stream, depth_20_levels_stream,
  depth_100_levels_stream, MarketSubscription, init_orderbook,
}
use moboware.Exchange.Sax.{SaxEvent}
use moboware.Binance.{is_levels_stream, stream_type_of, on_data_read, Delivery, on_orderbook}

-- The calls for the levels of a side, each a price and a volume.
abbrev pub level_events : List (Text × Text) → List SaxEvent
level_events [] = []
level_events ((price, volume) ∷ ls) =
    SaxEvent.start_array 2
    ∷ SaxEvent.string price
    ∷ SaxEvent.string volume
    ∷ SaxEvent.end_array
    ∷ level_events ls

-- The calls for a side.
abbrev pub side_events : Text → List (Text × Text) → List SaxEvent
side_events key ls =
    SaxEvent.key key
    ∷ SaxEvent.start_array (length ls)
    ∷ (level_events ls ++ (SaxEvent.end_array ∷ []))

-- The calls for a message of the stream `name`, with its bids and asks.
abbrev pub snapshot_events : Text → ℕ → List (Text × Text) → List (Text × Text) → List SaxEvent
snapshot_events name update_id bids asks =
    SaxEvent.start_object 2
    ∷ SaxEvent.key (codes "stream")
    ∷ SaxEvent.string name
    ∷ SaxEvent.key (codes "data")
    ∷ SaxEvent.start_object 3
    ∷ SaxEvent.key (codes "lastUpdateId")
    ∷ SaxEvent.number_unsigned update_id
    ∷ (side_events (codes "bids") bids
        ++ (side_events (codes "asks") asks ++ (SaxEvent.end_object ∷ SaxEvent.end_object ∷ [])))

module _ (doubles : Doubles) (subscription : MarketSubscription) where
  open doubles use {Double}

  -- The delivery of a book without levels.
  abbrev pub empty_delivery : List (Delivery doubles)
  empty_delivery = on_orderbook subscription.instrument init_orderbook ∷ []

  module _ (name : Text) (update_id : ℕ) where
    read_snapshot :
        (t : MarketDataStreamType) (bids asks : List (Text × Text))
        → stream_type_of name ≡ t
        → is_levels_stream t ≡ true
        → on_data_read doubles subscription (snapshot_events name update_id bids asks)
          ≡ (if is_empty bids && is_empty asks then some empty_delivery else none)
    unfolding on_data_read text_beq
    read_snapshot depth_5_levels_stream [] [] e h = rw e refl
    read_snapshot depth_5_levels_stream [] ((p, v) ∷ as') e h = rw e refl
    read_snapshot depth_5_levels_stream ((p, v) ∷ bs) as' e h = rw e refl
    read_snapshot depth_10_levels_stream [] [] e h = rw e refl
    read_snapshot depth_10_levels_stream [] ((p, v) ∷ as') e h = rw e refl
    read_snapshot depth_10_levels_stream ((p, v) ∷ bs) as' e h = rw e refl
    read_snapshot depth_20_levels_stream [] [] e h = rw e refl
    read_snapshot depth_20_levels_stream [] ((p, v) ∷ as') e h = rw e refl
    read_snapshot depth_20_levels_stream ((p, v) ∷ bs) as' e h = rw e refl
    read_snapshot none_stream bids asks e h = absurd (cc)
    read_snapshot trade_tick_stream bids asks e h = absurd (cc)
    read_snapshot book_ticker_stream bids asks e h = absurd (cc)
    read_snapshot depth_100ms_stream bids asks e h = absurd (cc)
    read_snapshot depth_100_levels_stream bids asks e h = absurd (cc)

  -- A snapshot message of a levels stream delivers an empty order book if it has no bids and no asks; if it
  -- has any, the parser writes outside of the vector of the bids or of the asks, which is undefined.
  pub on_data_read_snapshot :
      (name : Text) (update_id : ℕ) (bids asks : List (Text × Text))
      → is_levels_stream (stream_type_of name) ≡ true
      → on_data_read doubles subscription (snapshot_events name update_id bids asks)
        ≡ (if is_empty bids && is_empty asks then some empty_delivery else none)
  on_data_read_snapshot name update_id bids asks known =
      read_snapshot name update_id (stream_type_of name) bids asks refl known
