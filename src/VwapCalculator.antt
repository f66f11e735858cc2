-- ===== src/VwapCalculator.antt =====
-- playground/market_data_feed/vwap_calculator.hpp: the average price of the last 500 trade ticks,
-- weighted by volume. The text that is logged is the average; the division is that of `double`.
pub mod Average
mod Tests
use moboware.Base.{ℕ, Bool, true, Option, none, some, if◌then◌else◌}
use moboware.Exchange.{Doubles, TradeTick}
use moboware.CircularBuffer.{CircularBuffer, add, loop}

pub record TradeTickVolPrice (D : Type 0) : Type 0 where
  pub price : D
  pub volume : D

module _ (doubles : Doubles) where
  open doubles use {Double, zero_double, plus, times, divided_by, exceeds}

  -- The lambda of `OnTradeTick`, over the two sums that it captures.
  unfoldable pub add_to_sums : TradeTickVolPrice Double → Double × Double → Bool × (Double × Double)
  add_to_sums tick (vol_price, volume) =
      (true, (plus vol_price (times tick.price tick.volume), plus volume tick.volume))

  -- `OnTradeTick`: the average that is logged, if there is one.
  unfoldable pub on_trade_tick :
      TradeTick Double
      → CircularBuffer (TradeTickVolPrice Double)
      → Option Double × CircularBuffer (TradeTickVolPrice Double)
  unfolding add loop add_to_sums
  on_trade_tick tick b =
      if exceeds tick.trade_price zero_double
      then (let (index, b') =
            add (record { price = tick.trade_price; volume = tick.trade_volume }) b in
          let (vol_price, volume) = loop add_to_sums b' (zero_double, zero_double) in
          (some (divided_by vol_price volume), b'))
      else (none, b)
