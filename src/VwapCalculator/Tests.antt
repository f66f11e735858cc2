-- ===== src/VwapCalculator/Tests.antt =====
-- A calculator over the last two ticks.
use moboware.Base.{ℕ, some, List, [], ◌∷◌, ◌≡◌, refl, arith}
use moboware.OrderData.Wire.{pos}
use moboware.Exchange.{TradeTick}
use moboware.Exchange.Tests.{whole_numbers}
use moboware.CircularBuffer.{new_circular}
use moboware.VwapCalculator.{TradeTickVolPrice, on_trade_tick}
use moboware.VwapCalculator.Average.{counted, average, after_ticks, on_trade_tick-average}

abbrev tick_at : ℕ → ℕ → TradeTick ℕ
tick_at price volume = record {
  trade_id = [];
  trade_price = price;
  trade_volume = volume;
  trade_time = pos 0;
}

abbrev two_slots : List (TradeTickVolPrice ℕ)
two_slots = record { price = 0; volume = 0 } ∷ record { price = 0; volume = 0 } ∷ []

-- The tick without a price does not count; (20 * 1 + 40 * 3) / 4.
on_trade_tick-average_example :
    (on_trade_tick whole_numbers (tick_at 40 3) (
      after_ticks whole_numbers
        (tick_at 10 2 ∷ tick_at 20 1 ∷ tick_at 0 9 ∷ [])
        (new_circular two_slots))).0
    ≡ some 35
unfolding counted average
on_trade_tick-average_example =
    on_trade_tick-average whole_numbers two_slots (tick_at 10 2 ∷ tick_at 20 1 ∷ tick_at 0 9 ∷ [])
      (tick_at 40 3) (omega arith) (unfold counted in omega arith) refl
