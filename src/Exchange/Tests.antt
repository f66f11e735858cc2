-- ===== src/Exchange/Tests.antt =====
-- Whole numbers in the place of `double`, for the tests of the market data feeds.
use moboware.Base.{
  ℕ, ◌+◌, ◌-◌, ◌*◌, ◌/◌, [], ◌∷◌, Text, codes, ltb, nat_beq, if◌then◌else◌, true, false, ◌≡◌, refl,
}
use moboware.Exchange.{Doubles, MarketSubscription}
use moboware.Exchange.Search.{occurs_in}

-- The digits up to the decimal point.
abbrev pub whole_part : ℕ → Text → ℕ
whole_part n [] = n
whole_part n (c ∷ s) =
    let rest = whole_part (n * 10 + (c - 48)) s in if nat_beq c 46 then n else rest

abbrev pub whole_numbers : Doubles
whole_numbers = record {
  Double = ℕ;
  zero_double = 0;
  plus = λ a b. a + b;
  times = λ a b. a * b;
  divided_by = λ a b. a / b;
  exceeds = λ a b. ltb b a;
  strtod = whole_part 0;
}

abbrev pub bitcoin : MarketSubscription
bitcoin = record {
  instrument = record {
    exchange = codes "Binance";
    exchange_symbol = codes "btcusdt";
    symbol = codes "BTC";
  };
  stream_subscriptions = [];
}

finds_in_the_middle : occurs_in (codes "@trade") (codes "btcusdt@trade/x") ≡ true
unfolding occurs_in
finds_in_the_middle = refl

misses_a_part : occurs_in (codes "@trade") (codes "btcusdt@trad") ≡ false
unfolding occurs_in
misses_a_part = refl
