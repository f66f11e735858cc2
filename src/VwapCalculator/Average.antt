-- ===== src/VwapCalculator/Average.antt =====
-- The average after a list of ticks, against the list of the ticks that count.
use moboware.Base.{
  ◌+◌, ◌<◌, ◌^◌, true, some, List, [], ◌∷◌, ◌++◌, ◌≡◌, ◌∙◌, refl, ap, arith, length, if◌then◌else◌,
  Bool-cases, inl, inr, length-append,
}
use moboware.Exchange.{Doubles, TradeTick}
use moboware.CircularBuffer.{CircularBuffer, new_circular, add, loop}
use moboware.CircularBuffer.Latest.{walk, latest, add_all, loop-latest}
use moboware.VwapCalculator.{TradeTickVolPrice, add_to_sums, on_trade_tick}

module _ (doubles : Doubles) where
  open doubles use {Double, zero_double, plus, times, divided_by, exceeds}

  -- The ticks with a price above zero, with their prices and volumes.
  unfoldable pub counted : List (TradeTick Double) → List (TradeTickVolPrice Double)
  counted [] = []
  counted (t ∷ ts) =
      if exceeds t.trade_price zero_double
      then record { price = t.trade_price; volume = t.trade_volume } ∷ counted ts
      else counted ts

  -- The sums of price times volume, and of the volumes.
  unfoldable pub sums : List (TradeTickVolPrice Double) → Double × Double → Double × Double
  sums [] s = s
  sums (t ∷ ts) (vol_price, volume) =
      sums ts (plus vol_price (times t.price t.volume), plus volume t.volume)

  unfoldable pub average : List (TradeTickVolPrice Double) → Double
  unfolding sums
  average ts =
      let (vol_price, volume) = sums ts (zero_double, zero_double) in divided_by vol_price volume

  -- The buffer after the ticks.
  unfoldable pub after_ticks :
      List (TradeTick Double)
      → CircularBuffer (TradeTickVolPrice Double)
      → CircularBuffer (TradeTickVolPrice Double)
  unfolding on_trade_tick
  after_ticks [] b = b
  after_ticks (t ∷ ts) b = after_ticks ts (on_trade_tick doubles t b).1

  walk-sums :
      (ts : List (TradeTickVolPrice Double)) (s : Double × Double)
      → walk (add_to_sums doubles) ts s ≡ sums ts s
  unfolding walk sums add_to_sums
  walk-sums [] s = refl
  walk-sums (t ∷ ts) s = walk-sums ts (plus s.0 (times t.price t.volume), plus s.1 t.volume)

  after_ticks-add_all :
      (ts : List (TradeTick Double)) (b : CircularBuffer (TradeTickVolPrice Double))
      → after_ticks ts b ≡ add_all (counted ts) b
  unfolding after_ticks add_all counted on_trade_tick
  after_ticks-add_all [] b = refl
  after_ticks-add_all (t ∷ ts) b = elim (Bool-cases (exceeds t.trade_price zero_double)) [
    | inl counts ↦ rw counts (
        after_ticks-add_all ts
          (add (record { price = t.trade_price; volume = t.trade_volume }) b).1)
    | inr ignored ↦ rw ignored (after_ticks-add_all ts b)
  ]

  add-add_all :
      {A : Type 0} (xs : List A) (x : A) (b : CircularBuffer A)
      → (add x (add_all xs b)).1 ≡ add_all (xs ++ (x ∷ [])) b
  unfolding add_all
  add-add_all [] x b = refl
  add-add_all (y ∷ xs) x b = add-add_all xs x (add y b).1

  on_trade_tick_counts :
      (t : TradeTick Double) (b : CircularBuffer (TradeTickVolPrice Double))
      → exceeds t.trade_price zero_double ≡ true
      → let b' = (add (record { price = t.trade_price; volume = t.trade_volume }) b).1 in
        let s = loop (add_to_sums doubles) b' (zero_double, zero_double) in
        (on_trade_tick doubles t b).0 ≡ some (divided_by s.0 s.1)
  unfolding on_trade_tick
  on_trade_tick_counts t b counts = rw counts

  -- After fewer than 2 ^ 64 - 1 ticks that count on a new calculator, a tick with a price above zero logs
  -- the average, weighted by volume, of the last ticks with a price above zero, that tick included, as
  -- many as the buffer has room for.
  pub on_trade_tick-average :
      (array : List (TradeTickVolPrice Double)) (ts : List (TradeTick Double))
      (t : TradeTick Double)
      → 0 < length array
      → length (counted ts) + 1 < 2 ^ 64
      → exceeds t.trade_price zero_double ≡ true
      → (on_trade_tick doubles t (after_ticks ts (new_circular array))).0
        ≡ some (
            average (
              latest
                (length array)
                (counted ts ++ (record { price = t.trade_price; volume = t.trade_volume } ∷ []))))
  unfolding average
  on_trade_tick-average array ts t room small counts =
      let sample : TradeTickVolPrice Double = record {
        price = t.trade_price;
        volume = t.trade_volume;
      } in
      let b = after_ticks ts (new_circular array) in
      let all = counted ts ++ (sample ∷ []) in
      let added : (add sample b).1 ≡ add_all all (new_circular array) =
        ap (λ c. (add sample c).1) (after_ticks-add_all ts (new_circular array))
        ∙ add-add_all (counted ts) sample (new_circular array) in
      let summed : loop (add_to_sums doubles) (add sample b).1 (zero_double, zero_double)
          ≡ sums (latest (length array) all) (zero_double, zero_double) =
        ap (λ c. loop (add_to_sums doubles) c (zero_double, zero_double)) added
        ∙ loop-latest (add_to_sums doubles) array all (zero_double, zero_double) room
            (omega (arith, length-append (counted ts) (sample ∷ [])))
        ∙ walk-sums (latest (length array) all) (zero_double, zero_double) in
      on_trade_tick_counts t b counts ∙ ap (λ s. some (divided_by s.0 s.1)) summed
