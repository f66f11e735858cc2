-- ===== src/Bitstamp/Trades.antt =====
-- What the feed delivers for a trade.
use moboware.Base.{
  ℕ, zero, suc, ◌+◌, ◌-◌, ◌*◌, ◌/◌, ◌%◌, ◌^◌, ◌<◌, ◌&&◌, ◌>>=◌, true, none, some, List, [], ◌∷◌,
  ◌≡◌, ◌∙◌, refl, ap, sym, arith, Text, codes, text_beq, leb, ltb, nat_beq, if◌then◌else◌,
  Bool-cases, Option-cases, inl, inr,
}
use moboware.OrderData.Wire.{pos, decimal, to_string}
use moboware.Exchange.{Doubles, MarketSubscription, int64, duration_cast}
use moboware.Exchange.Sax.{SaxEvent}
use moboware.Exchange.Search.{occurs_in}
use moboware.Bitstamp.{
  on_trade_tick, on_data_read, atol, is_digit, read_digits, digits_from, time_of_microseconds,
}

-- The calls for a trade message, with its fields in the order of the class comment.
abbrev pub trade_events :
    ℕ → Text → Text → Text → ℕ → Text → ℕ → Text → ℕ → ℕ → Text → List SaxEvent
trade_events id timestamp amount amount_str price price_str type microtimestamp buy_id sell_id
      channel =
    SaxEvent.start_object 3
    ∷ SaxEvent.key (codes "data")
    ∷ SaxEvent.start_object 10
    ∷ SaxEvent.key (codes "id")
    ∷ SaxEvent.number_unsigned id
    ∷ SaxEvent.key (codes "timestamp")
    ∷ SaxEvent.string timestamp
    ∷ SaxEvent.key (codes "amount")
    ∷ SaxEvent.number_float amount
    ∷ SaxEvent.key (codes "amount_str")
    ∷ SaxEvent.string amount_str
    ∷ SaxEvent.key (codes "price")
    ∷ SaxEvent.number_unsigned price
    ∷ SaxEvent.key (codes "price_str")
    ∷ SaxEvent.string price_str
    ∷ SaxEvent.key (codes "type")
    ∷ SaxEvent.number_unsigned type
    ∷ SaxEvent.key (codes "microtimestamp")
    ∷ SaxEvent.string microtimestamp
    ∷ SaxEvent.key (codes "buy_order_id")
    ∷ SaxEvent.number_unsigned buy_id
    ∷ SaxEvent.key (codes "sell_order_id")
    ∷ SaxEvent.number_unsigned sell_id
    ∷ SaxEvent.end_object
    ∷ SaxEvent.key (codes "channel")
    ∷ SaxEvent.string channel
    ∷ SaxEvent.key (codes "event")
    ∷ SaxEvent.string (codes "trade")
    ∷ SaxEvent.end_object
    ∷ []

-- The digits of a number are read back.
digits_from-decimal :
    (fuel n : ℕ) (rest : Text) → n < fuel → digits_from 0 (decimal fuel n rest) ≡ digits_from n rest
unfolding decimal digits_from
digits_from-decimal zero n rest h = absurd (omega arith)
digits_from-decimal (suc fuel) n rest h =
    let digit : (leb 48 (n % 10 + 48) && leb (n % 10 + 48) 57) ≡ true = ground arith in
    elim (Bool-cases (nat_beq (n / 10) 0)) [
      | inl t ↦
          let e : 0 + (n % 10 + 48 - 48) ≡ n = ground arith in
          rw (t, digit) (ap (λ (k : ℕ). digits_from k rest) e)
      | inr f ↦
          let less : n / 10 < fuel = ground arith in
          let e : n / 10 * 10 + (n % 10 + 48 - 48) ≡ n = omega arith in
          rw (f, digits_from-decimal fuel (n / 10) ((n % 10 + 48) ∷ rest) less, digit, e) refl
    ]

-- The text of a number starts with a digit.
decimal_digit :
    (fuel n : ℕ) (rest : Text)
    → n < fuel
    → (c : ℕ) × (s : Text) × (decimal fuel n rest ≡ c ∷ s) × (is_digit c ≡ true)
unfolding decimal
decimal_digit zero n rest h = absurd (omega arith)
decimal_digit (suc fuel) n rest h = elim (Bool-cases (nat_beq (n / 10) 0)) [
  | inl t ↦ (n % 10 + 48, rest, rw t refl, ground arith)
  | inr f ↦
      let less : n / 10 < fuel = ground arith in
      let (c, s, e, d) = decimal_digit fuel (n / 10) ((n % 10 + 48) ∷ rest) less in
      (c, s, rw f e, d)
]

read_digits_digit :
    (c : ℕ) (s : Text) → is_digit c ≡ true → read_digits (c ∷ s) ≡ pos (digits_from 0 (c ∷ s))
unfolding read_digits
read_digits_digit c s d = ground arith

read_digits-to_string : (n : ℕ) → read_digits (to_string n) ≡ pos n
unfolding to_string
read_digits-to_string n =
    let (c, s, e, d) = decimal_digit (suc n) n [] (omega arith) in
    ap read_digits e
    ∙ read_digits_digit c s d
    ∙ ap (λ t. pos (digits_from 0 t)) (sym e)
    ∙ ap pos (digits_from-decimal (suc n) n [] (omega arith) ∙ (unfold digits_from in refl))

-- A count of microseconds in decimal digits is read as so many nanoseconds, as long as these fit in 64 bits.
time_of_microseconds-to_string :
    (n : ℕ)
    → time_of_microseconds (to_string n)
      ≡ (if ltb (n * 1000) (2 ^ 63) then some (pos (n * 1000)) else none)
unfolding time_of_microseconds atol int64 duration_cast
time_of_microseconds-to_string n = rw (read_digits-to_string n) (ground arith)

module _ (doubles : Doubles) (subscription : MarketSubscription) where
  open doubles use {strtod}

  on_data_read_trade_time :
      (msg timestamp amount amount_str price_str microtimestamp channel : Text)
      (id price type buy_id sell_id : ℕ)
      → occurs_in (codes "\"event\":\"trade\"") msg ≡ true
      → on_data_read doubles subscription msg (
          trade_events id timestamp amount amount_str price price_str type microtimestamp buy_id
            sell_id channel)
        ≡ (time_of_microseconds microtimestamp >>= λ time. some (
            on_trade_tick subscription.instrument (record {
              trade_id = [];
              trade_price = strtod price_str;
              trade_volume = strtod amount_str;
              trade_time = time;
            })
            ∷ []))
  unfolding on_data_read text_beq
  on_data_read_trade_time msg timestamp amount amount_str price_str microtimestamp channel id price
        type buy_id sell_id found =
      rw found (elim (Option-cases (time_of_microseconds microtimestamp)) [
        | inl overflows ↦ rw overflows refl
        | inr (t, fits) ↦ rw fits refl
      ])

  -- A message whose bytes name the event of a trade, with the fields of a trade in the order of the class
  -- comment, its time a count of microseconds in decimal digits: if the time fits in 64 bits as
  -- nanoseconds, one trade tick is delivered with the price, amount and time of the message, and no id; if
  -- not, the conversion of the time overflows, which is undefined.
  pub on_data_read_trade_event :
      (msg timestamp amount amount_str price_str channel : Text)
      (microseconds id price type buy_id sell_id : ℕ)
      → occurs_in (codes "\"event\":\"trade\"") msg ≡ true
      → on_data_read doubles subscription msg (
          trade_events id timestamp amount amount_str price price_str type
            (to_string microseconds)
            buy_id
            sell_id
            channel)
        ≡ (if ltb (microseconds * 1000) (2 ^ 63)
            then some (
                on_trade_tick subscription.instrument (record {
                  trade_id = [];
                  trade_price = strtod price_str;
                  trade_volume = strtod amount_str;
                  trade_time = pos (microseconds * 1000);
                })
                ∷ [])
            else none)
  on_data_read_trade_event msg timestamp amount amount_str price_str channel microseconds id price
        type buy_id sell_id found =
      on_data_read_trade_time msg timestamp amount amount_str price_str (to_string microseconds)
        channel id price type buy_id sell_id found
      ∙ rw (time_of_microseconds-to_string microseconds) (ground arith)
