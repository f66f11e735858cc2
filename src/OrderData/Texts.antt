-- ===== src/OrderData/Texts.antt =====
-- The operators of order_data.cpp for `ostream`: orders, replies, trades and times as a reader sees them.
use moboware.Base.{
  ℕ, ◌+◌, ◌-◌, ◌*◌, ◌/◌, ◌%◌, ◌&&◌, List, [], ◌∷◌, ◌++◌, Text, codes, leb, Bool, if◌then◌else◌,
}
use moboware.OrderData.{Order, OrderAmend, OrderCancel, OrderReply, Trade}
use moboware.OrderData.Wire.{to_string}

-- Seconds and microseconds of a time in nanoseconds.
convert_to_timeval : ℕ → ℕ × ℕ
convert_to_timeval time = let usec = time / 1000 in (usec / 1000000, usec % 1000000)

-- The time of day, as gmtime gives it.
unfoldable pub time_of_day : ℕ → ℕ × ℕ × ℕ × ℕ
unfolding convert_to_timeval
time_of_day time =
    let (sec, usec) = convert_to_timeval time in (sec / 3600 % 24, sec / 60 % 60, sec % 60, usec)

unfoldable pub order_time_text : ℕ → Text
unfolding time_of_day to_string
order_time_text time =
    let (hour, min, sec, usec) = time_of_day time in
    to_string hour
    ++ (codes ":"
        ++ (to_string min ++ (codes ":" ++ (to_string sec ++ (codes "." ++ to_string usec)))))

-- Fields and their values, with commas between them.
fields_text : List (Text × Text) → Text
fields_text [] = []
fields_text ((name, value) ∷ []) = name ++ (codes ":" ++ value)
fields_text ((name, value) ∷ f ∷ fs) =
    name ++ (codes ":" ++ (value ++ (codes "," ++ fields_text (f ∷ fs))))

abbrev side_text : Bool → Text
side_text is_buy_side = if is_buy_side then codes "Bid" else codes "Ask"

-- The fields that follow the volumes.
last_fields : Order → List (Text × Text)
unfolding order_time_text
last_fields o =
    (codes "Side", side_text o.is_buy_side)
    ∷ (codes "Id", o.id)
    ∷ (codes "ClientId", o.client_id)
    ∷ (codes "Account", o.account)
    ∷ (codes "Type", o.type)
    ∷ (codes "Time", order_time_text o.order_time)
    ∷ []

unfoldable pub order_text : Order → Text
unfolding fields_text to_string last_fields
order_text o = fields_text (
    (codes "Instrument", o.instrument)
    ∷ (codes "Price", to_string o.price)
    ∷ (codes "Volume", to_string o.volume)
    ∷ last_fields o)

unfoldable pub amend_text : OrderAmend → Text
unfolding fields_text to_string last_fields
amend_text a = fields_text (
    (codes "Instrument", a.instrument)
    ∷ (codes "Price", to_string a.price)
    ∷ (codes "NewPrice", to_string a.new_price)
    ∷ (codes "Volume", to_string a.volume)
    ∷ (codes "NewVolume", to_string a.new_volume)
    ∷ last_fields a.base)

unfoldable pub cancel_text : OrderCancel → Text
unfolding fields_text to_string
cancel_text c = fields_text (
    (codes "Instrument", c.instrument)
    ∷ (codes "Price", to_string c.price)
    ∷ (codes "Side", side_text c.is_buy_side)
    ∷ (codes "Id", c.id)
    ∷ (codes "ClientId", c.client_id)
    ∷ [])

unfoldable pub shown_reply : OrderReply → Text
unfolding fields_text
shown_reply r =
    codes "{"
    ++ (fields_text ((codes "Id", r.id) ∷ (codes "ClientId", r.client_id) ∷ []) ++ codes "}")

unfoldable pub shown_trade : Trade → Text
unfolding fields_text to_string
shown_trade t =
    codes "{"
    ++ (fields_text (
          (codes "Account", t.account)
          ∷ (codes "TradedPrice", to_string t.traded_price)
          ∷ (codes "TradedVolume", to_string t.traded_volume)
          ∷ (codes "Id", t.id)
          ∷ (codes "ClientId", t.client_id)
          ∷ [])
        ++ codes "}")

-- The number at the front, and what follows the byte behind it.
read_number : ℕ → Text → ℕ × Text
read_number n [] = (n, [])
read_number n (c ∷ cs) =
    let more = read_number (n * 10 + (c - 48)) cs in if leb 48 c && leb c 57 then more else (n, cs)

unfoldable pub read_time : Text → ℕ × ℕ × ℕ × ℕ
unfolding read_number
read_time text =
    let (hour, minutes) = read_number 0 text in
    let (min, seconds) = read_number 0 minutes in
    let (sec, fraction) = read_number 0 seconds in (hour, min, sec, (read_number 0 fraction).0)
