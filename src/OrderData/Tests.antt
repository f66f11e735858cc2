-- ===== src/OrderData/Tests.antt =====
-- Messages of the engine, as texts.
use moboware.Base.{◌+◌, ◌*◌, true, false, codes, ◌≡◌, refl, arith}
use moboware.OrderData.{Order, OrderReply, Trade, ErrorReply}
use moboware.OrderData.Messages.{order_reply_text, trade_text, error_reply_text}
use moboware.OrderData.Texts.{
  order_time_text, order_text, amend_text, cancel_text, shown_reply, shown_trade,
}
use moboware.OrderData.Grammar.{is_json, messages_json}

abbrev a_reply : OrderReply
a_reply = record { id = codes "17"; client_id = codes "c1" }

abbrev a_trade : Trade
a_trade = record {
  account = codes "acc";
  traded_price = 12;
  traded_volume = 3;
  id = codes "17";
  client_id = codes "c1";
}

abbrev an_error : ErrorReply
an_error = record { client_id = codes "c2"; error_message = codes "Failed to insert order" }

reply_as_text :
    order_reply_text a_reply ≡ codes "{\"OrderReply\":{\"Id\":\"17\",\"ClientId\":\"c1\"}}"
unfolding order_reply_text
reply_as_text = refl

-- Spaces, numbers, literals, arrays and escapes.
document_accepted : is_json (codes "{ \"a\" : [1, -2.5e3, true, null], \"b\\\"\" : {} } ") ≡ true
unfolding is_json
document_accepted = refl

bracket_refused : is_json (codes "[1, 2}") ≡ false
unfolding is_json
bracket_refused = refl

messages_json_example :
    (is_json (order_reply_text a_reply) ≡ true)
    × (is_json (trade_text a_trade) ≡ false)
    × (is_json (error_reply_text an_error) ≡ false)
messages_json_example =
    messages_json a_reply a_trade an_error (codes " to insert order")
      ((omega arith, omega arith, omega arith), ((omega arith, omega arith, omega arith), tt))
      ((omega arith, omega arith, omega arith), ((omega arith, omega arith, omega arith), tt))
      ((omega arith, omega arith, omega arith), ((omega arith, omega arith, omega arith), tt)) refl

-- Five microseconds past noon, on the second day.
noon_text : order_time_text ((86400 + 43200) * 1000000000 + 5000) ≡ codes "12:0:0.5"
unfolding order_time_text
noon_text = refl

cancel_as_text :
    cancel_text (record {
      instrument = codes "ABC";
      price = 12;
      is_buy_side = false;
      id = codes "17";
      client_id = codes "c1";
    })
    ≡ codes "Instrument:ABC,Price:12,Side:Ask,Id:17,ClientId:c1"
unfolding cancel_text
cancel_as_text = refl

abbrev an_order : Order
an_order = record {
  account = codes "acc";
  instrument = codes "ABC";
  price = 12;
  volume = 3;
  type = codes "Limit";
  is_buy_side = true;
  order_time = 0;
  order_duration = 0;
  id = codes "17";
  client_id = codes "c1";
}

order_as_text :
    order_text an_order
    ≡ codes
        "Instrument:ABC,Price:12,Volume:3,Side:Bid,Id:17,ClientId:c1,Account:acc,Type:Limit,Time:0:0:0.0"
unfolding order_text
order_as_text = refl

amend_as_text :
    amend_text (record { base = an_order; new_price = 13; new_volume = 4 })
    ≡ codes
        "Instrument:ABC,Price:12,NewPrice:13,Volume:3,NewVolume:4,Side:Bid,Id:17,ClientId:c1,Account:acc,Type:Limit,Time:0:0:0.0"
unfolding amend_text
amend_as_text = refl

reply_shown : shown_reply a_reply ≡ codes "{Id:17,ClientId:c1}"
unfolding shown_reply
reply_shown = refl

trade_shown :
    shown_trade a_trade ≡ codes "{Account:acc,TradedPrice:12,TradedVolume:3,Id:17,ClientId:c1}"
unfolding shown_trade
trade_shown = refl
