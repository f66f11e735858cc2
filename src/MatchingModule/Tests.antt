-- ===== src/MatchingModule/Tests.antt =====
-- A document type for the messages of a client, and the theorems about messages at it.
use moboware.Base.{
  false, ℕ, ◌^◌, ◌-◌, Bool, true, nat_keys, Option, none, some, List, [], ◌∷◌, Text, codes,
  text_beq, ◌≡◌, refl, arith, length, if◌then◌else◌, c_str,
}
use moboware.OrderData.{Order, OrderAmend, default_order, validate, validate_amend}
use moboware.OrderData.Wire.{
  text_at, Json, ℤ, pos, negsuc, set_data, set_amend_data, to_string, to_uint64,
}
use moboware.PriceMap.{find, emplace}
use moboware.OrderBook.{orders, insert_order}
use moboware.MatchingEngine.{
  MatchingEngine, Message, error_reply, order_reply, amend_failed, order_amend, order_insert,
  after_insert, reply_and_match, check_match, match_step, my_book, with_book,
}
use moboware.MatchingModule.{Engines, new_engine, process, find_engine, put_engine, with_engine}
use moboware.MatchingModule.Routing.{DiffersAt, on_engine, process-engine_call}
use moboware.MatchingModule.Amends.{order_amend_from_message}
use moboware.MatchingModule.Replies.{Answers}
use moboware.Channel.{log_module, matching_engine_module}
use moboware.Channel.Serving.{serve_data, send_replies, serve_data-process}
use moboware.SocketServer.Table.{find as find_session}
use moboware.WebSocketServer.{WebSocketServer, new_web_socket_server, reading}

data Leaf : Type 0 where
  text : Text → Leaf
  number : ℤ → Leaf
  flag : Bool → Leaf

-- A message: its action and the fields of its data; or a field of it.
data Document : Type 0 where
  message : Text → List (Text × Leaf) → Document
  fields : List (Text × Leaf) → Document
  leaf : Leaf → Document

abbrev field_at : List (Text × Leaf) → Text → Option Document
unfolding text_beq
field_at [] name = none
field_at ((n, v) ∷ fs) name = if text_beq n name then some (leaf v) else field_at fs name

abbrev document_at : Document → Text → Option Document
unfolding text_beq
document_at (message action fs) name =
    if text_beq name (codes "Action")
    then some (leaf (text action))
    else if text_beq name (codes "Data")
    then some (fields fs)
    else none
document_at (fields fs) name = field_at fs name
document_at (leaf v) name = none

abbrev text_of : Document → Option Text
text_of (leaf (text s)) = some s
text_of _ = none

abbrev number_of : Document → Option ℤ
number_of (leaf (number n)) = some n
number_of _ = none

abbrev flag_of : Document → Option Bool
flag_of (leaf (flag b)) = some b
flag_of _ = none

abbrev fields_of : ℤ → List (Text × Leaf)
fields_of price =
    (codes "Account", text (codes "me"))
    ∷ (codes "Price", number price)
    ∷ (codes "NewPrice", number (pos 8))
    ∷ (codes "Volume", number (pos 5))
    ∷ (codes "NewVolume", number (pos 4))
    ∷ (codes "Type", text (codes "Limit"))
    ∷ (codes "IsBuy", flag true)
    ∷ (codes "ClientId", text (codes "c"))
    ∷ (codes "Instrument", text (codes "X"))
    ∷ []

-- A parser that reads an insert of a bid for every text.
abbrev inserts : Json
inserts = record {
  Value = Document;
  at = document_at;
  as_string = text_of;
  as_int64 = number_of;
  as_bool = flag_of;
  write = length;
  release = λ bytes. some (message (codes "Insert") (fields_of (pos 7)));
}

abbrev two_engines : Engines
two_engines = (codes "X", new_engine) ∷ (codes "Y", new_engine) ∷ []

-- The order of that message at the clock reading 9.
abbrev order_at_9 : Order
order_at_9 = record default_order {
  account = codes "me";
  instrument = codes "X";
  price = 7;
  volume = 5;
  type = codes "Limit";
  is_buy_side = true;
  order_time = 9;
  id = codes "9";
  client_id = codes "c";
}

abbrev after_insert_of_bid : Engines
after_insert_of_bid =
    (codes "X", record { bids = (7, record { time_queue = order_at_9 ∷ [] }) ∷ []; asks = [] })
    ∷ (codes "Y", new_engine)
    ∷ []

set_data_reads : set_data inserts 9 (fields (fields_of (pos 7))) ≡ some (order_at_9, true)
unfolding set_data text_beq c_str to_uint64 to_string validate
set_data_reads = refl

process-inserts :
    process {E = ℕ} 1 inserts 9 (codes "{}") two_engines
    ≡ some (
      after_insert_of_bid,
      (1, order_reply (record { id = codes "9"; client_id = codes "c" })) ∷ [],
    )
unfolding process set_data text_beq c_str to_uint64 to_string validate find_engine put_engine
    with_engine order_insert after_insert reply_and_match check_match match_step insert_order
    my_book with_book find emplace
process-inserts = refl

process-engine_call_example :
    let left : Option MatchingEngine × List (ℕ × Message) = (
      find_engine (codes "X") after_insert_of_bid,
      (1, order_reply (record { id = codes "9"; client_id = codes "c" })) ∷ [],
    ) in
    DiffersAt (codes "X") two_engines after_insert_of_bid
    × (left ≡ on_engine (some new_engine) (order_insert 1 order_at_9))
unfolding set_data text_at text_beq c_str to_uint64 to_string validate find_engine
process-engine_call_example =
    process-engine_call {E = ℕ} 1 inserts 9 (fields (fields_of (pos 7))) (codes "{}")
      (codes "Insert") (codes "X") two_engines after_insert_of_bid
      ((1, order_reply (record { id = codes "9"; client_id = codes "c" })) ∷ [])
      (message (codes "Insert") (fields_of (pos 7))) (leaf (text (codes "Insert"))) refl refl refl
      refl refl refl process-inserts

negative_is_read :
    set_data inserts 9 (fields (fields_of (negsuc 3)))
    ≡ some (record order_at_9 { price = 2 ^ 64 - 4 }, true)
unfolding set_data text_beq c_str to_uint64 to_string validate
negative_is_read = refl

-- The amend of the order that was made at 9, sent at 12.
abbrev amend_at_12 : OrderAmend
amend_at_12 = record {
  base = record order_at_9 { order_time = 12; id = codes "12" };
  new_price = 8;
  new_volume = 4;
}

abbrev engine_with_bid : MatchingEngine
engine_with_bid = record { bids = (7, record { time_queue = order_at_9 ∷ [] }) ∷ []; asks = [] }

amend_is_read : set_amend_data inserts 12 (fields (fields_of (pos 7))) ≡ some (amend_at_12, true)
unfolding set_amend_data text_beq c_str to_uint64 to_string validate_amend
amend_is_read = refl

order_amend_from_message_example : order_amend {E = ℕ} 1 amend_at_12 engine_with_bid ≡ (
  engine_with_bid,
  (1, error_reply (record { client_id = codes "c"; error_message = amend_failed })) ∷ [],
)
unfolding my_book orders to_string
order_amend_from_message_example =
    order_amend_from_message {E = ℕ} 1 inserts 12 (fields (fields_of (pos 7))) amend_at_12 true
      engine_with_bid amend_is_read ((9, omega arith, refl), tt)

-- The sessions of two clients.
abbrev two_clients : WebSocketServer ℕ
two_clients = record (new_web_socket_server true) {
  sessions = (1, reading true) ∷ (2, reading true) ∷ [];
}

-- A channel with a module that logs and one that has engines; the write of the reply fails.
serve_data-process_example :
    let sent : List (ℕ × Message) =
      (1, order_reply (record { id = codes "9"; client_id = codes "c" })) ∷ [] in
    let (thrown, c) =
      serve_data
        (λ i. (0, true))
        1
        inserts
        9
        (codes "{}")
        (record {
          server = two_clients;
          served_modules = log_module ∷ matching_engine_module two_engines ∷ [];
        }) in
    (thrown ≡ false)
    × (c.served_modules ≡ log_module ∷ matching_engine_module after_insert_of_bid ∷ [])
    × (c.server ≡ send_replies (λ i. (0, true)) sent two_clients)
    × Answers 1 sent
    × (find_session 2 c.server.sessions ≡ find_session 2 two_clients.sessions)
unfolding process set_data text_beq c_str to_uint64 to_string validate find_engine put_engine
    with_engine order_insert after_insert reply_and_match check_match match_step insert_order
    my_book with_book find emplace
serve_data-process_example =
    serve_data-process (λ i. (0, true)) 1 2 inserts 9 (codes "{}") (log_module ∷ []) [] two_engines
      two_clients (λ e. omega (arith, e)) (tt, tt) tt
