-- ===== src/MatchingEngine.antt =====
-- src/lib/modules/matching_engine_module/matching_engine.cpp: the engine of one instrument. A call
-- returns the new books and the messages sent, each with the endpoint that it goes to. The lock of
-- each call makes the calls a sequence.
pub mod Spec
pub mod Refine
pub mod Requests
mod Tests
pub mod EmptyLevels
pub mod Trades
pub mod BestPrices
pub mod Uncrossed
pub mod Steps
use moboware.Base.{
  ℕ, zero, suc, ◌+◌, Bool, true, false, Option, none, some, List, [], ◌∷◌, ◌++◌, map, Text, leb,
  codes, length, if◌then◌else◌, ◌>>=◌,
}
use moboware.OrderData.{Order, OrderAmend, OrderCancel, OrderReply, ErrorReply, Trade}
use moboware.PriceMap.{Side, bid, ask}
use moboware.OrderLevel.{OrderLevel, level_is_empty, get_top_level, trade_top_level, get_levels}
use moboware.OrderBook.{
  OrderBook, insert_order, amend_order, cancel_in_book, remove_level_at_price, get_book, orders,
}

pub record MatchingEngine : Type 0 where
  pub bids : OrderBook
  pub asks : OrderBook

-- What `CreateAndSendMessage` is called with.
pub data Message : Type 0 where
  order_reply : OrderReply → Message
  error_reply : ErrorReply → Message
  trade : Trade → Message

-- `std::begin(map)->second`, if the map is not empty.
unfoldable pub best_level : OrderBook → Option OrderLevel
best_level [] = none
best_level ((k, level) ∷ b) = some level

-- A write through the reference to that level.
unfoldable pub write_best : OrderLevel → OrderBook → OrderBook
write_best level [] = []
write_best level ((k, old) ∷ b) = (k, level) ∷ b

unfoldable pub match_price : Order → Order → Bool
match_price new_order best_order =
    if new_order.is_buy_side
    then leb best_order.price new_order.price
    else leb new_order.price best_order.price

-- The best level and its oldest order; `none` is one of the three returns of `ExecuteOrder`.
unfoldable pub best_order : OrderBook → Option (OrderLevel × Order)
unfolding best_level level_is_empty get_top_level
best_order b = do
  level ← best_level b
  order ← if level_is_empty level then none else get_top_level level
  some (level, order)

-- The level is written back, and removed at the price of its order if it is empty.
unfoldable pub settle : OrderLevel → Order → OrderBook → OrderBook
unfolding write_best level_is_empty remove_level_at_price
settle level order b =
    let b' = write_best level b in
    if level_is_empty level then remove_level_at_price order.price b' else b'

-- A match: the opposite side's oldest order trades my order's volume, and mine what it traded.
unfoldable pub trade_best :
    OrderLevel
    → Order
    → OrderLevel
    → Order
    → OrderBook
    → OrderBook
    → List Trade × OrderBook × OrderBook
trade_best opposite_level opposite_order my_level my_order opposite mine =
    let (traded, sent, opposite_level') = trade_top_level opposite_level my_order.volume in
    let (taken, sent', my_level') = trade_top_level my_level traded in
    (sent ++ sent', settle opposite_level' opposite_order opposite, settle my_level' my_order mine)

-- One round of the loop of `ExecuteOrder`: the trades sent, the opposite book and my book; `none`
-- where the loop returns.
unfoldable pub match_step : OrderBook → OrderBook → Option (List Trade × OrderBook × OrderBook)
unfolding best_order match_price trade_best
match_step opposite mine = do
  (my_level, my_order) ← best_order mine
  (opposite_level, opposite_order) ← best_order opposite
  if match_price my_order opposite_order
      then some (trade_best opposite_level opposite_order my_level my_order opposite mine)
      else none

-- The loop, on fuel.
unfoldable pub match_loop : ℕ → OrderBook → OrderBook → List Trade × OrderBook × OrderBook
match_loop zero opposite mine = ([], opposite, mine)
match_loop (suc fuel) opposite mine = elim (match_step opposite mine) [
  | none ↦ ([], opposite, mine)
  | some (trades, opposite', mine') ↦
      let (more, o, m) = match_loop fuel opposite' mine' in (trades ++ more, o, m)
]

-- `ExecuteOrder`: each round but the last removes an order, so the number of orders is fuel enough.
unfoldable pub execute_order : OrderBook → OrderBook → List Trade × OrderBook × OrderBook
unfolding match_loop orders
execute_order opposite mine =
    match_loop (length (orders opposite) + length (orders mine)) opposite mine

-- `CheckMatch` of a new or an amended order.
unfoldable pub check_match : Bool → MatchingEngine → List Trade × MatchingEngine
unfolding execute_order
check_match true e =
    let (trades, opposite, mine) = execute_order e.asks e.bids in
    (trades, record { bids = mine; asks = opposite })
check_match false e =
    let (trades, opposite, mine) = execute_order e.bids e.asks in
    (trades, record { bids = opposite; asks = mine })

-- The book of a side, and a write to it.
unfoldable pub my_book : Bool → MatchingEngine → OrderBook
my_book true e = e.bids
my_book false e = e.asks

unfoldable pub with_book : Bool → OrderBook → MatchingEngine → MatchingEngine
with_book true b e = record e { bids = b }
with_book false b e = record e { asks = b }

abbrev pub side_of : Bool → Side
side_of true = bid
side_of false = ask

unfoldable pub insert_failed : Text
insert_failed = codes "Failed to insert order"

unfoldable pub amend_failed : Text
amend_failed = codes "Failed to amend order"

unfoldable pub cancel_failed : Text
cancel_failed = codes "Failed to cancel order"

module _ {E : Type 0} (endpoint : E) where
  abbrev pub send : Message → E × Message
  send m = (endpoint, m)

  -- A successful request: the reply, then the trades of `CheckMatch`.
  unfoldable pub reply_and_match :
      Bool → OrderReply → MatchingEngine → MatchingEngine × List (E × Message)
  reply_and_match is_buy reply e =
      let (trades, e') = check_match is_buy e in
      (e', send (order_reply reply) ∷ map (λ t. send (trade t)) trades)

  -- A request that failed is answered with an error.
  unfoldable pub reply_error : Text → Text → MatchingEngine → MatchingEngine × List (E × Message)
  reply_error client_id error_message e =
      (e, send (error_reply (record { client_id = client_id; error_message = error_message })) ∷ [])

  unfoldable pub after_insert :
      Order → Option Order → MatchingEngine → MatchingEngine × List (E × Message)
  after_insert o (some inserted) e =
      reply_and_match o.is_buy_side (record { id = inserted.id; client_id = inserted.client_id }) e
  after_insert o none e = reply_error o.client_id insert_failed e

  unfoldable pub order_insert : Order → MatchingEngine → MatchingEngine × List (E × Message)
  order_insert o e =
      let (inserted, b) = insert_order (side_of o.is_buy_side) o (my_book o.is_buy_side e) in
      after_insert o inserted (with_book o.is_buy_side b e)

  unfoldable pub after_amend :
      OrderAmend → Bool → MatchingEngine → MatchingEngine × List (E × Message)
  after_amend a true e =
      reply_and_match a.is_buy_side (record { id = a.id; client_id = a.client_id }) e
  after_amend a false e = reply_error a.client_id amend_failed e

  unfoldable pub order_amend : OrderAmend → MatchingEngine → MatchingEngine × List (E × Message)
  order_amend a e =
      let (amended, b) = amend_order (side_of a.is_buy_side) a (my_book a.is_buy_side e) in
      after_amend a amended (with_book a.is_buy_side b e)

  unfoldable pub after_cancel :
      OrderCancel → Bool → MatchingEngine → MatchingEngine × List (E × Message)
  after_cancel c true e =
      (e, send (order_reply (record { id = c.id; client_id = c.client_id })) ∷ [])
  after_cancel c false e = reply_error c.client_id cancel_failed e

  unfoldable pub order_cancel : OrderCancel → MatchingEngine → MatchingEngine × List (E × Message)
  order_cancel c e =
      let (cancelled, b) = cancel_in_book c (my_book c.is_buy_side e) in
      after_cancel c cancelled (with_book c.is_buy_side b e)

-- `GetOrderBook` walks the asks, then the bids, with a callback that sees each order.
unfoldable pub get_order_book {ℓ} : {S : Type ℓ} → (Order → S → Bool × S) → MatchingEngine → S → S
unfolding get_book get_levels
get_order_book print_order_data e s =
    let after_asks = get_book (get_levels print_order_data) e.asks s in
    get_book (get_levels print_order_data) e.bids after_asks
