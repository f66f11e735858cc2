-- ===== src/OrderLevel.antt =====
-- src/lib/modules/matching_engine_module/order_level.cpp: the orders of one price, oldest first.
-- A method that changes the queue returns the new level. A callback is a function of the order
-- that it is handed, or of that order and a state that it changes.
pub mod Laws
use moboware.Base.{
  ℕ, ◌-◌, Bool, true, false, Option, none, some, List, [], ◌∷◌, ◌++◌, Text, ltb, leb, ◌==◌,
  text_keys, nat_keys, is_empty, length, if◌then◌else◌,
}
use moboware.OrderData.{Order, Trade, set_volume}

pub record OrderLevel : Type 0 where
  pub time_queue : List Order

-- `OrderLevel::Insert`: the order goes to the end, and the result points at the copy there.
unfoldable pub insert : Order → OrderLevel → Option Order × OrderLevel
insert o l = (some o, record { time_queue = l.time_queue ++ (o ∷ []) })

-- The constructor.
unfoldable pub new_level : Order → OrderLevel
unfolding insert
new_level o = (insert o (record { time_queue = [] })).1

unfoldable pub get_size : OrderLevel → ℕ
get_size l = length l.time_queue

unfoldable pub level_is_empty : OrderLevel → Bool
level_is_empty l = is_empty l.time_queue

front : List Order → Option Order
front [] = none
front (o ∷ os) = some o

back : List Order → Option Order
back [] = none
back (o ∷ []) = some o
back (o ∷ p ∷ os) = back (p ∷ os)

-- A copy of the oldest order.
unfoldable pub get_top_level : OrderLevel → Option Order
unfolding front
get_top_level l = front l.time_queue

unfoldable pub get_last_order : OrderLevel → Option Order
unfolding back
get_last_order l = back l.time_queue

-- The trade that a level reports: at the price of its own order.
unfoldable pub make_trade : Order → ℕ → Trade
make_trade o v = record {
  account = o.account;
  traded_price = o.price;
  traded_volume = v;
  id = o.id;
  client_id = o.client_id;
}

-- `TradeTopLevel` on the queue: the traded volume, the trades handed to `tradedFn`, and the queue.
unfoldable pub trade_queue : List Order → ℕ → ℕ × List Trade × List Order
unfolding make_trade set_volume
trade_queue [] volume = (0, [], [])
trade_queue (top ∷ rest) volume =
    let traded =
      if leb volume top.volume then volume else if ltb top.volume volume then top.volume else 0 in
    let left =
      if leb volume top.volume
      then top.volume - volume
      else if ltb top.volume volume
      then 0
      else top.volume in
    (traded, make_trade top traded ∷ [], if left == 0 then rest else set_volume left top ∷ rest)

unfoldable pub trade_top_level : OrderLevel → ℕ → ℕ × List Trade × OrderLevel
unfolding trade_queue
trade_top_level l volume =
    let (traded, trades, queue) = trade_queue l.time_queue volume in
    (traded, trades, record { time_queue = queue })

-- `GetLevels`: the callback sees the orders in turn, until it returns false.
get_levels_queue {ℓ} : {S : Type ℓ} → (Order → S → Bool × S) → List Order → S → Bool × S
get_levels_queue f [] s = (true, s)
get_levels_queue f (o ∷ os) s =
    let (more, s') = f o s in
    let rest = get_levels_queue f os s' in if more then rest else (false, s')

unfoldable pub get_levels {ℓ} : {S : Type ℓ} → (Order → S → Bool × S) → OrderLevel → S → Bool × S
unfolding get_levels_queue
get_levels f l s = get_levels_queue f l.time_queue s

unfoldable pub cancel_queue : Text → List Order → Bool × List Order
cancel_queue order_id [] = (false, [])
cancel_queue order_id (o ∷ os) =
    let (found, rest) = cancel_queue order_id os in
    if o.id == order_id then (true, os) else (found, o ∷ rest)

unfoldable pub cancel_order : Text → OrderLevel → Bool × OrderLevel
unfolding cancel_queue
cancel_order order_id l =
    let (found, queue) = cancel_queue order_id l.time_queue in
    (found, record { time_queue = queue })

unfoldable pub find_queue : Text → (Order → Order) → List Order → Bool × List Order
find_queue order_id f [] = (false, [])
find_queue order_id f (o ∷ os) =
    let (found, rest) = find_queue order_id f os in
    if order_id == o.id then (true, f o ∷ os) else (found, o ∷ rest)

-- `OrderLevel::Find`: the callback changes the first order of that id.
unfoldable pub find_order : Text → (Order → Order) → OrderLevel → Bool × OrderLevel
unfolding find_queue
find_order order_id f l =
    let (found, queue) = find_queue order_id f l.time_queue in
    (found, record { time_queue = queue })

unfoldable pub change_order_volume : Text → ℕ → OrderLevel → Bool × OrderLevel
unfolding find_order
change_order_volume order_id new_volume = find_order order_id (set_volume new_volume)

-- `MoveOrder`: the first order of that id is handed to the callback, and erased after it.
unfoldable pub move_queue {ℓ} :
    {S : Type ℓ} → Text → (Order → S → S) → List Order → S → Bool × List Order × S
move_queue order_id f [] s = (false, [], s)
move_queue order_id f (o ∷ os) s =
    let (found, rest, s') = move_queue order_id f os s in
    if order_id == o.id then (true, os, f o s) else (found, o ∷ rest, s')

unfoldable pub move_order {ℓ} :
    {S : Type ℓ} → Text → (Order → S → S) → OrderLevel → S → Bool × OrderLevel × S
unfolding move_queue
move_order order_id f l s =
    let (found, queue, s') = move_queue order_id f l.time_queue s in
    (found, record { time_queue = queue }, s')
