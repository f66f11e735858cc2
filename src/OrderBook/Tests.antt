-- ===== src/OrderBook/Tests.antt =====
-- A small book of bids, and the theorems about one side of the book at it.
use moboware.Base.{
  ℕ, ◌≡◌, refl, true, false, none, some, List, [], ◌∷◌, Text, arith, codes, text_beq,
}
use moboware.OrderData.{Order, OrderAmend, OrderCancel, default_order, set_price, set_volume}
use moboware.PriceMap.{bid, find, assign, emplace}
use moboware.OrderLevel.{OrderLevel}
use moboware.OrderBook.{
  OrderBook, insert_order, amend_order, cancel_in_book, orders, get_level_at_price,
}
use moboware.OrderBook.Invariant.{IsWellFormed}
use moboware.OrderBook.Priority.{enter, insert_order-enter}
use moboware.OrderBook.Edit.{seen, edit_first}
use moboware.OrderBook.Withdraw.{cancel_in_book-withdraw}
use moboware.OrderBook.Amend.{amend_order-amend_orders, lookup_at, relocate, holds}

abbrev pub bid_of : ℕ → ℕ → Text → Order
bid_of price volume id = record default_order {
  price = price;
  volume = volume;
  is_buy_side = true;
  id = id;
  client_id = id;
}

abbrev pub ask_of : ℕ → ℕ → Text → Order
ask_of price volume id = record default_order {
  price = price;
  volume = volume;
  is_buy_side = false;
  id = id;
  client_id = id;
}

abbrev pub level_with : List Order → OrderLevel
level_with os = record { time_queue = os }

abbrev pub first_bid : Order
first_bid = bid_of 105 10 (codes "b1")

abbrev pub second_bid : Order
second_bid = bid_of 105 5 (codes "b2")

abbrev pub low_bid : Order
low_bid = bid_of 100 7 (codes "b3")

abbrev pub some_bids : OrderBook
some_bids = (105, level_with (first_bid ∷ second_bid ∷ [])) ∷ (100, level_with (low_bid ∷ [])) ∷ []

pub some_bids-IsWellFormed : IsWellFormed bid some_bids
some_bids-IsWellFormed = record {
  sorted = omega arith;
  placed = (((refl, refl), ((refl, refl), tt)), (((refl, refl), tt), tt));
}

abbrev cancel_second : OrderCancel
cancel_second = record {
  instrument = [];
  price = 105;
  is_buy_side = true;
  id = codes "b2";
  client_id = codes "c";
}

-- The first bid to another price and volume.
abbrev amend_first : ℕ → ℕ → OrderAmend
amend_first new_price new_volume = record {
  base = first_bid;
  new_price = new_price;
  new_volume = new_volume;
}

-- A bid between the levels gets its own level; one at a level goes to the end of its queue.
insert_between :
    orders (insert_order bid (bid_of 102 1 (codes "b4")) some_bids).1
    ≡ first_bid ∷ second_bid ∷ bid_of 102 1 (codes "b4") ∷ low_bid ∷ []
unfolding orders insert_order find emplace
insert_between = refl

insert_behind :
    orders (insert_order bid (bid_of 105 1 (codes "b4")) some_bids).1
    ≡ first_bid ∷ second_bid ∷ bid_of 105 1 (codes "b4") ∷ low_bid ∷ []
unfolding orders insert_order find assign
insert_behind = refl

-- No level: an engaged optional with a null pointer.
missing_level : get_level_at_price 7 some_bids ≡ some none
unfolding get_level_at_price find
missing_level = refl

insert_order-enter_example :
    orders (insert_order bid (bid_of 102 1 (codes "b4")) some_bids).1
    ≡ enter bid (bid_of 102 1 (codes "b4")) (orders some_bids)
insert_order-enter_example =
    insert_order-enter bid (bid_of 102 1 (codes "b4")) some_bids some_bids-IsWellFormed

cancel_in_book-withdraw_example :
    seen (cancel_in_book cancel_second some_bids) ≡ (true, first_bid ∷ low_bid ∷ [])
unfolding edit_first text_beq orders
cancel_in_book-withdraw_example =
    cancel_in_book-withdraw bid cancel_second some_bids some_bids-IsWellFormed

-- To a free price: behind the bid that stayed at 105.
amend_order-amend_orders_example :
    seen (amend_order bid (amend_first 103 10) some_bids)
    ≡ (true, second_bid ∷ bid_of 103 10 (codes "b1") ∷ low_bid ∷ [])
unfolding edit_first text_beq orders find lookup_at relocate enter set_price set_volume holds
amend_order-amend_orders_example =
    amend_order-amend_orders bid (amend_first 103 10) some_bids some_bids-IsWellFormed
