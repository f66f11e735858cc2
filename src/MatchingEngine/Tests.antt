-- ===== src/MatchingEngine/Tests.antt =====
-- A small engine, and the theorems about matching at it.
use moboware.Base.{ℕ, ◌≡◌, refl, true, none, [], ◌∷◌, arith, codes}
use moboware.OrderData.{Order, OrderAmend, OrderCancel}
use moboware.PriceMap.{bid, ask, find, erase, emplace}
use moboware.OrderLevel.{make_trade, trade_top_level}
use moboware.OrderBook.{OrderBook, orders, insert_order}
use moboware.OrderBook.Invariant.{IsWellFormed}
use moboware.OrderBook.Tests.{
  bid_of, ask_of, level_with, first_bid, second_bid, some_bids, some_bids-IsWellFormed,
}
use moboware.MatchingEngine.{
  MatchingEngine, order_reply, trade, match_step, execute_order, order_insert, order_cancel,
  after_insert, reply_and_match, check_match, trade_best, settle, my_book, with_book,
}
use moboware.MatchingEngine.Spec.{match_orders}
use moboware.MatchingEngine.Refine.{
  reachable, view, execute_order-match_orders, execute_order_stops,
}
use moboware.MatchingEngine.Requests.{insert, amend, IsValid, run, run-IsValid}
use moboware.MatchingEngine.BestPrices.{IsFilled, IsSettled, order_insert-IsSettled}
use moboware.MatchingEngine.Trades.{
  Accounts, IsPaired, execute_order-Accounts, execute_order-IsPaired,
}
use moboware.MatchingEngine.EmptyLevels.{cancel_hides_bids}

abbrev high_ask : Order
high_ask = ask_of 120 9 (codes "a2")

abbrev some_asks : OrderBook
some_asks =
    (110, level_with (ask_of 110 4 (codes "a1") ∷ [])) ∷ (120, level_with (high_ask ∷ [])) ∷ []

abbrev some_engine : MatchingEngine
some_engine = record { bids = some_bids; asks = some_asks }

-- A sell order that takes the first bid and a part of the second.
abbrev big_sell : Order
big_sell = ask_of 101 12 (codes "s")

abbrev selling : OrderBook
selling = (101, level_with (big_sell ∷ [])) ∷ some_asks

selling-IsWellFormed : IsWellFormed ask selling
selling-IsWellFormed = record {
  sorted = omega arith;
  placed = (((refl, refl), tt), (((refl, refl), tt), (((refl, refl), tt), tt)));
}

some_engine-IsValid : IsValid some_engine
some_engine-IsValid = record {
  bids_ok = some_bids-IsWellFormed;
  asks_ok = record {
    sorted = omega arith;
    placed = (((refl, refl), tt), (((refl, refl), tt), tt));
  };
}

some_engine-IsFilled : IsFilled some_engine
some_engine-IsFilled = record { bids_full = (refl, (refl, tt)); asks_full = (refl, (refl, tt)) }

some_engine-IsSettled : IsSettled some_engine
unfolding orders
some_engine-IsSettled = record { filled = some_engine-IsFilled; uncrossed = omega arith }

abbrev amend_first : OrderAmend
amend_first = record { base = first_bid; new_price = 115; new_volume = 6 }

-- The reply, then two trades for each match.
messages_of_sell :
    (order_insert {E = ℕ} 7 big_sell some_engine).1
    ≡ (7, order_reply (record { id = codes "s"; client_id = codes "s" }))
      ∷ (7, trade (make_trade first_bid 10))
      ∷ (7, trade (make_trade big_sell 10))
      ∷ (7, trade (make_trade second_bid 2))
      ∷ (7, trade (make_trade big_sell 2))
      ∷ []
unfolding order_insert after_insert reply_and_match check_match match_step trade_best
    trade_top_level settle insert_order my_book with_book find emplace erase
messages_of_sell = refl

order_insert-IsSettled_example : IsSettled (order_insert {E = ℕ} 7 big_sell some_engine).0
order_insert-IsSettled_example =
    order_insert-IsSettled 7 big_sell some_engine some_engine-IsValid some_engine-IsFilled

run-IsValid_example :
    IsValid (run {E = ℕ} 7 (insert big_sell ∷ amend amend_first ∷ []) some_engine).0
run-IsValid_example =
    run-IsValid 7 (insert big_sell ∷ amend amend_first ∷ []) some_engine some_engine-IsValid

execute_order-match_orders_example :
    view (execute_order some_bids selling)
    ≡ match_orders 6 (reachable some_bids) (reachable selling)
unfolding reachable
execute_order-match_orders_example =
    execute_order-match_orders bid ask 6 some_bids selling some_bids-IsWellFormed
      selling-IsWellFormed (omega arith)

execute_order_stops_example : let r = execute_order some_bids selling in match_step r.1 r.2 ≡ none
execute_order_stops_example =
    execute_order_stops bid ask some_bids selling some_bids-IsWellFormed selling-IsWellFormed

execute_order-Accounts_example : Accounts some_bids selling (execute_order some_bids selling)
execute_order-Accounts_example =
    execute_order-Accounts bid ask some_bids selling some_bids-IsWellFormed selling-IsWellFormed

execute_order-IsPaired_example : IsPaired ask (execute_order some_bids selling).0
execute_order-IsPaired_example =
    execute_order-IsPaired bid ask some_bids selling some_bids-IsWellFormed selling-IsWellFormed

abbrev cancel_best : OrderCancel
cancel_best = record {
  instrument = [];
  price = 107;
  is_buy_side = true;
  id = codes "b0";
  client_id = codes "b0";
}

-- The sell order at 101 passes the bids at 105, since the cancelled one stood at 107.
cancel_hides_bids_example :
    let e = order_cancel {E = ℕ} 7 cancel_best (record {
      bids = (107, level_with (bid_of 107 1 (codes "b0") ∷ [])) ∷ some_bids;
      asks = some_asks;
    }) in
    (e.1 ≡ (7, order_reply (record { id = codes "b0"; client_id = codes "b0" })) ∷ [])
    × ((order_insert {E = ℕ} 7 big_sell e.0).1
        ≡ (7, order_reply (record { id = codes "s"; client_id = codes "s" })) ∷ [])
cancel_hides_bids_example =
    cancel_hides_bids {E = ℕ} 7 cancel_best (bid_of 107 1 (codes "b0")) big_sell some_bids some_asks
      refl refl refl (omega arith)
