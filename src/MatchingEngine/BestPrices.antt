-- ===== src/MatchingEngine/BestPrices.antt =====
-- While nothing is cancelled, no request leaves crossing orders in the book.
use moboware.Base.{Bool, true, false, ◌≡◌, refl, inl, inr, Bool-cases}
use moboware.OrderData.{Order, OrderAmend}
use moboware.PriceMap.{bid, ask}
use moboware.OrderBook.{OrderBook, amend_order}
use moboware.OrderBook.Invariant.{IsFull}
use moboware.OrderBook.Full.{insert_order-IsFull, amend_order-IsFull}
use moboware.OrderBook.Priority.{insert_order_succeeds}
use moboware.OrderBook.Withdraw.{amend_order_fails}
use moboware.OrderBook.Preserve.{insert_order-IsWellFormed, amend_order-IsWellFormed}
use moboware.MatchingEngine.{
  MatchingEngine, check_match, execute_order, my_book, with_book, side_of, order_insert,
  order_amend, after_insert, after_amend, reply_and_match, reply_error,
}
use moboware.MatchingEngine.Refine.{execute_order_stops}
use moboware.MatchingEngine.Uncrossed.{Stops, match_loop-IsFull, IsUncrossed, IsUncrossed-of_Stops}
use moboware.MatchingEngine.Requests.{
  IsValid, my_book-IsWellFormed, with_book-IsValid, check_match-IsValid, side_of-is_bid,
}

-- No level is empty on either side.
pub record IsFilled (e : MatchingEngine) : Type 0 where
  pub bids_full : IsFull e.bids
  pub asks_full : IsFull e.asks

check_match-IsFilled :
    (b : Bool) (e : MatchingEngine) → IsValid e → IsFilled e → IsFilled (check_match b e).1
unfolding check_match execute_order
check_match-IsFilled true e v f =
    let r = match_loop-IsFull ask bid _ e.asks e.bids v.asks_ok v.bids_ok f.asks_full f.bids_full in
    record { bids_full = r.1; asks_full = r.0 }
check_match-IsFilled false e v f =
    let r = match_loop-IsFull bid ask _ e.bids e.asks v.bids_ok v.asks_ok f.bids_full f.asks_full in
    record { bids_full = r.0; asks_full = r.1 }

check_match-Stops :
    (b : Bool) (e : MatchingEngine)
    → IsValid e
    → let e' = (check_match b e).1 in Stops e'.bids e'.asks
unfolding check_match
check_match-Stops true e v = inl (execute_order_stops ask bid e.asks e.bids v.asks_ok v.bids_ok)
check_match-Stops false e v = inr (execute_order_stops bid ask e.bids e.asks v.bids_ok v.asks_ok)

-- No two orders of the engine could trade, and no level is empty.
pub record IsSettled (e : MatchingEngine) : Type 0 where
  pub filled : IsFilled e
  pub uncrossed : IsUncrossed e.bids e.asks

check_match-IsSettled :
    (b : Bool) (e : MatchingEngine) → IsValid e → IsFilled e → IsSettled (check_match b e).1
check_match-IsSettled b e v f =
    let w = check_match-IsValid b e v in
    let g = check_match-IsFilled b e v f in
    record {
      filled = g;
      uncrossed =
          IsUncrossed-of_Stops _ _ w.bids_ok w.asks_ok g.bids_full g.asks_full
            (check_match-Stops b e v);
    }

my_book-IsFull : (b : Bool) (e : MatchingEngine) → IsFilled e → IsFull (my_book b e)
unfolding my_book
my_book-IsFull true e f = f.bids_full
my_book-IsFull false e f = f.asks_full

with_book-IsFilled :
    (b : Bool) (m : OrderBook) (e : MatchingEngine)
    → IsFilled e
    → IsFull m
    → IsFilled (with_book b m e)
unfolding with_book
with_book-IsFilled true m e f g = record { bids_full = g; asks_full = f.asks_full }
with_book-IsFilled false m e f g = record { bids_full = f.bids_full; asks_full = g }

pub with_book_self : (b : Bool) (e : MatchingEngine) → with_book b (my_book b e) e ≡ e
unfolding with_book my_book
with_book_self true e = refl
with_book_self false e = refl

module _ {E : Type 0} (endpoint : E) where
  -- After OrderInsert on an engine whose books are well formed and hold no empty level, every bid
  -- is priced below every ask and no level is empty.
  pub order_insert-IsSettled :
      (o : Order) (e : MatchingEngine)
      → IsValid e
      → IsFilled e
      → IsSettled (order_insert endpoint o e).0
  unfolding order_insert after_insert reply_and_match
  order_insert-IsSettled o e v f =
      let s = side_of o.is_buy_side in
      let b = my_book o.is_buy_side e in
      let ok = my_book-IsWellFormed o.is_buy_side e v in
      rw (insert_order_succeeds s o b ok.sorted, after_insert)
        (check_match-IsSettled o.is_buy_side _
          (with_book-IsValid o.is_buy_side _ e v
            (insert_order-IsWellFormed s o b (side_of-is_bid o.is_buy_side) ok))
          (with_book-IsFilled o.is_buy_side _ e f
            (insert_order-IsFull s o b (my_book-IsFull o.is_buy_side e f))))

  -- OrderAmend keeps an engine without empty levels in which every bid is priced below every ask
  -- so.
  order_amend-IsSettled :
      (a : OrderAmend) (e : MatchingEngine)
      → IsValid e
      → IsSettled e
      → IsSettled (order_amend endpoint a e).0
  unfolding order_amend after_amend reply_and_match reply_error
  order_amend-IsSettled a e v f =
      let s = side_of a.is_buy_side in
      let b = my_book a.is_buy_side e in
      let ok = my_book-IsWellFormed a.is_buy_side e v in
      elim (Bool-cases (amend_order s a b).0) [
        | inl t ↦
            rw (t, after_amend)
              (check_match-IsSettled a.is_buy_side _
                (with_book-IsValid a.is_buy_side _ e v (amend_order-IsWellFormed s a b ok))
                (with_book-IsFilled a.is_buy_side _ e f.filled
                  (amend_order-IsFull s a b (my_book-IsFull a.is_buy_side e f.filled))))
        | inr n ↦ rw (n, after_amend, amend_order_fails s a b n, with_book_self) f
      ]
