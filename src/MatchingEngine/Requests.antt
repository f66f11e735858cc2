-- ===== src/MatchingEngine/Requests.antt =====
-- The engine under any sequence of requests: which invariants of its books hold throughout.
use moboware.Base.{Bool, true, false, Option, none, some, List, [], ◌∷◌, ◌++◌, ◌≡◌, refl}
use moboware.OrderData.{Order, OrderAmend, OrderCancel}
use moboware.PriceMap.{bid, ask}
use moboware.OrderBook.{OrderBook}
use moboware.OrderBook.Invariant.{IsWellFormed, is_bid}
use moboware.OrderBook.Preserve.{
  insert_order-IsWellFormed, amend_order-IsWellFormed, cancel_in_book-IsWellFormed,
}
use moboware.MatchingEngine.{
  MatchingEngine, Message, check_match, execute_order, my_book, with_book, side_of, order_insert,
  order_amend, order_cancel, after_insert, after_amend, after_cancel, reply_and_match, reply_error,
}
use moboware.MatchingEngine.Refine.{match_loop-IsWellFormed}

pub data Request : Type 0 where
  insert : Order → Request
  amend : OrderAmend → Request
  cancel : OrderCancel → Request

-- Both books keep the invariant of their side.
pub record IsValid (e : MatchingEngine) : Type 0 where
  pub bids_ok : IsWellFormed bid e.bids
  pub asks_ok : IsWellFormed ask e.asks

pub my_book-IsWellFormed :
    (b : Bool) (e : MatchingEngine) → IsValid e → IsWellFormed (side_of b) (my_book b e)
unfolding my_book
my_book-IsWellFormed true e v = v.bids_ok
my_book-IsWellFormed false e v = v.asks_ok

pub with_book-IsValid :
    (b : Bool) (m : OrderBook) (e : MatchingEngine)
    → IsValid e
    → IsWellFormed (side_of b) m
    → IsValid (with_book b m e)
unfolding with_book
with_book-IsValid true m e v w = record { bids_ok = w; asks_ok = v.asks_ok }
with_book-IsValid false m e v w = record { bids_ok = v.bids_ok; asks_ok = w }

pub check_match-IsValid : (b : Bool) (e : MatchingEngine) → IsValid e → IsValid (check_match b e).1
unfolding check_match execute_order
check_match-IsValid true e v =
    let r = match_loop-IsWellFormed ask bid _ e.asks e.bids v.asks_ok v.bids_ok in
    record { bids_ok = r.1; asks_ok = r.0 }
check_match-IsValid false e v =
    let r = match_loop-IsWellFormed bid ask _ e.bids e.asks v.bids_ok v.asks_ok in
    record { bids_ok = r.0; asks_ok = r.1 }

pub side_of-is_bid : (b : Bool) → b ≡ is_bid (side_of b)
side_of-is_bid true = refl
side_of-is_bid false = refl

module _ {E : Type 0} (endpoint : E) where
  -- One request, handled by the method for it.
  unfoldable pub handle : Request → MatchingEngine → MatchingEngine × List (E × Message)
  handle (insert o) e = order_insert endpoint o e
  handle (amend a) e = order_amend endpoint a e
  handle (cancel c) e = order_cancel endpoint c e

  -- Requests in the order in which they take the lock.
  unfoldable pub run : List Request → MatchingEngine → MatchingEngine × List (E × Message)
  run [] e = (e, [])
  run (r ∷ rs) e = let (e', sent) = handle r e in let (e'', more) = run rs e' in (e'', sent ++ more)

  after_insert-IsValid :
      (o : Order) (i : Option Order) (e : MatchingEngine)
      → IsValid e
      → IsValid (after_insert endpoint o i e).0
  unfolding after_insert reply_and_match reply_error
  after_insert-IsValid o none e v = v
  after_insert-IsValid o (some i) e v = check_match-IsValid o.is_buy_side e v

  order_insert-IsValid :
      (o : Order) (e : MatchingEngine) → IsValid e → IsValid (order_insert endpoint o e).0
  unfolding order_insert
  order_insert-IsValid o e v = after_insert-IsValid o _ _ (
      with_book-IsValid o.is_buy_side _ e v (
        insert_order-IsWellFormed (side_of o.is_buy_side) o _ (side_of-is_bid o.is_buy_side)
          (my_book-IsWellFormed o.is_buy_side e v)))

  after_amend-IsValid :
      (a : OrderAmend) (b : Bool) (e : MatchingEngine)
      → IsValid e
      → IsValid (after_amend endpoint a b e).0
  unfolding after_amend reply_and_match reply_error
  after_amend-IsValid a false e v = v
  after_amend-IsValid a true e v = check_match-IsValid a.is_buy_side e v

  order_amend-IsValid :
      (a : OrderAmend) (e : MatchingEngine) → IsValid e → IsValid (order_amend endpoint a e).0
  unfolding order_amend
  order_amend-IsValid a e v = after_amend-IsValid a _ _ (
      with_book-IsValid a.is_buy_side _ e v (
        amend_order-IsWellFormed (side_of a.is_buy_side) a _
          (my_book-IsWellFormed a.is_buy_side e v)))

  after_cancel_lem :
      (c : OrderCancel) (b : Bool) (e : MatchingEngine) → (after_cancel endpoint c b e).0 ≡ e
  unfolding after_cancel reply_error
  after_cancel_lem c false e = refl
  after_cancel_lem c true e = refl

  order_cancel-IsValid :
      (c : OrderCancel) (e : MatchingEngine) → IsValid e → IsValid (order_cancel endpoint c e).0
  unfolding order_cancel
  order_cancel-IsValid c e v = rw after_cancel_lem (
      with_book-IsValid c.is_buy_side _ e v (
        cancel_in_book-IsWellFormed (side_of c.is_buy_side) c _
          (my_book-IsWellFormed c.is_buy_side e v)))

  pub handle-IsValid : (r : Request) (e : MatchingEngine) → IsValid e → IsValid (handle r e).0
  unfolding handle
  handle-IsValid (insert o) e v = order_insert-IsValid o e v
  handle-IsValid (amend a) e v = order_amend-IsValid a e v
  handle-IsValid (cancel c) e v = order_cancel-IsValid c e v

  -- Any sequence of inserts, amends and cancels keeps both books strictly sorted, with each order
  -- at the level of its price and on its side.
  pub run-IsValid : (rs : List Request) (e : MatchingEngine) → IsValid e → IsValid (run rs e).0
  unfolding run
  run-IsValid [] e v = v
  run-IsValid (r ∷ rs) e v = run-IsValid rs (handle r e).0 (handle-IsValid r e v)
