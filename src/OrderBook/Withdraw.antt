-- ===== src/OrderBook/Withdraw.antt =====
-- `Cancel`, and `Amend` at an unchanged price, on the list of orders: one order leaves or changes
-- its volume, the others stay in their places.
use moboware.Base.{
  ℕ, ◌≡◌, refl, ◌≢◌, Bool, true, false, some, List, [], ◌∷◌, Text, arith, nat_beq, if◌then◌else◌,
  Bool-cases, Option-cases, inl, inr, sym,
}
use moboware.OrderData.{Order, OrderCancel, OrderAmend, set_volume}
use moboware.PriceMap.{Side, find, assign, IsSorted, erase}
use moboware.PriceMap.Laws.{find-assign}
use moboware.OrderLevel.{
  OrderLevel, cancel_order, cancel_queue, find_queue, find_order, change_order_volume,
  level_is_empty,
}
use moboware.OrderLevel.Laws.{text_beq_comm}
use moboware.OrderBook.{
  OrderBook, cancel_in_book, amend_order, amend_volume, amend_to_zero, amend_price, orders,
  remove_level_at_price,
}
use moboware.OrderBook.Invariant.{Placed, IsWellFormed}
use moboware.OrderBook.Edit.{seen, edit_queue, edit_first, edit_first-absent, edit_first-assign}

-- The first order of the price and the id leaves.
abbrev pub withdraw : ℕ → Text → List Order → Bool × List Order
withdraw = edit_first (λ _. [])

-- It gets another volume.
abbrev pub revise : ℕ → ℕ → Text → List Order → Bool × List Order
revise volume = edit_first (λ o. set_volume volume o ∷ [])

pub cancel_queue-edit_queue :
    (id : Text) (os : List Order) → cancel_queue id os ≡ edit_queue (λ _. []) id os
unfolding cancel_queue edit_queue
cancel_queue-edit_queue id [] = refl
cancel_queue-edit_queue id (o ∷ os) = rw (cancel_queue-edit_queue id os)

find_queue-edit_queue :
    (id : Text) (f : Order → Order) (os : List Order)
    → find_queue id f os ≡ edit_queue (λ o. f o ∷ []) id os
unfolding find_queue edit_queue
find_queue-edit_queue id f [] = refl
find_queue-edit_queue id f (o ∷ os) = rw (find_queue-edit_queue id f os, text_beq_comm id o.id)

-- A change of one level that the list of orders makes as `edit_first` does.
pub withdraw-assign :
    (k : ℕ) (id : Text) (s : Side) (level : OrderLevel) (b : OrderBook)
    → find k b ≡ some level
    → IsSorted s b
    → Placed s b
    → withdraw k id (orders b) ≡ (
        if (cancel_queue id level.time_queue).0
        then (true, orders (assign k (cancel_order id level).1 b))
        else (false, orders b))
unfolding cancel_order
withdraw-assign k id s level b e h p =
    rw (cancel_queue-edit_queue) (edit_first-assign (λ _. []) k id s level b e h p)

-- A book without its empty level at `k` holds the same orders.
pub orders-erase :
    (k : ℕ) (level : OrderLevel) (b : OrderBook)
    → find k b ≡ some level
    → level_is_empty level ≡ true
    → orders (erase k b) ≡ orders b
unfolding orders erase find level_is_empty
orders-erase k level [] e h = refl
orders-erase k level ((j, l) ∷ b) e h = ground (arith, orders-erase k level b)

-- The removal of a level that a change has left empty takes out no order.
orders-remove_if :
    (k : ℕ) (level old : OrderLevel) (b : OrderBook)
    → find k b ≡ some old
    → orders (
        if level_is_empty level
        then remove_level_at_price k (assign k level b)
        else assign k level b)
      ≡ orders (assign k level b)
unfolding remove_level_at_price
orders-remove_if k level old b e = elim (Bool-cases (level_is_empty level)) [
  | inl t ↦
      rw (t, written, remove_level_at_price) (orders-erase k level (assign k level b) written t)
  | inr f ↦ rw f
]
  where
    written : find k (assign k level b) ≡ some level
    written = ground (arith, find-assign k k level old b e)

-- OrderBook::Cancel succeeds exactly where the book holds an order of the price and id, and takes
-- out the oldest such order only.
pub cancel_in_book-withdraw :
    (s : Side) (c : OrderCancel) (b : OrderBook)
    → IsWellFormed s b
    → seen (cancel_in_book c b) ≡ withdraw c.price c.id (orders b)
unfolding cancel_in_book cancel_order
cancel_in_book-withdraw s c b w = elim (Option-cases (find c.price b)) [
  | inl e ↦ rw (e, cancel_in_book) (sym (edit_first-absent _ c.price c.id s b e w.placed))
  | inr (level, e) ↦
      rw (e, cancel_in_book, withdraw-assign c.price c.id s level b e w.sorted w.placed)
        (ground arith)
]

-- An amend at the same price gives the oldest order of the price and id the new volume in its
-- place, and fails exactly where there is none.
pub amend_order-revise :
    (s : Side) (a : OrderAmend) (b : OrderBook)
    → IsWellFormed s b
    → a.new_volume ≢ 0
    → a.price ≡ a.new_price
    → seen (amend_order s a b) ≡ revise a.new_volume a.price a.id (orders b)
unfolding amend_order amend_volume change_order_volume find_order
amend_order-revise s a b w more same = elim (Option-cases (find a.price b)) [
  | inl e ↦ rw (e, amend_order) (sym (edit_first-absent _ a.price a.id s b e w.placed))
  | inr (level, e) ↦
      rw
        (
          e,
          amend_order,
          volume,
          price,
          find_queue-edit_queue,
          edit_first-assign (λ o. set_volume a.new_volume o ∷ []) a.price a.id s level b e w.sorted
              w.placed,
        )
        (ground arith)
]
  where
    volume : nat_beq a.new_volume 0 ≡ false
    volume = ground arith

    price : nat_beq a.price a.new_price ≡ true
    price = ground arith

-- OrderBook::Amend to the volume zero takes out the oldest order of the price and id, and fails
-- exactly where there is none.
pub amend_order-withdraw :
    (s : Side) (a : OrderAmend) (b : OrderBook)
    → IsWellFormed s b
    → a.new_volume ≡ 0
    → seen (amend_order s a b) ≡ withdraw a.price a.id (orders b)
unfolding amend_order amend_to_zero cancel_order
amend_order-withdraw s a b w zero_volume = elim (Option-cases (find a.price b)) [
  | inl e ↦ rw (e, amend_order) (sym (edit_first-absent _ a.price a.id s b e w.placed))
  | inr (level, e) ↦
      rw (e, amend_order, volume, withdraw-assign a.price a.id s level b e w.sorted w.placed)
        (ground (arith, orders-remove_if a.price (cancel_order a.id level).1 level b e))
]
  where
    volume : nat_beq a.new_volume 0 ≡ true
    volume = ground arith

-- A request that `Amend` refuses leaves the book as it was.
pub amend_order_fails :
    (s : Side) (a : OrderAmend) (b : OrderBook)
    → (amend_order s a b).0 ≡ false
    → (amend_order s a b).1 ≡ b
unfolding amend_order amend_to_zero amend_volume amend_price
amend_order_fails s a b h = ground arith
