-- ===== src/OrderBook/AmendPrice.antt =====
-- `Amend` to another price, seen on the list of orders.
use moboware.Base.{
  ℕ, ◌≡◌, Bool, true, false, none, some, arith, nat_beq, All, if◌then◌else◌, Bool-cases, inl, inr,
  ap, ◌∙◌,
}
use moboware.OrderData.{Order, OrderAmend, set_price, set_volume}
use moboware.PriceMap.{Side, find, assign, erase}
use moboware.PriceMap.Laws.{find-assign, assign-emplace, emplace_present, find-emplace}
use moboware.OrderLevel.{OrderLevel, new_level, cancel_order, cancel_queue, level_is_empty}
use moboware.OrderLevel.Laws.{
  lookup_order, move_queue-cancel_queue, cancel_queue-All, cancel_queue_found,
}
use moboware.OrderBook.{OrderBook, amend_order, amend_price, move_to_new_price, orders}
use moboware.OrderBook.Invariant.{BelongsAt, IsWellFormed, find-Placed}
use moboware.OrderBook.Preserve.{assign-IsWellFormed}
use moboware.OrderBook.Priority.{enter, enter-emplace}
use moboware.OrderBook.Withdraw.{withdraw, withdraw-assign, orders-erase}

orders-erase_if :
    (k : ℕ) (level old : OrderLevel) (b : OrderBook)
    → find k b ≡ some old
    → orders (if level_is_empty level then erase k (assign k level b) else assign k level b)
      ≡ orders (assign k level b)
orders-erase_if k level old b e = elim (Bool-cases (level_is_empty level)) [
  | inl t ↦ rw t (orders-erase k level (assign k level b) written t)
  | inr f ↦ rw f
]
  where
    written : find k (assign k level b) ≡ some level
    written = ground (arith, find-assign k k level old b e)

-- The order with the price and the volume that the request asks for.
abbrev pub amended : OrderAmend → Order → Order
unfolding set_price set_volume
amended a o = set_volume a.new_volume (set_price a.new_price o)

module _ (s : Side) (a : OrderAmend) (level : OrderLevel) (o : Order) (b : OrderBook)
    (w : IsWellFormed s b) (found : find a.price b ≡ some level)
    (here : lookup_order a.id level.time_queue ≡ some o) (more : nat_beq a.new_volume 0 ≡ false)
    (moves : nat_beq a.price a.new_price ≡ false) where
  -- The level without the order.
  abbrev rest : OrderLevel
  rest = record { time_queue = (cancel_queue a.id level.time_queue).1 }

  amend_moves : amend_order s a b ≡ (
    true,
    if level_is_empty rest
        then erase a.price (assign a.price rest (move_to_new_price s a o b))
        else assign a.price rest (move_to_new_price s a o b),
  )
  unfolding amend_order amend_price
  amend_moves = rw (found, amend_order, more, moves, move_queue-cancel_queue, here)

  orders_without : orders (assign a.price rest b) ≡ (withdraw a.price a.id (orders b)).1
  unfolding cancel_order
  orders_without = rw (
    withdraw-assign a.price a.id s level b found w.sorted w.placed,
    cancel_queue_found a.id level.time_queue,
    here,
  )

  rest_Placed : All (BelongsAt s a.price) rest.time_queue
  rest_Placed =
      cancel_queue-All (BelongsAt s a.price) a.id level.time_queue
        (find-Placed s a.price level b found w.placed)

  -- An amend to another price that has no level takes the order out of its place and enters it
  -- anew with the new price and volume.
  pub amend_order-enter :
      find a.new_price b ≡ none
      → ((amend_order s a b).0 ≡ true)
        × (orders (amend_order s a b).1
            ≡ enter s (amended a o) (withdraw a.price a.id (orders b)).1)
  unfolding move_to_new_price amended
  amend_order-enter free = (
    ap (λ (r : Bool × OrderBook). r.0) amend_moves,
    ap (λ (r : Bool × OrderBook). orders r.1) amend_moves
        ∙ orders-erase_if a.price rest level (move_to_new_price s a o b) stays
        ∙ ap orders (assign-emplace s a.price a.new_price rest (new_level (amended a o)) b moves)
        ∙ enter-emplace s (amended a o) (assign a.price rest b) unmoved w'.sorted w'.placed
        ∙ ap (enter s (amended a o)) orders_without,
  )
    where
      stays : find a.price (move_to_new_price s a o b) ≡ some level
      stays = ground (
        arith,
        find-emplace s a.new_price a.price (new_level (amended a o)) b w.sorted free,
        found,
      )

      unmoved : find a.new_price (assign a.price rest b) ≡ none
      unmoved = ground (arith, find-assign a.price a.new_price rest level b found)

      w' : IsWellFormed s (assign a.price rest b)
      w' = assign-IsWellFormed s a.price rest b rest_Placed w

  -- An amend to another price that already has a level succeeds and takes the order out of the
  -- book without entering it anywhere.
  pub amend_order_loses :
      (other : OrderLevel)
      → find a.new_price b ≡ some other
      → ((amend_order s a b).0 ≡ true)
        × (orders (amend_order s a b).1 ≡ (withdraw a.price a.id (orders b)).1)
  unfolding move_to_new_price
  amend_order_loses other taken = (
    ap (λ (r : Bool × OrderBook). r.0) amend_moves,
    ap (λ (r : Bool × OrderBook). orders r.1) amend_moves
        ∙ orders-erase_if a.price rest level (move_to_new_price s a o b) (rw unchanged found)
        ∙ ap (λ (m : OrderBook). orders (assign a.price rest m)) unchanged
        ∙ orders_without,
  )
    where
      unchanged : move_to_new_price s a o b ≡ b
      unchanged =
          ap (λ (r : Bool × OrderBook). r.1)
            (emplace_present s a.new_price (new_level (amended a o)) other b w.sorted taken)
