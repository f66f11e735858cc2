-- ===== src/OrderBook/Preserve.antt =====
-- Every method of the book keeps its invariant.
use moboware.Base.{
  ℕ, ◌≡◌, refl, Bool, some, [], ◌∷◌, nat_beq, All, All-append, Option-cases, inl, inr, if_either,
}
use moboware.OrderData.{Order, OrderAmend, OrderCancel, set_price, set_volume}
use moboware.PriceMap.{Side, find, assign, emplace, erase}
use moboware.PriceMap.Laws.{assign-IsSorted, erase-IsSorted, emplace-IsSorted}
use moboware.OrderLevel.{
  OrderLevel, insert, new_level, level_is_empty, cancel_order, change_order_volume, cancel_queue,
}
use moboware.OrderLevel.Laws.{
  cancel_queue-All, find_queue-All, move_queue-cancel_queue, lookup_order, lookup_order-All,
}
use moboware.OrderBook.{
  OrderBook, insert_order, remove_level_at_price, move_to_new_price, amend_to_zero, amend_volume,
  amend_price, amend_order, cancel_in_book,
}
use moboware.OrderBook.Invariant.{
  BelongsAt, is_bid, IsWellFormed, find-Placed, assign-Placed, erase-Placed, emplace-Placed,
}

pub assign-IsWellFormed :
    (s : Side) (k : ℕ) (level : OrderLevel) (b : OrderBook)
    → All (BelongsAt s k) level.time_queue
    → IsWellFormed s b
    → IsWellFormed s (assign k level b)
assign-IsWellFormed s k level b h w = record {
  sorted = assign-IsSorted s k level b w.sorted;
  placed = assign-Placed s k level b h w.placed;
}

pub erase-IsWellFormed :
    (s : Side) (k : ℕ) (b : OrderBook) → IsWellFormed s b → IsWellFormed s (erase k b)
erase-IsWellFormed s k b w = record {
  sorted = erase-IsSorted s k b w.sorted;
  placed = erase-Placed s k b w.placed;
}

pub emplace-IsWellFormed :
    (s : Side) (k : ℕ) (level : OrderLevel) (b : OrderBook)
    → All (BelongsAt s k) level.time_queue
    → IsWellFormed s b
    → IsWellFormed s (emplace s k level b).1
emplace-IsWellFormed s k level b h w = record {
  sorted = emplace-IsSorted s k level b w.sorted;
  placed = emplace-Placed s s k level b h w.placed;
}

pub remove_level_at_price-IsWellFormed :
    (s : Side) (k : ℕ) (b : OrderBook)
    → IsWellFormed s b
    → IsWellFormed s (remove_level_at_price k b)
unfolding remove_level_at_price
remove_level_at_price-IsWellFormed s k b w = elim (Option-cases (find k b)) [
  | inl e ↦ rw (e, remove_level_at_price) w
  | inr (level, e) ↦ rw (e, remove_level_at_price) (erase-IsWellFormed s k b w)
]

pub insert_order-IsWellFormed :
    (s : Side) (o : Order) (b : OrderBook)
    → o.is_buy_side ≡ is_bid s
    → IsWellFormed s b
    → IsWellFormed s (insert_order s o b).1
unfolding insert_order
insert_order-IsWellFormed s o b h w = elim (Option-cases (find o.price b)) [
  | inl e ↦ rw (e, insert_order) (emplace-IsWellFormed s o.price (new_level o) b ((refl, h), tt) w)
  | inr (level, e) ↦
      rw (e, insert_order)
        (assign-IsWellFormed s o.price (insert o level).1 b
          (All-append (BelongsAt s o.price) level.time_queue (o ∷ [])
            (find-Placed s o.price level b e w.placed) ((refl, h), tt))
          w)
]

pub cancel_in_book-IsWellFormed :
    (s : Side) (c : OrderCancel) (b : OrderBook)
    → IsWellFormed s b
    → IsWellFormed s (cancel_in_book c b).1
unfolding cancel_in_book
cancel_in_book-IsWellFormed s c b w = elim (Option-cases (find c.price b)) [
  | inl e ↦ rw (e, cancel_in_book) w
  | inr (level, e) ↦
      rw (e, cancel_in_book)
        (if_either (λ (r : Bool × OrderBook). IsWellFormed s r.1) (cancel_order c.id level).0
          (assign-IsWellFormed s c.price (cancel_order c.id level).1 b
            (cancel_queue-All (BelongsAt s c.price) c.id level.time_queue
              (find-Placed s c.price level b e w.placed))
            w)
          w)
]

module _ (s : Side) (a : OrderAmend) (level : OrderLevel) (b : OrderBook)
    (found : find a.price b ≡ some level) (w : IsWellFormed s b) where
  here : All (BelongsAt s a.price) level.time_queue
  here = find-Placed s a.price level b found w.placed

  amend_to_zero-IsWellFormed : IsWellFormed s (amend_to_zero a level b).1
  unfolding amend_to_zero here
  amend_to_zero-IsWellFormed =
      let level' = (cancel_order a.id level).1 in
      let kept =
        assign-IsWellFormed s a.price level' b
          (cancel_queue-All (BelongsAt s a.price) a.id level.time_queue here) w in
      if_either (λ (r : Bool × OrderBook). IsWellFormed s r.1) (cancel_order a.id level).0
        (if_either (IsWellFormed s) (level_is_empty level')
          (remove_level_at_price-IsWellFormed s a.price (assign a.price level' b) kept) kept)
        w

  amend_volume-IsWellFormed : IsWellFormed s (amend_volume a level b).1
  unfolding amend_volume here set_volume
  amend_volume-IsWellFormed =
      if_either (λ (r : Bool × OrderBook). IsWellFormed s r.1)
        (change_order_volume a.id a.new_volume level).0
        (assign-IsWellFormed s a.price (change_order_volume a.id a.new_volume level).1 b
          (find_queue-All (BelongsAt s a.price) a.id (set_volume a.new_volume) (λ o h. h)
            level.time_queue here)
          w)
        w

  -- The order that moves stays on its side, and its price becomes the key of its new level.
  move_to_new_price-IsWellFormed :
      (o : Order) → BelongsAt s a.price o → IsWellFormed s (move_to_new_price s a o b)
  unfolding move_to_new_price
  move_to_new_price-IsWellFormed o h =
      emplace-IsWellFormed s a.new_price
        (new_level (set_volume a.new_volume (set_price a.new_price o))) b ((refl, h.1), tt) w

  amend_price-IsWellFormed : IsWellFormed s (amend_price s a level b).1
  unfolding amend_price here
  amend_price-IsWellFormed = elim (Option-cases (lookup_order a.id level.time_queue)) [
    | inl e ↦ rw (move_queue-cancel_queue, e) w
    | inr (o, e) ↦
        let moved = move_to_new_price s a o b in
        let rest : OrderLevel = record { time_queue = (cancel_queue a.id level.time_queue).1 } in
        let kept =
          assign-IsWellFormed s a.price rest moved
            (cancel_queue-All (BelongsAt s a.price) a.id level.time_queue here)
            (move_to_new_price-IsWellFormed o
              (lookup_order-All (BelongsAt s a.price) a.id o level.time_queue e here)) in
        rw (move_queue-cancel_queue, e)
          (if_either (IsWellFormed s) (level_is_empty rest)
            (erase-IsWellFormed s a.price (assign a.price rest moved) kept) kept)
  ]

pub amend_order-IsWellFormed :
    (s : Side) (a : OrderAmend) (b : OrderBook)
    → IsWellFormed s b
    → IsWellFormed s (amend_order s a b).1
unfolding amend_order
amend_order-IsWellFormed s a b w = elim (Option-cases (find a.price b)) [
  | inl e ↦ rw (e, amend_order) w
  | inr (level, e) ↦
      rw (e, amend_order)
        (if_either (λ (r : Bool × OrderBook). IsWellFormed s r.1) (nat_beq a.new_volume 0)
          (amend_to_zero-IsWellFormed s a level b e w)
          (if_either (λ (r : Bool × OrderBook). IsWellFormed s r.1) (nat_beq a.price a.new_price)
            (amend_volume-IsWellFormed s a level b e w) (amend_price-IsWellFormed s a level b e w)))
]
