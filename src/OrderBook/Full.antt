-- ===== src/OrderBook/Full.antt =====
-- The empty levels of a book: which methods can make one.
use moboware.Base.{
  ℕ, ◌≡◌, refl, Bool, false, some, List, [], ◌∷◌, ◌++◌, Text, arith, nat_beq, if◌then◌else◌,
  if_either, Bool-cases, Option-cases, inl, inr, is_empty,
}
use moboware.OrderData.{Order, OrderAmend}
use moboware.PriceMap.{Side, find, assign, erase, emplace}
use moboware.OrderLevel.{
  OrderLevel, insert, new_level, level_is_empty, find_queue, change_order_volume, find_order,
  cancel_order,
}
use moboware.OrderLevel.Laws.{lookup_order, move_queue-cancel_queue}
use moboware.OrderBook.{
  OrderBook, insert_order, amend_order, amend_to_zero, amend_volume, amend_price, move_to_new_price,
  remove_level_at_price,
}
use moboware.OrderBook.Invariant.{IsFull}

assign-IsFull :
    (k : ℕ) (level : OrderLevel) (b : OrderBook)
    → is_empty level.time_queue ≡ false
    → IsFull b
    → IsFull (assign k level b)
unfolding assign
assign-IsFull k level [] h f = tt
assign-IsFull k level ((j, l) ∷ b) h f = ground (arith, assign-IsFull k level b h f.1)

emplace-IsFull :
    (s : Side) (k : ℕ) (level : OrderLevel) (b : OrderBook)
    → is_empty level.time_queue ≡ false
    → IsFull b
    → IsFull (emplace s k level b).1
unfolding emplace
emplace-IsFull s k level [] h f = (h, tt)
emplace-IsFull s k level ((j, l) ∷ b) h f = ground (arith, emplace-IsFull s k level b h f.1)

-- A level that was written and erased again leaves nothing behind.
erase-assign-IsFull :
    (k : ℕ) (level : OrderLevel) (b : OrderBook) → IsFull b → IsFull (erase k (assign k level b))
unfolding erase assign
erase-assign-IsFull k level [] f = tt
erase-assign-IsFull k level ((j, l) ∷ b) f = ground (arith, erase-assign-IsFull k level b f.1)

remove_level_at_price-erase : (k : ℕ) (b : OrderBook) → remove_level_at_price k b ≡ erase k b
unfolding remove_level_at_price find erase
remove_level_at_price-erase k [] = refl
remove_level_at_price-erase k ((j, l) ∷ b) = ground (arith, remove_level_at_price-erase k b)

find-IsFull :
    (k : ℕ) (level : OrderLevel) (b : OrderBook)
    → find k b ≡ some level
    → IsFull b
    → is_empty level.time_queue ≡ false
unfolding find
find-IsFull k level [] e f = absurd (cc)
find-IsFull k level ((j, l) ∷ b) e f = elim (Bool-cases (nat_beq j k)) [
  | inl t ↦ let q : l ≡ level = ground arith in rw (← q) f.0
  | inr g ↦ find-IsFull k level b (rw g at e) f.1
]

-- A level that was changed is written back, and taken out if it is empty.
written-IsFull :
    (k : ℕ) (level : OrderLevel) (b : OrderBook)
    → IsFull b
    → IsFull (if level_is_empty level then erase k (assign k level b) else assign k level b)
unfolding level_is_empty
written-IsFull k level b f = elim (Bool-cases (is_empty level.time_queue)) [
  | inl t ↦ rw t (erase-assign-IsFull k level b f)
  | inr n ↦ rw n (assign-IsFull k level b n f)
]

is_empty_snoc : (o : Order) (os : List Order) → is_empty (os ++ (o ∷ [])) ≡ false
is_empty_snoc o [] = refl
is_empty_snoc o (p ∷ os) = refl

pub insert_order-IsFull :
    (s : Side) (o : Order) (b : OrderBook) → IsFull b → IsFull (insert_order s o b).1
unfolding insert_order
insert_order-IsFull s o b f = elim (Option-cases (find o.price b)) [
  | inl e ↦ rw (e, insert_order) (emplace-IsFull s o.price (new_level o) b refl f)
  | inr (level, e) ↦
      rw (e, insert_order)
        (assign-IsFull o.price (insert o level).1 b (is_empty_snoc o level.time_queue) f)
]

is_empty-find_queue :
    (id : Text) (f : Order → Order) (os : List Order)
    → is_empty (find_queue id f os).1 ≡ is_empty os
unfolding find_queue
is_empty-find_queue id f [] = refl
is_empty-find_queue id f (o ∷ os) = ground arith

module _ (s : Side) (a : OrderAmend) (level : OrderLevel) (b : OrderBook)
    (found : find a.price b ≡ some level) (full : IsFull b) where
  amend_to_zero-IsFull : IsFull (amend_to_zero a level b).1
  unfolding amend_to_zero
  amend_to_zero-IsFull =
      if_either (λ (r : Bool × OrderBook). IsFull r.1) (cancel_order a.id level).0
        (rw remove_level_at_price-erase (written-IsFull a.price (cancel_order a.id level).1 b full))
        full

  amend_volume-IsFull : IsFull (amend_volume a level b).1
  unfolding amend_volume change_order_volume find_order
  amend_volume-IsFull =
      if_either (λ (r : Bool × OrderBook). IsFull r.1)
        (change_order_volume a.id a.new_volume level).0
        (assign-IsFull a.price (change_order_volume a.id a.new_volume level).1 b
          (rw is_empty-find_queue (find-IsFull a.price level b found full)) full)
        full

  amend_price-IsFull : IsFull (amend_price s a level b).1
  unfolding amend_price move_to_new_price
  amend_price-IsFull = elim (Option-cases (lookup_order a.id level.time_queue)) [
    | inl e ↦ rw (move_queue-cancel_queue, e) full
    | inr (o, e) ↦
        rw (move_queue-cancel_queue, e)
          (written-IsFull a.price _ (move_to_new_price s a o b)
            (emplace-IsFull s a.new_price _ b refl full))
  ]

-- `Amend` takes a level out that it has emptied.
pub amend_order-IsFull :
    (s : Side) (a : OrderAmend) (b : OrderBook) → IsFull b → IsFull (amend_order s a b).1
unfolding amend_order
amend_order-IsFull s a b f = elim (Option-cases (find a.price b)) [
  | inl e ↦ rw (e, amend_order) f
  | inr (level, e) ↦
      rw (e, amend_order)
        (if_either (λ (r : Bool × OrderBook). IsFull r.1) (nat_beq a.new_volume 0)
          (amend_to_zero-IsFull s a level b e f)
          (if_either (λ (r : Bool × OrderBook). IsFull r.1) (nat_beq a.price a.new_price)
            (amend_volume-IsFull s a level b e f) (amend_price-IsFull s a level b e f)))
]
