-- ===== src/OrderBook/Unknown.antt =====
-- A request for an id that no order of the book has.
use moboware.Base.{
  ℕ, false, none, some, List, [], ◌∷◌, ◌++◌, Text, text_beq, text_beq_iff, nat_beq, ◌≡◌, ◌≢◌, refl,
  arith, All, Bool-cases, Option-cases, inl, inr, subst,
}
use moboware.OrderData.{Order, OrderAmend}
use moboware.PriceMap.{Side, find}
use moboware.OrderLevel.{OrderLevel, find_queue, cancel_order, change_order_volume, find_order}
use moboware.OrderLevel.Laws.{lookup_order, cancel_queue_found, move_queue-cancel_queue}
use moboware.OrderBook.{OrderBook, orders, amend_order, amend_to_zero, amend_volume, amend_price}

module _ {κ} (P : Order → Type κ) where
  All-left : (xs ys : List Order) → All P (xs ++ ys) → All P xs
  All-left [] ys h = tt
  All-left (x ∷ xs) ys h = (h.0, All-left xs ys h.1)

  All-right : (xs ys : List Order) → All P (xs ++ ys) → All P ys
  All-right [] ys h = h
  All-right (x ∷ xs) ys h = All-right xs ys h.1

  -- What holds of all orders of a book holds of those of a level.
  find-All :
      (k : ℕ) (level : OrderLevel) (b : OrderBook)
      → find k b ≡ some level
      → All P (orders b)
      → All P level.time_queue
  unfolding find orders
  find-All k level [] e h = absurd (cc)
  find-All k level ((j, l) ∷ b) e h = elim (Bool-cases (nat_beq j k)) [
    | inl t ↦
        let q : l ≡ level = ground arith in
        subst (λ (x : OrderLevel). All P x.time_queue) q (All-left l.time_queue (orders b) h)
    | inr f ↦ find-All k level b (rw f at e) (All-right l.time_queue (orders b) h)
  ]

lookup_order_unknown :
    (id : Text) (os : List Order) → All (λ (o : Order). id ≢ o.id) os → lookup_order id os ≡ none
unfolding lookup_order
lookup_order_unknown id [] h = refl
lookup_order_unknown id (o ∷ os) h =
    let other : text_beq id o.id ≡ false = ground (arith, text_beq_iff id o.id, h.0) in
    rw (other, lookup_order_unknown id os h.1)

find_queue_unknown :
    (id : Text) (f : Order → Order) (os : List Order)
    → lookup_order id os ≡ none
    → (find_queue id f os).0 ≡ false
unfolding find_queue lookup_order
find_queue_unknown id f [] e = refl
find_queue_unknown id f (o ∷ os) e = ground (arith, find_queue_unknown id f os)

module _ (a : OrderAmend) (level : OrderLevel) (b : OrderBook)
    (e : lookup_order a.id level.time_queue ≡ none) where
  amend_to_zero_unknown : amend_to_zero a level b ≡ (false, b)
  unfolding amend_to_zero cancel_order
  amend_to_zero_unknown = rw (cancel_queue_found, e)

  amend_volume_unknown : amend_volume a level b ≡ (false, b)
  unfolding amend_volume change_order_volume find_order
  amend_volume_unknown = rw (find_queue_unknown a.id _ level.time_queue e)

  amend_price_unknown : (s : Side) → amend_price s a level b ≡ (false, b)
  unfolding amend_price
  amend_price_unknown s = rw (move_queue-cancel_queue, e)

-- `Amend` for an id that no order has fails, and leaves the book as it was.
pub amend_order_unknown :
    (s : Side) (a : OrderAmend) (b : OrderBook)
    → All (λ (o : Order). a.id ≢ o.id) (orders b)
    → amend_order s a b ≡ (false, b)
unfolding amend_order
amend_order_unknown s a b h = elim (Option-cases (find a.price b)) [
  | inl e ↦ rw (e, amend_order)
  | inr (level, e) ↦
      let missing : lookup_order a.id level.time_queue ≡ none =
        lookup_order_unknown a.id level.time_queue
          (find-All (λ (o : Order). a.id ≢ o.id) a.price level b e h) in
      rw (e, amend_order)
        (ground (
          arith,
          amend_to_zero_unknown a level b missing,
          amend_volume_unknown a level b missing,
          amend_price_unknown a level b missing s,
        ))
]
