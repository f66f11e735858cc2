-- ===== src/OrderBook/Amend.antt =====
-- `Amend` on every branch, seen on the list of orders.
use moboware.Base.{
  ℕ, ◌≡◌, refl, Bool, true, false, Option, none, some, List, [], ◌∷◌, ◌++◌, Text, arith, nat_beq,
  text_beq, ◌&&◌, All, if◌then◌else◌, Bool-cases, Option-cases, inl, inr, sym, ap, ap₂, ◌∙◌, subst,
}
use moboware.OrderData.{Order, OrderAmend}
use moboware.PriceMap.{Side, find, IsSorted}
use moboware.OrderLevel.{OrderLevel}
use moboware.OrderLevel.Laws.{lookup_order, text_beq_comm, move_queue-cancel_queue}
use moboware.OrderBook.{OrderBook, amend_order, amend_price, orders}
use moboware.OrderBook.AmendPrice.{amended, amend_order-enter, amend_order_loses}
use moboware.OrderBook.Edit.{seen, edit_first, edit_first-absent, edit_first-Behind}
use moboware.OrderBook.Invariant.{BelongsAt, Placed, IsWellFormed}
use moboware.OrderBook.Priority.{enter}
use moboware.OrderBook.Withdraw.{withdraw, revise, amend_order-revise, amend_order-withdraw}

-- The first order of a price and an id.
unfoldable pub lookup_at : ℕ → Text → List Order → Option Order
lookup_at price id [] = none
lookup_at price id (o ∷ os) =
    if nat_beq o.price price && text_beq o.id id then some o else lookup_at price id os

unfoldable pub holds {ℓ} : {A : Type ℓ} → Option A → Bool
holds none = false
holds (some a) = true

-- An order leaves its place, and enters at its new price unless there is a level at that price.
unfoldable pub relocate : Side → OrderAmend → Bool → List Order → Bool × List Order
unfolding lookup_at
relocate s a taken os = elim (lookup_at a.price a.id os) [
  | none ↦ (false, os)
  | some o ↦
      let others = (withdraw a.price a.id os).1 in
      (true, if taken then others else enter s (amended a o) others)
]

-- What an amend does to the orders of a side: `taken` says that there is a level at the new price.
abbrev pub amend_orders : Side → OrderAmend → Bool → List Order → Bool × List Order
amend_orders s a taken os =
    if nat_beq a.new_volume 0
    then withdraw a.price a.id os
    else if nat_beq a.price a.new_price
    then revise a.new_volume a.price a.id os
    else relocate s a taken os

module _ (k : ℕ) (id : Text) where
  lookup_at-withdraw : (os : List Order) → (withdraw k id os).0 ≡ holds (lookup_at k id os)
  unfolding edit_first lookup_at holds
  lookup_at-withdraw [] = refl
  lookup_at-withdraw (o ∷ os) = ground (arith, lookup_at-withdraw os)

  lookup_at-none : (os : List Order) → withdraw k id os ≡ (false, os) → lookup_at k id os ≡ none
  unfolding holds
  lookup_at-none os e = elim (Option-cases (lookup_at k id os)) [
    | inl n ↦ n
    | inr (o, q) ↦
        let yes_no : holds (some o) ≡ false =
          ap holds (sym q) ∙ sym (lookup_at-withdraw os) ∙ ap (λ (r : Bool × List Order). r.0) e in
        absurd (cc (yes_no))
  ]

  module _ (s : Side) where
    lookup_at-append_other :
        (j : ℕ) (xs ys : List Order)
        → nat_beq j k ≡ false
        → All (BelongsAt s j) xs
        → lookup_at k id (xs ++ ys) ≡ lookup_at k id ys
    unfolding lookup_at
    lookup_at-append_other j [] ys n h = refl
    lookup_at-append_other j (x ∷ xs) ys n h = rw (h.0.0, n) (lookup_at-append_other j xs ys n h.1)

    lookup_at-append :
        (xs ys : List Order)
        → All (BelongsAt s k) xs
        → lookup_at k id ys ≡ none
        → lookup_at k id (xs ++ ys) ≡ lookup_order id xs
    unfolding lookup_at lookup_order
    lookup_at-append [] ys h e = e
    lookup_at-append (x ∷ xs) ys h e =
        ground (arith, h.0.0, text_beq_comm id x.id, lookup_at-append xs ys h.1 e)

    lookup_at-find :
        (level : OrderLevel) (b : OrderBook)
        → find k b ≡ some level
        → IsSorted s b
        → Placed s b
        → lookup_at k id (orders b) ≡ lookup_order id level.time_queue
    unfolding orders find
    lookup_at-find level [] e h p = absurd (cc)
    lookup_at-find level ((j, l) ∷ b) e h p = elim (Bool-cases (nat_beq j k)) [
      | inl t ↦
          let q : level ≡ l = ground arith in
          let r : j ≡ k = ground arith in
          let here = subst (λ (i : ℕ). All (BelongsAt s i) l.time_queue) r p.0 in
          let behind =
            lookup_at-none (orders b) (edit_first-Behind (λ _. []) k id s b (rw r at h.0) p.1) in
          rw q (lookup_at-append l.time_queue (orders b) here behind)
      | inr f ↦
          lookup_at-append_other j l.time_queue (orders b) f p.0
          ∙ lookup_at-find level b (rw f at e) h.1 p.1
    ]

module _ (s : Side) (a : OrderAmend) (b : OrderBook) (w : IsWellFormed s b)
    (more : nat_beq a.new_volume 0 ≡ false) (moves : nat_beq a.price a.new_price ≡ false) where
  -- The level has no order of the id.
  amend_order_misses :
      (level : OrderLevel)
      → find a.price b ≡ some level
      → lookup_order a.id level.time_queue ≡ none
      → amend_order s a b ≡ (false, b)
  unfolding amend_order amend_price
  amend_order_misses level found missing =
      rw (found, amend_order, more, moves, move_queue-cancel_queue, missing) refl

  amend_order-relocate :
      seen (amend_order s a b) ≡ relocate s a (holds (find a.new_price b)) (orders b)
  unfolding holds relocate amend_order
  amend_order-relocate = elim (Option-cases (find a.price b)) [
    | inl e ↦
        let absent =
          lookup_at-none a.price a.id (orders b)
            (edit_first-absent _ a.price a.id s b e w.placed) in
        rw (absent, relocate, amend_order, e) refl
    | inr (level, e) ↦
        let same = lookup_at-find a.price a.id s level b e w.sorted w.placed in
        elim (Option-cases (lookup_order a.id level.time_queue)) [
          | inl n ↦ rw (same, relocate, n, amend_order_misses level e n) refl
          | inr (o, here) ↦ elim (Option-cases (find a.new_price b)) [
            | inl free ↦
                let r = amend_order-enter s a level o b w e here more moves free in
                rw (same, relocate, here, free) (ap₂ (λ x y. (x, y)) r.0 r.1)
            | inr (other, taken) ↦
                let r = amend_order_loses s a level o b w e here more moves other taken in
                rw (same, relocate, here, taken) (ap₂ (λ x y. (x, y)) r.0 r.1)
          ]
        ]
  ]

-- OrderBook::Amend on a well-formed book answers, and leaves the orders, as follows: to volume zero, the
-- oldest order of the price and id leaves; at the same price it gets the new volume in its place; to another
-- price it leaves, and enters anew with the new price and volume only if that price has no level.
pub amend_order-amend_orders :
    (s : Side) (a : OrderAmend) (b : OrderBook)
    → IsWellFormed s b
    → seen (amend_order s a b) ≡ amend_orders s a (holds (find a.new_price b)) (orders b)
amend_order-amend_orders s a b w = elim (Bool-cases (nat_beq a.new_volume 0)) [
  | inl t ↦ rw t (amend_order-withdraw s a b w (ground arith))
  | inr f ↦ elim (Bool-cases (nat_beq a.price a.new_price)) [
    | inl same ↦ rw (f, same) (amend_order-revise s a b w (ground arith) (ground arith))
    | inr moves ↦ rw (f, moves) (amend_order-relocate s a b w f moves)
  ]
]
