-- ===== src/OrderLevel/Laws.antt =====
-- The queue of a level: what each method does to the orders, in any position.
use moboware.Base.{
  ℕ, ◌+◌, ◌-◌, ◌≡◌, refl, true, false, Option, none, some, List, [], ◌∷◌, ◌++◌, ap, Text, arith,
  min, nat_beq, text_beq, text_beq_iff, All, if◌then◌else◌, Bool-cases, inl, inr, length, subst,
}
use moboware.OrderData.{Order, Trade, set_volume}
use moboware.OrderLevel.{
  make_trade, trade_queue, trade_top_level, cancel_queue, find_queue, move_queue,
}

-- The queue after its oldest order `o` gave up the volume `v`.
unfoldable pub fill : ℕ → Order → List Order → List Order
fill v o os = if nat_beq (o.volume - v) 0 then os else set_volume (o.volume - v) o ∷ os

-- `TradeTopLevel` trades the smaller of the two volumes, reports it at the order's own price, and
-- takes it off the oldest order, which leaves when nothing is left of it.
pub trade_queue_cons :
    (o : Order) (os : List Order) (volume : ℕ)
    → let v = min volume o.volume in
      trade_queue (o ∷ os) volume ≡ (v, make_trade o v ∷ [], fill v o os)
unfolding trade_queue fill
trade_queue_cons o os volume = ground arith

pub trade_top_level_cons :
    (o : Order) (os : List Order) (volume : ℕ)
    → let v = min volume o.volume in
      trade_top_level (record { time_queue = o ∷ os }) volume
      ≡ (v, make_trade o v ∷ [], record { time_queue = fill v o os })
unfolding trade_top_level
trade_top_level_cons o os volume =
    ap (λ (r : ℕ × List Trade × List Order). (r.0, r.1, record { time_queue = r.2 }))
      (trade_queue_cons o os volume)

pub fill-append : (v : ℕ) (o : Order) (xs ys : List Order) → fill v o (xs ++ ys) ≡ fill v o xs ++ ys
unfolding fill
fill-append v o xs ys = ground arith

module _ {κ} (P : Order → Type κ) where
  -- A predicate that does not look at the volume.
  pub fill-All :
      ((o : Order) (v : ℕ) → P o → P (set_volume v o))
      → (v : ℕ) (o : Order) (os : List Order) → P o
      → All P os
      → All P (fill v o os)
  unfolding fill
  fill-All keep v o os h hs = elim (Bool-cases (nat_beq (o.volume - v) 0)) [
    | inl e ↦ rw e hs
    | inr e ↦ rw e (keep o (o.volume - v) h, hs)
  ]

  pub cancel_queue-All : (id : Text) (os : List Order) → All P os → All P (cancel_queue id os).1
  unfolding cancel_queue
  cancel_queue-All id [] h = tt
  cancel_queue-All id (o ∷ os) h = elim (Bool-cases (text_beq o.id id)) [
    | inl e ↦ rw e h.1
    | inr e ↦ rw e (h.0, cancel_queue-All id os h.1)
  ]

  pub find_queue-All :
      (id : Text) (f : Order → Order)
      → ((o : Order) → P o → P (f o))
      → (os : List Order) → All P os
      → All P (find_queue id f os).1
  unfolding find_queue
  find_queue-All id f keep [] h = tt
  find_queue-All id f keep (o ∷ os) h = elim (Bool-cases (text_beq id o.id)) [
    | inl e ↦ rw e (keep o h.0, h.1)
    | inr e ↦ rw e (h.0, find_queue-All id f keep os h.1)
  ]

-- The first order of an id.
unfoldable pub lookup_order : Text → List Order → Option Order
lookup_order id [] = none
lookup_order id (o ∷ os) = if text_beq id o.id then some o else lookup_order id os

pub lookup_order-All {κ} :
    (P : Order → Type κ) (id : Text) (o : Order) (os : List Order)
    → lookup_order id os ≡ some o
    → All P os
    → P o
unfolding lookup_order
lookup_order-All P id o [] e h = cc
lookup_order-All P id o (p ∷ os) e h = elim (Bool-cases (text_beq id p.id)) [
  | inl t ↦ let q : p ≡ o = ground arith in subst P q h.0
  | inr f ↦ lookup_order-All P id o os (rw f at e) h.1
]

pub text_beq_comm : (a b : Text) → text_beq a b ≡ text_beq b a
text_beq_comm a b = ground (arith, text_beq_iff a b, text_beq_iff b a)

-- `CancelOrder` finds an order exactly where there is one of that id.
pub cancel_queue_found :
    (id : Text) (os : List Order)
    → (cancel_queue id os).0 ≡ (elim (lookup_order id os) [ none ↦ false | some o ↦ true ])
unfolding cancel_queue lookup_order
cancel_queue_found id [] = refl
cancel_queue_found id (o ∷ os) = ground (arith, text_beq_comm id o.id, cancel_queue_found id os)

-- `MoveOrder` erases what `CancelOrder` erases, after handing that order to the callback.
pub move_queue-cancel_queue :
    {S : Type 0} (id : Text) (f : Order → S → S) (os : List Order) (s : S)
    → move_queue id f os s ≡ (elim (lookup_order id os) [
      | none ↦ (false, os, s)
      | some o ↦ (true, (cancel_queue id os).1, f o s)
    ])
unfolding move_queue cancel_queue lookup_order
move_queue-cancel_queue id f [] s = refl
move_queue-cancel_queue id f (o ∷ os) s =
    ground (arith, text_beq_comm id o.id, move_queue-cancel_queue id f os s)

pub length-cancel_queue :
    (id : Text) (o : Order) (os : List Order)
    → lookup_order id os ≡ some o
    → length (cancel_queue id os).1 + 1 ≡ length os
unfolding cancel_queue lookup_order
length-cancel_queue id o [] e = cc
length-cancel_queue id o (p ∷ os) e =
    ground (arith, text_beq_comm id p.id, length-cancel_queue id o os)
