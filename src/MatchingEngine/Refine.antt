-- ===== src/MatchingEngine/Refine.antt =====
-- `ExecuteOrder` on the levels of two books does what the matching of their orders does.
use moboware.Base.{
  ℕ, zero, suc, ◌+◌, ◌≤◌, Option, none, some, List, [], ◌∷◌, ◌++◌, ◌≡◌, refl, length, arith, min,
  is_empty, Option-cases, inl, inr, length-append, if◌then◌else◌, All, ◌∙◌, ap,
}
use moboware.OrderData.{Order, Trade}
use moboware.PriceMap.{Side, find, erase}
use moboware.OrderLevel.{OrderLevel, make_trade}
use moboware.OrderLevel.Laws.{fill, fill-append, trade_top_level_cons}
use moboware.OrderBook.{OrderBook, orders, remove_level_at_price}
use moboware.OrderBook.Invariant.{Placed, BelongsAt, IsWellFormed}
use moboware.MatchingEngine.{settle, trade_best, match_step, match_loop, execute_order}
use moboware.MatchingEngine.Spec.{
  match_orders_step, match_orders, match_orders_stops, match_orders_fuel,
}
use moboware.MatchingEngine.Steps.{level_of, match_step-Matches, Matches-IsWellFormed}

-- The orders that matching can reach: those in front of the first empty level.
unfoldable pub reachable : OrderBook → List Order
reachable [] = []
reachable ((k, level) ∷ b) =
    if is_empty level.time_queue then [] else level.time_queue ++ reachable b

reachable-settle :
    (k : ℕ) (q : List Order) (old : OrderLevel) (o : Order) (b : OrderBook)
    → o.price ≡ k
    → reachable (settle (record { time_queue = q }) o ((k, old) ∷ b)) ≡ q ++ reachable b
unfolding settle remove_level_at_price find erase reachable
reachable-settle k [] old o b e = ground arith
reachable-settle k (x ∷ q) old o b e = refl

abbrev pub view : List Trade × OrderBook × OrderBook → List Trade × List Order × List Order
view r = (r.0, reachable r.1, reachable r.2)

abbrev pub view? :
    Option (List Trade × OrderBook × OrderBook) → Option (List Trade × List Order × List Order)
view? none = none
view? (some r) = some (view r)

-- Both best levels hold orders.
trade_best-view :
    (j k : ℕ) (p o : Order) (ps os : List Order) (ob mb : OrderBook)
    → p.price ≡ j
    → o.price ≡ k
    → let v = min o.volume p.volume in
      view (
        trade_best
          (record { time_queue = p ∷ ps })
          p
          (record { time_queue = o ∷ os })
          o
          ((j, record { time_queue = p ∷ ps }) ∷ ob)
          ((k, record { time_queue = o ∷ os }) ∷ mb))
      ≡ (
        make_trade p v ∷ make_trade o v ∷ [],
        fill v p (ps ++ reachable ob),
        fill v o (os ++ reachable mb),
      )
unfolding trade_best
trade_best-view j k p o ps os ob mb e f = rw (
  trade_top_level_cons p ps,
  trade_top_level_cons o os,
  reachable-settle j (fill _ p ps) _ p ob e,
  reachable-settle k (fill _ o os) _ o mb f,
  fill-append _ p ps,
  fill-append _ o os,
  same,
)
  where
    same : min (min o.volume p.volume) o.volume ≡ min o.volume p.volume
    same = omega arith

match_step-heads :
    (j k : ℕ) (p o : Order) (ps os : List Order) (ob mb : OrderBook)
    → p.price ≡ j
    → o.price ≡ k
    → view? (
        match_step
          ((j, record { time_queue = p ∷ ps }) ∷ ob)
          ((k, record { time_queue = o ∷ os }) ∷ mb))
      ≡ match_orders_step (p ∷ (ps ++ reachable ob)) (o ∷ (os ++ reachable mb))
unfolding match_step match_orders_step
match_step-heads j k p o ps os ob mb e f = ground (arith, trade_best-view j k p o ps os ob mb e f)

match_step-queues :
    (s t : Side) (j k : ℕ) (ps os : List Order) (ob mb : OrderBook)
    → All (BelongsAt s j) ps
    → All (BelongsAt t k) os
    → view? (match_step ((j, level_of ps) ∷ ob) ((k, level_of os) ∷ mb))
      ≡ match_orders_step (reachable ((j, level_of ps) ∷ ob)) (reachable ((k, level_of os) ∷ mb))
unfolding reachable
match_step-queues s t j k ps [] ob mb hp ho = unfold match_step match_orders_step in refl
match_step-queues s t j k [] (o ∷ os) ob mb hp ho = unfold match_step match_orders_step in refl
match_step-queues s t j k (p ∷ ps) (o ∷ os) ob mb hp ho =
    match_step-heads j k p o ps os ob mb hp.0.0 ho.0.0

-- One round of the code is one round of the specification.
pub match_step-view :
    (s t : Side) (opposite mine : OrderBook)
    → Placed s opposite
    → Placed t mine
    → view? (match_step opposite mine) ≡ match_orders_step (reachable opposite) (reachable mine)
match_step-view s t opposite [] h k = unfold match_step match_orders_step reachable in refl
match_step-view s t [] ((k, l) ∷ mb) hp ho = none_opposite l.time_queue
  where
    none_opposite :
        (os : List Order)
        → view? (match_step [] ((k, level_of os) ∷ mb))
          ≡ match_orders_step (reachable []) (reachable ((k, level_of os) ∷ mb))
    none_opposite [] = unfold match_step match_orders_step reachable in refl
    none_opposite (o ∷ os) = unfold match_step match_orders_step reachable in refl
match_step-view s t ((j, l') ∷ ob) ((k, l) ∷ mb) hp ho =
    match_step-queues s t j k l'.time_queue l.time_queue ob mb hp.0 ho.0

-- The whole loop on any fuel.
pub match_loop-view :
    (s t : Side) (fuel : ℕ) (opposite mine : OrderBook)
    → IsWellFormed s opposite
    → IsWellFormed t mine
    → view (match_loop fuel opposite mine) ≡ match_orders fuel (reachable opposite) (reachable mine)
unfolding match_loop match_orders
match_loop-view s t zero opposite mine v w = refl
match_loop-view s t (suc fuel) opposite mine v w = elim (Option-cases (match_step opposite mine)) [
  | inl e ↦
      let e' = match_step-view s t opposite mine v.placed w.placed in
      rw (e, match_loop, ← e', match_orders, e)
  | inr (r, e) ↦
      let e' = match_step-view s t opposite mine v.placed w.placed in
      let kept = Matches-IsWellFormed s t (match_step-Matches opposite mine r e) v w in
      let ih = match_loop-view s t fuel r.1 r.2 kept.0 kept.1 in
      rw (e, match_loop, ← e', match_orders, e, ← ih)
]

length-reachable : (b : OrderBook) → length (reachable b) ≤ length (orders b)
unfolding reachable orders
length-reachable [] = omega arith
length-reachable ((k, l) ∷ b) = ground (
  arith,
  length-append l.time_queue (reachable b),
  length-append l.time_queue (orders b),
  length-reachable b,
)

-- ExecuteOrder on two well-formed books sends the trades, and leaves the reachable orders, that
-- the matching of the two lists of reachable orders gives.
pub execute_order-match_orders :
    (s t : Side) (fuel : ℕ) (opposite mine : OrderBook)
    → IsWellFormed s opposite
    → IsWellFormed t mine
    → length (reachable opposite) + length (reachable mine) ≤ fuel
    → view (execute_order opposite mine) ≡ match_orders fuel (reachable opposite) (reachable mine)
unfolding execute_order
execute_order-match_orders s t fuel opposite mine v w h =
    match_loop-view s t _ opposite mine v w
    ∙ match_orders_fuel _ fuel (reachable opposite) (reachable mine)
        (omega (arith, length-reachable opposite, length-reachable mine)) h

pub match_loop-IsWellFormed :
    (s t : Side) (fuel : ℕ) (opposite mine : OrderBook)
    → IsWellFormed s opposite
    → IsWellFormed t mine
    → let r = match_loop fuel opposite mine in IsWellFormed s r.1 × IsWellFormed t r.2
unfolding match_loop
match_loop-IsWellFormed s t zero opposite mine v w = (v, w)
match_loop-IsWellFormed s t (suc fuel) opposite mine v w =
    elim (Option-cases (match_step opposite mine)) [
      | inl e ↦ rw (e, match_loop) (v, w)
      | inr (r, e) ↦
          let kept = Matches-IsWellFormed s t (match_step-Matches opposite mine r e) v w in
          rw (e, match_loop) (match_loop-IsWellFormed s t fuel r.1 r.2 kept.0 kept.1)
    ]

view?-none : (o : Option (List Trade × OrderBook × OrderBook)) → view? o ≡ none → o ≡ none
view?-none none h = refl
view?-none (some r) h = absurd (cc)

-- The loop of ExecuteOrder ends by one of its own returns: the fuel, the number of orders, never
-- runs out.
pub execute_order_stops :
    (s t : Side) (opposite mine : OrderBook)
    → IsWellFormed s opposite
    → IsWellFormed t mine
    → let r = execute_order opposite mine in match_step r.1 r.2 ≡ none
unfolding execute_order
execute_order_stops s t opposite mine v w =
    let n = length (orders opposite) + length (orders mine) in
    let r = match_loop n opposite mine in
    let kept = match_loop-IsWellFormed s t n opposite mine v w in
    let same = match_loop-view s t n opposite mine v w in
    view?-none (match_step r.1 r.2) (
      match_step-view s t r.1 r.2 kept.0.placed kept.1.placed
      ∙ ap (λ (x : List Trade × List Order × List Order). match_orders_step x.1 x.2) same
      ∙ match_orders_stops n (reachable opposite) (reachable mine)
          (omega (arith, length-reachable opposite, length-reachable mine)))
