-- ===== src/MatchingEngine/Spec.antt =====
-- The matching of two lists of orders, with no levels: what `ExecuteOrder` is meant to do.
use moboware.Base.{
  ℕ, zero, suc, ◌+◌, ◌≤◌, ◌<◌, Option, none, some, List, [], ◌∷◌, ◌++◌, ◌≡◌, refl, length, arith,
  min, Option-cases, inl, inr, if◌then◌else◌,
}
use moboware.OrderData.{Order, Trade}
use moboware.OrderLevel.{make_trade}
use moboware.OrderLevel.Laws.{fill}
use moboware.MatchingEngine.{match_price}

-- The first orders trade the smaller volume where their prices cross; one that is used up leaves.
unfoldable pub match_orders_step :
    List Order → List Order → Option (List Trade × List Order × List Order)
match_orders_step opposite [] = none
match_orders_step [] (o ∷ os) = none
match_orders_step (p ∷ ps) (o ∷ os) =
    let v = min o.volume p.volume in
    if match_price o p
    then some (make_trade p v ∷ make_trade o v ∷ [], fill v p ps, fill v o os)
    else none

unfoldable pub match_orders : ℕ → List Order → List Order → List Trade × List Order × List Order
match_orders zero opposite mine = ([], opposite, mine)
match_orders (suc fuel) opposite mine = elim (match_orders_step opposite mine) [
  | none ↦ ([], opposite, mine)
  | some (trades, opposite', mine') ↦
      let (more, o, m) = match_orders fuel opposite' mine' in (trades ++ more, o, m)
]

-- A match uses up at least one of the two orders.
pub match_orders_step-lt :
    (opposite mine : List Order) {ts : List Trade} {o m : List Order}
    → match_orders_step opposite mine ≡ some (ts, o, m)
    → length o + length m < length opposite + length mine
unfolding match_orders_step fill
match_orders_step-lt opposite [] e = absurd (cc)
match_orders_step-lt [] (o ∷ os) e = absurd (cc)
match_orders_step-lt (p ∷ ps) (o ∷ os) e = ground arith

-- The number of orders is fuel enough: the loop ends by its own test.
pub match_orders_stops :
    (fuel : ℕ) (opposite mine : List Order)
    → length opposite + length mine ≤ fuel
    → let r = match_orders fuel opposite mine in match_orders_step r.1 r.2 ≡ none
unfolding match_orders
match_orders_stops zero opposite [] h = unfold match_orders_step in refl
match_orders_stops zero opposite (o ∷ os) h = absurd (omega arith)
match_orders_stops (suc fuel) opposite mine h =
    elim (Option-cases (match_orders_step opposite mine)) [
      | inl e ↦ rw (e, match_orders) e
      | inr (r, e) ↦
          rw (e, match_orders)
            (match_orders_stops fuel r.1 r.2 (omega (arith, match_orders_step-lt opposite mine e)))
    ]

-- More fuel changes nothing.
pub match_orders_fuel :
    (f g : ℕ) (opposite mine : List Order)
    → length opposite + length mine ≤ f
    → length opposite + length mine ≤ g
    → match_orders f opposite mine ≡ match_orders g opposite mine
unfolding match_orders
match_orders_fuel zero zero opposite mine h k = refl
match_orders_fuel zero (suc g) [] [] h k = unfold match_orders_step in refl
match_orders_fuel zero (suc g) [] (o ∷ os) h k = absurd (omega arith)
match_orders_fuel zero (suc g) (p ∷ ps) mine h k = absurd (omega arith)
match_orders_fuel (suc f) zero [] [] h k = unfold match_orders_step in refl
match_orders_fuel (suc f) zero [] (o ∷ os) h k = absurd (omega arith)
match_orders_fuel (suc f) zero (p ∷ ps) mine h k = absurd (omega arith)
match_orders_fuel (suc f) (suc g) opposite mine h k =
    elim (Option-cases (match_orders_step opposite mine)) [
      | inl e ↦ rw (e, match_orders)
      | inr (r, e) ↦
          let less = match_orders_step-lt opposite mine e in
          rw (e, match_orders, match_orders_fuel f g r.1 r.2 (omega arith) (omega arith))
    ]
