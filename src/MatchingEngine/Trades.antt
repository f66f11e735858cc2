-- ===== src/MatchingEngine/Trades.antt =====
-- The trades of `ExecuteOrder`: what they say, and that they account for the volume that leaves.
use moboware.Base.{
  ℕ, zero, suc, ◌+◌, ◌≤◌, true, List, [], ◌∷◌, ◌++◌, ◌≡◌, refl, arith, min, inl, inr, Option-cases,
}
use moboware.OrderData.{Order, Trade, set_volume}
use moboware.PriceMap.{Side, bid, ask, find, erase}
use moboware.OrderLevel.{OrderLevel, make_trade}
use moboware.OrderLevel.Laws.{fill}
use moboware.OrderBook.{OrderBook, orders, remove_level_at_price}
use moboware.OrderBook.Invariant.{Placed, IsWellFormed, is_bid}
use moboware.MatchingEngine.{match_price, settle, match_step, match_loop, execute_order}
use moboware.MatchingEngine.Steps.{
  level_of, trade_best_lem, Matches, cross, match_step-Matches, Matches-IsWellFormed,
}

-- The volume of the orders in a list, and of the trades in a list.
unfoldable pub volume : List Order → ℕ
volume [] = 0
volume (o ∷ os) = o.volume + volume os

unfoldable pub traded : List Trade → ℕ
traded [] = 0
traded (t ∷ ts) = t.traded_volume + traded ts

volume-append : (xs ys : List Order) → volume (xs ++ ys) ≡ volume xs + volume ys
unfolding volume
volume-append [] ys = omega arith
volume-append (x ∷ xs) ys = omega (arith, volume-append xs ys)

traded-append : (xs ys : List Trade) → traded (xs ++ ys) ≡ traded xs + traded ys
unfolding traded
traded-append [] ys = omega arith
traded-append (x ∷ xs) ys = omega (arith, traded-append xs ys)

volume-fill :
    (v : ℕ) (o : Order) (os : List Order)
    → v ≤ o.volume
    → volume (fill v o os) + v ≡ o.volume + volume os
unfolding volume fill set_volume
volume-fill v o os h = ground arith

orders-settle :
    (k : ℕ) (q : List Order) (old : OrderLevel) (o : Order) (b : OrderBook)
    → o.price ≡ k
    → orders (settle (level_of q) o ((k, old) ∷ b)) ≡ q ++ orders b
unfolding settle remove_level_at_price find erase orders
orders-settle k [] old o b e = ground arith
orders-settle k (x ∷ q) old o b e = refl

-- The two books lose the same volume, and the trades report it, once for each side.
pub record Accounts (opposite mine : OrderBook) (r : List Trade × OrderBook × OrderBook)
    : Type 0 where
  pub equal :
      volume (orders opposite) + volume (orders r.2) ≡ volume (orders mine) + volume (orders r.1)
  pub reported :
      volume (orders r.1) + volume (orders r.2) + traded r.0
      ≡ volume (orders opposite) + volume (orders mine)

Matches-Accounts :
    (s t : Side) {r : List Trade × OrderBook × OrderBook} {opposite mine : OrderBook}
    → Matches r opposite mine
    → Placed s opposite
    → Placed t mine
    → Accounts opposite mine r
unfolding orders volume traded make_trade
Matches-Accounts s t {r} (cross j k p o ps os ob mb h e) v w =
    let n = min o.volume p.volume in
    let gone = volume-fill n p ps (omega arith) in
    let gone' = volume-fill n o os (omega arith) in
    let sum = volume-append (fill n p ps) (orders ob) in
    let sum' = volume-append (fill n o os) (orders mb) in
    let all = volume-append ps (orders ob) in
    let all' = volume-append os (orders mb) in
    rw (e, trade_best_lem)
      (record {
        equal =
            rw
              (
                orders-settle j (fill n p ps) _ p ob v.0.0.0,
                orders-settle k (fill n o os) _ o mb w.0.0.0,
              )
              (omega arith);
        reported =
            rw
              (
                orders-settle j (fill n p ps) _ p ob v.0.0.0,
                orders-settle k (fill n o os) _ o mb w.0.0.0,
              )
              (omega arith);
      })

-- Two trades for each match: of equal volume, the first of the opposite order, the second of mine,
-- each at the price of its own order, where the bid pays no less than the ask wants.
abbrev pub Crosses : Side → ℕ → ℕ → Type 0
Crosses bid opposite_price my_price = opposite_price ≤ my_price
Crosses ask opposite_price my_price = my_price ≤ opposite_price

abbrev pub IsPaired : Side → List Trade → Type 0
IsPaired t [] = Unit
IsPaired t (x ∷ []) = ⊥
IsPaired t (x ∷ y ∷ ts) =
    (x.traded_volume ≡ y.traded_volume) × Crosses t x.traded_price y.traded_price × IsPaired t ts

IsPaired-append :
    (t : Side) (xs ys : List Trade) → IsPaired t xs → IsPaired t ys → IsPaired t (xs ++ ys)
IsPaired-append t [] ys h k = k
IsPaired-append t (x ∷ []) ys h k = absurd h
IsPaired-append t (x ∷ y ∷ xs) ys h k = (h.0, h.1, IsPaired-append t xs ys h.2 k)

crosses :
    (t : Side) (p o : Order)
    → o.is_buy_side ≡ is_bid t
    → match_price o p ≡ true
    → Crosses t p.price o.price
unfolding match_price
crosses bid p o e h = ground arith
crosses ask p o e h = ground arith

Matches-IsPaired :
    (t : Side) {r : List Trade × OrderBook × OrderBook} {opposite mine : OrderBook}
    → Matches r opposite mine
    → Placed t mine
    → IsPaired t r.0
unfolding make_trade
Matches-IsPaired t {r} (cross j k p o ps os ob mb h e) w =
    rw (e, trade_best_lem) (refl, crosses t p o w.0.0.1 h, tt)

pub match_loop-Accounts :
    (s t : Side) (fuel : ℕ) (opposite mine : OrderBook)
    → IsWellFormed s opposite
    → IsWellFormed t mine
    → Accounts opposite mine (match_loop fuel opposite mine)
unfolding match_loop traded
match_loop-Accounts s t zero opposite mine v w = record {
  equal = omega arith;
  reported = omega arith;
}
match_loop-Accounts s t (suc fuel) opposite mine v w =
    elim (Option-cases (match_step opposite mine)) [
      | inl e ↦ rw (e, match_loop) (record { equal = omega arith; reported = omega arith })
      | inr (r, e) ↦
          let m = match_step-Matches opposite mine r e in
          let kept = Matches-IsWellFormed s t m v w in
          let now = Matches-Accounts s t m v.placed w.placed in
          let later = match_loop-Accounts s t fuel r.1 r.2 kept.0 kept.1 in
          let sum = traded-append r.0 (match_loop fuel r.1 r.2).0 in
          rw (e, match_loop) (record { equal = omega arith; reported = omega arith })
    ]

-- ExecuteOrder takes the same volume from both books, and its trades report that volume once for
-- each side.
pub execute_order-Accounts :
    (s t : Side) (opposite mine : OrderBook)
    → IsWellFormed s opposite
    → IsWellFormed t mine
    → Accounts opposite mine (execute_order opposite mine)
unfolding execute_order
execute_order-Accounts s t opposite mine v w = match_loop-Accounts s t _ opposite mine v w

match_loop-IsPaired :
    (s t : Side) (fuel : ℕ) (opposite mine : OrderBook)
    → IsWellFormed s opposite
    → IsWellFormed t mine
    → IsPaired t (match_loop fuel opposite mine).0
unfolding match_loop
match_loop-IsPaired s t zero opposite mine v w = tt
match_loop-IsPaired s t (suc fuel) opposite mine v w =
    elim (Option-cases (match_step opposite mine)) [
      | inl e ↦ rw (e, match_loop) tt
      | inr (r, e) ↦
          let m = match_step-Matches opposite mine r e in
          let kept = Matches-IsWellFormed s t m v w in
          rw (e, match_loop)
            (IsPaired-append t r.0 _ (Matches-IsPaired t m w.placed)
              (match_loop-IsPaired s t fuel r.1 r.2 kept.0 kept.1))
    ]

-- The trades of ExecuteOrder come in pairs of equal volume in which the price of the bid is at
-- least that of the ask.
pub execute_order-IsPaired :
    (s t : Side) (opposite mine : OrderBook)
    → IsWellFormed s opposite
    → IsWellFormed t mine
    → IsPaired t (execute_order opposite mine).0
unfolding execute_order
execute_order-IsPaired s t opposite mine v w = match_loop-IsPaired s t _ opposite mine v w
