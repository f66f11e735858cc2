-- ===== src/MatchingEngine/Steps.antt =====
-- The rounds of `ExecuteOrder` as a step relation, and what every round keeps.
use moboware.Base.{ℕ, true, some, List, [], ◌∷◌, ◌≡◌, arith, min, if_either, All}
use moboware.OrderData.{Order, Trade, set_volume}
use moboware.PriceMap.{Side}
use moboware.OrderLevel.{OrderLevel, make_trade, level_is_empty}
use moboware.OrderLevel.Laws.{fill, fill-All, trade_top_level_cons}
use moboware.OrderBook.{OrderBook}
use moboware.OrderBook.Invariant.{BelongsAt, IsWellFormed}
use moboware.OrderBook.Preserve.{remove_level_at_price-IsWellFormed}
use moboware.MatchingEngine.{match_price, settle, trade_best, match_step}

-- A level that holds the orders.
abbrev pub level_of : List Order → OrderLevel
level_of q = record { time_queue = q }

-- A round that trades: both best levels hold orders, and the prices of the oldest ones cross.
pub data Matches (r : List Trade × OrderBook × OrderBook) : OrderBook → OrderBook → Type 0 where
  cross :
      (j k : ℕ) (p o : Order) (ps os : List Order) (ob mb : OrderBook)
      → match_price o p ≡ true
      → r
        ≡ trade_best
            (level_of (p ∷ ps))
            p
            (level_of (o ∷ os))
            o
            ((j, level_of (p ∷ ps)) ∷ ob)
            ((k, level_of (o ∷ os)) ∷ mb)
      → Matches r ((j, level_of (p ∷ ps)) ∷ ob) ((k, level_of (o ∷ os)) ∷ mb)

Matches-of_queues :
    (j k : ℕ) (ps os : List Order) (ob mb : OrderBook) (r : List Trade × OrderBook × OrderBook)
    → match_step ((j, level_of ps) ∷ ob) ((k, level_of os) ∷ mb) ≡ some r
    → Matches r ((j, level_of ps) ∷ ob) ((k, level_of os) ∷ mb)
unfolding match_step
Matches-of_queues j k ps [] ob mb r e = absurd (cc)
Matches-of_queues j k [] (o ∷ os) ob mb r e = absurd (cc)
Matches-of_queues j k (p ∷ ps) (o ∷ os) ob mb r e =
    cross j k p o ps os ob mb (ground arith) (ground arith)

-- The code's round trades only so.
pub match_step-Matches :
    (opposite mine : OrderBook) (r : List Trade × OrderBook × OrderBook)
    → match_step opposite mine ≡ some r
    → Matches r opposite mine
match_step-Matches opposite [] r e = unfold match_step in absurd (cc)
match_step-Matches [] ((k, l) ∷ mb) r e = no_opposite l.time_queue e
  where
    no_opposite :
        (os : List Order)
        → match_step [] ((k, level_of os) ∷ mb) ≡ some r
        → Matches r [] ((k, l) ∷ mb)
    no_opposite [] e' = unfold match_step in absurd (cc)
    no_opposite (o ∷ os) e' = unfold match_step in absurd (cc)
match_step-Matches ((j, l') ∷ ob) ((k, l) ∷ mb) r e =
    Matches-of_queues j k l'.time_queue l.time_queue ob mb r e

-- What such a round does: both orders give up the smaller of their volumes.
pub trade_best_lem :
    (j k : ℕ) (p o : Order) (ps os : List Order) (ob mb : OrderBook)
    → let v = min o.volume p.volume in
      trade_best
        (level_of (p ∷ ps))
        p
        (level_of (o ∷ os))
        o
        ((j, level_of (p ∷ ps)) ∷ ob)
        ((k, level_of (o ∷ os)) ∷ mb)
      ≡ (
        make_trade p v ∷ make_trade o v ∷ [],
        settle (level_of (fill v p ps)) p ((j, level_of (p ∷ ps)) ∷ ob),
        settle (level_of (fill v o os)) o ((k, level_of (o ∷ os)) ∷ mb),
      )
unfolding trade_best
trade_best_lem j k p o ps os ob mb =
    let same : min (min o.volume p.volume) o.volume ≡ min o.volume p.volume = omega arith in
    rw (trade_top_level_cons p ps, trade_top_level_cons o os, same)

settle-IsWellFormed :
    (s : Side) (k : ℕ) (level old : OrderLevel) (o : Order) (b : OrderBook)
    → All (BelongsAt s k) level.time_queue
    → IsWellFormed s ((k, old) ∷ b)
    → IsWellFormed s (settle level o ((k, old) ∷ b))
unfolding settle
settle-IsWellFormed s k level old o b h w =
    let kept : IsWellFormed s ((k, level) ∷ b) = record {
      sorted = w.sorted;
      placed = (h, w.placed.1);
    } in
    if_either (IsWellFormed s) (level_is_empty level)
      (remove_level_at_price-IsWellFormed s o.price ((k, level) ∷ b) kept) kept

-- A round keeps the invariants of both books.
pub Matches-IsWellFormed :
    (s t : Side) {r : List Trade × OrderBook × OrderBook} {opposite mine : OrderBook}
    → Matches r opposite mine
    → IsWellFormed s opposite
    → IsWellFormed t mine
    → IsWellFormed s r.1 × IsWellFormed t r.2
unfolding trade_best set_volume
Matches-IsWellFormed s t {r} (cross j k p o ps os ob mb h e) v w =
    rw (e, trade_top_level_cons p ps, trade_top_level_cons o os)
      (
        settle-IsWellFormed s j (level_of (fill _ p ps)) _ p ob
            (fill-All (BelongsAt s j) (λ x n h. h) _ p ps v.placed.0.0 v.placed.0.1) v,
        settle-IsWellFormed t k (level_of (fill _ o os)) _ o mb
            (fill-All (BelongsAt t k) (λ x n h. h) _ o os w.placed.0.0 w.placed.0.1) w,
      )
