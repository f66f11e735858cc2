-- ===== src/MatchingEngine/Uncrossed.antt =====
-- Where no level is empty, a book in which the loop of `ExecuteOrder` stops holds no two orders
-- whose prices cross.
use moboware.Base.{
  ℕ, zero, suc, ◌≤◌, ◌<◌, false, none, List, [], ◌∷◌, ◌≡◌, ◌⊎◌, refl, arith, is_empty, All,
  All-append, inl, inr, Option-cases,
}
use moboware.OrderData.{Order, Trade}
use moboware.PriceMap.{Side, bid, ask, find, erase, Behind}
use moboware.OrderLevel.{OrderLevel}
use moboware.OrderLevel.Laws.{trade_top_level_cons}
use moboware.OrderBook.{OrderBook, orders, remove_level_at_price}
use moboware.OrderBook.Invariant.{Placed, BelongsAt, IsWellFormed, IsFull}
use moboware.MatchingEngine.{match_price, settle, trade_best, match_step, match_loop}
use moboware.MatchingEngine.Steps.{
  level_of, Matches, cross, match_step-Matches, Matches-IsWellFormed,
}

-- A round takes an emptied level away.
settle-IsFull :
    (k : ℕ) (q : List Order) (old : OrderLevel) (o : Order) (b : OrderBook)
    → o.price ≡ k
    → IsFull b
    → IsFull (settle (level_of q) o ((k, old) ∷ b))
unfolding settle remove_level_at_price find erase
settle-IsFull k [] old o b e h = ground arith
settle-IsFull k (x ∷ q) old o b e h = (refl, h)

pub Matches-IsFull :
    (s t : Side) {r : List Trade × OrderBook × OrderBook} {opposite mine : OrderBook}
    → Matches r opposite mine
    → Placed s opposite
    → Placed t mine
    → IsFull opposite
    → IsFull mine
    → IsFull r.1 × IsFull r.2
unfolding trade_best
Matches-IsFull s t (cross j k p o ps os ob mb h e) v w f g =
    rw (e, trade_top_level_cons p ps, trade_top_level_cons o os)
      (settle-IsFull j _ _ p ob v.0.0.0 f.1, settle-IsFull k _ _ o mb w.0.0.0 g.1)

pub match_loop-IsFull :
    (s t : Side) (fuel : ℕ) (opposite mine : OrderBook)
    → IsWellFormed s opposite
    → IsWellFormed t mine
    → IsFull opposite
    → IsFull mine
    → let r = match_loop fuel opposite mine in IsFull r.1 × IsFull r.2
unfolding match_loop
match_loop-IsFull s t zero opposite mine v w f g = (f, g)
match_loop-IsFull s t (suc fuel) opposite mine v w f g =
    elim (Option-cases (match_step opposite mine)) [
      | inl e ↦ rw (e, match_loop) (f, g)
      | inr (r, e) ↦
          let m = match_step-Matches opposite mine r e in
          let kept = Matches-IsWellFormed s t m v w in
          let full = Matches-IsFull s t m v.placed w.placed f g in
          rw (e, match_loop) (match_loop-IsFull s t fuel r.1 r.2 kept.0 kept.1 full.0 full.1)
    ]

-- Every bid is priced below every ask.
abbrev pub IsUncrossed : OrderBook → OrderBook → Type 0
IsUncrossed bids asks =
    All (λ (b : Order). All (λ (a : Order). b.price < a.price) (orders asks)) (orders bids)

-- The orders of a level.
priced :
    (s : Side) (k : ℕ) (P : ℕ → Type 0) (os : List Order)
    → P k
    → All (BelongsAt s k) os
    → All (λ (o : Order). P o.price) os
priced s k P [] h b = tt
priced s k P (o ∷ os) h b = (rw (b.0.0) h, priced s k P os h b.1)

bids_below :
    (k : ℕ) (b : OrderBook)
    → Behind bid k b
    → Placed bid b
    → All (λ (o : Order). o.price ≤ k) (orders b)
unfolding orders
bids_below k [] h p = tt
bids_below k ((j, l) ∷ b) h p =
    All-append (λ (o : Order). o.price ≤ k) l.time_queue (orders b)
      (priced bid j (λ n. n ≤ k) l.time_queue (omega arith) p.0) (bids_below k b h.1 p.1)

asks_above :
    (k : ℕ) (b : OrderBook)
    → Behind ask k b
    → Placed ask b
    → All (λ (o : Order). k ≤ o.price) (orders b)
unfolding orders
asks_above k [] h p = tt
asks_above k ((j, l) ∷ b) h p =
    All-append (λ (o : Order). k ≤ o.price) l.time_queue (orders b)
      (priced ask j (λ n. k ≤ n) l.time_queue (omega arith) p.0) (asks_above k b h.1 p.1)

pairs_below :
    (k j : ℕ) (bs as' : List Order)
    → k < j
    → All (λ (o : Order). o.price ≤ k) bs
    → All (λ (o : Order). j ≤ o.price) as'
    → All (λ (b : Order). All (λ (a : Order). b.price < a.price) as') bs
pairs_below k j [] as' h p q = tt
pairs_below k j (b ∷ bs) as' h p q = (one as' q, pairs_below k j bs as' h p.1 q)
  where
    one :
        (xs : List Order)
        → All (λ (o : Order). j ≤ o.price) xs
        → All (λ (a : Order). b.price < a.price) xs
    one [] _ = tt
    one (x ∷ xs) hx = (omega arith, one xs hx.1)

no_pairs : (bs : List Order) → All (λ (b : Order). All (λ (a : Order). b.price < a.price) []) bs
no_pairs [] = tt
no_pairs (b ∷ bs) = (tt, no_pairs bs)

-- The loop stops, whichever side is mine.
abbrev pub Stops : OrderBook → OrderBook → Type 0
Stops bids asks = (match_step asks bids ≡ none) ⊎ (match_step bids asks ≡ none)

best_apart :
    (k j : ℕ) (bs as' : List Order) (b a : OrderBook)
    → All (BelongsAt bid k) bs
    → All (BelongsAt ask j) as'
    → is_empty bs ≡ false
    → is_empty as' ≡ false
    → Stops ((k, level_of bs) ∷ b) ((j, level_of as') ∷ a)
    → k < j
unfolding match_step match_price
best_apart k j [] as' b a p q f g s = absurd (cc)
best_apart k j (x ∷ bs) [] b a p q f g s = absurd (cc)
best_apart k j (x ∷ bs) (y ∷ as') b a p q f g (inl e) = ground (arith, p.0.0, p.0.1, q.0.0, q.0.1)
best_apart k j (x ∷ bs) (y ∷ as') b a p q f g (inr e) = ground (arith, p.0.0, p.0.1, q.0.0, q.0.1)

pub IsUncrossed-of_Stops :
    (bids asks : OrderBook)
    → IsWellFormed bid bids
    → IsWellFormed ask asks
    → IsFull bids
    → IsFull asks
    → Stops bids asks
    → IsUncrossed bids asks
unfolding orders
IsUncrossed-of_Stops [] asks v w f g s = tt
IsUncrossed-of_Stops ((k, l) ∷ b) [] v w f g s = no_pairs (orders ((k, l) ∷ b))
IsUncrossed-of_Stops ((k, l) ∷ b) ((j, l') ∷ a) v w f g s =
    pairs_below k j (orders ((k, l) ∷ b)) (orders ((j, l') ∷ a))
      (best_apart k j l.time_queue l'.time_queue b a v.placed.0 w.placed.0 f.0 g.0 s)
      (All-append (λ (o : Order). o.price ≤ k) l.time_queue (orders b)
        (priced bid k (λ n. n ≤ k) l.time_queue (omega arith) v.placed.0)
        (bids_below k b v.sorted.0 v.placed.1))
      (All-append (λ (o : Order). j ≤ o.price) l'.time_queue (orders a)
        (priced ask j (λ n. j ≤ n) l'.time_queue (omega arith) w.placed.0)
        (asks_above j a w.sorted.0 w.placed.1))
