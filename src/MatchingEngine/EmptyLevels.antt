-- ===== src/MatchingEngine/EmptyLevels.antt =====
-- What the level that `Cancel` leaves empty does to matching.
use moboware.Base.{
  ℕ, zero, suc, Bool, true, false, none, [], ◌∷◌, ◌≡◌, ◌∙◌, refl, arith, inl, inr, Option-cases, ap,
  text_beq_iff,
}
use moboware.OrderData.{Order, OrderCancel}
use moboware.PriceMap.{ask, IsSorted, find, assign}
use moboware.OrderLevel.{cancel_order}
use moboware.OrderBook.{OrderBook, cancel_in_book, insert_order}
use moboware.OrderBook.Priority.{insert_order_succeeds}
use moboware.MatchingEngine.{
  MatchingEngine, order_reply, best_order, match_step, match_loop, execute_order, check_match,
  my_book, with_book, side_of, order_insert, order_cancel, after_insert, after_cancel,
  reply_and_match,
}
use moboware.MatchingEngine.Steps.{level_of}

match_step_empty : (k : ℕ) (b mine : OrderBook) → match_step ((k, level_of []) ∷ b) mine ≡ none
unfolding match_step
match_step_empty k b mine = elim (Option-cases (best_order mine)) [
  | inl e ↦ rw (e, match_step)
  | inr (m, e) ↦ rw (e, match_step)
]

match_loop_empty :
    (fuel k : ℕ) (b mine : OrderBook)
    → match_loop fuel ((k, level_of []) ∷ b) mine ≡ ([], (k, level_of []) ∷ b, mine)
unfolding match_loop
match_loop_empty zero k b mine = refl
match_loop_empty (suc fuel) k b mine = rw (match_step_empty k b mine, match_loop)

-- `Cancel` of the only order of the best level keeps the level, with no order.
cancel_empties :
    (c : OrderCancel) (o : Order) (rest : OrderBook)
    → c.id ≡ o.id
    → cancel_in_book c ((c.price, level_of (o ∷ [])) ∷ rest) ≡ (true, (c.price, level_of []) ∷ rest)
unfolding cancel_in_book cancel_order find assign
cancel_empties c o rest e = ground (arith, text_beq_iff o.id c.id)

module _ {E : Type 0} (endpoint : E) where
  cancelled :
      (c : OrderCancel) (o : Order) (rest asks : OrderBook)
      → c.is_buy_side ≡ true
      → c.id ≡ o.id
      → order_cancel endpoint c (record { bids = (c.price, level_of (o ∷ [])) ∷ rest; asks = asks })
        ≡ (
          record { bids = (c.price, level_of []) ∷ rest; asks = asks },
          (endpoint, order_reply (record { id = c.id; client_id = c.client_id })) ∷ [],
        )
  unfolding order_cancel after_cancel with_book my_book
  cancelled c o rest asks buy same =
      let e : MatchingEngine = record { bids = (c.price, level_of (o ∷ [])) ∷ rest; asks = asks } in
      ap
        (λ (b : Bool).
          after_cancel endpoint c (cancel_in_book c (my_book b e)).0
            (with_book b (cancel_in_book c (my_book b e)).1 e))
        buy
      ∙ rw (cancel_empties c o rest same)

  acknowledged :
      (n : Order) (k : ℕ) (rest asks : OrderBook)
      → n.is_buy_side ≡ false
      → IsSorted ask asks
      → (order_insert endpoint n (record { bids = (k, level_of []) ∷ rest; asks = asks })).1
        ≡ (endpoint, order_reply (record { id = n.id; client_id = n.client_id })) ∷ []
  unfolding order_insert after_insert reply_and_match with_book my_book check_match execute_order
  acknowledged n k rest asks sell h =
      let e : MatchingEngine = record { bids = (k, level_of []) ∷ rest; asks = asks } in
      let inserted : MatchingEngine = with_book false (insert_order ask n asks).1 e in
      ap
        (λ (b : Bool).
          (after_insert endpoint n (insert_order (side_of b) n (my_book b e)).0
            (with_book b (insert_order (side_of b) n (my_book b e)).1 e)).1)
        sell
      ∙ (rw (insert_order_succeeds ask n asks h, after_insert))
      ∙ ap
          (λ (b : Bool).
            (reply_and_match endpoint b (record { id = n.id; client_id = n.client_id }) inserted).1)
          sell
      ∙ rw match_loop_empty

  -- After the only order of the best bid level is cancelled, the next sell order is acknowledged
  -- and trades with no bid, whatever the prices of the other bids.
  pub cancel_hides_bids :
      (c : OrderCancel) (o n : Order) (rest asks : OrderBook)
      → c.is_buy_side ≡ true
      → c.id ≡ o.id
      → n.is_buy_side ≡ false
      → IsSorted ask asks
      → let e =
          order_cancel endpoint c
            (record { bids = (c.price, level_of (o ∷ [])) ∷ rest; asks = asks }) in
        (e.1 ≡ (endpoint, order_reply (record { id = c.id; client_id = c.client_id })) ∷ [])
        × ((order_insert endpoint n e.0).1
            ≡ (endpoint, order_reply (record { id = n.id; client_id = n.client_id })) ∷ [])
  cancel_hides_bids c o n rest asks buy same sell h =
      rw (cancelled c o rest asks buy same) (refl, acknowledged n c.price rest asks sell h)
