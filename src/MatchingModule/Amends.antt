-- ===== src/MatchingModule/Amends.antt =====
-- An amend that comes as a message: `OrderAmendData::SetData` gives the request an id made from the
-- clock, and orders have ids made from earlier readings of it.
use moboware.Base.{ℕ, ◌<◌, Bool, some, List, [], ◌∷◌, Text, ◌≡◌, ◌≢◌, arith, All, sym, ◌∙◌}
use moboware.OrderData.{Order, OrderAmend}
use moboware.OrderData.Wire.{Json, set_amend_data, amend_id, to_string, to_string-injective}
use moboware.OrderBook.{OrderBook, orders}
use moboware.OrderBook.Unknown.{amend_order_unknown}
use moboware.MatchingEngine.BestPrices.{with_book_self}
use moboware.MatchingEngine.{
  MatchingEngine, error_reply, amend_failed, order_amend, after_amend, reply_error, my_book,
  side_of,
}

-- Every order has an id that `SetData` made at a clock reading before `now`.
abbrev pub IsStamped : ℕ → OrderBook → Type 0
IsStamped now b = All (λ (o : Order). (t : ℕ) × (t < now) × (o.id ≡ to_string t)) (orders b)

other_ids :
    (now : ℕ) (id : Text) (os : List Order)
    → id ≡ to_string now
    → All (λ (o : Order). (t : ℕ) × (t < now) × (o.id ≡ to_string t)) os
    → All (λ (o : Order). id ≢ o.id) os
other_ids now id [] e h = tt
other_ids now id (o ∷ os) e h =
    let (t, early, made) = h.0 in
    (
      λ same.
          let clash : now ≡ t = to_string-injective now t (sym e ∙ same ∙ made) in
          absurd (omega arith),
      other_ids now id os e h.1,
    )

module _ {E : Type 0} (endpoint : E) (J : Json) where
  -- An amend read by SetData at a clock reading later than those that made the ids of the orders
  -- on its side is answered with an error and changes nothing.
  pub order_amend_from_message :
      (now : ℕ) (document : J.Value) (a : OrderAmend) (ok : Bool) (e : MatchingEngine)
      → set_amend_data J now document ≡ some (a, ok)
      → IsStamped now (my_book a.is_buy_side e)
      → order_amend endpoint a e ≡ (
        e,
        (endpoint, error_reply (record { client_id = a.client_id; error_message = amend_failed }))
            ∷ [],
      )
  unfolding order_amend after_amend reply_error
  order_amend_from_message now document a ok e h stamped = rw (
    amend_order_unknown (side_of a.is_buy_side) a (my_book a.is_buy_side e)
        (other_ids now a.id _ (amend_id J now document a ok h) stamped),
    with_book_self,
  )
