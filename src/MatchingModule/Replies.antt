-- ===== src/MatchingModule/Replies.antt =====
-- The messages that answer a message of a client, and the endpoint that they go to.
use moboware.Base.{
  ℕ, Bool, true, false, Option, none, some, List, [], ◌∷◌, Text, codes, text_beq, map, ◌≡◌, refl,
  ◌⊎◌, inl, inr, if◌then◌else◌, if_either, nat_beq, Option-cases, subst, >>=-eq_some, c_str,
}
use moboware.OrderData.{Order, OrderAmend, OrderCancel, OrderReply, Trade}
use moboware.OrderData.Wire.{Json, set_data, set_cancel_data, set_amend_data}
use moboware.OrderBook.{insert_order, amend_order, cancel_in_book}
use moboware.MatchingEngine.{
  MatchingEngine, Message, order_reply, error_reply, trade, check_match, reply_and_match,
  reply_error, after_insert, after_amend, after_cancel, my_book, with_book, side_of, order_insert,
  order_amend, order_cancel,
}
use moboware.MatchingModule.{
  Engines, find_engine, with_engine, process_insert, process_cancel, process_amend,
  process_get_book, dispatch, process, handle_order_insert, handle_order_amend, handle_order_cancel,
  handle_get_book,
}

-- A message that answers a request.
abbrev pub IsReply : Message → Type 0
IsReply (order_reply r) = Unit
IsReply (error_reply r) = Unit
IsReply (trade t) = ⊥

module _ {E : Type 0} (endpoint : E) where
  -- Nothing; or one reply and then trades, all to the endpoint.
  abbrev pub Answers : List (E × Message) → Type 0
  Answers sent =
      (sent ≡ [])
      ⊎ ((reply : Message) × (ts : List Trade) × IsReply reply
          × (sent ≡ (endpoint, reply) ∷ map (λ t. (endpoint, trade t)) ts))

  reply_and_match-Answers :
      (is_buy : Bool) (r : OrderReply) (e : MatchingEngine)
      → Answers (reply_and_match endpoint is_buy r e).1
  unfolding reply_and_match
  reply_and_match-Answers is_buy r e = inr (order_reply r, (check_match is_buy e).0, tt, refl)

  reply_error-Answers :
      (client_id message : Text) (e : MatchingEngine)
      → Answers (reply_error endpoint client_id message e).1
  unfolding reply_error
  reply_error-Answers client_id message e =
      inr (error_reply (record { client_id = client_id; error_message = message }), [], tt, refl)

  after_insert-Answers :
      (o : Order) (inserted : Option Order) (e : MatchingEngine)
      → Answers (after_insert endpoint o inserted e).1
  unfolding after_insert
  after_insert-Answers o (some i) e =
      reply_and_match-Answers o.is_buy_side (record { id = i.id; client_id = i.client_id }) e
  after_insert-Answers o none e = reply_error-Answers o.client_id _ e

  after_amend-Answers :
      (a : OrderAmend) (amended : Bool) (e : MatchingEngine)
      → Answers (after_amend endpoint a amended e).1
  unfolding after_amend
  after_amend-Answers a true e =
      reply_and_match-Answers a.is_buy_side (record { id = a.id; client_id = a.client_id }) e
  after_amend-Answers a false e = reply_error-Answers a.client_id _ e

  after_cancel-Answers :
      (c : OrderCancel) (cancelled : Bool) (e : MatchingEngine)
      → Answers (after_cancel endpoint c cancelled e).1
  unfolding after_cancel
  after_cancel-Answers c true e =
      inr (order_reply (record { id = c.id; client_id = c.client_id }), [], tt, refl)
  after_cancel-Answers c false e = reply_error-Answers c.client_id _ e

  with_engine-Answers :
      (i : Text) (call : MatchingEngine → MatchingEngine × List (E × Message)) (m : Engines)
      → ((e : MatchingEngine) → Answers (call e).1)
      → Answers (with_engine i call m).1
  unfolding with_engine
  with_engine-Answers i call m answers = elim (Option-cases (find_engine i m)) [
    | inl unknown ↦ rw (unknown, with_engine) (inl refl)
    | inr (e, known) ↦ rw (known, with_engine) (answers e)
  ]

  handle_order_insert-Answers :
      (o : Order) (m : Engines) → Answers (handle_order_insert endpoint o m).1
  unfolding handle_order_insert order_insert
  handle_order_insert-Answers o m =
      with_engine-Answers o.instrument (order_insert endpoint o) m λ e.
        let (inserted, b) = insert_order (side_of o.is_buy_side) o (my_book o.is_buy_side e) in
        after_insert-Answers o inserted (with_book o.is_buy_side b e)

  handle_order_amend-Answers :
      (a : OrderAmend) (m : Engines) → Answers (handle_order_amend endpoint a m).1
  unfolding handle_order_amend order_amend
  handle_order_amend-Answers a m = with_engine-Answers a.instrument (order_amend endpoint a) m λ e.
      let (amended, b) = amend_order (side_of a.is_buy_side) a (my_book a.is_buy_side e) in
      after_amend-Answers a amended (with_book a.is_buy_side b e)

  handle_order_cancel-Answers :
      (c : OrderCancel) (m : Engines) → Answers (handle_order_cancel endpoint c m).1
  unfolding handle_order_cancel order_cancel
  handle_order_cancel-Answers c m =
      with_engine-Answers c.instrument (order_cancel endpoint c) m λ e.
        let (cancelled, b) = cancel_in_book c (my_book c.is_buy_side e) in
        after_cancel-Answers c cancelled (with_book c.is_buy_side b e)

  module _ (J : Json) (now : ℕ) (m m' : Engines) (sent : List (E × Message)) where
    -- Whatever ends so sends such messages.
    abbrev AnswersOf : Option (Engines × List (E × Message)) → Type 0
    AnswersOf r = r ≡ some (m', sent) → Answers sent

    of_some : (r : Engines × List (E × Message)) → Answers r.1 → AnswersOf (some r)
    of_some r a e = let s : r.1 ≡ sent = cc in subst (Answers) s a

    of_valid :
        (ok : Bool) (r : Engines × List (E × Message))
        → Answers r.1
        → AnswersOf (some (if ok then r else (m, [])))
    of_valid true r a = of_some r a
    of_valid false r a = of_some (m, []) (inl refl)

    dispatch-Answers :
        (action : Text) (document : J.Value) → AnswersOf (dispatch endpoint J now action document m)
    unfolding dispatch process_insert process_cancel process_amend process_get_book handle_get_book
    dispatch-Answers action document =
        if_either AnswersOf (text_beq action (codes "Insert"))
          (λ h.
            let (r, e, g) = >>=-eq_some (set_data J now document) _ h in
            of_valid r.1 (handle_order_insert endpoint r.0 m) (handle_order_insert-Answers r.0 m) g)
          (if_either AnswersOf (text_beq action (codes "Cancel"))
            (λ h.
              let (r, e, g) = >>=-eq_some (set_cancel_data J document) _ h in
              of_valid r.1 (handle_order_cancel endpoint r.0 m) (handle_order_cancel-Answers r.0 m)
                g)
            (if_either AnswersOf (text_beq action (codes "Amend"))
              (λ h.
                let (r, e, g) = >>=-eq_some (set_amend_data J now document) _ h in
                of_valid r.1 (handle_order_amend endpoint r.0 m) (handle_order_amend-Answers r.0 m)
                  g)
              (if_either AnswersOf (text_beq action (codes "GetBook"))
                (λ h.
                  let (v, e, g) = >>=-eq_some (J.at document (codes "Instrument")) _ h in
                  let (s, e', g') = >>=-eq_some (J.as_string v) _ g in
                  of_some (handle_get_book endpoint (c_str s) m)
                    (with_engine-Answers (c_str s) (λ e. (e, [])) m (λ e. inl refl)) g')
                (of_some (m, []) (inl refl)))))

    -- A message that Process handles without an exception is answered by nothing, or by one reply and
    -- then trades; and all of them go to the endpoint that the message came from, also the trades of
    -- the orders that others have in the book.
    pub process-Answers :
        (bytes : Text) → process endpoint J now bytes m ≡ some (m', sent) → Answers sent
    unfolding process
    process-Answers bytes =
        if_either AnswersOf (nat_beq (J.write bytes) 0) (of_some (m, []) (inl refl)) λ h.
          let (root, e, g) = >>=-eq_some (J.release bytes) _ h in
          let (action, e', g') = >>=-eq_some (J.at root (codes "Action")) _ g in
          let (document, e'', g'') = >>=-eq_some (J.at root (codes "Data")) _ g' in
          let (name, e3, g3) = >>=-eq_some (J.as_string action) _ g'' in
          dispatch-Answers name document g3
