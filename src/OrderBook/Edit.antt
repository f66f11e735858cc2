-- ===== src/OrderBook/Edit.antt =====
-- A change to the oldest order of a price and an id, on the list of orders and on the book.
use moboware.Base.{
  ℕ, ◌≡◌, refl, Bool, true, false, none, some, List, [], ◌∷◌, ◌++◌, Text, arith, nat_beq, text_beq,
  ◌&&◌, All, if◌then◌else◌, Bool-cases, inl, inr, subst, append_assoc,
}
use moboware.OrderData.{Order}
use moboware.PriceMap.{Side, find, assign, Behind, IsSorted}
use moboware.PriceMap.Laws.{Behind-parts, Before-ne}
use moboware.OrderLevel.{OrderLevel}
use moboware.OrderBook.{OrderBook, orders}
use moboware.OrderBook.Invariant.{BelongsAt, Placed}

-- `xs` in front of what is left.
abbrev pub in_front : List Order → Bool × List Order → Bool × List Order
in_front xs r = (r.0, xs ++ r.1)

-- What a request to the book answers, and the orders that it leaves.
abbrev pub seen : Bool × OrderBook → Bool × List Order
seen r = (r.0, orders r.1)

in_front-if :
    (xs : List Order) (c : Bool) (ys zs : List Order)
    → in_front xs (if c then (true, ys) else (false, zs))
      ≡ (if c then (true, xs ++ ys) else (false, xs ++ zs))
in_front-if xs true ys zs = refl
in_front-if xs false ys zs = refl

-- `keep` says what stays in the place of the order.
module _ (keep : Order → List Order) where
  -- In the queue of one level: the first order of the id.
  unfoldable pub edit_queue : Text → List Order → Bool × List Order
  edit_queue id [] = (false, [])
  edit_queue id (o ∷ os) =
      let rest = edit_queue id os in
      if text_beq o.id id then (true, keep o ++ os) else in_front (o ∷ []) rest

  -- In the whole book: the first order of the price and the id.
  unfoldable pub edit_first : ℕ → Text → List Order → Bool × List Order
  edit_first price id [] = (false, [])
  edit_first price id (o ∷ os) =
      let rest = edit_first price id os in
      if nat_beq o.price price && text_beq o.id id
      then (true, keep o ++ os)
      else in_front (o ∷ []) rest

  module _ (k : ℕ) (id : Text) (s : Side) where
    -- Orders of another price are passed over.
    edit_first-append_other :
        (j : ℕ) (xs ys : List Order)
        → nat_beq j k ≡ false
        → All (BelongsAt s j) xs
        → edit_first k id (xs ++ ys) ≡ in_front xs (edit_first k id ys)
    unfolding edit_first
    edit_first-append_other j [] ys n h = refl
    edit_first-append_other j (x ∷ xs) ys n h = rw (h.0.0, n, edit_first-append_other j xs ys n h.1)

    -- Among orders of the price the queue of the level decides.
    edit_first-append :
        (xs ys : List Order)
        → All (BelongsAt s k) xs
        → edit_first k id (xs ++ ys) ≡ (
            if (edit_queue id xs).0
            then (true, (edit_queue id xs).1 ++ ys)
            else in_front xs (edit_first k id ys))
    unfolding edit_first edit_queue
    edit_first-append [] ys h = refl
    edit_first-append (x ∷ xs) ys h =
        ground (arith, h.0.0, edit_first-append xs ys h.1, append_assoc (keep x) xs ys)

    pub edit_first-Behind :
        (b : OrderBook) → Behind s k b → Placed s b → edit_first k id (orders b) ≡ (false, orders b)
    unfolding edit_first orders
    edit_first-Behind [] h p = refl
    edit_first-Behind ((j, l) ∷ b) h p =
        let h' = Behind-parts s k j l b h in
        rw (
          edit_first-append_other j l.time_queue (orders b) (Before-ne s k j h'.0) p.0,
          edit_first-Behind b h'.1 p.1,
        )

    -- With no level at the price there is no such order.
    pub edit_first-absent :
        (b : OrderBook)
        → find k b ≡ none
        → Placed s b
        → edit_first k id (orders b) ≡ (false, orders b)
    unfolding edit_first orders find
    edit_first-absent [] e p = refl
    edit_first-absent ((j, l) ∷ b) e p = elim (Bool-cases (nat_beq j k)) [
      | inl t ↦ absurd (cc (rw t at e))
      | inr f ↦ rw (
        edit_first-append_other j l.time_queue (orders b) f p.0,
        edit_first-absent b (rw f at e) p.1,
      )
    ]

    -- Where there is one, its queue decides, and is written back.
    pub edit_first-assign :
        (level : OrderLevel) (b : OrderBook)
        → find k b ≡ some level
        → IsSorted s b
        → Placed s b
        → edit_first k id (orders b) ≡ (
            if (edit_queue id level.time_queue).0
            then (
              true,
              orders (assign k (record { time_queue = (edit_queue id level.time_queue).1 }) b),
            )
            else (false, orders b))
    unfolding orders find assign
    edit_first-assign level [] e h p = absurd (cc)
    edit_first-assign level ((j, l) ∷ b) e h p = elim (Bool-cases (nat_beq j k)) [
      | inl t ↦
          let q : level ≡ l = ground arith in
          let r : j ≡ k = ground arith in
          let here = subst (λ (i : ℕ). All (BelongsAt s i) l.time_queue) r p.0 in
          rw (
            t,
            q,
            edit_first-append l.time_queue (orders b) here,
            edit_first-Behind b (rw r at h.0) p.1,
          )
      | inr f ↦
          let e' = rw f at e in
          rw
            (
              f,
              edit_first-append_other j l.time_queue (orders b) f p.0,
              edit_first-assign level b e' h.1 p.1,
            )
            (in_front-if l.time_queue (edit_queue id level.time_queue).0 _ _)
    ]
