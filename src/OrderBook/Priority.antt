-- ===== src/OrderBook/Priority.antt =====
-- A book seen as the list of its orders, best price first and oldest first within a price.
use moboware.Base.{
  ℕ, ◌≡◌, refl, true, false, none, some, List, [], ◌∷◌, ◌++◌, arith, nat_beq, All, if◌then◌else◌,
  Bool-cases, Option-cases, inl, inr, append_assoc, sym,
}
use moboware.OrderData.{Order}
use moboware.PriceMap.{Side, compare_price, find, assign, emplace, Behind, IsSorted}
use moboware.PriceMap.Laws.{
  emplace_absent, find-emplace, Behind-trans, Behind-parts, compare_price-Before,
  compare_price_behind, compare_price_self, Before-of_compare, Before-of_find,
}
use moboware.OrderLevel.{OrderLevel, insert, new_level}
use moboware.OrderBook.{OrderBook, insert_order, orders}
use moboware.OrderBook.Invariant.{BelongsAt, Placed, IsWellFormed}

-- A new order goes behind all orders at its price or a better one, and before the worse ones.
unfoldable pub enter : Side → Order → List Order → List Order
enter s o [] = o ∷ []
enter s o (p ∷ ps) = if compare_price s o.price p.price then o ∷ p ∷ ps else p ∷ enter s o ps

module _ (s : Side) (o : Order) where
  pub enter-append :
      (j : ℕ) (xs ys : List Order)
      → compare_price s o.price j ≡ false
      → All (BelongsAt s j) xs
      → enter s o (xs ++ ys) ≡ xs ++ enter s o ys
  unfolding enter
  enter-append j [] ys c h = refl
  enter-append j (x ∷ xs) ys c h = rw (h.0.0, c, enter-append j xs ys c h.1)

  enter_before :
      (j : ℕ) (xs ys : List Order)
      → compare_price s o.price j ≡ true
      → All (BelongsAt s j) xs
      → enter s o ys ≡ o ∷ ys
      → enter s o (xs ++ ys) ≡ o ∷ (xs ++ ys)
  unfolding enter
  enter_before j [] ys c h e = e
  enter_before j (x ∷ xs) ys c h e = rw (h.0.0, c)

  enter-Behind :
      (b : OrderBook) → Behind s o.price b → Placed s b → enter s o (orders b) ≡ o ∷ orders b
  unfolding orders enter
  enter-Behind [] h p = refl
  enter-Behind ((j, l) ∷ b) h p =
      let h' = Behind-parts s o.price j l b h in
      enter_before j l.time_queue (orders b) (compare_price-Before s o.price j h'.0) p.0
        (enter-Behind b h'.1 p.1)

  -- The level of the order's price is there: the order goes to the end of its queue.
  enter-assign :
      (level : OrderLevel) (b : OrderBook)
      → find o.price b ≡ some level
      → IsSorted s b
      → Placed s b
      → orders (assign o.price (insert o level).1 b) ≡ enter s o (orders b)
  unfolding orders find assign insert
  enter-assign level [] e h p = cc
  enter-assign level ((j, l) ∷ b) e h p = elim (Bool-cases (nat_beq j o.price)) [
    | inl t ↦
        let q : level ≡ l = ground arith in
        let r : o.price ≡ j = ground arith in
        rw (
          t,
          q,
          enter-append j l.time_queue (orders b) (rw r (compare_price_self s j)) p.0,
          append_assoc,
          enter-Behind b (rw r h.0) p.1,
        )
    | inr f ↦
        let e' = rw f at e in
        rw (
          f,
          enter-append j l.time_queue (orders b)
              (compare_price_behind s j o.price (Before-of_find s j o.price level b h.0 e')) p.0,
          enter-assign level b e' h.1 p.1,
        )
  ]

  -- It is not: a level with the order alone goes in front of the first worse price.
  pub enter-emplace :
      (b : OrderBook)
      → find o.price b ≡ none
      → IsSorted s b
      → Placed s b
      → orders (emplace s o.price (new_level o) b).1 ≡ enter s o (orders b)
  unfolding orders find emplace new_level enter
  enter-emplace [] e h p = refl
  enter-emplace ((j, l) ∷ b) e h p = elim (Bool-cases (nat_beq j o.price)) [
    | inl t ↦ absurd (cc (rw t at e))
    | inr f ↦ elim (Bool-cases (compare_price s o.price j)) [
      | inl t ↦
          rw (f, t)
            (sym (
              enter_before j l.time_queue (orders b) t p.0 (
                enter-Behind b (Behind-trans s o.price j b (Before-of_compare s o.price j t) h.0)
                  p.1)))
      | inr t ↦
          rw (
            f,
            t,
            enter-append j l.time_queue (orders b) t p.0,
            enter-emplace b (rw f at e) h.1 p.1,
          )
    ]
  ]

-- OrderBook::Insert enters the order behind all orders at its price or a better one and before
-- the worse ones, and changes nothing else.
pub insert_order-enter :
    (s : Side) (o : Order) (b : OrderBook)
    → IsWellFormed s b
    → orders (insert_order s o b).1 ≡ enter s o (orders b)
unfolding insert_order
insert_order-enter s o b w = elim (Option-cases (find o.price b)) [
  | inl e ↦ rw (e, insert_order) (enter-emplace s o b e w.sorted w.placed)
  | inr (level, e) ↦ rw (e, insert_order) (enter-assign s o level b e w.sorted w.placed)
]

-- OrderBook::Insert on a sorted book never fails, and its result points at the order handed to
-- it.
pub insert_order_succeeds :
    (s : Side) (o : Order) (b : OrderBook) → IsSorted s b → (insert_order s o b).0 ≡ some o
unfolding insert_order
insert_order_succeeds s o b h = elim (Option-cases (find o.price b)) [
  | inl e ↦
      let present : find o.price (emplace s o.price (new_level o) b).1 ≡ some (new_level o) =
        ground (arith, find-emplace s o.price o.price (new_level o) b h e) in
      rw (e, insert_order, emplace_absent s o.price (new_level o) b e, present)
  | inr (level, e) ↦ rw (e, insert_order)
]
