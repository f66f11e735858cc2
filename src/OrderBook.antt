-- ===== src/OrderBook.antt =====
-- src/lib/modules/matching_engine_module/order_book.cpp: one side of the book, a sorted map from
-- prices to levels. A level that a method changes through its iterator is written back at its key.
pub mod Invariant
pub mod Priority
pub mod Edit
pub mod Amend
pub mod AmendPrice
pub mod Withdraw
pub mod Unknown
pub mod Tests
pub mod Full
pub mod Preserve
use moboware.Base.{
  ℕ, Bool, true, false, Option, none, some, List, [], ◌∷◌, ◌++◌, Text, ◌==◌, nat_keys,
  if◌then◌else◌,
}
use moboware.OrderData.{Order, OrderAmend, OrderCancel, set_price, set_volume}
use moboware.PriceMap.{Side, find, assign, emplace, erase}
use moboware.OrderLevel.{
  OrderLevel, insert, new_level, level_is_empty, get_last_order, cancel_order, change_order_volume,
  move_order,
}

-- `m_OrderBookMap`; the comparator is an argument of the methods that add a price.
abbrev pub OrderBook : Type 0
OrderBook = List (ℕ × OrderLevel)

-- `GetLastOrder` through the iterator that `emplace` returned.
abbrev last_of : Option OrderLevel → Option Order
unfolding get_last_order
last_of none = none
last_of (some level) = get_last_order level

-- `OrderBook::Insert`: the result points at the order in the book.
unfoldable pub insert_order : Side → Order → OrderBook → Option Order × OrderBook
unfolding insert new_level last_of
insert_order s o b = elim (find o.price b) [
  | some level ↦ let (inserted, level') = insert o level in (inserted, assign o.price level' b)
  | none ↦
      let (added, b') = emplace s o.price (new_level o) b in
      (if added then last_of (find o.price b') else none, b')
]

unfoldable pub remove_level_at_price : ℕ → OrderBook → OrderBook
remove_level_at_price price b = elim (find price b) [ some level ↦ erase price b | none ↦ b ]

-- `moveOrderFn` of `Amend`: a level with the order at its new price and volume is emplaced. Where
-- the price has a level, `emplace` adds nothing, and the callback ignores that.
unfoldable pub move_to_new_price : Side → OrderAmend → Order → OrderBook → OrderBook
unfolding new_level set_price set_volume
move_to_new_price s a o b =
    (emplace s a.new_price (new_level (set_volume a.new_volume (set_price a.new_price o))) b).1

-- The three branches of `Amend` on the level found at the order's price.
amend_to_zero : OrderAmend → OrderLevel → OrderBook → Bool × OrderBook
unfolding cancel_order level_is_empty remove_level_at_price
amend_to_zero a level b =
    let (found, level') = cancel_order a.id level in
    let b' = assign a.price level' b in
    if found
    then (true, if level_is_empty level' then remove_level_at_price a.price b' else b')
    else (false, b)

amend_volume : OrderAmend → OrderLevel → OrderBook → Bool × OrderBook
unfolding change_order_volume
amend_volume a level b =
    let (found, level') = change_order_volume a.id a.new_volume level in
    if found then (true, assign a.price level' b) else (false, b)

amend_price : Side → OrderAmend → OrderLevel → OrderBook → Bool × OrderBook
unfolding move_order move_to_new_price level_is_empty
amend_price s a level b =
    let (found, level', moved) = move_order a.id (move_to_new_price s a) level b in
    let b' = assign a.price level' moved in
    if found then (true, if level_is_empty level' then erase a.price b' else b') else (false, b)

-- `OrderBook::Amend`.
unfoldable pub amend_order : Side → OrderAmend → OrderBook → Bool × OrderBook
unfolding amend_to_zero amend_volume amend_price
amend_order s a b = elim (find a.price b) [
  | none ↦ (false, b)
  | some level ↦
      if a.new_volume == 0
      then amend_to_zero a level b
      else if a.price == a.new_price
      then amend_volume a level b
      else amend_price s a level b
]

-- `OrderBook::Cancel`: a level that becomes empty stays in the map.
unfoldable pub cancel_in_book : OrderCancel → OrderBook → Bool × OrderBook
unfolding cancel_order
cancel_in_book c b = elim (find c.price b) [
  | some level ↦
      let (found, level') = cancel_order c.id level in
      if found then (true, assign c.price level' b) else (false, b)
  | none ↦ (false, b)
]

-- `OrderBook::GetBook`: the callback sees the levels in turn, until it returns false.
unfoldable pub get_book {ℓ} : {S : Type ℓ} → (OrderLevel → S → Bool × S) → OrderBook → S → S
get_book f [] s = s
get_book f ((k, level) ∷ b) s =
    let (more, s') = f level s in let rest = get_book f b s' in if more then rest else s'

-- `GetLevelAtPrice`: an `optional` of a pointer; `return nullptr` makes one that holds a null pointer.
unfoldable pub get_level_at_price : ℕ → OrderBook → Option (Option OrderLevel)
get_level_at_price price b = elim (find price b) [
  | some level ↦ some (some level)
  | none ↦ some none
]

-- The orders of a book, best price first and oldest first in a level.
unfoldable pub orders : OrderBook → List Order
orders [] = []
orders ((k, level) ∷ b) = level.time_queue ++ orders b
