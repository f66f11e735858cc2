-- ===== src/OrderBook/Invariant.antt =====
-- The invariant of one side of the book: the levels stand in the comparator's order, and each order
-- stands at the level of its price, on its own side.
use moboware.Base.{
  ℕ, ◌≡◌, Bool, true, false, some, [], ◌∷◌, arith, nat_beq, is_empty, All, Bool-cases, inl, inr,
  subst,
}
use moboware.OrderData.{Order}
use moboware.PriceMap.{Side, bid, ask, find, assign, emplace, erase, IsSorted}
use moboware.OrderLevel.{OrderLevel}
use moboware.OrderBook.{OrderBook}

abbrev pub is_bid : Side → Bool
is_bid bid = true
is_bid ask = false

-- The order belongs at the level of price `k` on this side.
abbrev pub BelongsAt : Side → ℕ → Order → Type 0
BelongsAt s k o = (o.price ≡ k) × (o.is_buy_side ≡ is_bid s)

abbrev pub Placed : Side → OrderBook → Type 0
Placed s [] = Unit
Placed s ((k, level) ∷ b) = All (BelongsAt s k) level.time_queue × Placed s b

pub record IsWellFormed (s : Side) (b : OrderBook) : Type 0 where
  pub sorted : IsSorted s b
  pub placed : Placed s b

-- No level is empty.
abbrev pub IsFull : OrderBook → Type 0
IsFull [] = Unit
IsFull ((k, level) ∷ b) = (is_empty level.time_queue ≡ false) × IsFull b

pub find-Placed :
    (s : Side) (k : ℕ) (level : OrderLevel) (b : OrderBook)
    → find k b ≡ some level
    → Placed s b
    → All (BelongsAt s k) level.time_queue
unfolding find
find-Placed s k level [] e p = cc
find-Placed s k level ((j, l) ∷ b) e p = elim (Bool-cases (nat_beq j k)) [
  | inl t ↦
      let q : l ≡ level = ground arith in
      let r : j ≡ k = ground arith in
      subst (λ (x : OrderLevel). All (BelongsAt s k) x.time_queue) q
        (subst (λ (i : ℕ). All (BelongsAt s i) l.time_queue) r p.0)
  | inr f ↦ find-Placed s k level b (rw f at e) p.1
]

pub assign-Placed :
    (s : Side) (k : ℕ) (level : OrderLevel) (b : OrderBook)
    → All (BelongsAt s k) level.time_queue
    → Placed s b
    → Placed s (assign k level b)
unfolding assign
assign-Placed s k level [] h p = tt
assign-Placed s k level ((j, l) ∷ b) h p = elim (Bool-cases (nat_beq j k)) [
  | inl t ↦
      let r : k ≡ j = ground arith in
      rw t (subst (λ (i : ℕ). All (BelongsAt s i) level.time_queue) r h, p.1)
  | inr f ↦ rw f (p.0, assign-Placed s k level b h p.1)
]

pub erase-Placed : (s : Side) (k : ℕ) (b : OrderBook) → Placed s b → Placed s (erase k b)
unfolding erase
erase-Placed s k [] p = tt
erase-Placed s k ((j, l) ∷ b) p = elim (Bool-cases (nat_beq j k)) [
  | inl t ↦ rw t p.1
  | inr f ↦ rw f (p.0, erase-Placed s k b p.1)
]

pub emplace-Placed :
    (s t : Side) (k : ℕ) (level : OrderLevel) (b : OrderBook)
    → All (BelongsAt s k) level.time_queue
    → Placed s b
    → Placed s (emplace t k level b).1
unfolding emplace
emplace-Placed s t k level [] h p = (h, tt)
emplace-Placed s t k level ((j, l) ∷ b) h p = ground (arith, emplace-Placed s t k level b h p.1)
