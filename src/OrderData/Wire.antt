-- ===== src/OrderData/Wire.antt =====
-- `SetData` of order_data.h and order_data.cpp: a request read from its JSON document. boost::json is
-- a parameter; `none` is an exception that it throws, which nothing in the module catches.
use moboware.Base.{
  ℕ, zero, suc, ◌+◌, ◌-◌, ◌*◌, ◌/◌, ◌%◌, ◌<◌, ◌≡◌, Bool, Option, some, [], ◌∷◌, Text, codes, c_str,
  arith, nat_beq, if◌then◌else◌, ◌>>=◌, ◌∙◌, ap, Bool-cases, inl, inr, sym,
}
use moboware.OrderData.{
  Order, OrderAmend, OrderCancel, default_order, validate, validate_amend, validate_cancel,
  uint64_mod,
}

-- A value of `int64_t`: `negsuc n` is -(n + 1).
pub data ℤ : Type 0 where
  pos : ℕ → ℤ
  negsuc : ℕ → ℤ

-- What the code calls of boost::json, and of the parser.
pub record Json : Type 1 where
  pub Value : Type 0
  pub at : Value → Text → Option Value
  pub as_string : Value → Option Text
  pub as_int64 : Value → Option ℤ
  pub as_bool : Value → Option Bool
  pub write : Text → ℕ
  pub release : Text → Option Value

-- The conversion to `uint64_t` wraps round.
unfoldable pub to_uint64 : ℤ → ℕ
to_uint64 (pos n) = n % uint64_mod
to_uint64 (negsuc n) = uint64_mod - 1 - n % uint64_mod

-- `std::to_string` of a count of clock ticks.
unfoldable pub decimal : ℕ → ℕ → Text → Text
decimal zero n rest = rest
decimal (suc fuel) n rest =
    let digits = decimal fuel (n / 10) ((n % 10 + 48) ∷ rest) in
    if nat_beq (n / 10) 0 then (n % 10 + 48) ∷ rest else digits

unfoldable pub to_string : ℕ → Text
unfolding decimal
to_string n = decimal (suc n) n []

-- The number that a text of digits stands for.
value_from : ℕ → Text → ℕ
value_from n [] = n
value_from n (c ∷ cs) = value_from (n * 10 + (c - 48)) cs

value_from-decimal :
    (fuel n : ℕ) (rest : Text) → n < fuel → value_from 0 (decimal fuel n rest) ≡ value_from n rest
unfolding decimal value_from
value_from-decimal zero n rest h = absurd (omega arith)
value_from-decimal (suc fuel) n rest h = elim (Bool-cases (nat_beq (n / 10) 0)) [
  | inl t ↦
      let e : 0 + (n % 10 + 48 - 48) ≡ n = ground arith in
      rw t (ap (λ (k : ℕ). value_from k rest) e)
  | inr f ↦
      let less : n / 10 < fuel = ground arith in
      let e : n / 10 * 10 + (n % 10 + 48 - 48) ≡ n = omega arith in
      rw (f, value_from-decimal fuel (n / 10) ((n % 10 + 48) ∷ rest) less, e)
]

-- Two clock readings with one text are one reading.
pub to_string-injective : (m n : ℕ) → to_string m ≡ to_string n → m ≡ n
unfolding to_string value_from
to_string-injective m n e =
    sym (value_from-decimal (suc m) m [] (omega arith))
    ∙ ap (value_from 0) e
    ∙ value_from-decimal (suc n) n [] (omega arith)

module _ (J : Json) where
  open J use {Value, at, as_string, as_int64, as_bool}

  unfoldable pub text_at : Value → Text → Option Text
  text_at document field = do v ← at document field; s ← as_string v; some (c_str s)

  number_at : Value → Text → Option ℕ
  number_at document field = do v ← at document field; n ← as_int64 v; some (to_uint64 n)

  flag_at : Value → Text → Option Bool
  flag_at document field = do v ← at document field; as_bool v

  -- `OrderDataBase::SetData` at the clock reading `now`: the order, and whether it is valid.
  unfoldable pub set_data : ℕ → Value → Option (Order × Bool)
  unfolding text_at number_at flag_at
  set_data now document = do
    account ← text_at document (codes "Account")
    price ← number_at document (codes "Price")
    volume ← number_at document (codes "Volume")
    type ← text_at document (codes "Type")
    is_buy_side ← flag_at document (codes "IsBuy")
    client_id ← text_at document (codes "ClientId")
    instrument ← text_at document (codes "Instrument")
    let order = record default_order {
      account = account;
      instrument = instrument;
      price = price;
      volume = volume;
      type = type;
      is_buy_side = is_buy_side;
      order_time = now;
      id = to_string now;
      client_id = client_id;
    }
    some (order, validate order)

  -- `OrderAmendData::SetData`: the id is made from the clock, as for a new order.
  unfoldable pub set_amend_data : ℕ → Value → Option (OrderAmend × Bool)
  unfolding text_at number_at flag_at
  set_amend_data now document = do
    account ← text_at document (codes "Account")
    price ← number_at document (codes "Price")
    new_price ← number_at document (codes "NewPrice")
    volume ← number_at document (codes "Volume")
    new_volume ← number_at document (codes "NewVolume")
    type ← text_at document (codes "Type")
    is_buy_side ← flag_at document (codes "IsBuy")
    client_id ← text_at document (codes "ClientId")
    instrument ← text_at document (codes "Instrument")
    let order = record default_order {
      account = account;
      instrument = instrument;
      price = price;
      volume = volume;
      type = type;
      is_buy_side = is_buy_side;
      order_time = now;
      id = to_string now;
      client_id = client_id;
    }
    let amend : OrderAmend = record { base = order; new_price = new_price; new_volume = new_volume }
    some (amend, validate_amend amend)

  -- `OrderCancelData::SetData`: the id is the one in the document.
  unfoldable pub set_cancel_data : Value → Option (OrderCancel × Bool)
  unfolding text_at number_at flag_at
  set_cancel_data document = do
    instrument ← text_at document (codes "Instrument")
    price ← number_at document (codes "Price")
    is_buy_side ← flag_at document (codes "IsBuy")
    id ← text_at document (codes "Id")
    client_id ← text_at document (codes "ClientId")
    let cancel : OrderCancel = record {
      instrument = instrument;
      price = price;
      is_buy_side = is_buy_side;
      id = id;
      client_id = client_id;
    }
    some (cancel, validate_cancel cancel)

  -- The id of an amend is made from the clock.
  pub amend_id :
      (now : ℕ) (document : Value) (a : OrderAmend) (ok : Bool)
      → set_amend_data now document ≡ some (a, ok)
      → a.id ≡ to_string now
  unfolding set_amend_data
  amend_id now document a ok e = ground arith
