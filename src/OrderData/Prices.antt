-- ===== src/OrderData/Prices.antt =====
-- What `SetData` makes of a price that is negative in the document.
use moboware.Base.{ℕ, ◌^◌, ◌<◌, ◌≤◌, Bool, some, codes, ◌≡◌, arith}
use moboware.OrderData.{Order, validate}
use moboware.OrderData.Wire.{Json, negsuc, to_uint64, set_data}

module _ (J : Json) (now n : ℕ) (document price : J.Value) (o : Order) (ok : Bool)
    (here : J.at document (codes "Price") ≡ some price)
    (negative : J.as_int64 price ≡ some (negsuc n)) where
  price_of :
      set_data J now document ≡ some (o, ok) → (o.price ≡ to_uint64 (negsuc n)) × (ok ≡ validate o)
  unfolding set_data
  price_of h = ground arith

  -- SetData reads a negative price as a price of at least 2 ^ 63 and validates it as it validates
  -- the price 1.
  negative_price_passes :
      n < 2 ^ 63
      → set_data J now document ≡ some (o, ok)
      → (2 ^ 63 ≤ o.price) × (ok ≡ validate (record o { price = 1 }))
  unfolding validate to_uint64
  negative_price_passes small h = ground (arith, price_of h)
