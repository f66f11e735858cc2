-- ===== src/OrderData.antt =====
-- src/lib/modules/include/modules/matching_engine_module/order_data.h and order_data.cpp: the
-- requests of a client, the replies of the engine, and what `Validate` asks of a request.
-- Prices and volumes are `uint64_t`; a time point is its count of clock ticks since the epoch.
pub mod Texts
pub mod Wire
pub mod Prices
pub mod Messages
pub mod Grammar
mod Tests
use moboware.Base.{ℕ, ◌^◌, Bool, true, not, ◌&&◌, ◌||◌, [], Text, ltb, is_empty}

abbrev pub uint64_mod : ℕ
uint64_mod = 2 ^ 64

-- `OrderDataBase`, and `OrderInsertData`, which adds nothing to it.
pub record Order : Type 0 where
  pub account : Text
  pub instrument : Text
  pub price : ℕ
  pub volume : ℕ
  pub type : Text
  pub is_buy_side : Bool
  pub order_time : ℕ
  pub order_duration : ℕ
  pub id : Text
  pub client_id : Text

-- The setters that the engine calls on an order in a book.
unfoldable pub set_price : ℕ → Order → Order
set_price p o = record o { price = p }

unfoldable pub set_volume : ℕ → Order → Order
set_volume v o = record o { volume = v }

-- A default-constructed order.
abbrev pub default_order : Order
default_order = record {
  account = [];
  instrument = [];
  price = 0;
  volume = 0;
  type = [];
  is_buy_side = true;
  order_time = 0;
  order_duration = 0;
  id = [];
  client_id = [];
}

-- `OrderAmendData` extends the order by the new price and volume.
pub record OrderAmend : Type 0 where
  pub base : Order
  pub open base use *
  pub new_price : ℕ
  pub new_volume : ℕ

pub record OrderCancel : Type 0 where
  pub instrument : Text
  pub price : ℕ
  pub is_buy_side : Bool
  pub id : Text
  pub client_id : Text

pub record OrderReply : Type 0 where
  pub id : Text
  pub client_id : Text

pub record Trade : Type 0 where
  pub account : Text
  pub traded_price : ℕ
  pub traded_volume : ℕ
  pub id : Text
  pub client_id : Text

pub record ErrorReply : Type 0 where
  pub client_id : Text
  pub error_message : Text

-- `OrderDataBase::Validate`.
unfoldable pub validate : Order → Bool
validate o =
    ltb 0 o.price
    && ltb 0 o.volume
    && ltb 0 o.order_time
    && not (is_empty o.id)
    && not (is_empty o.client_id)
    && not (is_empty o.account)
    && not (is_empty o.instrument)
    && (o.is_buy_side || not o.is_buy_side)

-- `OrderAmendData::Validate`.
unfoldable pub validate_amend : OrderAmend → Bool
unfolding validate
validate_amend a = validate a.base && ltb 0 a.new_price && ltb 0 a.new_volume

-- `OrderCancelData::Validate`.
unfoldable pub validate_cancel : OrderCancel → Bool
validate_cancel c =
    not (is_empty c.instrument)
    && ltb 0 c.price
    && not (is_empty c.id)
    && not (is_empty c.client_id)
    && (c.is_buy_side || not c.is_buy_side)
