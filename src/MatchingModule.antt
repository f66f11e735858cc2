-- ===== src/MatchingModule.antt =====
-- src/lib/modules/matching_engine_module/matching_engine_module.cpp and order_event_processor.cpp:
-- the engines by instrument, and how a message from a web socket reaches one of them.
pub mod Routing
pub mod Amends
pub mod Replies
mod Tests
use moboware.Base.{
  ℕ, Bool, true, false, Option, none, some, List, [], ◌∷◌, Text, codes, c_str, text_beq, nat_beq,
  if◌then◌else◌, ◌>>=◌,
}
use moboware.OrderData.{Order, OrderAmend, OrderCancel}
use moboware.OrderData.Wire.{Json, set_data, set_amend_data, set_cancel_data}
use moboware.MatchingEngine.{MatchingEngine, Message, order_insert, order_amend, order_cancel}

-- `m_MatchingEngines`; each instrument has an engine of its own.
abbrev pub Engines : Type 0
Engines = List (Text × MatchingEngine)

unfoldable pub find_engine : Text → Engines → Option MatchingEngine
find_engine instrument [] = none
find_engine instrument ((i, e) ∷ m) =
    if text_beq i instrument then some e else find_engine instrument m

-- `m_MatchingEngines[instrument] = engine`, also the state after a call through `iter->second`.
unfoldable pub put_engine : Text → MatchingEngine → Engines → Engines
put_engine instrument engine [] = (instrument, engine) ∷ []
put_engine instrument engine ((i, e) ∷ m) =
    if text_beq i instrument then (i, engine) ∷ m else (i, e) ∷ put_engine instrument engine m

abbrev pub new_engine : MatchingEngine
new_engine = record { bids = []; asks = [] }

-- `LoadConfig` over the names of the instruments: each gets a new engine.
unfoldable pub load_config : List Text → Engines → Engines
load_config [] m = m
load_config (instrument ∷ rest) m = load_config rest (put_engine (c_str instrument) new_engine m)

-- A handler finds the engine of the instrument, and calls it; without one it returns.
unfoldable pub with_engine :
    {E : Type 0}
    → Text
    → (MatchingEngine → MatchingEngine × List (E × Message))
    → Engines
    → Engines × List (E × Message)
with_engine instrument call m = elim (find_engine instrument m) [
  | none ↦ (m, [])
  | some e ↦ let (e', sent) = call e in (put_engine instrument e' m, sent)
]

module _ {E : Type 0} (endpoint : E) where
  unfoldable pub handle_order_insert : Order → Engines → Engines × List (E × Message)
  unfolding with_engine
  handle_order_insert o = with_engine o.instrument (order_insert endpoint o)

  unfoldable pub handle_order_amend : OrderAmend → Engines → Engines × List (E × Message)
  unfolding with_engine
  handle_order_amend a = with_engine a.instrument (order_amend endpoint a)

  unfoldable pub handle_order_cancel : OrderCancel → Engines → Engines × List (E × Message)
  unfolding with_engine
  handle_order_cancel c = with_engine c.instrument (order_cancel endpoint c)

  -- `GetOrderBook` walks the book with a callback that does nothing.
  unfoldable pub handle_get_book : Text → Engines → Engines × List (E × Message)
  unfolding with_engine
  handle_get_book instrument = with_engine instrument (λ e. (e, []))

  module _ (J : Json) (now : ℕ) where
    open J use {Value, at, as_string, write, release}

    -- A request that is not valid is logged and dropped.
    unfoldable pub process_insert : Value → Engines → Option (Engines × List (E × Message))
    unfolding handle_order_insert
    process_insert document m = do
      (order, ok) ← set_data J now document
      some (if ok then handle_order_insert order m else (m, []))

    unfoldable pub process_cancel : Value → Engines → Option (Engines × List (E × Message))
    unfolding handle_order_cancel
    process_cancel document m = do
      (cancel, ok) ← set_cancel_data J document
      some (if ok then handle_order_cancel cancel m else (m, []))

    unfoldable pub process_amend : Value → Engines → Option (Engines × List (E × Message))
    unfolding handle_order_amend
    process_amend document m = do
      (amend, ok) ← set_amend_data J now document
      some (if ok then handle_order_amend amend m else (m, []))

    unfoldable pub process_get_book : Value → Engines → Option (Engines × List (E × Message))
    unfolding handle_get_book
    process_get_book document m = do
      v ← at document (codes "Instrument")
      instrument ← as_string v
      some (handle_get_book (c_str instrument) m)

    -- The action names the method; any other action is ignored.
    unfoldable pub dispatch : Text → Value → Engines → Option (Engines × List (E × Message))
    unfolding process_insert process_cancel process_amend process_get_book
    dispatch action document m =
        if text_beq action (codes "Insert")
        then process_insert document m
        else if text_beq action (codes "Cancel")
        then process_cancel document m
        else if text_beq action (codes "Amend")
        then process_amend document m
        else if text_beq action (codes "GetBook")
        then process_get_book document m
        else some (m, [])

    -- `OrderEventProcessor::Process` of the bytes of one message, at the clock reading `now`; `none`
    -- is an exception, which leaves the engines as they were.
    unfoldable pub process : Text → Engines → Option (Engines × List (E × Message))
    unfolding dispatch
    process bytes m = if nat_beq (write bytes) 0 then some (m, []) else (do
      root ← release bytes
      action ← at root (codes "Action")
      document ← at root (codes "Data")
      name ← as_string action
      dispatch name document m)
