-- ===== src/Exchange/Sax.antt =====
-- nlohmann's SAX interface: the calls that a handler gets, and the parse of the calls of one document.
use moboware.Base.{ℕ, Bool, true, false, Option, some, List, [], ◌∷◌, Text, ◌>>=◌, if◌then◌else◌}
use moboware.OrderData.Wire.{ℤ}

pub data SaxEvent : Type 0 where
  null : SaxEvent
  boolean : Bool → SaxEvent
  number_integer : ℤ → SaxEvent
  number_unsigned : ℕ → SaxEvent
  number_float : Text → SaxEvent
  string : Text → SaxEvent
  start_object : ℕ → SaxEvent
  end_object : SaxEvent
  start_array : ℕ → SaxEvent
  end_array : SaxEvent
  key : Text → SaxEvent
  binary : Text → SaxEvent
  parse_error : ℕ → SaxEvent

-- The handler's state after the parse, and the result: a call that returns false ends it. `none` is
-- undefined behaviour of a call.
module _ {P : Type 0} (handle : SaxEvent → P → Option (Bool × P)) where
  unfoldable pub sax_parse : List SaxEvent → P → Option (Bool × P)
  sax_parse [] p = some (true, p)
  sax_parse (e ∷ es) p = do
    (more, p') ← handle e p
    let rest = sax_parse es p'
    if more then rest else some (false, p')
