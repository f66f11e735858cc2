-- ===== src/OrderData/Grammar.antt =====
-- The grammar of JSON as an automaton over bytes with a stack, which is true for the objects and false
-- for the arrays that are open; and the messages of the engine under it. An escape may be of any byte,
-- and a number any mix of its characters: the automaton takes no document less than JSON has.
use moboware.Base.{
  ℕ, ◌≤◌, Bool, true, false, Option, none, some, List, [], ◌∷◌, ◌++◌, Text, codes, nat_beq, leb,
  All, ◌≡◌, ◌≢◌, ◌∙◌, refl, ap, arith, if◌then◌else◌, ◌&&◌, ◌||◌,
}
use moboware.OrderData.{OrderReply, Trade, ErrorReply}
use moboware.OrderData.Messages.{order_reply_text, trade_text, error_reply_text}

-- What is read next. A string is a key or a value; a literal has the rest that must follow.
pub data Mode : Type 0 where
  value first_value first_key key colon after number : Mode
  string escape : Bool → Mode
  literal : Text → Mode

abbrev State : Type 0
State = Option (Mode × List Bool)

is_space : ℕ → Bool
is_space c = nat_beq c 32 || nat_beq c 9 || nat_beq c 10 || nat_beq c 13

is_digit : ℕ → Bool
is_digit c = leb 48 c && leb c 57

in_number : ℕ → Bool
unfolding is_digit
in_number c =
    is_digit c || nat_beq c 45 || nat_beq c 43 || nat_beq c 46 || nat_beq c 69 || nat_beq c 101

begin_value : ℕ → List Bool → State
unfolding is_digit
begin_value c st =
    if nat_beq c 34
    then some (string false, st)
    else if nat_beq c 123
    then some (first_key, true ∷ st)
    else if nat_beq c 91
    then some (first_value, false ∷ st)
    else if is_digit c || nat_beq c 45
    then some (number, st)
    else if nat_beq c 116
    then some (literal (codes "rue"), st)
    else if nat_beq c 102
    then some (literal (codes "alse"), st)
    else if nat_beq c 110
    then some (literal (codes "ull"), st)
    else none

end_value : ℕ → List Bool → State
end_value c [] = none
end_value c (true ∷ st) =
    if nat_beq c 44 then some (key, true ∷ st) else if nat_beq c 125 then some (after, st) else none
end_value c (false ∷ st) =
    if nat_beq c 44
    then some (value, false ∷ st)
    else if nat_beq c 93
    then some (after, st)
    else none

-- The byte `c`, which is not a space outside of a string.
read_byte : ℕ → Mode → List Bool → State
unfolding begin_value end_value in_number
read_byte c value st = begin_value c st
read_byte c first_value st = if nat_beq c 93 then end_value c st else begin_value c st
read_byte c first_key st =
    if nat_beq c 34 then some (string true, st) else if nat_beq c 125 then end_value c st else none
read_byte c key st = if nat_beq c 34 then some (string true, st) else none
read_byte c colon st = if nat_beq c 58 then some (value, st) else none
read_byte c after st = end_value c st
read_byte c number st = if in_number c then some (number, st) else end_value c st
read_byte c (string is_key) st =
    if nat_beq c 34
    then some (if is_key then colon else after, st)
    else if nat_beq c 92
    then some (escape is_key, st)
    else if leb 32 c
    then some (string is_key, st)
    else none
read_byte c (escape is_key) st = some (string is_key, st)
read_byte c (literal []) st = none
read_byte c (literal (x ∷ [])) st = if nat_beq c x then some (after, st) else none
read_byte c (literal (x ∷ (y ∷ xs))) st = if nat_beq c x then some (literal (y ∷ xs), st) else none

skips_space : Mode → Bool
skips_space value = true
skips_space first_value = true
skips_space first_key = true
skips_space key = true
skips_space colon = true
skips_space after = true
skips_space number = false
skips_space (string is_key) = false
skips_space (escape is_key) = false
skips_space (literal xs) = false

next_mode : ℕ → Mode → List Bool → State
unfolding is_space skips_space read_byte
next_mode c number st = if is_space c then some (after, st) else read_byte c number st
next_mode c m st = if skips_space m && is_space c then some (m, st) else read_byte c m st

ends : Mode → List Bool → Bool
ends after [] = true
ends number [] = true
ends m st = false

pub reads : Text → Mode → List Bool → Bool
unfolding next_mode ends
reads [] m st = ends m st
reads (c ∷ cs) m st = elim (next_mode c m st) [ none ↦ false | some (m', st') ↦ reads cs m' st' ]

unfoldable pub is_json : Text → Bool
unfolding reads
is_json text = reads text value []

-- A byte that stands for itself in a string.
abbrev pub IsPlain : ℕ → Type 0
IsPlain c = (32 ≤ c) × (c ≢ 34) × (c ≢ 92)

next_mode-plain :
    (x : ℕ) (is_key : Bool) (st : List Bool)
    → IsPlain x
    → next_mode x (string is_key) st ≡ some (string is_key, st)
unfolding next_mode
next_mode-plain x is_key st (printed, no_quote, no_escape) =
    let a : nat_beq x 34 ≡ false = ground arith in
    let b : nat_beq x 92 ≡ false = ground arith in
    let c : leb 32 x ≡ true = ground arith in rw (a, b, c)

reads-plain :
    (xs ys : Text) (is_key : Bool) (st : List Bool)
    → All IsPlain xs
    → reads (xs ++ ys) (string is_key) st ≡ reads ys (string is_key) st
unfolding reads
reads-plain [] ys is_key st h = refl
reads-plain (x ∷ xs) ys is_key st h =
    rw (next_mode-plain x is_key st h.0, reads) (reads-plain xs ys is_key st h.1)

-- A reply whose ids have no quotes, backslashes or control bytes is JSON; no trade is; and no error
-- reply is whose message starts as those of the engine do, and whose client id is plain.
pub messages_json :
    (r : OrderReply) (t : Trade) (e : ErrorReply) (rest : Text)
    → All IsPlain r.id
    → All IsPlain r.client_id
    → All IsPlain e.client_id
    → e.error_message ≡ codes "Failed" ++ rest
    → (is_json (order_reply_text r) ≡ true)
      × (is_json (trade_text t) ≡ false)
      × (is_json (error_reply_text e) ≡ false)
unfolding is_json order_reply_text trade_text error_reply_text
messages_json r t e rest id client error_client message = (
  reads-plain r.id (codes "\",\"ClientId\":\"" ++ (r.client_id ++ codes "\"}}")) false
        (true ∷ true ∷ []) id
      ∙ reads-plain r.client_id (codes "\"}}") false (true ∷ true ∷ []) client,
  refl,
  reads-plain e.client_id (codes "\",\"Error\":" ++ (e.error_message ++ codes "}}")) false
        (true ∷ true ∷ []) error_client
      ∙ ap
          (λ m.
            reads (codes "\",\"Error\":" ++ (m ++ codes "}}")) (string false) (true ∷ true ∷ []))
          message,
)
