-- ===== src/MatchingModule/Routing.antt =====
-- Which engines a message reaches.
use moboware.Base.{
  ℕ, Bool, true, false, Option, none, some, List, [], ◌∷◌, Text, codes, text_beq, text_beq_iff, ◌≡◌,
  ◌≢◌, refl, arith, if◌then◌else◌, if_either, nat_beq, Option-cases, ◌>>=◌, inl, inr, subst,
}
use moboware.OrderData.{Order, OrderAmend, OrderCancel}
use moboware.OrderData.Wire.{Json, set_data, set_cancel_data, set_amend_data, text_at}
use moboware.MatchingEngine.{MatchingEngine, Message, order_insert, order_amend, order_cancel}
use moboware.MatchingModule.{
  Engines, find_engine, put_engine, with_engine, process_insert, process_cancel, process_amend,
  process_get_book, dispatch, process,
}

pub find_engine-put_engine :
    (i j : Text) (e : MatchingEngine) (m : Engines)
    → find_engine j (put_engine i e m) ≡ (if text_beq i j then some e else find_engine j m)
unfolding find_engine put_engine
find_engine-put_engine i j e [] = refl
find_engine-put_engine i j e ((k, d) ∷ m) =
    ground
      (arith, text_beq_iff i j, text_beq_iff k i, text_beq_iff k j, find_engine-put_engine i j e m)

-- Engines that agree but for one instrument.
abbrev pub DiffersAt : Text → Engines → Engines → Type 0
DiffersAt i m m' = (j : Text) → i ≢ j → find_engine j m' ≡ find_engine j m

with_engine-DiffersAt :
    {E : Type 0} (i : Text) (call : MatchingEngine → MatchingEngine × List (E × Message))
    (m : Engines)
    → DiffersAt i m (with_engine i call m).0
unfolding with_engine
with_engine-DiffersAt i call m j ne = elim (Option-cases (find_engine i m)) [
  | inl e ↦ rw (e, with_engine)
  | inr (d, e) ↦
      let other : text_beq i j ≡ false = ground (arith, text_beq_iff i j) in
      rw (e, with_engine, find_engine-put_engine, other)
]

if_both :
    {A B : Type 0} (P : A → B → Type 0) (b : Bool) {x x' : A} {y y' : B}
    → P x y
    → P x' y'
    → P (if b then x else x') (if b then y else y')
if_both P true h h' = h
if_both P false h h' = h'

-- What a call of an engine leaves, and sends; without an engine there is nothing.
abbrev pub on_engine :
    {E : Type 0}
    → Option MatchingEngine
    → (MatchingEngine → MatchingEngine × List (E × Message))
    → Option MatchingEngine × List (E × Message)
on_engine none call = (none, [])
on_engine (some e) call = (some (call e).0, (call e).1)

-- The engine of the instrument is left as the call leaves it, what it sends is sent, and no other engine
-- changes.
abbrev pub Routed :
    {E : Type 0}
    → Text
    → (MatchingEngine → MatchingEngine × List (E × Message))
    → Engines
    → Engines × List (E × Message)
    → Type 0
Routed i call m r =
    DiffersAt i m r.0 × ((find_engine i r.0, r.1) ≡ on_engine (find_engine i m) call)

with_engine-Routed :
    {E : Type 0} (i : Text) (call : MatchingEngine → MatchingEngine × List (E × Message))
    (m : Engines)
    → Routed i call m (with_engine i call m)
unfolding with_engine
with_engine-Routed i call m = (
  with_engine-DiffersAt i call m,
  elim (Option-cases (find_engine i m)) [
    | inl e ↦ rw (e, with_engine, e) refl
    | inr (d, e) ↦
        let same : text_beq i i ≡ true = (text_beq_iff i i).1 refl in
        rw (e, with_engine, find_engine-put_engine, same) refl
  ],
)

-- Nothing happens.
idle-Routed : {E : Type 0} (i : Text) (m : Engines) → Routed {E = E} i (λ e. (e, [])) m (m, [])
idle-Routed i m = (
  λ j ne. refl,
  elim (Option-cases (find_engine i m)) [ inl e ↦ rw e refl | inr (d, e) ↦ rw e refl ],
)

-- A request that is read and valid is given to the engine; any other one is dropped.
abbrev pub served :
    {A E : Type 0}
    → Option (A × Bool)
    → (A → MatchingEngine → MatchingEngine × List (E × Message))
    → MatchingEngine
    → MatchingEngine × List (E × Message)
served (some (request, true)) call e = call request e
served (some (request, false)) call e = (e, [])
served none call e = (e, [])

served-Routed :
    {A E : Type 0} (request : A) (ok : Bool) (i : Text)
    (call : A → MatchingEngine → MatchingEngine × List (E × Message)) (m : Engines)
    → Routed i
        (served (some (request, ok)) call)
        m
        (if ok then with_engine i (call request) m else (m, []))
served-Routed request true i call m = with_engine-Routed i (call request) m
served-Routed request false i call m = idle-Routed i m

module _ (J : Json) (now : ℕ) (document : J.Value) (i : Text)
    (named : text_at J document (codes "Instrument") ≡ some i) where
  set_data-instrument :
      (o : Order) (ok : Bool) → set_data J now document ≡ some (o, ok) → o.instrument ≡ i
  unfolding set_data
  set_data-instrument o ok h = ground (arith, named)

  set_amend_data-instrument :
      (a : OrderAmend) (ok : Bool) → set_amend_data J now document ≡ some (a, ok) → a.instrument ≡ i
  unfolding set_amend_data
  set_amend_data-instrument a ok h = ground (arith, named)

  set_cancel_data-instrument :
      (c : OrderCancel) (ok : Bool) → set_cancel_data J document ≡ some (c, ok) → c.instrument ≡ i
  unfolding set_cancel_data
  set_cancel_data-instrument c ok h = ground (arith, named)

module _ {E : Type 0} (endpoint : E) (J : Json) (now : ℕ) (document : J.Value) where
  -- What the engine does for a message of an action: it gets a request that is read and valid, by the method
  -- of the action.
  abbrev pub engine_call : Text → MatchingEngine → MatchingEngine × List (E × Message)
  engine_call action =
      if text_beq action (codes "Insert")
      then served (set_data J now document) (order_insert endpoint)
      else if text_beq action (codes "Cancel")
      then served (set_cancel_data J document) (order_cancel endpoint)
      else if text_beq action (codes "Amend")
      then served (set_amend_data J now document) (order_amend endpoint)
      else λ e. (e, [])

  module _ (m m' : Engines) (sent : List (E × Message)) (i : Text)
      (named : text_at J document (codes "Instrument") ≡ some i) where
    abbrev Ends :
        (MatchingEngine → MatchingEngine × List (E × Message))
        → Option (Engines × List (E × Message))
        → Type 0
    Ends call r = r ≡ some (m', sent) → Routed i call m (m', sent)

    Ends-of :
        (call : MatchingEngine → MatchingEngine × List (E × Message))
        (r : Engines × List (E × Message))
        → Routed i call m r
        → Ends call (some r)
    Ends-of call r t e = let q : r ≡ (m', sent) = cc in subst (Routed i call m) q t

    -- A request that names the instrument.
    request-Ends :
        {A : Type 0} (read : Option (A × Bool)) (instrument : A → Text)
        (call : A → MatchingEngine → MatchingEngine × List (E × Message))
        → ((a : A) (ok : Bool) → read ≡ some (a, ok) → instrument a ≡ i)
        → Ends (served read call) (
            read >>= λ r. some (if r.1 then with_engine (instrument r.0) (call r.0) m else (m, [])))
    request-Ends none instrument call same = λ h. absurd (cc)
    request-Ends (some (a, ok)) instrument call same =
        let t = served-Routed a ok i call m in
        Ends-of (served (some (a, ok)) call)
          (if ok then with_engine (instrument a) (call a) m else (m, [])) (rw (same a ok refl) t)

    get_book_named :
        process_get_book endpoint J now document m ≡ some (with_engine i (λ e. (e, [])) m)
    unfolding process_get_book text_at
    get_book_named = ground (arith, named)

    dispatch-Ends :
        (action : Text) → Ends (engine_call action) (dispatch endpoint J now action document m)
    unfolding dispatch process_insert process_cancel process_amend process_get_book
    dispatch-Ends action =
        if_both Ends (text_beq action (codes "Insert"))
          (request-Ends (set_data J now document) (λ o. o.instrument) (order_insert endpoint)
            (set_data-instrument J now document i named))
          (if_both Ends (text_beq action (codes "Cancel"))
            (request-Ends (set_cancel_data J document) (λ c. c.instrument) (order_cancel endpoint)
              (set_cancel_data-instrument J now document i named))
            (if_both Ends (text_beq action (codes "Amend"))
              (request-Ends (set_amend_data J now document) (λ a. a.instrument)
                (order_amend endpoint) (set_amend_data-instrument J now document i named))
              (if_either (Ends (λ e. (e, []))) (text_beq action (codes "GetBook"))
                (rw get_book_named (
                  Ends-of (λ e. (e, [])) (with_engine i (λ e. (e, [])) m)
                    (with_engine-Routed i (λ e. (e, [])) m)))
                (Ends-of (λ e. (e, [])) (m, []) (idle-Routed i m)))))

  -- A message that Process handles without an exception, and whose data names an instrument: the engine of
  -- that instrument, if there is one, is left as OrderInsert, OrderCancel or OrderAmend leaves it, by the
  -- action of the message, if the request is read and valid, and as it was otherwise; what that call sends
  -- is sent, and nothing else; and no other engine changes.
  pub process-engine_call :
      (bytes name instrument : Text) (m m' : Engines) (sent : List (E × Message))
      (root action : J.Value)
      → nat_beq (J.write bytes) 0 ≡ false
      → J.release bytes ≡ some root
      → J.at root (codes "Action") ≡ some action
      → J.as_string action ≡ some name
      → J.at root (codes "Data") ≡ some document
      → text_at J document (codes "Instrument") ≡ some instrument
      → process endpoint J now bytes m ≡ some (m', sent)
      → DiffersAt instrument m m'
        × ((find_engine instrument m', sent)
            ≡ on_engine (find_engine instrument m) (engine_call name))
  unfolding process
  process-engine_call bytes name instrument m m' sent root action written released acts named_action
        data_there named h =
      dispatch-Ends m m' sent instrument named name
        (rw (written, released, acts, data_there, named_action) at h)
