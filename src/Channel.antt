-- ===== src/Channel.antt =====
-- src/lib/common/channel_base.cpp and src/lib/channels/web_socket_channel.cpp: how a channel reads its
-- configuration, starts, and hands the data of its clients to its modules, with the modules of
-- src/lib/modules (log_module.cpp, tcp_client_module.cpp and the `LoadConfig` of
-- matching_engine_module.cpp). A value of boost::json is a parameter; an exception of its accesses, which
-- nothing catches, is `none`.
pub mod Forwarding
pub mod Loading
pub mod Serving
pub mod Starting
mod Tests
use moboware.Base.{
  ℕ, Bool, true, false, not, ◌&&◌, Option, none, some, List, [], ◌∷◌, ◌++◌, Text, codes, c_str,
  ◌==◌, text_keys, ◌%◌, ◌^◌, if◌then◌else◌, ◌>>=◌, is_empty,
}
use moboware.OrderData.Wire.{Json, ℤ, to_uint64}
use moboware.MatchingEngine.{Message}
use moboware.MatchingModule.{Engines, load_config, process}

-- What the code calls of a boost::json value.
pub record ConfigJson : Type 1 where
  pub Value : Type 0
  pub as_object : Value → Option (Text → Option Value)
  pub as_array : Value → Option (List Value)
  pub as_string : Value → Option Text
  pub as_int64 : Value → Option ℤ

unfoldable pub is_some : {A : Type 0} → Option A → Bool
is_some none = false
is_some (some a) = true

-- A module, with what it keeps of its configuration; a port is the 32 bits of an `int`.
pub data Module : Type 0 where
  tcp_client_module : Text → ℕ → Module
  log_module : Module
  matching_engine_module : Engines → Module

pub record Channel : Type 0 where
  pub channel_name : Text
  pub address : Text
  pub port : ℕ
  pub modules : List Module

abbrev pub new_channel : Channel
new_channel = record { channel_name = []; address = []; port = 0; modules = [] }

-- A 64-bit number in an `int`.
unfoldable pub to_int : ℤ → ℕ
to_int z = to_uint64 z % 2 ^ 32

-- An `int` in the `short` or `uint16_t` that is the port of an endpoint.
unfoldable pub to_port : ℕ → ℕ
to_port port = port % 2 ^ 16

unfoldable pub set_address : Option Text → Channel → Bool × Channel
set_address none c = (false, c)
set_address (some s) c = (true, record c { address = c_str s })

unfoldable pub create_module : Text → Option Module
create_module name =
    if name == codes "TcpClientModule"
    then some (tcp_client_module [] 0)
    else if name == codes "LogModule"
    then some log_module
    else if name == codes "MatchingEngineModule"
    then some (matching_engine_module [])
    else none

module _ (J : ConfigJson) where
  open J use {Value, as_object, as_array, as_string, as_int64}

  unfoldable pub contains : Value → Text → Option Bool
  contains v key = do fields ← as_object v; some (is_some (fields key))

  unfoldable pub at : Value → Text → Option Value
  at v key = do fields ← as_object v; fields key

  -- `at`, `as_string` and `c_str`.
  unfoldable pub text_at : Value → Text → Option Text
  text_at v key = do x ← at v key; s ← as_string x; some (c_str s)

  -- The names of the instruments, of which each must be a text.
  unfoldable pub instrument_names : List Value → Option (List Text)
  instrument_names [] = some []
  instrument_names (v ∷ vs) = do
    name ← as_string v
    names ← instrument_names vs
    some (name ∷ names)

  -- `LoadConfig` of the modules, which refuses nothing.
  unfoldable pub load_module : Module → Value → Option Module
  load_module (tcp_client_module address port) v = do
    address' ← text_at v (codes "Address")
    x ← at v (codes "Port")
    z ← as_int64 x
    some (tcp_client_module address' (to_int z))
  load_module log_module v = some log_module
  load_module (matching_engine_module m) v = do
    x ← at v (codes "Instruments")
    instruments ← as_array x
    names ← instrument_names instruments
    some (matching_engine_module (load_config names m))

  -- The module that an element of `Modules` names, if it names one that there is.
  unfoldable pub make_module : Value → Option (Option Module)
  unfolding create_module load_module
  make_module v = do
    name ← text_at v (codes "Name")
    elim (create_module name) [
      | none ↦ some none
      | some m ↦ do m' ← load_module m v; some (some m')
    ]

  -- The loop over the elements of `Modules`; one without a name ends it, one with an unknown name is
  -- left out.
  unfoldable pub load_modules : List Value → List Module → Option (Bool × List Module)
  load_modules [] ms = some (true, ms)
  load_modules (v ∷ vs) ms = do
    named ← contains v (codes "Name")
    if named
        then (do
          made ← make_module v
          load_modules vs (elim made [ none ↦ ms | some m ↦ ms ++ (m ∷ []) ]))
        else some (false, ms)

  unfoldable pub load_address : Value → Channel → Option (Bool × Channel)
  load_address v c = do
    has_address ← contains v (codes "Address")
    if not has_address
        then some (false, c)
        else (do y ← at v (codes "Address"); some (set_address (as_string y) c))

  -- What follows the test of the port.
  unfoldable pub load_rest : Option ℤ → Value → Channel → Option (Bool × Channel)
  unfolding load_address
  load_rest none v c = some (false, c)
  load_rest (some z) v c = load_address v (record c { port = to_int z })

  -- `LoadChannelConfig` of the web socket channel: the port, and then the address.
  unfoldable pub load_channel_config : Value → Channel → Option (Bool × Channel)
  load_channel_config v c = do
    has_port ← contains v (codes "Port")
    if not has_port
        then some (false, c)
        else (do x ← at v (codes "Port"); load_rest (as_int64 x) v c)

  -- What `LoadConfig` does with `Modules`.
  unfoldable pub load_module_values : Option (List Value) → Channel → Option (Bool × Channel)
  load_module_values none c = some (not (is_empty c.modules), c)
  load_module_values (some vs) c = do
    (done, ms) ← load_modules vs c.modules
    some (done && not (is_empty ms), record c { modules = ms })

  -- `LoadConfig` of `ChannelBase`.
  unfoldable pub load_base_config : Value → Channel → Option (Bool × Channel)
  load_base_config v c = do
    has_name ← contains v (codes "Name")
    has_modules ← contains v (codes "Modules")
    if not (has_name && has_modules) then some (false, c) else (do
      name ← text_at v (codes "Name")
      (done, c') ← load_channel_config v (record c { channel_name = name })
      if not done
          then some (false, c')
          else (do x ← at v (codes "Modules"); load_module_values (as_array x) c'))

-- What a start asks of the network: to listen at an address, and to connect to one.
pub data NetworkCall : Type 0 where
  listen_at : Text → ℕ → NetworkCall
  connect_to : Text → ℕ → NetworkCall

-- The results so far, and the calls that were made.
unfoldable pub start_module : (NetworkCall → Bool) → Module → Bool × List NetworkCall
start_module works (tcp_client_module address port) =
    let call = connect_to address (to_port port) in (works call, call ∷ [])
start_module works log_module = (true, [])
start_module works (matching_engine_module m) = (true, [])

unfoldable pub start_modules : (NetworkCall → Bool) → List Module → Bool × List NetworkCall
start_modules works [] = (true, [])
start_modules works (m ∷ ms) =
    let (done, calls) = start_module works m in
    let (all_done, rest) = start_modules works ms in
    if done then (all_done, calls ++ rest) else (false, calls)

-- `Start` of the web socket channel.
unfoldable pub start_channel : (NetworkCall → Bool) → Channel → Bool × List NetworkCall
start_channel works c =
    let call = listen_at c.address (to_port c.port) in
    let (done, calls) = start_modules works c.modules in
    if works call then (done, call ∷ calls) else (false, call ∷ [])

module _ {E : Type 0} (endpoint : E) (J : Json) (now : ℕ) (bytes : Text) where
  -- `OnWebSocketDataReceived` of the modules. Nothing catches an exception of `Process`, which leaves the
  -- engines as they were: the result is `true` where the call ends with one.
  unfoldable pub receive_data : Module → Bool × Module × List (E × Message)
  receive_data (tcp_client_module address port) = (false, tcp_client_module address port, [])
  receive_data log_module = (false, log_module, [])
  receive_data (matching_engine_module m) = elim (process endpoint J now bytes m) [
    | none ↦ (true, matching_engine_module m, [])
    | some (m', sent) ↦ (false, matching_engine_module m', sent)
  ]

  -- The channel hands the data to all of its modules in turn; an exception ends the loop.
  unfoldable pub forward_to_modules : List Module → Bool × List Module × List (E × Message)
  forward_to_modules [] = (false, [], [])
  forward_to_modules (m ∷ ms) =
      let (thrown, m', sent) = receive_data m in
      let (thrown_later, ms', rest) = forward_to_modules ms in
      if thrown then (true, m' ∷ ms, sent) else (thrown_later, m' ∷ ms', sent ++ rest)
