-- ===== src/Channel/Starting.antt =====
-- The calls of the network that a channel makes when it starts.
use moboware.Base.{
  Bool, true, false, some, List, [], ◌∷◌, ◌++◌, codes, ◌≡◌, refl, sym, ◌∙◌, ap, if◌then◌else◌,
  Bool-cases, inl, inr, is_empty,
}
use moboware.OrderData.Wire.{ℤ}
use moboware.Channel.{
  ConfigJson, Module, tcp_client_module, log_module, matching_engine_module, Channel, at,
  load_base_config, to_port, NetworkCall, listen_at, connect_to, start_module, start_modules,
  start_channel,
}
use moboware.Channel.Loading.{last_16_bits, load_base_config-Loaded}

-- Calls that are made in their order until one does not work.
unfoldable pub call_all : (NetworkCall → Bool) → List NetworkCall → Bool × List NetworkCall
call_all works [] = (true, [])
call_all works (c ∷ cs) =
    let (done, made) = call_all works cs in if works c then (done, c ∷ made) else (false, c ∷ [])

-- What one start and then another do, if each stops at its first failure.
unfoldable pub and_then :
    Bool × List NetworkCall → Bool × List NetworkCall → Bool × List NetworkCall
and_then first second = if first.0 then (second.0, first.1 ++ second.1) else (false, first.1)

pub call_all-append :
    (works : NetworkCall → Bool) (xs ys : List NetworkCall)
    → call_all works (xs ++ ys) ≡ and_then (call_all works xs) (call_all works ys)
unfolding call_all and_then
call_all-append works [] ys = refl
call_all-append works (x ∷ xs) ys =
    let h = call_all-append works xs ys in
    elim (Bool-cases (works x)) [
      | inr fails ↦ rw fails refl
      | inl runs ↦ elim (Bool-cases (call_all works xs).0) [
        | inl done ↦ rw (runs, h, done) refl
        | inr stopped ↦ rw (runs, h, stopped) refl
      ]
    ]

-- The calls of the modules: each TCP client connects.
unfoldable pub module_calls : Module → List NetworkCall
module_calls (tcp_client_module address port) = connect_to address (to_port port) ∷ []
module_calls log_module = []
module_calls (matching_engine_module m) = []

unfoldable pub modules_calls : List Module → List NetworkCall
modules_calls [] = []
modules_calls (m ∷ ms) = module_calls m ++ modules_calls ms

-- The calls of a channel: it listens, and then starts its modules.
unfoldable pub channel_calls : Channel → List NetworkCall
channel_calls c = listen_at c.address (to_port c.port) ∷ modules_calls c.modules

start_module-call_all :
    (works : NetworkCall → Bool) (m : Module)
    → start_module works m ≡ call_all works (module_calls m)
unfolding start_module call_all module_calls
start_module-call_all works (tcp_client_module address port) =
    elim (Bool-cases (works (connect_to address (to_port port)))) [
      | inl runs ↦ rw runs refl
      | inr fails ↦ rw fails refl
    ]
start_module-call_all works log_module = refl
start_module-call_all works (matching_engine_module m) = refl

start_modules-call_all :
    (works : NetworkCall → Bool) (ms : List Module)
    → start_modules works ms ≡ call_all works (modules_calls ms)
unfolding start_modules modules_calls call_all and_then
start_modules-call_all works [] = refl
start_modules-call_all works (m ∷ ms) =
    rw (start_module-call_all works m, start_modules-call_all works ms)
      (sym (call_all-append works (module_calls m) (modules_calls ms)))

pub start_channel-call_all :
    (works : NetworkCall → Bool) (c : Channel)
    → start_channel works c ≡ call_all works (channel_calls c)
unfolding start_channel channel_calls call_all
start_channel-call_all works c = rw (start_modules-call_all works c.modules) refl

-- A channel whose configuration has a 64-bit number as its port, and is accepted, has a module; when it starts,
-- it listens at the last 16 bits of that number, whatever the number is, and then starts its modules one
-- after the other, up to the first call that fails.
pub start_channel-Loaded :
    (J : ConfigJson) (v x : J.Value) (z : ℤ) (c c' : Channel) (works : NetworkCall → Bool)
    → at J v (codes "Port") ≡ some x
    → J.as_int64 x ≡ some z
    → load_base_config J v c ≡ some (true, c')
    → (is_empty c'.modules ≡ false)
      × (start_channel works c'
          ≡ call_all works (listen_at c'.address (last_16_bits z) ∷ modules_calls c'.modules))
unfolding channel_calls
start_channel-Loaded J v x z c c' works has_port number h =
    let (some_module, port) = load_base_config-Loaded J v x z c c' has_port number h in
    (
      some_module,
      start_channel-call_all works c'
          ∙ ap (λ p. call_all works (listen_at c'.address p ∷ modules_calls c'.modules)) port,
    )
