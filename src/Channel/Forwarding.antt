-- ===== src/Channel/Forwarding.antt =====
-- The data of a client on its way to the modules of a channel, and the answers.
use moboware.Base.{
  Bool, true, false, Option, none, Option-cases, inl, inr, ℕ, some, List, [], ◌∷◌, ◌++◌, Text, All,
  ◌≡◌, refl, ◌∙◌, ap, append-nil,
}
use moboware.OrderData.Wire.{Json}
use moboware.MatchingEngine.{Message}
use moboware.MatchingModule.{Engines, process}
use moboware.MatchingModule.Replies.{Answers, process-Answers}
use moboware.Channel.{
  Module, tcp_client_module, log_module, matching_engine_module, receive_data, forward_to_modules,
}

-- A module that has no engines.
abbrev pub HasNoEngines : Module → Type 0
HasNoEngines (tcp_client_module address port) = Unit
HasNoEngines log_module = Unit
HasNoEngines (matching_engine_module m) = ⊥

-- What a message does to a module that has engines, given what `Process` does: whether an exception leaves
-- it, the engines, and the messages.
abbrev pub processed :
    {E : Type 0}
    → Engines
    → Option (Engines × List (E × Message))
    → Bool × Engines × List (E × Message)
processed m none = (true, m, [])
processed m (some (m', sent)) = (false, m', sent)

module _ {E : Type 0} (endpoint : E) (J : Json) (now : ℕ) (bytes : Text) where
  forward_to_nobody :
      (ms : List Module)
      → All HasNoEngines ms
      → forward_to_modules endpoint J now bytes ms ≡ (false, ms, [])
  unfolding forward_to_modules receive_data
  forward_to_nobody [] all = refl
  forward_to_nobody (tcp_client_module address port ∷ ms) (h, all) =
      ap (λ r. (r.0, tcp_client_module address port ∷ r.1, r.2)) (forward_to_nobody ms all)
  forward_to_nobody (log_module ∷ ms) (h, all) =
      ap (λ r. (r.0, log_module ∷ r.1, r.2)) (forward_to_nobody ms all)
  forward_to_nobody (matching_engine_module m ∷ ms) (h, all) = absurd h

  forward_past :
      (before rest : List Module)
      → All HasNoEngines before
      → let r = forward_to_modules endpoint J now bytes rest in
        forward_to_modules endpoint J now bytes (before ++ rest) ≡ (r.0, before ++ r.1, r.2)
  unfolding forward_to_modules receive_data
  forward_past [] rest all = refl
  forward_past (tcp_client_module address port ∷ before) rest (h, all) =
      ap (λ r. (r.0, tcp_client_module address port ∷ r.1, r.2)) (forward_past before rest all)
  forward_past (log_module ∷ before) rest (h, all) =
      ap (λ r. (r.0, log_module ∷ r.1, r.2)) (forward_past before rest all)
  forward_past (matching_engine_module m ∷ before) rest (h, all) = absurd h

  receive_data_engines :
      (m : Engines) (result : Option (Engines × List (E × Message)))
      → process endpoint J now bytes m ≡ result
      → let r = processed m result in
        receive_data endpoint J now bytes (matching_engine_module m)
        ≡ (r.0, matching_engine_module r.1, r.2)
  unfolding receive_data
  receive_data_engines m none e = rw (e, receive_data) refl
  receive_data_engines m (some (m', sent)) e = rw (e, receive_data) refl

  forward_to_engines :
      (after : List Module) (m : Engines) (result : Option (Engines × List (E × Message)))
      → process endpoint J now bytes m ≡ result
      → All HasNoEngines after
      → let r = processed m result in
        forward_to_modules endpoint J now bytes (matching_engine_module m ∷ after)
        ≡ (r.0, matching_engine_module r.1 ∷ after, r.2)
  unfolding forward_to_modules
  forward_to_engines after m none e none_after = rw (receive_data_engines m none e) refl
  forward_to_engines after m (some (m', sent)) e none_after =
      rw (receive_data_engines m (some (m', sent)) e, forward_to_nobody after none_after)
        (ap (λ xs. (false, matching_engine_module m' ∷ after, xs)) (append-nil sent))

  processed-Answers :
      (m : Engines) → Answers endpoint (processed m (process endpoint J now bytes m)).2
  processed-Answers m = elim (Option-cases (process endpoint J now bytes m)) [
    | inl throws ↦ rw throws (inl refl)
    | inr ((m', sent), e) ↦ rw e (process-Answers endpoint J now m m' sent bytes e)
  ]

  -- A channel one of whose modules has engines: a message changes that module as Process does, and no other
  -- module; the channel answers what Process does, which is nothing, or one reply and then trades, all to
  -- the endpoint that the message came from; and an exception of Process leaves the channel.
  pub forward_to_modules-process :
      (before after : List Module) (m : Engines)
      → All HasNoEngines before
      → All HasNoEngines after
      → let r = processed m (process endpoint J now bytes m) in
        (forward_to_modules endpoint J now bytes (before ++ (matching_engine_module m ∷ after))
          ≡ (r.0, before ++ (matching_engine_module r.1 ∷ after), r.2))
        × Answers endpoint r.2
  forward_to_modules-process before after m none_before none_after = (
    forward_past before (matching_engine_module m ∷ after) none_before
        ∙ ap (λ r. (r.0, before ++ r.1, r.2))
            (forward_to_engines after m (process endpoint J now bytes m) refl none_after),
    processed-Answers m,
  )
