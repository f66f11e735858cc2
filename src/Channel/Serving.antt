-- ===== src/Channel/Serving.antt =====
-- A message of a client from the web socket server to the modules of its channel, and the replies back:
-- `OnWebSocketDataReceived` and `SendWebSocketData` of web_socket_channel.cpp over the sessions of the server.
use moboware.Base.{
  ℕ, suc, Bool, List, [], ◌∷◌, ◌++◌, Text, All, map, HasEq, ◌≡◌, ◌≢◌, refl, sym, ◌∙◌, subst,
  Bool-cases, Option-cases, inl, inr,
}
use moboware.OrderData.{Trade}
use moboware.OrderData.Wire.{Json}
use moboware.MatchingEngine.{Message, trade}
use moboware.MatchingModule.{Engines, process}
use moboware.MatchingModule.Replies.{Answers}
use moboware.SocketServer.Table.{find}
use moboware.WebSocketServer.{WebSocketServer, fail_session, send_web_socket_data}
use moboware.WebSocketServer.Dangling.{find-set_session_ne}
use moboware.Channel.{Module, matching_engine_module, forward_to_modules}
use moboware.Channel.Forwarding.{HasNoEngines, processed, forward_to_modules-process}

pub record ServedChannel (E : Type 0) : Type 0 where
  pub server : WebSocketServer E
  pub served_modules : List Module

module _ {E : Type 0} ⦃keys : HasEq E⦄ where
  -- `SendWebSocketData` of the channel for each reply, with what each write does; a reply that cannot be sent is
  -- logged.
  unfoldable pub send_replies :
      (ℕ → ℕ × Bool) → List (E × Message) → WebSocketServer E → WebSocketServer E
  send_replies written [] s = s
  send_replies written ((endpoint, reply) ∷ rest) s =
      send_replies (λ i. written (suc i)) rest
        (send_web_socket_data endpoint (written 0).0 (written 0).1 s).1

  -- The data of a client reaches the modules, which send their replies; and whether an exception leaves the
  -- call, for the handler of the read and the service that runs it.
  unfoldable pub serve_data :
      (ℕ → ℕ × Bool) → E → Json → ℕ → Text → ServedChannel E → Bool × ServedChannel E
  unfolding send_replies
  serve_data written endpoint J now bytes c =
      let (thrown, ms, replies) = forward_to_modules endpoint J now bytes c.served_modules in
      (thrown, record { server = send_replies written replies c.server; served_modules = ms })

  send_elsewhere :
      (k j : E) (n : ℕ) (failed : Bool) (s : WebSocketServer E)
      → k ≢ j
      → find j (send_web_socket_data k n failed s).1.sessions ≡ find j s.sessions
  unfolding send_web_socket_data
  send_elsewhere k j n failed s other = elim (Option-cases (find k s.sessions)) [
    | inl absent ↦ rw (absent, send_web_socket_data) refl
    | inr (w, found) ↦ elim (Bool-cases failed) [
      | inl fails ↦
          rw (found, send_web_socket_data, fails)
            (find-set_session_ne k j (fail_session w) s.sessions other)
      | inr works ↦ rw (found, send_web_socket_data, works) refl
    ]
  ]

  abbrev GoesTo : E → E × Message → Type 0
  GoesTo k r = r.0 ≡ k

  -- Replies to one endpoint leave the sessions of the others as they are.
  send_replies_elsewhere :
      (k j : E) (replies : List (E × Message)) (written : ℕ → ℕ × Bool) (s : WebSocketServer E)
      → k ≢ j
      → All (GoesTo k) replies
      → find j (send_replies written replies s).sessions ≡ find j s.sessions
  unfolding send_replies
  send_replies_elsewhere k j [] written s other all = refl
  send_replies_elsewhere k j ((e, reply) ∷ rest) written s other (here, all) =
      let n : e ≢ j = λ same. other (sym here ∙ same) in
      send_replies_elsewhere k j rest (λ i. written (suc i))
        (send_web_socket_data e (written 0).0 (written 0).1 s).1 other all
      ∙ send_elsewhere e j (written 0).0 (written 0).1 s n

  All_trades : (k : E) (ts : List Trade) → All (GoesTo k) (map (λ t. (k, trade t)) ts)
  All_trades k [] = tt
  All_trades k (t ∷ ts) = (refl, All_trades k ts)

  Answers-All : (k : E) (sent : List (E × Message)) → Answers k sent → All (GoesTo k) sent
  Answers-All k sent (inl silent) = subst (All (GoesTo k)) (sym silent) tt
  Answers-All k sent (inr (reply, ts, is_reply, e)) =
      subst (All (GoesTo k)) (sym e) (refl, All_trades k ts)

  -- A message of a client on a channel one of whose modules has engines. If Process handles it: that module
  -- changes as Process changes it, and no other module; what Process answers, which is nothing, or one
  -- reply and then trades, is sent, all of it to the session of that client. If Process throws: the exception
  -- leaves the channel, and no module changes and nothing is sent. The session of every other client stays
  -- as it is, whatever the writes do.
  pub serve_data-process :
      (written : ℕ → ℕ × Bool) (k j : E) (J : Json) (now : ℕ) (bytes : Text)
      (before after : List Module) (m : Engines) (s : WebSocketServer E)
      → k ≢ j
      → All HasNoEngines before
      → All HasNoEngines after
      → let (thrown, m', sent) = processed m (process k J now bytes m) in
        let (thrown', c) =
          serve_data written k J now bytes (record {
            server = s;
            served_modules = before ++ (matching_engine_module m ∷ after);
          }) in
        (thrown' ≡ thrown)
        × (c.served_modules ≡ before ++ (matching_engine_module m' ∷ after))
        × (c.server ≡ send_replies written sent s)
        × Answers k sent
        × (find j c.server.sessions ≡ find j s.sessions)
  unfolding serve_data
  serve_data-process written k j J now bytes before after m s other none_before none_after =
      let (forwarded, answers) =
        forward_to_modules-process k J now bytes before after m none_before none_after in
      let sent = (processed m (process k J now bytes m)).2 in
      rw forwarded (
        refl,
        refl,
        refl,
        answers,
        send_replies_elsewhere k j sent written s other (Answers-All k sent answers),
      )
