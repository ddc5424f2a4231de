-- ===== src/Server/Ws/Relay.antt =====
-- src/server/ws.rs: the task `forward_events` against a plain description of what it sends.
use pi_piper.Prelude.{◌≡◌, refl, ap, Bool, true, false, List, [], ◌∷◌, map, if◌then◌else◌}
use pi_piper.Json.{Json}
use pi_piper.Registry.Watcher.{Signal, changed_err, changed_ok, received, lagged, closed}
use pi_piper.Rpc.RemoteAgent.{Message, text}
use pi_piper.Server.Ws.{Sink, forward_events}

-- The events received while the agent is connected and its channel is open, oldest first.
abbrev pub relayed : {V : Type 0} → List (Signal V) → List V
relayed [] = []
relayed (changed_err ∷ rest) = []
relayed (changed_ok true ∷ rest) = relayed rest
relayed (changed_ok false ∷ rest) = []
relayed (received event ∷ rest) = event ∷ relayed rest
relayed (lagged ∷ rest) = relayed rest
relayed (closed ∷ rest) = []

-- Whether one of the signals ends the bridge.
abbrev pub is_over : {V : Type 0} → List (Signal V) → Bool
is_over [] = false
is_over (changed_err ∷ rest) = true
is_over (changed_ok true ∷ rest) = is_over rest
is_over (changed_ok false ∷ rest) = true
is_over (received event ∷ rest) = is_over rest
is_over (lagged ∷ rest) = is_over rest
is_over (closed ∷ rest) = true

module _ {S : Type 0} ⦃sink : Sink S⦄ where
  -- The messages are sent until a send fails; the Boolean says that one did, or else is `over`.
  abbrev pub send_all : Bool → List Message → S → S × Bool
  send_all over [] s = (s, over)
  send_all over (m ∷ ms) s =
      let (sent, s') = sink.send m s in
      let more = send_all over ms s' in if sent then more else (s', true)

module _ {V S : Type 0} ⦃json : Json V⦄ ⦃sink : Sink S⦄ where
  -- The bridge sends a phone one frame per relayed event, in order, up to the first failed send, and
  -- nothing else; it has ended exactly when a send failed or a signal ended it.
  pub forward_events_lem :
      (signals : List (Signal V)) (s : S)
      → forward_events signals s
        ≡ send_all
            (is_over signals)
            (map (λ event. text (json.to_string event)) (relayed signals))
            s
  unfolding forward_events
  forward_events_lem [] s = refl
  forward_events_lem (changed_err ∷ rest) s = refl
  forward_events_lem (changed_ok true ∷ rest) s = forward_events_lem rest s
  forward_events_lem (changed_ok false ∷ rest) s = refl
  forward_events_lem (received event ∷ rest) s =
      ap
        (λ (more : S × Bool).
          if (sink.send (text (json.to_string event)) s).0
          then more
          else ((sink.send (text (json.to_string event)) s).1, true))
        (forward_events_lem rest (sink.send (text (json.to_string event)) s).1)
  forward_events_lem (lagged ∷ rest) s = forward_events_lem rest s
  forward_events_lem (closed ∷ rest) s = refl
