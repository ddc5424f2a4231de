-- ===== src/Server/Control/Frames.antt =====
-- src/server/control.rs: the frames that a phone is sent on the control channel.
use pi_piper.Prelude.{◌≡◌, refl, ap, Bool, true, false, List, [], ◌∷◌, map, if◌then◌else◌}
use pi_piper.Json.{Json}
use pi_piper.Watch.{Watch}
use pi_piper.Events.{ControlEvent, control_json}
use pi_piper.Registry.{Hub}
use pi_piper.Rpc.RemoteAgent.{Message, text}
use pi_piper.Server.Ws.{Sink}
use pi_piper.Server.Ws.Relay.{send_all}
use pi_piper.Server.Control.{Recv, received, lagged, closed, snapshot_json, forward_control, handle}

-- The messages received until the channel closes, oldest first.
abbrev pub announcements : List Recv → List ControlEvent
announcements [] = []
announcements (received event ∷ rest) = event ∷ announcements rest
announcements (lagged ∷ rest) = announcements rest
announcements (closed ∷ rest) = []

-- Whether the channel closes.
abbrev pub closes : List Recv → Bool
closes [] = false
closes (received event ∷ rest) = closes rest
closes (lagged ∷ rest) = closes rest
closes (closed ∷ rest) = true

module _ (V : Type 0) ⦃json : Json V⦄ where
  abbrev pub control_frame : ControlEvent → Message
  control_frame event = text (json.to_string (control_json event))

  module _ {S : Type 0} ⦃sink : Sink S⦄ where
    pub forward_control_lem :
        (events : List Recv) (s : S)
        → forward_control V events s
          ≡ send_all (closes events) (map control_frame (announcements events)) s
    unfolding forward_control
    forward_control_lem [] s = refl
    forward_control_lem (received event ∷ rest) s =
        ap
          (λ (more : S × Bool).
            if (sink.send (control_frame event) s).0
            then more
            else ((sink.send (control_frame event) s).1, true))
          (forward_control_lem rest (sink.send (control_frame event) s).1)
    forward_control_lem (lagged ∷ rest) s = forward_control_lem rest s
    forward_control_lem (closed ∷ rest) s = refl

module _ {V W S : Type 0} ⦃json : Json V⦄ ⦃watch : Watch W⦄ ⦃sink : Sink S⦄ where
  -- A phone on the control channel is sent the snapshot of the hub, then one frame per control
  -- message that is received before the channel closes, in order, up to the first failed send, and
  -- nothing else; the handler has ended exactly when a send failed or the channel closed.
  pub handle_lem :
      (hub : Hub V W) (events : List Recv) (s : S)
      → handle hub events s
        ≡ send_all
            (closes events)
            (text (json.to_string (snapshot_json hub))
              ∷ map (control_frame V) (announcements events))
            s
  unfolding handle
  handle_lem hub events s =
      let first = sink.send (text (json.to_string (snapshot_json hub))) s in
      ap (λ (more : S × Bool). if first.0 then more else (first.1, true))
        (forward_control_lem V events first.1)
