-- ===== src/Server/Control/Feed.antt =====
-- src/server/control.rs and src/registry.rs: the control channel from the registry to the phone.
use mathlib.Core.Option
use mathlib.Core.List.{reverse, append_cancel_right}
use pi_piper.Prelude.{◌≡◌, refl, sym, ◌∙◌, ap, String, false, List, [], ◌∷◌, ◌++◌, map}
use pi_piper.Json.{Json}
use pi_piper.Watch.{Watch}
use pi_piper.Events.{ControlEvent}
use pi_piper.Registry.{Hub, empty, session, list}
use pi_piper.Registry.Mirror.{client, live, shown_handle}
use pi_piper.Registry.Mirror.Run.{Op, run}
use pi_piper.Registry.Mirror.Snapshot.{snapshot_at}
use pi_piper.Registry.Mirror.Converge.{snapshot_converges}
use pi_piper.Rpc.RemoteAgent.{text}
use pi_piper.Server.Ws.{Sink}
use pi_piper.Server.Ws.Relay.{send_all}
use pi_piper.Server.Control.{Recv, received, snapshot_json, handle}
use pi_piper.Server.Control.Frames.{announcements, closes, control_frame, handle_lem}
use pi_piper.Server.Control.Channel.{control_channel_capacity, recv_of}
use pi_piper.Broadcast.{got, Receiver, Turn, sent, KeepsUp}
use pi_piper.Broadcast.Order.{received_all, received_all_lem}

pub announcements-received :
    (events : List ControlEvent) → announcements (map received events) ≡ events
announcements-received [] = refl
announcements-received (e ∷ rest) = ap (λ l. e ∷ l) (announcements-received rest)

pub closes-received : (events : List ControlEvent) → closes (map received events) ≡ false
closes-received [] = refl
closes-received (e ∷ rest) = closes-received rest

pub recv_of-got : (events : List ControlEvent) → map recv_of (map got events) ≡ map received events
recv_of-got [] = refl
recv_of-got (e ∷ rest) = ap (λ l. received e ∷ l) (recv_of-got rest)

module _ {V W S : Type 0} ⦃json : Json V⦄ ⦃watch : Watch W⦄ ⦃sink : Sink S⦄ where
  handle-received :
      (hub : Hub V W) (events : List ControlEvent) (polled : List Recv) (s : S)
      → polled ≡ map received events
      → handle hub polled s
        ≡ send_all false
            (text (json.to_string (snapshot_json hub)) ∷ map (control_frame V) events)
            s
  handle-received hub events polled s e =
      ap (λ l. handle hub l s) e
      ∙ handle_lem hub (map received events) s
      ∙ ap
          (λ b.
            send_all b
              (text (json.to_string (snapshot_json hub))
                ∷ map (control_frame V) (announcements (map received events)))
              s)
          (closes-received events)
      ∙ ap
          (λ l.
            send_all false (text (json.to_string (snapshot_json hub)) ∷ map (control_frame V) l) s)
          (announcements-received events)

module _ {V W S R : Type 0} ⦃json : Json V⦄ ⦃watch : Watch W⦄ ⦃sink : Sink S⦄
    ⦃receiver : Receiver ControlEvent R⦄ where
  -- A receiver that keeps up is told all that takes the list to the registry.
  pub feed-converge :
      (id : String) (subscribed listed hub : Hub V W)
      → ((news : List ControlEvent) × (hub.control ≡ news ++ subscribed.control)
          × (live (client (snapshot_at id (list listed)) news id)
              ≡ Option.map shown_handle (session id hub)))
      → (turns : List (Turn ControlEvent)) (r : R) (s : S) → receiver.pending r ≡ []
      → hub.control ≡ reverse (sent turns) ++ subscribed.control
      → KeepsUp control_channel_capacity turns r
      → (handle listed (map recv_of (received_all turns r)) s
          ≡ send_all false
              (text (json.to_string (snapshot_json listed)) ∷ map (control_frame V) (sent turns))
              s)
        × (live (client (snapshot_at id (list listed)) (reverse (sent turns)) id)
            ≡ Option.map shown_handle (session id hub))
  feed-converge id subscribed listed hub (news, told, knows) turns r s p sends_all h = (
    handle-received listed (sent turns) _ s (
        ap (map recv_of) (received_all_lem control_channel_capacity turns r p h)
        ∙ recv_of-got (sent turns)),
    ap (λ l. live (client (snapshot_at id (list listed)) l id))
          (append_cancel_right (reverse (sent turns)) news _ (sym sends_all ∙ told))
        ∙ knows,
  )

module _ {V : Type 0} (W : Type 0) {S R : Type 0} ⦃json : Json V⦄ ⦃watch : Watch W⦄ ⦃sink : Sink S⦄
    ⦃receiver : Receiver ControlEvent R⦄ where
  -- Whatever operations are run before the subscription of a phone, between it and the list, and
  -- after that, from the empty registry, and however the sends of the control messages since the
  -- subscription and the turns of the phone's task are mixed: if nothing is pending at the
  -- subscription, never more than 256 messages are pending at a turn of the task or at the end, and
  -- the task then has one more turn for each message still pending, the phone is sent the list and
  -- one frame per message, in order, up to the first failed send; and with these messages on top of
  -- the list it knows of each session id what is registered under it, the time of the last activity
  -- apart.
  pub received_all_converges :
      (before between after : List (Op V)) (turns : List (Turn ControlEvent)) (r : R) (s : S)
      (id : String)
      → let subscribed = run {W = W} before empty in
        let listed = run between subscribed in
        let hub = run after listed in
        receiver.pending r ≡ []
        → hub.control ≡ reverse (sent turns) ++ subscribed.control
        → KeepsUp control_channel_capacity turns r
        → (handle listed (map recv_of (received_all turns r)) s
            ≡ send_all false
                (text (json.to_string (snapshot_json listed)) ∷ map (control_frame V) (sent turns))
                s)
          × (live (client (snapshot_at id (list listed)) (reverse (sent turns)) id)
              ≡ Option.map shown_handle (session id hub))
  received_all_converges before between after turns r s id =
      let subscribed = run {W = W} before empty in
      let listed = run between subscribed in
      feed-converge id subscribed listed (run after listed)
        (snapshot_converges W before between after id) turns r s
