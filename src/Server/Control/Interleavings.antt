-- ===== src/Server/Control/Interleavings.antt =====
-- src/server/control.rs, src/server/agent.rs and src/registry.rs: the control channel from the steps of
-- all connections and tasks to the phone.
use mathlib.Core.Option
use mathlib.Core.List.{reverse}
use pi_piper.Prelude.{String, ◌≡◌, refl, ap, ◌∙◌, false, List, [], ◌∷◌, ◌++◌, map}
use pi_piper.Json.{Json}
use pi_piper.Watch.{Watch}
use pi_piper.Events.{ControlEvent, control_json}
use pi_piper.Registry.{session, list}
use pi_piper.Registry.Mirror.{client, live, shown_handle}
use pi_piper.Registry.Mirror.Run.{empty-IsSound}
use pi_piper.Registry.Mirror.Snapshot.{snapshot_at}
use pi_piper.Registry.Mirror.Converge.{converge}
use pi_piper.Rpc.RemoteAgent.{text}
use pi_piper.Server.Ws.{Sink}
use pi_piper.Server.Ws.Relay.{send_all}
use pi_piper.Server.Control.{snapshot_json, handle}
use pi_piper.Server.Control.Frames.{control_frame}
use pi_piper.Server.Control.Channel.{control_channel_capacity, recv_of}
use pi_piper.Server.Control.Reading.{
  IsSnapshotOf, AreFramesOf, snapshot_json-IsSnapshotOf, frames-AreFramesOf,
}
use pi_piper.Server.Control.Feed.{feed-converge}
use pi_piper.Server.Agent.Owners.{fresh}
use pi_piper.Server.Agent.Told.{CurrentReach, CurrentReach-IsTold}
use pi_piper.Server.Agent.Worlds.{System}
use pi_piper.Broadcast.{Receiver, Turn, sent, KeepsUp}
use pi_piper.Broadcast.Order.{received_all}

module _ {V W : Type 0} ⦃json : Json V⦄ ⦃watch : Watch W⦄ where
  -- In whatever order connections, watchers, bridges, shutdown tasks and the headless session take
  -- their steps before a phone subscribes to the control channel, between that and the list it is
  -- sent, and after that, from a hub without sessions and connections, where each operation of the
  -- registry and its announcement one step, and a watcher steps only while its handle is registered:
  -- once the phone has put every message since the subscription on top of the list, where the
  -- sessions that have ended stay and are marked as not connected, what it shows as connected under
  -- each session id is what is registered under it, the time of the last activity apart.
  pub interleavings_converge :
      {subscribed listed t : System V W} (id : String)
      → CurrentReach fresh subscribed
      → CurrentReach subscribed listed
      → CurrentReach listed t
      → (news : List ControlEvent) × (t.world.hub.control ≡ news ++ subscribed.world.hub.control)
        × (live (client (snapshot_at id (list listed.world.hub)) news id)
            ≡ Option.map shown_handle (session id t.world.hub))
  interleavings_converge {subscribed} {listed} {t} id before between after =
      let sound =
        (CurrentReach-IsTold between).sound ((CurrentReach-IsTold before).sound empty-IsSound) in
      converge id subscribed.world.hub listed.world.hub t.world.hub sound
        ((CurrentReach-IsTold after).sound sound) (CurrentReach-IsTold between).extends
        (CurrentReach-IsTold after).extends

module _ (V : Type 0) ⦃json : Json V⦄ where
  control_frames :
      (events : List ControlEvent)
      → map (control_frame V) events ≡ map (λ v. text (json.to_string v)) (map control_json events)
  control_frames [] = refl
  control_frames (e ∷ events) = ap (λ l. control_frame V e ∷ l) (control_frames events)

module _ {V W S R : Type 0} ⦃json : Json V⦄ ⦃watch : Watch W⦄ ⦃sink : Sink S⦄
    ⦃receiver : Receiver ControlEvent R⦄ where
  -- In whatever order connections, watchers, bridges, shutdown tasks and the headless session take
  -- their steps before the subscription of a phone, between it and the list, and after that, from a
  -- hub without sessions and connections, where each operation of the registry and its announcement
  -- one step, and a watcher steps only while its handle is registered, and however the sends of the
  -- control messages since the subscription and the turns of the phone's task are mixed: if nothing
  -- is pending at the subscription, never more than 256 messages are pending at a turn of the task
  -- or at the end, on a channel made with that capacity, and the task then has one more turn for
  -- each message still pending, the phone is sent the list and one frame per message, in order, up
  -- to the first failed send; the list has each registered session with all that is known of it, and
  -- each frame what its message says, under the names that a phone reads; and with these messages on
  -- top of the list, where the sessions that have ended stay and are marked as not connected, what
  -- the phone shows as connected under each session id is what is registered under it, the time of
  -- the last activity apart.
  pub feed_converges :
      {subscribed listed t : System V W} (turns : List (Turn ControlEvent)) (r : R) (s : S)
      (id : String)
      → CurrentReach fresh subscribed
      → CurrentReach subscribed listed
      → CurrentReach listed t
      → receiver.pending r ≡ []
      → t.world.hub.control ≡ reverse (sent turns) ++ subscribed.world.hub.control
      → KeepsUp control_channel_capacity turns r
      → (frame : V) × (frames : List V) × (handle listed.world.hub
            (map recv_of (received_all turns r))
            s
          ≡ send_all false (map (λ v. text (json.to_string v)) (frame ∷ frames)) s)
        × IsSnapshotOf frame (list listed.world.hub)
        × AreFramesOf frames (sent turns)
        × (live (client (snapshot_at id (list listed.world.hub)) (reverse (sent turns)) id)
            ≡ Option.map shown_handle (session id t.world.hub))
  feed_converges {subscribed} {listed} {t} turns r s id before between after p sends_all h =
      let (told, knows) =
        feed-converge id subscribed.world.hub listed.world.hub t.world.hub
          (interleavings_converge id before between after) turns r s p sends_all h in
      let first = snapshot_json listed.world.hub in
      (
        first,
        map control_json (sent turns),
        told
            ∙ ap (λ l. send_all false (text (json.to_string first) ∷ l) s)
                (control_frames V (sent turns)),
        snapshot_json-IsSnapshotOf listed.world.hub,
        frames-AreFramesOf V (sent turns),
        knows,
      )
