-- ===== src/Tests/Interleavings.antt =====
-- A phone on the control channel, while a second agent registers and the first ends.
use mathlib.Core.Option
use mathlib.Core.List.{reverse}
use pi_piper.Prelude.{◌≡◌, refl, false, none, List, [], ◌∷◌, ◌++◌, map, pos, arith}
use pi_piper.Events.{ControlEvent, session_connected, session_disconnected}
use pi_piper.Session.{AgentLink, SessionSummary, summary, new, is_connected, mark_disconnected}
use pi_piper.Registry.{session, list, get, register, unregister, announce, retire, insert_session}
use pi_piper.Registry.Map.{lookup, insert, remove}
use pi_piper.Registry.Mirror.{client, live, shown_handle}
use pi_piper.Registry.Mirror.Snapshot.{snapshot_at}
use pi_piper.Rpc.RemoteAgent.{text}
use pi_piper.Broadcast.{Turn, sends, polls, sent, KeepsUp}
use pi_piper.Broadcast.Order.{received_all}
use pi_piper.Server.Ws.Relay.{send_all}
use pi_piper.Server.Control.{handle}
use pi_piper.Server.Control.Channel.{control_channel_capacity, recv_of}
use pi_piper.Server.Control.Reading.{IsSnapshotOf, AreFramesOf}
use pi_piper.Server.Control.Interleavings.{interleavings_converge, feed_converges}
use pi_piper.Server.Agent.{on_message, on_frame, on_register, on_closed, register_meta}
use pi_piper.Server.Agent.Told.{CurrentReach, here, next}
use pi_piper.Server.Agent.Worlds.{System, update_at, accepts, receives, ends}
use pi_piper.Samples.Value.{Value, value_json, register_frame}
use pi_piper.Samples.Channels.{Cell, cell_watch, socket_sink}
use pi_piper.Tests.Feed.{control_queue, no_messages, open_socket}
use pi_piper.Tests.Owners.{start, registered, accepting, registering}
use pi_piper.Tests.Traffic.{first, second, joined, both}

abbrev left_one : System Value Cell
left_one = record { world = on_closed (first, both.world); open_at = update_at 1 none both.open_at }

-- The phone subscribes once the first agent has registered.
until_subscribed : CurrentReach start registered
until_subscribed = next (next here accepting tt) registering tt

until_listed : CurrentReach registered joined
unfolding on_message on_frame on_register
until_listed = next here (accepts 2 refl) tt

until_end : CurrentReach joined left_one
unfolding on_message on_frame on_register
until_end =
    next (next here (receives 2 (second none) (pos 4) (text "register b") refl) tt)
      (ends 1 first refl) tt

abbrev joined_summary : SessionSummary
joined_summary = summary {W = Cell} (
    new (AgentLink.remote (record { to_agent = 2; events_tx = 1 }))
      (register_meta "b" (pos 4) (register_frame "b")))

abbrev control_turns : List (Turn ControlEvent)
control_turns =
    sends (session_connected joined_summary) ∷ sends (session_disconnected "a") ∷ polls ∷ []

control_turns-KeepsUp : KeepsUp control_channel_capacity control_turns no_messages
control_turns-KeepsUp = (omega arith, (refl, omega arith))

control_since :
    left_one.world.hub.control ≡ reverse (sent control_turns) ++ registered.world.hub.control
unfolding on_message on_frame on_register on_closed register_meta register unregister announce
    retire insert_session get lookup insert remove new summary is_connected mark_disconnected
control_since = refl

interleavings_converge_example :
    (news : List ControlEvent) × (left_one.world.hub.control ≡ news ++ registered.world.hub.control)
    × (live (client (snapshot_at "b" (list joined.world.hub)) news "b")
        ≡ Option.map shown_handle (session "b" left_one.world.hub))
interleavings_converge_example = interleavings_converge "b" until_subscribed until_listed until_end

feed_converges_example :
    (frame : Value) × (frames : List Value) × (handle joined.world.hub
        (map recv_of (received_all control_turns no_messages))
        open_socket
      ≡ send_all false (map (λ v. text (value_json.to_string v)) (frame ∷ frames)) open_socket)
    × IsSnapshotOf frame (list joined.world.hub)
    × AreFramesOf frames (sent control_turns)
    × (live (client (snapshot_at "a" (list joined.world.hub)) (reverse (sent control_turns)) "a")
        ≡ Option.map shown_handle (session "a" left_one.world.hub))
feed_converges_example =
    feed_converges control_turns no_messages open_socket "a" until_subscribed until_listed until_end
      refl control_since control_turns-KeepsUp
