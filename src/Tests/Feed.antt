-- ===== src/Tests/Feed.antt =====
-- The control channel as a queue that keeps its last messages, and a phone that follows it.

use mathlib.Core.List.{reverse}
use pi_piper.Prelude.{
  ℕ, zero, suc, ◌≡◌, refl, pos, true, Option, none, some, List, [], ◌∷◌, ◌++◌, map, arith,
}
use pi_piper.Events.{
  ControlEvent, session_connected, session_meta, session_update, session_disconnected,
}
use pi_piper.Session.{SessionSummary, summary, new, is_connected, mark_disconnected}
use pi_piper.Registry.{
  Hub, empty, session, publish, handle_event, apply_event, register, unregister, update_meta,
  announce, retire, insert_session, get,
}
use pi_piper.Registry.Map.{lookup, insert, remove}
use pi_piper.Status.{patch_meta, is_status_event, next_status, status_changed}
use pi_piper.Registry.Updates.{patched}
use pi_piper.Registry.Mirror.{client}
use pi_piper.Registry.Mirror.Run.{Op, run, step, watch_event, registers, unregisters, patches}
use pi_piper.Server.Control.{forward_control}
use pi_piper.Server.Control.Frames.{control_frame}
use pi_piper.Server.Control.Channel.{control_channel_capacity, recv_of}
use pi_piper.Server.Ws.Relay.{send_all}
use pi_piper.Prelude.{false}
use pi_piper.Broadcast.{Receiver, Turn, sends, polls, sent, KeepsUp}
use pi_piper.Broadcast.Order.{catches_up}
use pi_piper.Samples.Queue.{Queue, queue_receiver}
use pi_piper.Server.Control.Lag.{IsSilent, lag_keeps_gone}
use pi_piper.Samples.Value.{Value, value_json}
use pi_piper.Samples.Channels.{Cell, cell_watch, Socket, socket_sink}
use pi_piper.Tests.Data.{
  meta_of, link_one, link_two, name_patch, earlier_ops, middle_ops, later_ops,
}

instance abbrev pub control_queue : Receiver ControlEvent (Queue ControlEvent)
control_queue = queue_receiver ControlEvent control_channel_capacity

abbrev summary_b : SessionSummary
summary_b = summary {W = Cell} (new link_two (meta_of "b"))

abbrev streaming_b : SessionSummary
streaming_b = record summary_b {
  status = record { is_streaming = true; last_activity_at_ms = pos 9; last_preview = none };
}

-- The phone polls while the registry sends; one message is pending at the end.
abbrev feed_turns : List (Turn ControlEvent)
feed_turns =
    sends (session_connected summary_b)
    ∷ polls
    ∷ sends (session_disconnected "a")
    ∷ sends (session_update streaming_b)
    ∷ polls
    ∷ []

abbrev subscribed_hub : Hub Value Cell
subscribed_hub = run earlier_ops empty

abbrev listed_hub : Hub Value Cell
listed_hub = run middle_ops subscribed_hub

abbrev final_hub : Hub Value Cell
final_hub = run later_ops listed_hub

abbrev pub no_messages : Queue ControlEvent
no_messages = record { waiting = [] }

abbrev pub open_socket : Socket
open_socket = record { sent = []; room = 9 }

feed_control : final_hub.control ≡ reverse (sent feed_turns) ++ subscribed_hub.control
unfolding run step watch_event handle_event apply_event is_status_event next_status status_changed
    publish register unregister update_meta announce retire insert_session get lookup insert remove
    new summary is_connected patch_meta mark_disconnected
feed_control = refl

feed_turns-KeepsUp : KeepsUp control_channel_capacity feed_turns no_messages
feed_turns-KeepsUp = (omega arith, (omega arith, (refl, omega arith)))

abbrev kept_messages : ℕ → List ControlEvent
kept_messages zero = []
kept_messages (suc n) =
    session_meta (summary (patched {W = Cell} name_patch (new link_two (meta_of "b"))))
    ∷ kept_messages n

abbrev many_patches : ℕ → List (Op Value)
many_patches zero = []
many_patches (suc n) = patches "b" name_patch ∷ many_patches n

abbrev lag_ops : List (Op Value)
lag_ops =
    registers link_one (meta_of "a")
    ∷ registers link_two (meta_of "b")
    ∷ unregisters "a"
    ∷ many_patches 256

abbrev kept_256 : List ControlEvent
kept_256 = kept_messages 256

lag_control :
    (run {W = Cell} lag_ops empty).control
    ≡ reverse (session_disconnected "a" ∷ kept_256)
      ++ session_connected (summary {W = Cell} (new link_two (meta_of "b")))
        ∷ session_connected (summary {W = Cell} (new link_one (meta_of "a")))
        ∷ []
unfolding run step register unregister update_meta announce retire insert_session get lookup insert
    remove new summary is_connected patch_meta mark_disconnected
lag_control = refl

kept_messages-IsSilent : (n : ℕ) → IsSilent "a" (kept_messages n)
unfolding summary patch_meta new
kept_messages-IsSilent zero = tt
kept_messages-IsSilent (suc n) = (refl, kept_messages-IsSilent n)

abbrev behind : Queue ControlEvent
behind = record { waiting = session_disconnected "a" ∷ kept_256 }

abbrev summary_a : Option SessionSummary
summary_a = some (summary {W = Cell} (new link_one (meta_of "a")))

lag_keeps_gone_example :
    (session "a" (run {W = Cell} lag_ops empty) ≡ none)
    × (forward_control Value (map recv_of (catches_up kept_256 behind)) open_socket
        ≡ send_all false (map (control_frame Value) kept_256) open_socket)
    × (client summary_a (reverse kept_256) "a" ≡ summary_a)
lag_keeps_gone_example =
    lag_keeps_gone Cell lag_ops behind [] kept_256 _ "a" summary_a open_socket lag_control refl refl
      refl (kept_messages-IsSilent 256)
