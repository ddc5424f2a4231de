-- ===== src/Tests/Traffic.antt =====
-- Two agents that send events in turn, and a phone that follows the first.
use mathlib.Core.Option.{some-injective}
use mathlib.Core.List.{reverse}
use pi_piper.Prelude.{
  ℕ, zero, suc, ◌≡◌, refl, sym, ap, ◌∙◌, String, Option, none, some, List, [], ◌∷◌, ◌++◌, map, pos,
  inl, arith, false, eq_iff,
}
use pi_piper.Session.{AgentLink, RemoteAgent, SessionHandle, new}
use pi_piper.Registry.{session, get, register, announce, retire, insert_session}
use pi_piper.Registry.Map.{lookup, insert}
use pi_piper.Registry.Watcher.{Signal}
use pi_piper.Rpc.RemoteAgent.{text, event_channel_capacity}
use pi_piper.Link.{Channel, of_agent, of_process}
use pi_piper.Broadcast.{Receiver, Turn, sends, polls, sent, KeepsUp}
use pi_piper.Broadcast.Order.{received_all, catches_up}
use pi_piper.Server.Agent.{Connection, on_message, on_frame, on_register, register_meta}
use pi_piper.Server.Agent.Spawned.{watched, below, watchers_spawned}
use pi_piper.Server.Agent.SelfClose.{replaced_is_closed}
use pi_piper.Server.Agent.Worlds.{run_shutdown}
use pi_piper.Registry.{Task}
use pi_piper.Rpc.RemoteAgent.{close_frame}
use pi_piper.Prelude.{length, get_elem?}
use pi_piper.Prelude.{◌≢◌}
use pi_piper.Server.Agent.Worlds as Worlds
use pi_piper.Server.Agent.Links.{link_of}
use pi_piper.Server.Agent.Worlds.{System, Reach, Step, after_message, update_at, accepts, receives}
use pi_piper.Server.Agent.Owners.Traffic.{Traffic, on_channel, quiet, speaks, moves}
use pi_piper.Server.Agent.Owners.Channels.{channels_apart}
use pi_piper.Server.Agent.Owners.Delivery.{messages_delivered}
use pi_piper.Server.Agent.Owners.Exclusive.{ExclusiveReach-Reach}
use pi_piper.Server.Ws.{forward_events}
use pi_piper.Server.Ws.Bridge.{bridge}
use pi_piper.Server.Ws.Relay.{send_all}
use pi_piper.Server.Ws.Feed.{
  signal_of, event_frame, events_reach_phones, lag_skips, stdout_reaches_phones,
}
use pi_piper.Samples.Value.{Value, register_frame, value_json}
use pi_piper.Samples.Channels.{Cell, cell_watch, socket_sink}
use pi_piper.Samples.Queue.{Queue, queue_receiver}
use pi_piper.Tests.Data.{start_event, name_patch}
use pi_piper.Tests.Owners.{start, registered, exclusive, registered_open, registered_link}
use pi_piper.Tests.Startup.{links_of_tests, socket_of_tests}
use pi_piper.Tests.Channels.{text_sink, text_lines, text_source}
use pi_piper.Tests.Rpc.{NoNewline-has_newline}
use pi_piper.Rpc.Framing.{All, NoNewline, unlines, parsed, forward_stdout-unlines}
use pi_piper.Rpc.Process.{forward_stdout}

instance abbrev event_queue : Receiver Value (Queue Value)
event_queue = queue_receiver Value event_channel_capacity

abbrev pub first : Connection
first = record { number = 1; session_id = some "a" }

abbrev pub second : Option String → Connection
second id = record { number = 2; session_id = id }

abbrev pub joined : System Value Cell
joined = record registered { open_at = update_at 2 (some (second none)) registered.open_at }

abbrev pub both : System Value Cell
both = after_message 2 (on_message (pos 4) (text "register b") (second none, joined.world)) joined

abbrev first_spoke : System Value Cell
first_spoke = after_message 1 (on_message (pos 5) (text "agent starts") (first, both.world)) both

abbrev both_spoke : System Value Cell
both_spoke =
    after_message 2
      (on_message (pos 6) (text "agent starts") (second (some "b"), first_spoke.world)) first_spoke

joining : Step registered joined
unfolding on_message on_frame on_register
joining = accepts 2 refl

free_b : link_of "b" registered.world.hub ≡ none
unfolding on_message on_frame on_register register register_meta announce retire insert_session
    insert get lookup new
free_b = refl

-- The second agent registers, the first sends an event, and the second sends one.
traffic : Traffic 1 registered (start_event ∷ []) both_spoke
unfolding on_message on_frame on_register get
traffic =
    moves
      (speaks
        (moves (moves quiet (accepts 2 refl) tt tt)
          (receives 2 (second none) (pos 4) (text "register b") refl)
          (λ id e.
            inl (ap (λ k. link_of k registered.world.hub) (sym (some-injective _ _ e)) ∙ free_b))
          (λ e. cc e))
        first (pos 5) (text "agent starts") refl refl)
      (receives 2 (second (some "b")) (pos 6) (text "agent starts") refl) (λ id e. cc e) (λ e. cc e)

abbrev agent_a : RemoteAgent
agent_a = record { to_agent = 1; events_tx = 0 }

messages_delivered_example :
    (on_channel 0 both_spoke.world.hub.published
      ≡ start_event ∷ on_channel 0 registered.world.hub.published)
    × (link_of "a" both_spoke.world.hub ≡ link_of "a" registered.world.hub)
    × (both_spoke.open_at 1 ≡ some first)
messages_delivered_example =
    messages_delivered 1 0 "a" first exclusive registered_open refl registered_link traffic

abbrev agent_b : RemoteAgent
agent_b = record { to_agent = 2; events_tx = 1 }

both_reached : Reach start both
unfolding on_message on_frame on_register
both_reached =
    Worlds.next (Worlds.next (ExclusiveReach-Reach exclusive) (accepts 2 refl))
      (receives 2 (second none) (pos 4) (text "register b") refl)

both_links :
    (link_of "a" both.world.hub ≡ some (AgentLink.remote agent_a))
    × (link_of "b" both.world.hub ≡ some (AgentLink.remote agent_b))
unfolding on_message on_frame on_register register register_meta announce retire insert_session
    insert get lookup new
both_links = (refl, refl)

different_ids : ◌≢◌ {A = String} "a" "b"
different_ids e = cc ((eq_iff "a" "b").1 e)

channels_apart_example : ◌≢◌ {A = ℕ} 0 1
channels_apart_example =
    channels_apart "a" "b" agent_a agent_b both_reached both_links.0 both_links.1 different_ids

abbrev followed : SessionHandle Cell
followed = new (AgentLink.remote agent_a) (register_meta "a" (pos 3) (register_frame "a"))

followed_registered : session "a" registered.world.hub ≡ some followed
unfolding on_message on_frame on_register register register_meta announce retire insert_session
    insert get lookup new
followed_registered = refl

-- The phone follows the channel from before the first event.
abbrev event_turns : List (Turn Value)
event_turns = sends start_event ∷ polls ∷ []

abbrev nothing_pending : Queue Value
nothing_pending = record { waiting = [] }

event_turns-KeepsUp : KeepsUp event_channel_capacity event_turns nothing_pending
event_turns-KeepsUp = (omega arith, (refl, omega arith))

abbrev event_signals : Channel → List (Signal Value)
event_signals (of_agent zero) = map signal_of (received_all event_turns nothing_pending)
event_signals _ = []

first_published :
    on_channel 0 both_spoke.world.hub.published
    ≡ reverse (sent event_turns) ++ on_channel 0 registered.world.hub.published
first_published =
    (messages_delivered 1 0 "a" first exclusive registered_open refl registered_link traffic).0

events_reach_phones_example :
    (bridge (λ n. "u") followed event_signals [] socket_of_tests links_of_tests).1
    ≡ (send_all false (event_frame start_event ∷ []) socket_of_tests).0
unfolding new
events_reach_phones_example =
    events_reach_phones (λ n. "u") 1 0 "a" first event_turns nothing_pending followed event_signals
      [] socket_of_tests links_of_tests exclusive registered_open refl followed_registered refl
      traffic first_published refl event_turns-KeepsUp refl

abbrev repeated : ℕ → List Value
repeated zero = []
repeated (suc n) = name_patch ∷ repeated n

abbrev lagging : Queue Value
lagging = record { waiting = start_event ∷ start_event ∷ repeated 1024 }

lag_skips_example :
    forward_events (map signal_of (catches_up (repeated 1024) lagging)) socket_of_tests
    ≡ send_all false (map event_frame (repeated 1024)) socket_of_tests
lag_skips_example =
    lag_skips lagging (start_event ∷ []) (repeated 1024) start_event socket_of_tests refl refl refl

-- The child has said two lines, the first of which was not JSON, before the phone subscribes.
abbrev child_lines : List String
child_lines = "oops" ∷ "register a" ∷ "hello" ∷ []

child_lines-NoNewline : All NoNewline child_lines
child_lines-NoNewline = (
  NoNewline-has_newline "oops" refl,
  (NoNewline-has_newline "register a" refl, (NoNewline-has_newline "hello" refl, tt)),
)

abbrev child_turns : List (Turn Value)
child_turns = sends (Value.text "hello") ∷ polls ∷ []

child_turns-KeepsUp : KeepsUp 1024 child_turns nothing_pending
child_turns-KeepsUp = (omega arith, (refl, omega arith))

abbrev child_handle : SessionHandle Cell
child_handle = new (AgentLink.headless 0) (register_meta "h" (pos 3) (register_frame "h"))

abbrev child_signals : Channel → List (Signal Value)
child_signals (of_process zero) = map signal_of (received_all child_turns nothing_pending)
child_signals _ = []

child_forwards :
    forward_stdout {R = String} 4 (unlines child_lines)
    ≡ some (register_frame "a" ∷ sent child_turns)
child_forwards = forward_stdout-unlines String child_lines 4 child_lines-NoNewline (omega arith)

stdout_reaches_phones_example :
    (later : List Value) × (parsed child_lines ≡ register_frame "a" ∷ later)
    × ((bridge (λ n. "u") child_handle child_signals [] socket_of_tests links_of_tests).1
        ≡ (send_all false (map event_frame later) socket_of_tests).0)
unfolding new
stdout_reaches_phones_example =
    stdout_reaches_phones String (λ n. "u") 0 child_lines 4 (register_frame "a" ∷ []) child_turns
      nothing_pending child_handle child_signals [] socket_of_tests links_of_tests
      child_lines-NoNewline (omega arith) refl child_forwards refl child_turns-KeepsUp refl

watchers_spawned_example :
    watched registered.world.hub.tasks ≡ below (length registered.world.hub.handles)
watchers_spawned_example = watchers_spawned (ExclusiveReach-Reach exclusive)

-- The second agent takes the id of the first.
replaced_is_closed_example :
    let (_, world) = on_register "a" (pos 9) (register_frame "a") (second none, registered.world) in
    (old : ℕ) × (s : SessionHandle Cell) × (world.hub.tasks
      ≡ Task.watch_status (length registered.world.hub.handles)
        ∷ Task.shutdown old
        ∷ registered.world.hub.tasks)
    × (get_elem? world.hub.handles old ≡ some s)
    × ((run_shutdown s.link world).outbound ≡ (1, close_frame) ∷ world.outbound)
replaced_is_closed_example =
    replaced_is_closed "a" 1 0 (pos 9) (register_frame "a") (second none) registered.world
      registered_link
