-- ===== src/Tests/Agent.antt =====
-- The connections of two agents.
use mathlib.Core.Option
use pi_piper.Prelude.{
  pos, ◌≡◌, ◌<◌, arith, true, false, ◌≢◌, refl, String, none, some, [], ◌∷◌, eq_iff, length,
  get_elem?,
}
use pi_piper.Session.{mark_disconnected, new, is_connected}
use pi_piper.Registry.{Hub, empty, session, register, unregister}
use pi_piper.Registry.Invariant.{IsValid, empty-IsValid}
use pi_piper.Rpc.RemoteAgent.{text}
use pi_piper.Server.Agent.{World, Connection, on_register, on_frame, on_message, on_closed}
use pi_piper.Server.Agent.Worlds.{
  System, Reach, Reach-IsValid, after_message, update_at, accepts, receives, here, next,
}
use pi_piper.Server.Agent.Races.{older_close_evicts, first_id_stays, unwatched_stays_connected}
use pi_piper.Registry.{Task, announce, retire, insert_session, get, handle_event, update_handle}
use pi_piper.Registry.Map.{insert, lookup}
use pi_piper.Registry.Updates.{status_of}
use pi_piper.Registry.Mirror.{client}
use pi_piper.Session.{SessionHandle, connected_rx}
use pi_piper.Session.Connected.{watchers}
use pi_piper.Status.{is_status_event, status_changed, next_status}
use pi_piper.Rpc.RemoteAgent.{close_frame}
use pi_piper.Server.Agent.SelfClose.{re_register_closes_itself}
use pi_piper.Server.Agent.CrossTalk.{replaced_events_mix}
use pi_piper.Server.Ws.Ending.{session_end_ends_forwarding}
use pi_piper.Server.Ws.{forward_events}
use pi_piper.Server.Ws.Relay.{send_all}
use pi_piper.Registry.Watcher.{received, changed_ok}
use pi_piper.Samples.Channels.{socket_sink}
use pi_piper.Tests.Server.{roomy_socket}
use pi_piper.Server.Agent.Races.{stale_event_overwrites}
use pi_piper.Server.Agent.Worlds.{run_shutdown, Step-IsValid, subscribes}
use pi_piper.Samples.Value.{Value, value_json, register_frame, obj, entry, end}
use pi_piper.Samples.Channels.{Cell, cell_watch}
use pi_piper.Tests.Data.{
  meta_of, link_one, link_two, start_event, hub_one, hub_one-IsValid, world_one, first_connection,
  second_connection,
}

abbrev registered_b : Connection × World Value Cell
registered_b = on_register "b" (pos 3) (register_frame "b") (second_connection, world_one)

abbrev registered_again : Connection × World Value Cell
registered_again = on_register "a" (pos 3) (register_frame "a") (second_connection, world_one)

older_close_evicts_example :
    (registered_again.0.session_id ≡ some "a")
    × (session "a" registered_again.1.hub ≢ none)
    × (session "a" (on_closed (first_connection, registered_again.1)).hub ≡ none)
older_close_evicts_example =
    older_close_evicts "a" (pos 3) (register_frame "a") first_connection second_connection world_one
      hub_one-IsValid refl

b_is_not_a : ◌≢◌ {A = String} "b" "a"
b_is_not_a h = cc ((eq_iff "b" "a").1 h)

first_id_stays_example :
    session "b" (on_closed (on_register "a" (pos 4) (register_frame "a") registered_b)).hub ≢ none
first_id_stays_example =
    first_id_stays "b" "a" (pos 3) (pos 4) (register_frame "b") (register_frame "a")
      second_connection world_one hub_one-IsValid b_is_not_a

unwatched_stays_connected_example :
    (session "b" (unregister "b" (register "b" link_two (meta_of "b") hub_one)) ≡ none)
    × (get_elem?
          (unregister "b" (register "b" link_two (meta_of "b") hub_one)).handles
          (length hub_one.handles)
        ≡ some (new link_two (meta_of "b")))
    × (is_connected (new {W = Cell} link_two (meta_of "b")) ≡ true)
unwatched_stays_connected_example =
    unwatched_stays_connected link_two (meta_of "b") hub_one hub_one-IsValid

abbrev quiet_system : System Value Cell
quiet_system = record { world = record { hub = empty; outbound = [] }; open_at = λ n. none }

abbrev unregistered_connection : Connection
unregistered_connection = record { number = 1; session_id = none }

abbrev accepted_system : System Value Cell
accepted_system = record quiet_system {
  open_at = update_at 1 (some unregistered_connection) quiet_system.open_at;
}

abbrev registered_system : System Value Cell
registered_system =
    after_message 1
      (on_message (pos 3) (text "register a") (unregistered_connection, accepted_system.world))
      accepted_system

registered_reached : Reach quiet_system registered_system
registered_reached =
    next (next here (accepts 1 refl))
      (receives 1 unregistered_connection (pos 3) (text "register a") refl)

Reach-IsValid_example : IsValid registered_system.world.hub
Reach-IsValid_example = Reach-IsValid empty-IsValid registered_reached

abbrev registered_b_twice : Connection × World Value Cell
registered_b_twice = on_register "b" (pos 4) (register_frame "b") registered_b

re_register_closes_itself_example :
    (registered_b_twice.1.hub.tasks
      ≡ Task.watch_status (length registered_b.1.hub.handles)
        ∷ Task.shutdown (length hub_one.handles)
        ∷ registered_b.1.hub.tasks)
    × ((s : SessionHandle Cell) × (get_elem? registered_b_twice.1.hub.handles
            (length hub_one.handles)
          ≡ some s)
        × ((run_shutdown s.link registered_b_twice.1).outbound
            ≡ (2, close_frame) ∷ registered_b_twice.1.outbound))
re_register_closes_itself_example =
    re_register_closes_itself "b" (pos 3) (pos 4) (register_frame "b") (register_frame "b")
      second_connection world_one hub_one-IsValid

-- The session "a" with one receiver on its watch.
abbrev watched_hub : Hub Value Cell
watched_hub = update_handle 0 connected_rx hub_one

abbrev watched_handle : SessionHandle Cell
watched_handle = connected_rx (new link_one (meta_of "a"))

abbrev system_one : System Value Cell
system_one = record { world = world_one; open_at = λ n. none }

watched_hub-IsValid : IsValid watched_hub
watched_hub-IsValid = Step-IsValid {s = system_one} (subscribes 0) hub_one-IsValid

watched_got : get "a" watched_hub ≡ some 0
unfolding register announce retire get insert_session insert lookup
watched_got = refl

watched_held : get_elem? watched_hub.handles 0 ≡ some watched_handle
unfolding register announce retire get insert_session insert lookup
watched_held = refl

watched : 0 < watchers watched_handle
unfolding connected_rx new
watched = omega arith

start_seen : is_status_event "agent_start" ≡ true
unfolding is_status_event
start_seen = refl

start_changes :
    status_changed watched_handle.status
      (status_of "agent_start" (pos 9) start_event watched_handle)
    ≡ true
unfolding status_changed next_status new connected_rx
start_changes = refl

abbrev stale_hub : Hub Value Cell
stale_hub = handle_event 0 (pos 9) start_event (register "a" link_two (meta_of "a") watched_hub)

stale_event_overwrites_example :
    (Option.map (λ c. c.connected) (client none stale_hub.control "a") ≡ some false)
    × (Option.map is_connected (session "a" stale_hub) ≡ some true)
stale_event_overwrites_example =
    stale_event_overwrites link_two (meta_of "a") 0 (pos 9) start_event watched_handle watched_hub
      watched_hub-IsValid watched_got watched_held watched start_seen start_changes

-- A bridge has relayed an event when the session ends.
session_end_ends_forwarding_example :
    let gone = mark_disconnected watched_handle in
    (get_elem? (unregister "a" watched_hub).handles 0 ≡ some gone)
    × (get_elem? (register "a" link_two (meta_of "a") watched_hub).handles 0 ≡ some gone)
    × (forward_events
          (received start_event ∷ changed_ok (is_connected gone) ∷ received start_event ∷ [])
          roomy_socket
        ≡ send_all true (text "type" ∷ []) roomy_socket)
session_end_ends_forwarding_example =
    session_end_ends_forwarding "a" 0 link_two (meta_of "a") watched_handle watched_hub
      (received start_event ∷ []) (received start_event ∷ []) roomy_socket watched_got watched_held
      watched

abbrev event_frame : Value
event_frame = obj (entry "type" (Value.text "event") (entry "event" start_event end))

replaced_events_mix_example :
    (on_frame (pos 4) event_frame (first_connection, registered_again.1)).1.hub.published
    ≡ (length hub_one.handles, start_event) ∷ registered_again.1.hub.published
replaced_events_mix_example =
    replaced_events_mix "a" (pos 3) (pos 4) (register_frame "a") event_frame start_event
      first_connection second_connection world_one hub_one-IsValid refl refl refl
