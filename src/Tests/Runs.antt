-- ===== src/Tests/Runs.antt =====
-- Runs of the parts that no theorem is about: startup, routing, the arguments of `pi`, and the loops.

use pi_piper.Prelude.{
  Bool, pos, ◌≡◌, refl, String, true, false, Option, none, some, List, [], ◌∷◌, ok, err,
}
use pi_piper.Config.{Config, pi_args}
use pi_piper.Session.{SessionSummary, now_ms, summary, connected_rx, new}
use pi_piper.Registry.{
  Hub, empty, session, list, register, unregister, get, retire, announce, insert_session,
  handle_event, apply_event, summaries,
}
use pi_piper.Registry.Map.{lookup, insert, remove}
use pi_piper.Status.{next_status, is_status_event, status_changed}
use pi_piper.Registry.Watcher.{received, watch_status, watch_loop}
use pi_piper.Rpc.RemoteAgent.{text}
use pi_piper.Rpc.Process.{Command, Child, SpawnError, spawn}
use pi_piper.AgentToken.{default_path}
use pi_piper.Main.{choose_token, start_headless}
use pi_piper.Server.{Route, router}
use pi_piper.Server.Agent as Agent
use pi_piper.Server.Ws.{relay_commands}
use pi_piper.Samples.Value.{Value, value_json}
use pi_piper.Samples.Channels.{Cell, cell_watch}
use pi_piper.Tests.Channels.{Files, list_files}
use pi_piper.Tests.Data.{start_event, hub_one}

abbrev some_config : Config
some_config = record {
  pi_command = "pi";
  project_dir = some "/work";
  session = some "s.jsonl";
  no_session = false;
  extra_pi_args = "--fast" ∷ [];
  bind = "127.0.0.1:4390";
  agent_token = some "secret";
  agent_token_path = none;
}

routes_control : router "/ws/control" ≡ Route.control
unfolding router
routes_control = refl

routes_file : router "/ws/other" ≡ Route.static_files
unfolding router
routes_file = refl

before_epoch : now_ms none ≡ pos 0
unfolding now_ms
before_epoch = refl

session_passed : pi_args some_config ≡ "--mode" ∷ "rpc" ∷ "--session" ∷ "s.jsonl" ∷ "--fast" ∷ []
unfolding pi_args
session_passed = refl

no_session_wins :
    pi_args (record some_config { no_session = true })
    ≡ "--mode" ∷ "rpc" ∷ "--no-session" ∷ "--fast" ∷ []
unfolding pi_args
no_session_wins = refl

path_of_home : default_path (some "/root") ≡ "/root/.pi/agent/pi-piper/agent-token"
unfolding default_path
path_of_home = refl

abbrev some_files : Files
some_files = []

given_token : choose_token none "ab" "cd" some_config some_files ≡ (ok "secret", some_files)
unfolding choose_token
given_token = refl

abbrev no_child : Command → Option (Child String String)
no_child command = none

abbrev empty_hub : Hub Value Cell
empty_hub = empty

pi_is_missing :
    start_headless no_child 1 "h" (pos 7) some_config empty_hub ≡ err (SpawnError.spawning "pi")
unfolding start_headless spawn
pi_is_missing = refl

abbrev empty_world : Agent.World Value Cell
empty_world = record { hub = empty; outbound = [] }

closed_is_gone :
    session "a"
      (Agent.handle 1 ((pos 3, some (text "register a")) ∷ (pos 4, none) ∷ []) empty_world).hub
    ≡ none
unfolding Agent.handle Agent.read_loop Agent.on_message Agent.on_frame Agent.on_register
    Agent.register_meta Agent.on_closed register unregister get lookup insert remove retire announce
    insert_session
closed_is_gone = refl

commands_in_order :
    relay_commands
      (λ (v : Value) (sent : List Value). v ∷ sent)
      (some (text "one") ∷ some (text "oops") ∷ some (text "two") ∷ none ∷ some (text "three") ∷ [])
      []
    ≡ Value.text "two" ∷ Value.text "one" ∷ []
unfolding relay_commands
commands_in_order = refl

abbrev streaming_of : List SessionSummary → List Bool
streaming_of [] = []
streaming_of (s ∷ rest) = s.status.is_streaming ∷ streaming_of rest

watcher_sees_start :
    streaming_of (list (watch_status 0 ((λ hub. hub, pos 9, received start_event) ∷ []) hub_one))
    ≡ true ∷ []
unfolding watch_status watch_loop handle_event apply_event next_status is_status_event
    status_changed announce list summaries summary register get lookup insert retire insert_session
    connected_rx new
watcher_sees_start = refl
