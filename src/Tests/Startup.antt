-- ===== src/Tests/Startup.antt =====
-- Starts of the hub, and the commands of a phone at both kinds of link.
use pi_piper.Session.{SessionHandle, new, is_connected}
use pi_piper.Session.Connected.{watchers}
use pi_piper.Registry.Watcher.{Signal, received, lagged}
use pi_piper.Tests.Data.{meta_of, start_event, name_patch}
use pi_piper.Rpc.Process.{shutdown_stdin, start_kill}
use pi_piper.Rpc.RemoteAgent.{close_frame}
use mathlib.Core.Option
use pi_piper.Prelude.{
  map, ℕ, zero, ◌≡◌, refl, String, true, false, pos, Option, none, some, List, [], ◌∷◌, ok,
  get_elem?, ◌>>=◌,
}
use pi_piper.Config.{Config}
use pi_piper.State.{AppState}
use pi_piper.Session.{AgentLink}
use pi_piper.Registry.{empty, session, register}
use pi_piper.Rpc.Process.{spawn, shutdown}
use pi_piper.Rpc.RemoteAgent.{Message, text, close_frame}
use pi_piper.Link
use pi_piper.Link.{Links, Channel, of_agent, subscribe}
use pi_piper.Server.Ws.Bridge.{bridge, bridge_lem}
use pi_piper.Link.Commands.{Delivered, commands, send_on}
use pi_piper.Link.Delivery.{frames_of, AreCommands, text_of, write_outbound-relay_commands}
use pi_piper.Server.Ws.Relay.{send_all}
use pi_piper.Server.Agent.Writer.{write_outbound}
use pi_piper.Server.Ws.{resolve, relay_commands}
use pi_piper.Server.Agent.Links.{link_of}
use pi_piper.Main.{
  Environment, ctrl_c, choose_token, start_headless, headless_meta, prepare, main, headless_exited,
}
use pi_piper.Main.Startup.{child_of, main_child, prepare-headless_exited}
use pi_piper.Samples.Value.{Value, value_json}
use pi_piper.Samples.Channels.{Cell, cell_watch, Socket, socket_sink}
use pi_piper.Tests.Channels.{Files, list_files, text_sink, text_buffer}

abbrev config_of_tests : Config
config_of_tests = record {
  pi_command = "pi";
  project_dir = some "/work";
  session = none;
  no_session = false;
  extra_pi_args = [];
  bind = "127.0.0.1:4390";
  agent_token = some "secret";
  agent_token_path = none;
}

abbrev environment : Environment Value Cell String String
environment = record {
  home = none;
  uuids = ("ab", "cd", "h");
  now = pos 7;
  start = λ command. some (record { stdin = some ""; stdout = some ""; stderr = some "" });
  bind = λ address. true;
  serve = λ state. ctrl_c;
}

abbrev no_files : Files
no_files = []

main_child_example :
    (main environment config_of_tests no_files).1
    ≡ child_of (main environment config_of_tests no_files).0 (some "/work")
main_child_example = main_child environment config_of_tests no_files

child_is_shut_down : (main environment config_of_tests no_files).1 ≡ some shutdown
unfolding main prepare choose_token start_headless spawn
child_is_shut_down = refl

abbrev prepared : AppState Value Cell
prepared = record {
  registry = register "h" (AgentLink.headless 0) (headless_meta "h" "/work" (pos 7)) empty;
  agent_token = "secret";
}

prepared_lem : (prepare environment config_of_tests no_files).0 ≡ ok (some 0, prepared)
unfolding prepare choose_token start_headless spawn headless_meta
prepared_lem = refl

prepare-headless_exited_example :
    (◌≡◌ {A = Option ℕ} (some 0) (Option.map (λ (dir : String). 0) config_of_tests.project_dir))
    × ((resolve none prepared.registry >>= get_elem? prepared.registry.handles)
        ≡ session "h" prepared.registry)
    × (link_of "h" prepared.registry ≡ some (AgentLink.headless 0))
    × (resolve none (headless_exited "h" prepared.registry) ≡ none)
prepare-headless_exited_example =
    prepare-headless_exited environment config_of_tests no_files (some 0) prepared prepared_lem

abbrev pub links_of_tests : Links String
links_of_tests = record {
  stdin = λ process. "";
  calls = [];
  outbound = [];
  receiving = λ n. true;
  drawn = 0;
}

abbrev pub socket_of_tests : Socket
socket_of_tests = record { sent = []; room = 9 }

abbrev agent_one : AgentLink
agent_one = AgentLink.remote (record { to_agent = 1; events_tx = 0 })

abbrev phone_messages : List (Option Message)
phone_messages = some (text "one") ∷ some (text "oops") ∷ some (text "two") ∷ none ∷ []

write_outbound-relay_commands_example :
    (sent : List Value) × AreCommands (λ n. "u") 0 (commands {V = Value} phone_messages) sent
    × (write_outbound
          (frames_of 1
            (relay_commands
              (send_on {V = Value} (λ n. "u") agent_one)
              phone_messages
              links_of_tests).outbound)
          socket_of_tests
        ≡ send_all false (map text_of sent) socket_of_tests)
write_outbound-relay_commands_example =
    write_outbound-relay_commands Value (λ n. "u") (record { to_agent = 1; events_tx = 0 })
      phone_messages links_of_tests socket_of_tests refl

abbrev bridged_handle : SessionHandle Cell
bridged_handle = new agent_one (meta_of "a")

-- Two events of the agent's channel, and nothing from any other.
abbrev signals_of_tests : Channel → List (Signal Value)
signals_of_tests (of_agent zero) = received start_event ∷ lagged ∷ received name_patch ∷ []
signals_of_tests _ = []

bridge_lem_example :
    let (handle, socket, links) =
      bridge
        (λ n. "u")
        bridged_handle
        signals_of_tests
        phone_messages
        socket_of_tests
        links_of_tests in
    (socket
      ≡ (send_all false
          (text (value_json.to_string start_event) ∷ text (value_json.to_string name_patch) ∷ [])
          socket_of_tests).0)
    × Delivered {V = Value} (λ n. "u") agent_one (commands phone_messages) links_of_tests links
    × (is_connected handle ≡ is_connected bridged_handle)
    × (watchers handle ≡ watchers bridged_handle)
unfolding subscribe new
bridge_lem_example =
    bridge_lem Value (λ n. "u") bridged_handle signals_of_tests phone_messages socket_of_tests
      links_of_tests

abbrev child_link : AgentLink
child_link = AgentLink.headless 3

child_is_asked :
    (Link.shutdown child_link links_of_tests).calls ≡ (3, shutdown_stdin) ∷ (3, start_kill) ∷ []
unfolding Link.shutdown
child_is_asked = refl

agent_is_closed : (Link.shutdown agent_one links_of_tests).outbound ≡ (1, close_frame) ∷ []
unfolding Link.shutdown
agent_is_closed = refl
