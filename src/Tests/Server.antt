-- ===== src/Tests/Server.antt =====
-- The routes and the connections, on one or two agents.

use pi_piper.Prelude.{
  ◌≡◌, ◌≢◌, ◌↔◌, Option, ◌==◌, if◌then◌else◌, refl, String, true, false, none, some, List, [], ◌∷◌,
}
use pi_piper.Registry.{get, get_default, register}
use pi_piper.Registry.{announce, retire, insert_session}
use pi_piper.Registry.Map.{insert}
use pi_piper.Registry.Watcher.{Signal, changed_ok, received, lagged}
use pi_piper.Server.Auth.{is_authorized_tailscale, tailscale_funnel_header, tailscale_login_header}
use pi_piper.Server.Auth.Decision.{is_authorized_tailscale_iff}
use pi_piper.Server.Response.{accepted}
use pi_piper.Server.Control.{Recv}
use pi_piper.Events.{ControlEvent}
use pi_piper.Server.Serve.{Request, serve, bridges, IsEntitled, to_bridge}
use pi_piper.Server.Serve.Entitled.{serve_iff}
use pi_piper.State
use pi_piper.State.{AppState}
use pi_piper.Samples.Value.{Value, value_json}
use pi_piper.Samples.Channels.{Cell, cell_watch, Socket, socket_sink}
use pi_piper.Tests.Data.{start_event, hub_one, list_headers, over_tailscale, over_funnel}

is_authorized_tailscale_iff_example : (is_authorized_tailscale over_tailscale ≡ true) ↔ (
    (list_headers.get over_tailscale tailscale_funnel_header ≡ none)
    × ((login : String) × (list_headers.get over_tailscale tailscale_login_header
          ≡ some (some login))
        × (login ≢ "")))
is_authorized_tailscale_iff_example = is_authorized_tailscale_iff over_tailscale

funnel_refused : is_authorized_tailscale over_funnel ≡ false
unfolding is_authorized_tailscale
funnel_refused = refl

default_is_first : get_default hub_one ≡ some 0
unfolding get_default register announce retire get insert_session insert
default_is_first = refl

abbrev pub roomy_socket : Socket
roomy_socket = record { sent = []; room = 9 }

abbrev some_signals : List (Signal Value)
some_signals = received start_event ∷ lagged ∷ changed_ok false ∷ []

abbrev some_recvs : List Recv
some_recvs = Recv.received (ControlEvent.session_disconnected "b") ∷ Recv.lagged ∷ []

abbrev embedded : String → Option String
embedded path = if path == "app.js" then some "code" else none

abbrev phone_request : Request (List (String × String))
phone_request = record {
  path = "/ws";
  headers = over_tailscale;
  agent_query = record { token = none };
  ws_query = record { session = none };
}

abbrev state_of_tests : AppState Value Cell
state_of_tests = State.new hub_one "secret"

serve_iff_example :
    (serve embedded (λ path. "text/plain") phone_request state_of_tests ≡ accepted (bridges 0))
    ↔ IsEntitled embedded (λ path. "text/plain") phone_request state_of_tests (bridges 0)
serve_iff_example =
    serve_iff embedded (λ path. "text/plain") phone_request state_of_tests (bridges 0)

tailscale_is_authorized : is_authorized_tailscale over_tailscale ≡ true
unfolding is_authorized_tailscale
tailscale_is_authorized = refl

phone_is_bridged :
    serve embedded (λ path. "text/plain") phone_request state_of_tests ≡ accepted (bridges 0)
phone_is_bridged =
    (serve_iff embedded (λ path. "text/plain") phone_request state_of_tests (bridges 0)).1
      (to_bridge 0 refl tailscale_is_authorized default_is_first)
