-- ===== src/Tests/Data.antt =====
-- The sessions, registries and requests that the tests run on.
use pi_piper.Prelude.{
  pos, refl, String, Option, none, some, List, [], ◌∷◌, ◌==◌, is_some, if◌then◌else◌,
}
use pi_piper.Session.{AgentLink, SessionKind, SessionMeta}
use pi_piper.Registry.{Hub, empty, register}
use pi_piper.Registry.Invariant.{IsValid, empty-IsValid, register-IsValid}
use pi_piper.Registry.Mirror.Run.{Op, registers, unregisters, patches, publishes, emits}
use pi_piper.Server.Auth.{HeaderMap}
use pi_piper.Server.Agent.{World, Connection}
use pi_piper.Samples.Value.{Value, obj, entry, end, text, value_json}
use pi_piper.Samples.Channels.{Cell, cell_watch}

abbrev pub meta_of : String → SessionMeta
meta_of id = record {
  session_id = id;
  session_file = none;
  session_name = none;
  cwd = "/tmp";
  connected_at_ms = pos 1;
  kind = SessionKind.remote;
}

abbrev pub link_one : AgentLink
link_one = AgentLink.remote (record { to_agent = 1; events_tx = 0 })

abbrev pub link_two : AgentLink
link_two = AgentLink.remote (record { to_agent = 2; events_tx = 1 })

abbrev pub start_event : Value
start_event = obj (entry "type" (text "agent_start") end)

abbrev pub name_patch : Value
name_patch = obj (entry "sessionName" (text "work") end)

abbrev pub earlier_ops : List (Op Value)
earlier_ops =
    registers link_one (meta_of "a") ∷ emits "a" (pos 5) start_event ∷ patches "a" name_patch ∷ []

abbrev pub middle_ops : List (Op Value)
middle_ops = registers link_two (meta_of "b") ∷ unregisters "a" ∷ []

abbrev pub later_ops : List (Op Value)
later_ops = emits "b" (pos 9) start_event ∷ publishes "b" start_event ∷ []

abbrev pub hub_one : Hub Value Cell
hub_one = register "a" link_one (meta_of "a") empty

pub hub_one-IsValid : IsValid hub_one
hub_one-IsValid = register-IsValid "a" link_one (meta_of "a") empty refl empty-IsValid

abbrev pub world_one : World Value Cell
world_one = record { hub = hub_one; outbound = [] }

abbrev pub first_connection : Connection
first_connection = record { number = 1; session_id = some "a" }

abbrev pub second_connection : Connection
second_connection = record { number = 2; session_id = none }

-- A request's headers: each name with its value.
abbrev header_get : List (String × String) → String → Option (Option String)
header_get [] k = none
header_get ((j, v) ∷ rest) k = if j == k then some (some v) else header_get rest k

instance abbrev pub list_headers : HeaderMap (List (String × String))
list_headers = record {
  contains_key = λ h k. is_some (header_get h k);
  get = header_get;
  contains_key_lem = λ h k. refl;
}

abbrev pub over_tailscale : List (String × String)
over_tailscale = ("tailscale-user-login", "me@example.org") ∷ []

abbrev pub over_funnel : List (String × String)
over_funnel = ("tailscale-funnel-request", "?1") ∷ ("tailscale-user-login", "me@example.org") ∷ []
