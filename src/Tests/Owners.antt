-- ===== src/Tests/Owners.antt =====
-- Two agents, whose connections take their steps from a fresh hub.

use pi_piper.Prelude.{ℕ, ◌≡◌, refl, pos, inl, some, none}
use pi_piper.Session.{AgentLink, new}
use pi_piper.Registry.{get, register, announce, retire, insert_session}
use pi_piper.Registry.Map.{lookup, insert}
use pi_piper.Rpc.RemoteAgent.{text}
use pi_piper.Server.Agent.{Connection, on_message, on_frame, on_register, register_meta}
use pi_piper.Server.Agent.Links.{link_of}
use pi_piper.Server.Agent.Worlds.{System, Step, after_message, update_at, accepts, receives}
use pi_piper.Server.Agent.Owners.{fresh}
use pi_piper.Server.Agent.Owners.Steady.{SteadyReach, IsSteady, no_zombies}
use pi_piper.Server.Agent.Owners.Steady as Steady
use pi_piper.Server.Agent.Owners.Exclusive.{ExclusiveReach, IsExclusive, holders_serve}
use pi_piper.Server.Agent.Owners.Exclusive as Exclusive
use pi_piper.Samples.Value.{Value, value_json}
use pi_piper.Samples.Channels.{Cell, cell_watch}

abbrev pub start : System Value Cell
start = fresh

abbrev newcomer : Connection
newcomer = record { number = 1; session_id = none }

abbrev accepted : System Value Cell
accepted = record start { open_at = update_at 1 (some newcomer) start.open_at }

abbrev pub registered : System Value Cell
registered =
    after_message 1 (on_message (pos 3) (text "register a") (newcomer, accepted.world)) accepted

abbrev pub accepting : Step start accepted
accepting = accepts 1 refl

abbrev pub registering : Step accepted registered
registering = receives 1 newcomer (pos 3) (text "register a") refl

steady : SteadyReach start registered
steady = Steady.next (Steady.next Steady.here accepting tt) registering (λ id e. inl refl)

pub exclusive : ExclusiveReach start registered
unfolding get
exclusive =
    Exclusive.next (Exclusive.next Exclusive.here accepting tt) registering (λ id e. inl refl)

pub registered_link :
    link_of "a" registered.world.hub
    ≡ some (AgentLink.remote (record { to_agent = 1; events_tx = 0 }))
unfolding on_message on_frame on_register register register_meta announce retire insert_session
    insert get lookup new
registered_link = refl

no_zombies_example : (c : Connection) × (registered.open_at 1 ≡ some c) × (c.session_id ≡ some "a")
no_zombies_example = no_zombies "a" (record { to_agent = 1; events_tx = 0 }) steady registered_link

pub registered_open : registered.open_at 1 ≡ some (record { number = 1; session_id = some "a" })
unfolding on_message on_frame on_register
registered_open = refl

holders_serve_example :
    (channel : ℕ) × (link_of "a" registered.world.hub
      ≡ some (AgentLink.remote (record { to_agent = 1; events_tx = channel })))
holders_serve_example =
    holders_serve 1 (record { number = 1; session_id = some "a" }) "a" exclusive registered_open
      refl
