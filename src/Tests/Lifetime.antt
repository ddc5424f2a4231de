-- ===== src/Tests/Lifetime.antt =====
-- A connection that registers a session, sends an event and fails.
use pi_piper.Prelude.{ℤ, pos, ◌≡◌, refl, Option, none, some, List, [], ◌∷◌, length}
use pi_piper.Session.{AgentLink, SessionHandle, summary}
use pi_piper.Session.Encode.{summary_json}
use pi_piper.Registry.{session}
use pi_piper.Rpc.RemoteAgent.{Message, text}
use pi_piper.Server.Agent.{Connection, World, on_message, handle}
use pi_piper.Server.Agent.Registration.{IsRegistered, IsAck, on_message_lem}
use pi_piper.Samples.Value.{Value, register_frame, value_json}
use pi_piper.Samples.Channels.{Cell, cell_watch}
use pi_piper.Tests.Data.{hub_one, hub_one-IsValid, world_one, second_connection}

abbrev received_b : Connection × World Value Cell
received_b = on_message (pos 3) (text "register b") (second_connection, world_one)

on_message_lem_example :
    (s : SessionHandle Cell) × (ack : Value) × (session "b" received_b.1.hub ≡ some s)
    × (s.link ≡ AgentLink.remote (record { to_agent = 2; events_tx = length hub_one.handles }))
    × IsRegistered (summary_json (summary s)) "b" (pos 3) (register_frame "b")
    × (received_b.0.number ≡ 2)
    × (received_b.0.session_id ≡ some "b")
    × (received_b.1.outbound ≡ (2, text (value_json.to_string ack)) ∷ [])
    × IsAck ack "b"
on_message_lem_example =
    on_message_lem "b" "b" "register b" (pos 3) (register_frame "b") second_connection world_one
      hub_one-IsValid refl refl refl

-- What comes after the error is not read.
abbrev until_error : List (ℤ × Option Message)
until_error =
    (pos 4, some (text "agent starts")) ∷ (pos 5, none) ∷ (pos 6, some (text "agent starts")) ∷ []

abbrev served : World Value Cell
served = handle 2 ((pos 3, some (text "register b")) ∷ until_error) world_one
