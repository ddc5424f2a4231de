-- ===== src/Rpc/RemoteAgent.antt =====
-- src/rpc/remote_agent.rs: the link to a `pi-piper-agent` extension over its WebSocket.
use pi_piper.Prelude.{ℕ, String, Bool, none, some, [], ◌∷◌, Result, ok, err, if◌then◌else◌}
use pi_piper.Json.{Json}
use pi_piper.Rpc.{WriteError, serializing, agent_closed}

abbrev pub event_channel_capacity : ℕ
event_channel_capacity = 1024

-- The variants of axum's `Message` that the program names.
pub data Message : Type 0 where
  text : String → Message
  close other : Message

module _ {V : Type 0} ⦃json : Json V⦄ where
  -- The envelope, with the id that `Uuid::new_v4` made.
  unfoldable pub envelope : String → V → V
  envelope id command =
      json.object
        (("type", json.string "command") ∷ ("id", json.string id) ∷ ("command", command) ∷ [])

  -- `send`: the frame that is handed to the writer task, if the channel still has a receiver.
  unfoldable pub send : Bool → String → V → Result WriteError Message
  unfolding envelope
  send receiving id command = elim (json.serialize (envelope id command)) [
    | none ↦ err serializing
    | some frame ↦ if receiving then ok (text frame) else err agent_closed
  ]

-- `close`: the frame that is handed to the writer task.
abbrev pub close_frame : Message
close_frame = close
