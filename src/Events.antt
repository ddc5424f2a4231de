-- ===== src/Events.antt =====
-- src/registry.rs: the messages that the registry sends on the control channel.
use pi_piper.Prelude.{String, [], ◌∷◌}
use pi_piper.Json.{Json}
use pi_piper.Session.{SessionSummary}
use pi_piper.Session.Encode.{summary_json}

-- The messages on the control channel.
pub data ControlEvent : Type 0 where
  session_connected session_meta session_update : SessionSummary → ControlEvent
  session_disconnected : String → ControlEvent

module _ {V : Type 0} ⦃json : Json V⦄ where
  -- The `json!` object of each message.
  unfoldable pub control_json : ControlEvent → V
  unfolding summary_json
  control_json (session_connected s) =
      json.object (("type", json.string "session_connected") ∷ ("session", summary_json s) ∷ [])
  control_json (session_meta s) =
      json.object (("type", json.string "session_meta") ∷ ("session", summary_json s) ∷ [])
  control_json (session_update s) =
      json.object (("type", json.string "session_update") ∷ ("session", summary_json s) ∷ [])
  control_json (session_disconnected id) =
      json.object
        (("type", json.string "session_disconnected") ∷ ("sessionId", json.string id) ∷ [])
