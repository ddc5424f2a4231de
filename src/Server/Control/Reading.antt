-- ===== src/Server/Control/Reading.antt =====
-- src/server/control.rs and src/registry.rs: what a phone reads in the frames of the control channel.
use pi_piper.Prelude.{String, ◌≡◌, ap, ◌∙◌, some, List, [], ◌∷◌, map, ◌>>=◌}
use pi_piper.Json.{Json}
use pi_piper.Watch.{Watch}
use pi_piper.Preview.{str_field}
use pi_piper.Events.{
  ControlEvent, control_json, session_connected, session_meta, session_update, session_disconnected,
}
use pi_piper.Session.{SessionSummary}
use pi_piper.Session.Encode.{summary_json}
use pi_piper.Session.Encode.Reading.{
  IsSummaryOf, AreSummariesOf, summary_json-IsSummaryOf, str_field_string,
}
use pi_piper.Registry.{Hub, list}
use pi_piper.Server.Control.{snapshot_json}

module _ {V : Type 0} ⦃json : Json V⦄ where
  -- A frame with a summary.
  abbrev pub HasSession : V → String → SessionSummary → Type 0
  HasSession frame ty s =
      (str_field frame "type" ≡ some ty)
      × ((v : V) × (json.get frame "session" ≡ some v) × IsSummaryOf v s)

  -- What a phone finds in the frame of a message.
  abbrev pub IsFrameOf : V → ControlEvent → Type 0
  IsFrameOf frame (session_connected s) = HasSession frame "session_connected" s
  IsFrameOf frame (session_meta s) = HasSession frame "session_meta" s
  IsFrameOf frame (session_update s) = HasSession frame "session_update" s
  IsFrameOf frame (session_disconnected id) =
      (str_field frame "type" ≡ some "session_disconnected")
      × (str_field frame "sessionId" ≡ some id)

  -- What a phone finds in the first frame.
  abbrev pub IsSnapshotOf : V → List SessionSummary → Type 0
  IsSnapshotOf frame summaries =
      (str_field frame "type" ≡ some "sessions_snapshot")
      × ((vs : List V) × (json.get frame "sessions" >>= json.as_array ≡ some vs)
          × AreSummariesOf vs summaries)

  abbrev pub AreFramesOf : List V → List ControlEvent → Type 0
  AreFramesOf [] [] = Unit
  AreFramesOf (v ∷ vs) (e ∷ rest) = IsFrameOf v e × AreFramesOf vs rest
  AreFramesOf [] (e ∷ rest) = ⊥
  AreFramesOf (v ∷ vs) [] = ⊥

module _ (V : Type 0) ⦃json : Json V⦄ where
  control_json-IsFrameOf : (event : ControlEvent) → IsFrameOf {V = V} (control_json event) event
  unfolding control_json
  control_json-IsFrameOf (session_connected s) = (
    str_field_string _ "type" "session_connected" (json.get-object _ "type"),
    (summary_json s, json.get-object _ "session", summary_json-IsSummaryOf s),
  )
  control_json-IsFrameOf (session_meta s) = (
    str_field_string _ "type" "session_meta" (json.get-object _ "type"),
    (summary_json s, json.get-object _ "session", summary_json-IsSummaryOf s),
  )
  control_json-IsFrameOf (session_update s) = (
    str_field_string _ "type" "session_update" (json.get-object _ "type"),
    (summary_json s, json.get-object _ "session", summary_json-IsSummaryOf s),
  )
  control_json-IsFrameOf (session_disconnected id) = (
    str_field_string _ "type" "session_disconnected" (json.get-object _ "type"),
    str_field_string _ "sessionId" id (json.get-object _ "sessionId"),
  )

  pub frames-AreFramesOf :
      (events : List ControlEvent) → AreFramesOf {V = V} (map control_json events) events
  frames-AreFramesOf [] = tt
  frames-AreFramesOf (e ∷ events) = (control_json-IsFrameOf e, frames-AreFramesOf events)

  summaries-AreSummariesOf :
      (summaries : List SessionSummary)
      → AreSummariesOf {V = V} (map summary_json summaries) summaries
  summaries-AreSummariesOf [] = tt
  summaries-AreSummariesOf (s ∷ rest) = (summary_json-IsSummaryOf s, summaries-AreSummariesOf rest)

module _ {V W : Type 0} ⦃json : Json V⦄ ⦃watch : Watch W⦄ where
  pub snapshot_json-IsSnapshotOf : (hub : Hub V W) → IsSnapshotOf (snapshot_json hub) (list hub)
  unfolding snapshot_json
  snapshot_json-IsSnapshotOf hub = (
    str_field_string _ "type" "sessions_snapshot" (json.get-object _ "type"),
    (
      map summary_json (list hub),
      ap (λ o. o >>= json.as_array) (json.get-object _ "sessions") ∙ json.as_array-array _,
      summaries-AreSummariesOf V (list hub),
    ),
  )
