-- ===== src/Session/Encode.antt =====
-- src/session.rs: what `#[derive(Serialize)]` with its attributes makes of a summary.
pub mod Reading
pub mod Patch
use pi_piper.Prelude.{String, ◌≡◌, Option, none, some, ◌∷◌, [], ◌++◌}
use pi_piper.Json.{Json, Fields}
use pi_piper.Session.{SessionKind, SessionMeta, SessionStatus, SessionSummary}

-- `rename_all = "snake_case"`
pub kind_name : SessionKind → String
kind_name SessionKind.remote = "remote"
kind_name SessionKind.headless = "headless"

module _ {V : Type 0} ⦃json : Json V⦄ where
  pub option_json : Option String → V
  option_json none = json.null
  option_json (some s) = json.string s

  -- `rename_all = "camelCase"`
  pub meta_fields : SessionMeta → Fields V
  unfolding kind_name option_json
  meta_fields meta =
      ("sessionId", json.string meta.session_id)
      ∷ ("sessionFile", option_json meta.session_file)
      ∷ ("sessionName", option_json meta.session_name)
      ∷ ("cwd", json.string meta.cwd)
      ∷ ("connectedAtMs", json.int meta.connected_at_ms)
      ∷ ("kind", json.string (kind_name meta.kind))
      ∷ []

  pub status_fields : SessionStatus → Fields V
  unfolding option_json
  status_fields status =
      ("isStreaming", json.bool status.is_streaming)
      ∷ ("lastActivityAtMs", json.int status.last_activity_at_ms)
      ∷ ("lastPreview", option_json status.last_preview)
      ∷ []

  -- `flatten` puts the fields of both parts in the one object.
  unfoldable pub summary_json : SessionSummary → V
  unfolding meta_fields status_fields
  summary_json s =
      json.object
        (meta_fields s.meta ++ status_fields s.status ++ ("connected", json.bool s.connected) ∷ [])
