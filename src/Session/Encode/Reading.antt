-- ===== src/Session/Encode/Reading.antt =====
-- src/session.rs: what a reader finds in the object of a summary.
use pi_piper.Prelude.{String, ◌≡◌, ◌∙◌, ap, Option, none, some, List, [], ◌∷◌, ◌>>=◌}
use pi_piper.Json.{Json}
use pi_piper.Preview.{str_field}
use pi_piper.Session.{SessionKind, SessionSummary}
use pi_piper.Session.Encode.{option_json, kind_name, meta_fields, status_fields, summary_json}

module _ {V : Type 0} ⦃json : Json V⦄ where
  -- A member that is a string or `null`.
  abbrev pub HasOption : V → String → Option String → Type 0
  HasOption v k none = json.get v k ≡ some json.null
  HasOption v k (some s) = str_field v k ≡ some s

  abbrev pub HasKind : V → SessionKind → Type 0
  HasKind v SessionKind.remote = str_field v "kind" ≡ some "remote"
  HasKind v SessionKind.headless = str_field v "kind" ≡ some "headless"

  -- The members of a summary, by the names under which a phone reads them.
  pub record IsSummaryOf (v : V) (s : SessionSummary) : Type 0 where
    pub session_id : str_field v "sessionId" ≡ some s.meta.session_id
    pub session_file : HasOption v "sessionFile" s.meta.session_file
    pub session_name : HasOption v "sessionName" s.meta.session_name
    pub cwd : str_field v "cwd" ≡ some s.meta.cwd
    pub connected_at_ms : json.get v "connectedAtMs" ≡ some (json.int s.meta.connected_at_ms)
    pub kind : HasKind v s.meta.kind
    pub is_streaming : json.get v "isStreaming" ≡ some (json.bool s.status.is_streaming)
    pub last_activity_at_ms :
        json.get v "lastActivityAtMs" ≡ some (json.int s.status.last_activity_at_ms)
    pub last_preview : HasOption v "lastPreview" s.status.last_preview
    pub connected : json.get v "connected" ≡ some (json.bool s.connected)

  pub str_field_string :
      (v : V) (k s : String) → json.get v k ≡ some (json.string s) → str_field v k ≡ some s
  str_field_string v k s e = ap (λ o. o >>= json.as_str) e ∙ json.as_str-string s

  option-HasOption :
      (v : V) (k : String) (o : Option String)
      → json.get v k ≡ some (option_json o)
      → HasOption v k o
  unfolding option_json
  option-HasOption v k none e = e
  option-HasOption v k (some s) e = str_field_string v k s e

  kind-HasKind :
      (v : V) (kind : SessionKind)
      → json.get v "kind" ≡ some (json.string (kind_name kind))
      → HasKind v kind
  unfolding kind_name
  kind-HasKind v SessionKind.remote e = str_field_string v "kind" "remote" e
  kind-HasKind v SessionKind.headless e = str_field_string v "kind" "headless" e

  pub summary_json-IsSummaryOf : (s : SessionSummary) → IsSummaryOf (summary_json s) s
  unfolding summary_json meta_fields status_fields
  summary_json-IsSummaryOf s =
      let v = summary_json s in
      record {
        session_id =
            str_field_string v "sessionId" s.meta.session_id (json.get-object _ "sessionId");
        session_file =
            option-HasOption v "sessionFile" s.meta.session_file (json.get-object _ "sessionFile");
        session_name =
            option-HasOption v "sessionName" s.meta.session_name (json.get-object _ "sessionName");
        cwd = str_field_string v "cwd" s.meta.cwd (json.get-object _ "cwd");
        connected_at_ms = json.get-object _ "connectedAtMs";
        kind = kind-HasKind v s.meta.kind (json.get-object _ "kind");
        is_streaming = json.get-object _ "isStreaming";
        last_activity_at_ms = json.get-object _ "lastActivityAtMs";
        last_preview =
            option-HasOption v "lastPreview" s.status.last_preview
              (json.get-object _ "lastPreview");
        connected = json.get-object _ "connected";
      }

  -- The members of one object under a name, pointwise summaries of a list.
  abbrev pub AreSummariesOf : List V → List SessionSummary → Type 0
  AreSummariesOf [] [] = Unit
  AreSummariesOf (v ∷ vs) (s ∷ rest) = IsSummaryOf v s × AreSummariesOf vs rest
  AreSummariesOf [] (s ∷ rest) = ⊥
  AreSummariesOf (v ∷ vs) [] = ⊥
