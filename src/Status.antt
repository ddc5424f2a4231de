-- ===== src/Status.antt =====
-- src/registry.rs: what an event and a `meta_update` patch do to the data of one session.
pub mod Laws
use pi_piper.Prelude.{
  String, Bool, true, false, not, ◌||◌, Option, none, some, ◌==◌, or_else, unwrap_or, if◌then◌else◌,
}
use pi_piper.Json.{Json}
use pi_piper.Session.{SessionMeta, SessionStatus}
use pi_piper.Preview.{str_field, extract_preview}

module _ {V : Type 0} ⦃json : Json V⦄ where
  -- The fields that a patch replaces are those that it has as strings.
  unfoldable pub patch_meta : V → SessionMeta → SessionMeta
  patch_meta patch meta = record meta {
    session_file = or_else (str_field patch "sessionFile") meta.session_file;
    session_name = or_else (str_field patch "sessionName") meta.session_name;
    cwd = unwrap_or (str_field patch "cwd") meta.cwd;
  }

-- Equality of `Option<String>`.
abbrev pub option_eq : Option String → Option String → Bool
option_eq none none = true
option_eq (some s) (some t) = s == t
option_eq _ _ = false

abbrev pub bool_eq : Bool → Bool → Bool
bool_eq true b = b
bool_eq false b = not b

unfoldable pub is_status_event : String → Bool
is_status_event ty = ty == "agent_start" || ty == "agent_settled" || ty == "message_end"

module _ {V : Type 0} ⦃json : Json V⦄ where
  -- The `match ty` of `handle_event`.
  unfoldable pub next_status : String → V → SessionStatus → SessionStatus
  unfolding extract_preview
  next_status ty event status =
      if ty == "agent_start"
      then record status { is_streaming = true }
      else if ty == "agent_settled"
      then record status { is_streaming = false }
      else if ty == "message_end"
      then record status { last_preview = or_else (extract_preview event) status.last_preview }
      else status

unfoldable pub status_changed : SessionStatus → SessionStatus → Bool
status_changed prev next =
    not (bool_eq next.is_streaming prev.is_streaming)
    || not (option_eq next.last_preview prev.last_preview)
