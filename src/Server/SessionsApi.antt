-- ===== src/Server/SessionsApi.antt =====
-- src/server/sessions_api.rs: the snapshot over HTTP.
use pi_piper.Prelude.{not, map, if◌then◌else◌}
use pi_piper.Json.{Json}
use pi_piper.Watch.{Watch}
use pi_piper.Session.Encode.{summary_json}
use pi_piper.Registry.{Hub, list}
use pi_piper.Server.Auth.{HeaderMap, is_authorized_tailscale}
use pi_piper.Server.Response.{Response, accepted}
use pi_piper.Server.Ws.{not_authorized}

module _ {H V W : Type 0} ⦃headers : HeaderMap H⦄ ⦃json : Json V⦄ ⦃watch : Watch W⦄ where
  -- The value is the body of the answer.
  unfoldable pub handler : H → Hub V W → Response V
  handler request hub =
      if not (is_authorized_tailscale request)
      then not_authorized
      else accepted (json.array (map summary_json (list hub)))
