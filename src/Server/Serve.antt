-- ===== src/Server/Serve.antt =====
-- src/server/mod.rs: what the server does with a request, from its path to the handler's answer.
pub mod Entitled
use pi_piper.Prelude.{
  ℕ, String, ◌↔◌, eq_iff, eq_refl, ◌==◌, ◌≡◌, refl, sym, subst, ap, ◌∙◌, Bool, true, false, not,
  Option, none, some, Bool-cases, Option-cases, inl, inr, if◌then◌else◌, map,
}
use pi_piper.Json.{Json}
use pi_piper.Watch.{Watch}
use pi_piper.Session.Encode.{summary_json}
use pi_piper.Registry.{Hub, list}
use pi_piper.State.{AppState}
use pi_piper.Server.{Route, agent, ws, control, sessions_api, static_files, router}
use pi_piper.Server.Response.{Response, rejected, accepted}
use pi_piper.Server.Auth.{HeaderMap, is_authorized, is_authorized_tailscale}
use pi_piper.Server.Ws.{resolve}
use pi_piper.Server.Ws as Ws
use pi_piper.Server.Agent as Agent
use pi_piper.Server.Control as Control
use pi_piper.Server.SessionsApi as SessionsApi
use pi_piper.Server.StaticFiles as StaticFiles
use pi_piper.Server.StaticFiles.{Asset, asset_path, cache_control_of}
use pi_piper.Server.Gates.{ws_accepts}
use mathlib.Core.Option.{some-injective}

-- The query parameters that a handler reads.
pub record AgentAuthQuery : Type 0 where
  pub token : Option String

pub record WsQuery : Type 0 where
  pub session : Option String

-- A `GET`, with what its query is for each of the two handlers that read it.
pub record Request (H : Type 0) : Type 0 where
  pub path : String
  pub headers : H
  pub agent_query : AgentAuthQuery
  pub ws_query : WsQuery

-- What a request that is not turned away gets: a connection for an agent, a bridge to a handle, the
-- control channel, the list of sessions, or a file.
pub data Served (V B : Type 0) : Type 0 where
  registers : Served V B
  bridges : ℕ → Served V B
  follows : Served V B
  lists : V → Served V B
  asset : Asset B → Served V B

module _ {ℓ κ} {A : Type ℓ} {B : Type κ} where
  abbrev pub map_response : (A → B) → Response A → Response B
  map_response f (rejected status reason) = rejected status reason
  map_response f (accepted a) = accepted (f a)

module _ {H V W B : Type 0} ⦃headers : HeaderMap H⦄ ⦃json : Json V⦄ ⦃watch : Watch W⦄
    (get : String → Option B) (guess : String → String) where
  -- The handler of a route.
  abbrev pub serve_at : Route → Request H → AppState V W → Response (Served V B)
  serve_at agent request state =
      map_response (λ _. registers) (Agent.handler state.agent_token request.agent_query.token)
  serve_at ws request state =
      map_response bridges (Ws.handler request.headers request.ws_query.session state.registry)
  serve_at control request state = map_response (λ _. follows) (Control.handler request.headers)
  serve_at sessions_api request state =
      map_response lists (SessionsApi.handler request.headers state.registry)
  serve_at static_files request state =
      map_response asset (StaticFiles.handler get guess request.path)

  unfoldable pub serve : Request H → AppState V W → Response (Served V B)
  unfolding router
  serve request state = serve_at (router request.path) request state

  -- Who may have what: an agent with the token a connection, a phone of the tailnet a bridge to the
  -- session that it names or to the default one, the control channel and the list, and everybody a
  -- file.
  pub data IsEntitled (request : Request H) (state : AppState V W) : Served V B → Type 0 where
    by_token :
        request.path ≡ "/agent"
        → request.agent_query.token ≡ some state.agent_token
        → IsEntitled request state registers
    to_bridge :
        (handle : ℕ)
        → request.path ≡ "/ws"
        → is_authorized_tailscale request.headers ≡ true
        → resolve request.ws_query.session state.registry ≡ some handle
        → IsEntitled request state (bridges handle)
    to_follow :
        request.path ≡ "/ws/control"
        → is_authorized_tailscale request.headers ≡ true
        → IsEntitled request state follows
    to_list :
        request.path ≡ "/api/sessions"
        → is_authorized_tailscale request.headers ≡ true
        → IsEntitled request state (lists (json.array (map summary_json (list state.registry))))
    to_file :
        (file : B)
        → router request.path ≡ static_files
        → get (asset_path request.path) ≡ some file
        → IsEntitled request state (
            asset (record {
              content_type = guess (asset_path request.path);
              cache_control = cache_control_of (asset_path request.path);
              body = file;
            }))
