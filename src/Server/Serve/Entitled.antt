-- ===== src/Server/Serve/Entitled.antt =====
-- src/server/mod.rs and the handlers: who is served, and with what.
use pi_piper.Prelude.{
  String, ◌↔◌, eq_iff, eq_refl, ◌==◌, ◌≡◌, refl, subst, ap, ◌∙◌, true, Option, none, some,
  Bool-cases, Option-cases, inl, inr, map,
}
use pi_piper.Json.{Json}
use pi_piper.Watch.{Watch}
use pi_piper.Session.Encode.{summary_json}
use pi_piper.Registry.{Hub, list}
use pi_piper.State.{AppState}
use pi_piper.Server.{Route, agent, ws, control, sessions_api, static_files, router}
use pi_piper.Server.Response.{Response, rejected, accepted}
use pi_piper.Server.Auth.{HeaderMap, is_authorized, is_authorized_tailscale}
use pi_piper.Server.Ws.{resolve}
use pi_piper.Server.Ws as Ws
use pi_piper.Server.Agent as Agent
use pi_piper.Server.Control as Control
use pi_piper.Server.SessionsApi as SessionsApi
use pi_piper.Server.StaticFiles as StaticFiles
use pi_piper.Server.StaticFiles.{Asset, asset_path, cache_control_of}
use pi_piper.Server.Gates.{ws_accepts}
use pi_piper.Server.Serve.{
  Request, Served, lists, asset, map_response, serve_at, serve, IsEntitled, by_token, to_bridge,
  to_follow, to_list, to_file,
}

module _ {ℓ κ} {A : Type ℓ} {B : Type κ} where
  answer_of_mapped :
      (f : A → B) (answer : Response A) (b : B)
      → map_response f answer ≡ accepted b
      → (a : A) × (answer ≡ accepted a) × (f a ≡ b)
  answer_of_mapped f (rejected status reason) b h = cc
  answer_of_mapped f (accepted a) b h = (a, refl, cc h)

-- The paths of a route.
abbrev IsPathOf : Route → String → Type 0
IsPathOf agent path = path ≡ "/agent"
IsPathOf ws path = path ≡ "/ws"
IsPathOf control path = path ≡ "/ws/control"
IsPathOf sessions_api path = path ≡ "/api/sessions"
IsPathOf static_files path = Unit

router-IsPathOf : (path : String) → IsPathOf (router path) path
unfolding router
router-IsPathOf path = elim (Bool-cases (path == "/agent")) [
  | inl e ↦ rw e ((eq_iff path "/agent").0 e)
  | inr e ↦ elim (Bool-cases (path == "/ws")) [
    | inl f ↦ rw (e, f) ((eq_iff path "/ws").0 f)
    | inr f ↦ elim (Bool-cases (path == "/ws/control")) [
      | inl g ↦ rw (e, f, g) ((eq_iff path "/ws/control").0 g)
      | inr g ↦ elim (Bool-cases (path == "/api/sessions")) [
        | inl h ↦ rw (e, f, g, h) ((eq_iff path "/api/sessions").0 h)
        | inr h ↦ rw (e, f, g, h) tt
      ]
    ]
  ]
]

agent_accepts :
    (agent_token : String) (token : Option String)
    → Agent.handler agent_token token ≡ accepted tt
    → token ≡ some agent_token
unfolding Agent.handler is_authorized
agent_accepts agent_token none h = cc
agent_accepts agent_token (some token) h = elim (Bool-cases (token == agent_token)) [
  | inl e ↦ ap some ((eq_iff token agent_token).0 e)
  | inr e ↦ cc (rw e at h)
]

module _ {H : Type 0} ⦃headers : HeaderMap H⦄ where
  control_accepts :
      (request : H) → Control.handler request ≡ accepted tt → is_authorized_tailscale request ≡ true
  unfolding Control.handler
  control_accepts request h = elim (Bool-cases (is_authorized_tailscale request)) [
    | inl e ↦ e
    | inr e ↦ cc (rw e at h)
  ]

module _ {H V W : Type 0} ⦃headers : HeaderMap H⦄ ⦃json : Json V⦄ ⦃watch : Watch W⦄ where
  sessions_api_accepts :
      (request : H) (hub : Hub V W) (body : V)
      → SessionsApi.handler request hub ≡ accepted body
      → (is_authorized_tailscale request ≡ true) × (json.array (map summary_json (list hub)) ≡ body)
  unfolding SessionsApi.handler
  sessions_api_accepts request hub body h = elim (Bool-cases (is_authorized_tailscale request)) [
    | inl e ↦ (e, cc (rw e at h))
    | inr e ↦ cc (rw e at h)
  ]

module _ {B : Type 0} (get : String → Option B) (guess : String → String) where
  static_files_accepts :
      (path : String) (a : Asset B)
      → StaticFiles.handler get guess path ≡ accepted a
      → (file : B) × (get (asset_path path) ≡ some file)
        × (record {
          content_type = guess (asset_path path);
          cache_control = cache_control_of (asset_path path);
          body = file;
        }
            ≡ a)
  unfolding StaticFiles.handler
  static_files_accepts path a h = elim (Option-cases (get (asset_path path))) [
    | inl e ↦ cc (rw (e, StaticFiles.handler) at h)
    | inr (file, e) ↦ (file, e, cc (rw (e, StaticFiles.handler) at h))
  ]

module _ {H V W B : Type 0} ⦃headers : HeaderMap H⦄ ⦃json : Json V⦄ ⦃watch : Watch W⦄
    (get : String → Option B) (guess : String → String) where
  answered :
      (r : Route) (request : Request H) (state : AppState V W) (outcome : Served V B)
      → router request.path ≡ r
      → IsPathOf r request.path
      → serve_at get guess r request state ≡ accepted outcome
      → IsEntitled get guess request state outcome
  answered agent request state outcome e path h =
      let (_, let_in, same) = answer_of_mapped _ _ outcome h in
      subst (IsEntitled get guess request state) same
        (by_token path (agent_accepts state.agent_token request.agent_query.token let_in))
  answered ws request state outcome e path h =
      let (handle, let_in, same) = answer_of_mapped _ _ outcome h in
      let (authorized, found) =
        (ws_accepts request.headers request.ws_query.session state.registry handle).0 let_in in
      subst (IsEntitled get guess request state) same (to_bridge handle path authorized found)
  answered control request state outcome e path h =
      let (_, let_in, same) = answer_of_mapped _ _ outcome h in
      subst (IsEntitled get guess request state) same
        (to_follow path (control_accepts request.headers let_in))
  answered sessions_api request state outcome e path h =
      let (body, let_in, same) = answer_of_mapped _ _ outcome h in
      let (authorized, told) = sessions_api_accepts request.headers state.registry body let_in in
      subst (IsEntitled get guess request state) (ap lists told ∙ same) (to_list path authorized)
  answered static_files request state outcome e path h =
      let (a, let_in, same) = answer_of_mapped _ _ outcome h in
      let (file, found, told) = static_files_accepts get guess request.path a let_in in
      subst (IsEntitled get guess request state) (ap asset told ∙ same) (to_file file e found)

  entitled :
      (request : Request H) (state : AppState V W) (outcome : Served V B)
      → IsEntitled get guess request state outcome
      → serve get guess request state ≡ accepted outcome
  unfolding serve router Agent.handler is_authorized Ws.handler Control.handler SessionsApi.handler
      StaticFiles.handler
  entitled request state outcome (by_token path token) =
      rw (path, token, eq_refl state.agent_token) refl
  entitled request state outcome (to_bridge handle path authorized found) =
      rw (path, authorized, found) refl
  entitled request state outcome (to_follow path authorized) = rw (path, authorized) refl
  entitled request state outcome (to_list path authorized) = rw (path, authorized) refl
  entitled request state outcome (to_file file route found) =
      rw (route, found, StaticFiles.handler) refl

  -- A request is served exactly as the caller is entitled to: an agent's connection for `/agent`
  -- with the right token; for an authorized phone a bridge for `/ws`, to the handle of the session
  -- that it names or to the default one, the control channel for `/ws/control`, and the list of the
  -- registered sessions for `/api/sessions`; and for every other path the embedded file of that
  -- name, with its media type and cache control. Every other request is turned away.
  pub serve_iff :
      (request : Request H) (state : AppState V W) (outcome : Served V B)
      → (serve get guess request state ≡ accepted outcome)
        ↔ IsEntitled get guess request state outcome
  unfolding serve
  serve_iff request state outcome = (
    answered (router request.path) request state outcome refl (router-IsPathOf request.path),
    entitled request state outcome,
  )
