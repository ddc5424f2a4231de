-- ===== src/Server.antt =====
-- src/server/: the routes, and a module for each.
pub mod Response
pub mod Auth
pub mod Agent
pub mod Ws
pub mod Control
pub mod SessionsApi
pub mod StaticFiles
pub mod Gates
pub mod Serve
use pi_piper.Prelude.{String, ◌==◌, if◌then◌else◌}

-- The handlers that `router` names.
pub data Route : Type 0 where
  agent ws control sessions_api static_files : Route

-- Which handler a `GET` of a path reaches.
unfoldable pub router : String → Route
router path =
    if path == "/agent"
    then agent
    else if path == "/ws"
    then ws
    else if path == "/ws/control"
    then control
    else if path == "/api/sessions"
    then sessions_api
    else static_files
