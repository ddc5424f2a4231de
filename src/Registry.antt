-- ===== src/Registry.antt =====
-- src/registry.rs: `SessionRegistry`, with the tasks that it spawns and the channels that it sends
-- to. Each `Arc<SessionHandle>` is a position of the arena `handles`, which only grows, so that a
-- task or a bridge that still holds a replaced handle can be told from the registered one.
pub mod Map
pub mod Invariant
pub mod Updates
pub mod Lookup
pub mod Patching
pub mod Unlocked
pub mod Mirror
pub mod Watcher
use pi_piper.Prelude.{
  ℕ, ℤ, String, Bool, true, false, not, ◌&&◌, ◌||◌, Option, none, some, List, [], ◌∷◌, ◌++◌, ◌==◌,
  length, get_elem?, modify, nat_eq, or_else, unwrap_or, if◌then◌else◌, ◌>>=◌,
}
use pi_piper.Json.{Json}
use pi_piper.Watch.{Watch}
use pi_piper.Session
use pi_piper.Session.{
  AgentLink, SessionMeta, SessionStatus, SessionSummary, SessionHandle, RemoteAgent,
  mark_disconnected, summary, connected_rx, drop_connected_rx,
}
use pi_piper.Session.Encode.{summary_json}
use pi_piper.Preview.{str_field, extract_preview}
use pi_piper.Events.{
  ControlEvent, session_connected, session_meta, session_update, session_disconnected,
}
use pi_piper.Status.{patch_meta, is_status_event, next_status, status_changed}
use Map.{first_value, lookup, insert, remove}

-- A task given to `tokio::spawn` and not yet run: the status watcher of a handle, or the shutdown
-- of the link of one.
pub data Task : Type 0 where
  watch_status shutdown : ℕ → Task

-- The sends on a channel are listed newest first: `control` for `control_tx`, `published` for the
-- event channels of the remote agents.
pub record Hub (V W : Type 0) : Type 0 where
  pub sessions : List (String × ℕ)
  pub handles : List (SessionHandle W)
  pub control : List ControlEvent
  pub published : List (ℕ × V)
  pub tasks : List Task

module _ {V W : Type 0} where
  -- `SessionRegistry::new`
  abbrev pub empty : Hub V W
  empty = record { sessions = []; handles = []; control = []; published = []; tasks = [] }

  unfoldable pub get : String → Hub V W → Option ℕ
  unfolding lookup
  get id hub = lookup id hub.sessions

  -- The handle registered under an id.
  abbrev pub session : String → Hub V W → Option (SessionHandle W)
  session id hub = get id hub >>= get_elem? hub.handles

  unfoldable pub get_default : Hub V W → Option ℕ
  get_default hub = if nat_eq (length hub.sessions) 1 then first_value hub.sessions else none

  abbrev pub update_handle : ℕ → (SessionHandle W → SessionHandle W) → Hub V W → Hub V W
  update_handle handle f hub = record hub { handles = modify hub.handles handle f }

  abbrev pub spawn : Task → Hub V W → Hub V W
  spawn task hub = record hub { tasks = task ∷ hub.tasks }

  abbrev pub send_control : ControlEvent → Hub V W → Hub V W
  send_control event hub = record hub { control = event ∷ hub.control }

  abbrev pub publish_over : AgentLink → V → Hub V W → Hub V W
  publish_over (AgentLink.headless process) payload hub = hub
  publish_over (AgentLink.remote agent) payload hub = record hub {
    published = (agent.events_tx, payload) ∷ hub.published;
  }

  unfoldable pub publish : String → V → Hub V W → Hub V W
  publish id payload hub = elim (session id hub) [
    | none ↦ hub
    | some handle ↦ publish_over handle.link payload hub
  ]

module _ {W : Type 0} ⦃watch : Watch W⦄ where
  -- The summaries of the handles at the given positions.
  unfoldable pub summaries : List (SessionHandle W) → List (String × ℕ) → List SessionSummary
  unfolding summary
  summaries handles [] = []
  summaries handles ((id, handle) ∷ rest) = elim (get_elem? handles handle) [
    | none ↦ summaries handles rest
    | some s ↦ summary s ∷ summaries handles rest
  ]

module _ {V W : Type 0} ⦃watch : Watch W⦄ where
  -- `let _ = control_tx.send(… handle.summary() …)`
  unfoldable pub announce : (SessionSummary → ControlEvent) → ℕ → Hub V W → Hub V W
  announce event handle hub = elim (get_elem? hub.handles handle) [
    | none ↦ hub
    | some s ↦ send_control (event (summary s)) hub
  ]

  -- What `register` does with the handle that its insertion replaced.
  unfoldable pub retire : Option ℕ → Hub V W → Hub V W
  retire none hub = hub
  retire (some old) hub = spawn (shutdown old) (update_handle old mark_disconnected hub)

  -- `insert` under the write lock: the new handle is the last of the arena.
  unfoldable pub insert_session : String → AgentLink → SessionMeta → Hub V W → Hub V W
  insert_session id link meta hub = record hub {
    handles = hub.handles ++ Session.new link meta ∷ [];
    sessions = insert id (length hub.handles) hub.sessions;
  }

  unfoldable pub register : String → AgentLink → SessionMeta → Hub V W → Hub V W
  register id link meta hub =
      let handle = length hub.handles in
      spawn (watch_status handle)
        (announce session_connected handle (retire (get id hub) (insert_session id link meta hub)))

  unfoldable pub unregister : String → Hub V W → Hub V W
  unregister id hub = elim (get id hub) [
    | none ↦ hub
    | some handle ↦
        send_control (session_disconnected id) (
          update_handle handle mark_disconnected (record hub { sessions = remove id hub.sessions }))
  ]

  unfoldable pub list : Hub V W → List SessionSummary
  unfolding summaries
  list hub = summaries hub.handles hub.sessions

module _ {V W : Type 0} ⦃json : Json V⦄ ⦃watch : Watch W⦄ where
  unfoldable pub update_meta : String → V → Hub V W → Hub V W
  update_meta id patch hub = elim (get id hub) [
    | none ↦ hub
    | some handle ↦
        announce session_meta handle
          (update_handle handle (λ s. record s { meta = patch_meta patch s.meta }) hub)
  ]

  -- The event types that the watcher does not skip.
  unfoldable pub apply_event : String → ℤ → ℕ → V → SessionHandle W → Hub V W → Hub V W
  apply_event ty now handle event s hub =
      let status = next_status ty event (record s.status { last_activity_at_ms = now }) in
      let updated = update_handle handle (λ h. record h { status = status }) hub in
      if status_changed s.status status then announce session_update handle updated else updated

  -- `now` is what `now_ms()` returns.
  unfoldable pub handle_event : ℕ → ℤ → V → Hub V W → Hub V W
  handle_event handle now event hub =
      let ty = unwrap_or (str_field event "type") "" in
      if not (is_status_event ty) then hub else elim (get_elem? hub.handles handle) [
        | none ↦ hub
        | some s ↦ apply_event ty now handle event s hub
      ]
