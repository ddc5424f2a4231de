-- ===== src/Server/Agent/Races.antt =====
-- src/server/agent.rs and src/registry.rs: single orders of the steps of two connections, a watcher and
-- a removal.
use mathlib.Core.Option
use mathlib.Core.Option.{some-injective}
use pi_piper.Prelude.{
  ℕ, ℤ, String, ◌<◌, ◌≡◌, ◌≢◌, refl, sym, ◌∙◌, ap, true, false, Option, none, some, [], ◌∷◌, ◌++◌,
  ◌==◌, eq_iff, eq_refl, length, get_elem?, if◌then◌else◌, arith, unwrap_or, get_elem?-modify_self,
  get_elem?-append_lt, lt_of_get_elem?,
}
use pi_piper.Json.{Json}
use pi_piper.Watch.{Watch}
use pi_piper.Session.{
  AgentLink, SessionMeta, SessionSummary, SessionHandle, new, summary, is_connected,
  mark_disconnected,
}
use pi_piper.Session.Connected.{
  watchers, watchers-new, is_connected-new, mark_disconnected_unwatched,
}
use pi_piper.Preview.{str_field}
use pi_piper.Status.{is_status_event, status_changed}
use pi_piper.Registry.{Hub, get, session, register, unregister, handle_event, apply_event}
use pi_piper.Registry.Invariant.{
  IsSession, IsValid, retired, register-IsValid, get-register, handles-register, handles-unregister,
}
use pi_piper.Registry.Lookup.{session-unregister, session_of_get, new_session}
use pi_piper.Registry.Updates.{status_of, handle_event-IsValid, sessions-apply_event}
use pi_piper.Registry.Mirror.{client, upsert}
use pi_piper.Registry.Mirror.Status.{control_changed}
use pi_piper.Server.Agent.{World, Connection, on_register, on_closed}
use pi_piper.Server.Agent.Frames.{on_register_lem, on_register-IsValid}

module _ {V W : Type 0} ⦃json : Json V⦄ ⦃watch : Watch W⦄ where
  session-on_closed :
      (id j : String) (connection : Connection) (world : World V W)
      → IsValid world.hub
      → connection.session_id ≡ some id
      → session j (on_closed (connection, world)).hub
        ≡ (if id == j then none else session j world.hub)
  unfolding on_closed
  session-on_closed id j connection world v e = rw e (session-unregister id j world.hub v)

  -- With a valid registry, and with an id that one connection has registered: once a second
  -- connection has registered the id, it holds the id and the id is registered, and the end of the
  -- first connection then takes the id from the registry.
  pub older_close_evicts :
      (id : String) (now : ℤ) (frame : V) (older newer : Connection) (world : World V W)
      → IsValid world.hub
      → older.session_id ≡ some id
      → let (newer', world') = on_register id now frame (newer, world) in
        (newer'.session_id ≡ some id)
        × (session id world'.hub ≢ none)
        × (session id (on_closed (older, world')).hub ≡ none)
  older_close_evicts id now frame older newer world v e =
      let (registered, named, _) = on_register_lem id id now frame newer world v in
      (
        named,
        λ gone. cc (registered, eq_refl id, gone),
        session-on_closed id id older _ (on_register-IsValid id now frame newer world v) e
            ∙ rw (eq_refl id) refl,
      )

  -- With a valid registry, a connection that registers two different ids and then ends leaves the
  -- first of them registered.
  pub first_id_stays :
      (a b : String) (now later : ℤ) (frame frame' : V) (connection : Connection)
      (world : World V W)
      → IsValid world.hub
      → a ≢ b
      → session a
          (on_closed (on_register b later frame' (on_register a now frame (connection, world)))).hub
        ≢ none
  first_id_stays a b now later frame frame' connection world v other gone =
      let first = on_register a now frame (connection, world) in
      let second = on_register b later frame' first in
      let v1 = on_register-IsValid a now frame connection world v in
      let v2 = on_register-IsValid b later frame' first.0 first.1 v1 in
      let apart : (b == a) ≡ false = ground (arith, other, eq_iff b a) in
      let registered = (on_register_lem a a now frame connection world v).0 in
      let (kept, named, _) = on_register_lem b a later frame' first.0 first.1 v1 in
      let closed = session-on_closed b a second.0 second.1 v2 named in
      cc (gone, closed, kept, registered, apart, eq_refl a)

module _ {V W : Type 0} ⦃watch : Watch W⦄ where
  -- With a valid registry, where a session is registered and removed before any task has subscribed
  -- to its watch: the session is gone from the registry, but its handle is as it was made, and is
  -- connected.
  pub unwatched_stays_connected :
      (link : AgentLink) (meta : SessionMeta) (hub : Hub V W)
      → IsValid hub
      → let removed = unregister meta.session_id (register meta.session_id link meta hub) in
        (session meta.session_id removed ≡ none)
        × (get_elem? removed.handles (length hub.handles) ≡ some (new link meta))
        × (is_connected (new {W = W} link meta) ≡ true)
  unwatched_stays_connected link meta hub v =
      let id = meta.session_id in
      let registered = register id link meta hub in
      let got : get id registered ≡ some (length hub.handles) =
        get-register id id link meta hub ∙ rw (eq_refl id) refl in
      (
        session-unregister id id registered (register-IsValid id link meta hub refl v)
            ∙ rw (eq_refl id) refl,
        ap (λ hs. get_elem? hs (length hub.handles))
              (handles-unregister id registered ∙ ap (λ o. retired o registered.handles) got)
            ∙ get_elem?-modify_self registered.handles (length hub.handles) mark_disconnected
                (new_session id link meta hub v)
            ∙ ap some (mark_disconnected_unwatched (new link meta) (watchers-new W link meta)),
        is_connected-new W link meta,
      )

module _ {W : Type 0} ⦃watch : Watch W⦄ where
  connected_session :
      (id : String) (o : Option (SessionHandle W))
      → IsSession id o
      → Option.map is_connected o ≡ some true
  connected_session id none h = absurd h
  connected_session id (some s) h = ap some h.1

  shows_disconnected :
      (id : String) (t : SessionHandle W) (base : Option SessionSummary)
      → t.meta.session_id ≡ id
      → is_connected t ≡ false
      → Option.map (λ c. c.connected) (upsert (summary t) id base) ≡ some false
  unfolding summary
  shows_disconnected id t base named h = rw (named, eq_refl id) (ap some h)

module _ {V W : Type 0} ⦃watch : Watch W⦄ where
  pub replaced_handle :
      (id : String) (link : AgentLink) (meta : SessionMeta) (handle : ℕ) (s : SessionHandle W)
      (hub : Hub V W)
      → get id hub ≡ some handle
      → get_elem? hub.handles handle ≡ some s
      → get_elem? (register id link meta hub).handles handle ≡ some (mark_disconnected s)
  replaced_handle id link meta handle s hub e held =
      ap (λ hs. get_elem? hs handle)
        (handles-register id link meta hub
          ∙ ap (λ o. retired o (hub.handles ++ new link meta ∷ [])) e)
      ∙ get_elem?-modify_self (hub.handles ++ new link meta ∷ []) handle mark_disconnected (
          get_elem?-append_lt hub.handles (new link meta ∷ []) handle
            (lt_of_get_elem? hub.handles handle held)
          ∙ held)

module _ {V W : Type 0} ⦃json : Json V⦄ ⦃watch : Watch W⦄ where
  handle_event-apply_event :
      (handle : ℕ) (now : ℤ) (event : V) (s : SessionHandle W) (hub : Hub V W)
      → is_status_event (unwrap_or (str_field event "type") "") ≡ true
      → get_elem? hub.handles handle ≡ some s
      → handle_event handle now event hub
        ≡ apply_event (unwrap_or (str_field event "type") "") now handle event s hub
  unfolding handle_event
  handle_event-apply_event handle now event s hub seen held = rw (seen, held)

  get-apply_event :
      (id ty : String) (now : ℤ) (handle : ℕ) (event : V) (s : SessionHandle W) (hub : Hub V W)
      → get id (apply_event ty now handle event s hub) ≡ get id hub
  unfolding get
  get-apply_event id ty now handle event s hub = rw sessions-apply_event

module _ {V W : Type 0} ⦃json : Json V⦄ ⦃watch : Watch W⦄ where
  -- With a valid registry, after the replacement of a handle whose watch has a receiver: a status
  -- event that the watcher of the old handle still handles, and that changes its status, is the last
  -- that a phone is told of the id, and it shows the session as not connected, while the session
  -- that is registered under the id is connected.
  pub stale_event_overwrites :
      (link : AgentLink) (meta : SessionMeta) (handle : ℕ) (now : ℤ) (event : V)
      (s : SessionHandle W) (hub : Hub V W)
      → IsValid hub
      → get meta.session_id hub ≡ some handle
      → get_elem? hub.handles handle ≡ some s
      → 0 < watchers s
      → is_status_event (unwrap_or (str_field event "type") "") ≡ true
      → status_changed s.status (status_of (unwrap_or (str_field event "type") "") now event s)
        ≡ true
      → let hub' = handle_event handle now event (register meta.session_id link meta hub) in
        (Option.map (λ c. c.connected) (client none hub'.control meta.session_id) ≡ some false)
        × (Option.map is_connected (session meta.session_id hub') ≡ some true)
  unfolding mark_disconnected is_connected
  stale_event_overwrites link meta handle now event s hub v e held watched seen changed =
      let id = meta.session_id in
      let ty = unwrap_or (str_field event "type") "" in
      let registered = register id link meta hub in
      let stale = replaced_handle id link meta handle s hub e held in
      let (_, same, named) = session_of_get id handle hub v e in
      let applied =
        handle_event-apply_event handle now event (mark_disconnected s) registered seen stale in
      let got : get id (handle_event handle now event registered) ≡ some (length hub.handles) =
        ap (get id) applied
        ∙ get-apply_event id ty now handle event (mark_disconnected s) registered
        ∙ get-register id id link meta hub
        ∙ rw (eq_refl id) refl in
      (
        ap (λ h. Option.map (λ (c : SessionSummary). c.connected) (client none h.control id))
              applied
            ∙ ap (λ l. Option.map (λ (c : SessionSummary). c.connected) (client none l id))
                (control_changed id ty now handle event (mark_disconnected s) registered changed
                  stale)
            ∙ shows_disconnected id _ _
                (ap (λ (t : SessionHandle W). t.meta.session_id)
                    (some-injective _ _ (sym held ∙ same))
                  ∙ named)
                (watch.borrow-send false s.connected watched),
        rw got (
            connected_session id _ (
              (handle_event-IsValid handle now event registered
                  (register-IsValid id link meta hub refl v)).registered
                id (length hub.handles) got)),
      )
