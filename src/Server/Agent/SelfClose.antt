-- ===== src/Server/Agent/SelfClose.antt =====
-- src/server/agent.rs and src/registry.rs: a connection that registers the id again that it holds.

use pi_piper.Prelude.{
  ℕ, ℤ, String, ◌≡◌, refl, ap, ◌∙◌, some, ◌∷◌, eq_refl, length, get_elem?, Option-cases, inl, inr,
}
use pi_piper.Json.{Json}
use pi_piper.Watch.{Watch}
use pi_piper.Events.{ControlEvent}
use pi_piper.Session.{AgentLink, SessionMeta, SessionSummary, SessionHandle, new, mark_disconnected}
use pi_piper.Registry.{Hub, Task, get, announce, retire, insert_session, register}
use pi_piper.Registry.Invariant.{IsValid, get-register}
use pi_piper.Registry.Lookup.{new_session}
use pi_piper.Rpc.RemoteAgent.{close_frame}
use pi_piper.Server.Agent.{World, Connection, register_meta, on_register}
use pi_piper.Server.Agent.Worlds.{run_shutdown}
use pi_piper.Server.Agent.Links.{link_of}
use pi_piper.Server.Agent.Races.{replaced_handle}

module _ {V W : Type 0} ⦃watch : Watch W⦄ where
  pub tasks-announce :
      (event : SessionSummary → ControlEvent) (handle : ℕ) (hub : Hub V W)
      → (announce event handle hub).tasks ≡ hub.tasks
  unfolding announce
  tasks-announce event handle hub = elim (Option-cases (get_elem? hub.handles handle)) [
    | inl e ↦ rw (e, announce) refl
    | inr (s, e) ↦ rw (e, announce) refl
  ]

  -- A replacement leaves two tasks: the shutdown of the link of the old handle, and the new watcher.
  tasks-register :
      (id : String) (link : AgentLink) (meta : SessionMeta) (old : ℕ) (hub : Hub V W)
      → get id hub ≡ some old
      → (register id link meta hub).tasks
        ≡ Task.watch_status (length hub.handles) ∷ Task.shutdown old ∷ hub.tasks
  unfolding register insert_session retire
  tasks-register id link meta old hub e = ap (◌∷◌ (Task.watch_status (length hub.handles))) (
      tasks-announce _ (length hub.handles) (retire (get id hub) (insert_session id link meta hub))
      ∙ rw e refl)

module _ {V W : Type 0} ⦃json : Json V⦄ ⦃watch : Watch W⦄ where
  -- With a valid registry, a connection that registers the same id twice leaves the shutdown of its
  -- first handle as a task, and that task sends a close frame on the connection itself.
  pub re_register_closes_itself :
      (id : String) (now later : ℤ) (frame frame' : V) (connection : Connection) (world : World V W)
      → IsValid world.hub
      → let first = on_register id now frame (connection, world) in
        let (_, world') = on_register id later frame' first in
        let old = length world.hub.handles in
        (world'.hub.tasks
          ≡ Task.watch_status (length first.1.hub.handles) ∷ Task.shutdown old ∷ first.1.hub.tasks)
        × ((s : SessionHandle W) × (get_elem? world'.hub.handles old ≡ some s)
            × ((run_shutdown s.link world').outbound
                ≡ (connection.number, close_frame) ∷ world'.outbound))
  unfolding on_register mark_disconnected new
  re_register_closes_itself id now later frame frame' connection world v =
      let old = length world.hub.handles in
      let link = AgentLink.remote (record { to_agent = connection.number; events_tx = old }) in
      let meta = register_meta id now frame in
      let hub1 = register id link meta world.hub in
      let got : get id hub1 ≡ some old =
        get-register id id link meta world.hub ∙ rw (eq_refl id) refl in
      (
        tasks-register id _ (register_meta id later frame') old hub1 got,
        (
          mark_disconnected (new link meta),
          replaced_handle id _ (register_meta id later frame') old (new link meta) hub1 got
              (new_session id link meta world.hub v),
          refl,
        ),
      )

module _ {V W : Type 0} ⦃json : Json V⦄ ⦃watch : Watch W⦄ where
  -- A handle that is registered with a link, from the link.
  handle_of_link :
      (id : String) (link : AgentLink) (hub : Hub V W)
      → link_of id hub ≡ some link
      → (old : ℕ) × (s : SessionHandle W) × (get id hub ≡ some old)
        × (get_elem? hub.handles old ≡ some s)
        × (s.link ≡ link)
  unfolding get
  handle_of_link id link hub l = elim (Option-cases (get id hub)) [
    | inl e ↦ cc (rw e at l)
    | inr (old, e) ↦ elim (Option-cases (get_elem? hub.handles old)) [
      | inl f ↦ cc (rw (e, f) at l)
      | inr (s, f) ↦ (old, s, e, f, cc (rw (e, f) at l))
    ]
  ]

  -- A registration of an id whose session is linked to a connection, on whatever connection, leaves
  -- the watcher of the new handle and the shutdown of the old one as tasks, and that shutdown sends
  -- a close frame to the connection that the id was linked to.
  pub replaced_is_closed :
      (id : String) (n channel : ℕ) (now : ℤ) (frame : V) (connection : Connection)
      (world : World V W)
      → link_of id world.hub
        ≡ some (AgentLink.remote (record { to_agent = n; events_tx = channel }))
      → let (_, world') = on_register id now frame (connection, world) in
        (old : ℕ) × (s : SessionHandle W) × (world'.hub.tasks
          ≡ Task.watch_status (length world.hub.handles) ∷ Task.shutdown old ∷ world.hub.tasks)
        × (get_elem? world'.hub.handles old ≡ some s)
        × ((run_shutdown s.link world').outbound ≡ (n, close_frame) ∷ world'.outbound)
  unfolding on_register mark_disconnected
  replaced_is_closed id n channel now frame connection world l =
      let (old, s, e, f, same) = handle_of_link id _ world.hub l in
      (
        old,
        mark_disconnected s,
        tasks-register id _ (register_meta id now frame) old world.hub e,
        replaced_handle id _ (register_meta id now frame) old s world.hub e f,
        ap (λ k. (run_shutdown k (on_register id now frame (connection, world)).1).outbound) same,
      )
