-- ===== src/Server/Agent/Spawned.antt =====
-- src/registry.rs and src/server/agent.rs: the watchers that are spawned, along the steps of the hub
-- with any number of `/agent` connections.
use pi_piper.Prelude.{
  ℕ, ℤ, zero, suc, String, ◌≡◌, refl, sym, ◌∙◌, ap, Option, none, some, List, [], ◌∷◌, length,
  length-modify, arith,
}
use pi_piper.Json.{Json}
use pi_piper.Watch.{Watch}
use pi_piper.Session.{AgentLink, SessionMeta, connected_rx, drop_connected_rx}
use pi_piper.Registry.{
  Hub, Task, watch_status, shutdown, get, announce, retire, insert_session, register, unregister,
  update_meta, publish, handle_event, apply_event, update_handle,
}
use pi_piper.Server.Agent.Arena.{
  size, size-register, size-unregister, size-update_meta, size-publish, size-handle_event,
}
use pi_piper.Server.Agent.SelfClose.{tasks-announce}
use pi_piper.Server.Agent.Owners.{fresh}
use pi_piper.Server.Agent.Worlds.{
  System, Step, accepts, receives, ends, watches, subscribes, drops, shuts_down, starts_headless,
  exits_headless, Reach, here, next, shutdown-hub,
}
use pi_piper.Server.Agent.Closure.{IsClosed, on_message_kept, on_closed_kept}

-- The handles that have a watcher.
abbrev pub watched : List Task → List ℕ
watched [] = []
watched (watch_status handle ∷ rest) = handle ∷ watched rest
watched (shutdown handle ∷ rest) = watched rest

-- The numbers below `n`, the last first.
abbrev pub below : ℕ → List ℕ
below zero = []
below (suc n) = n ∷ below n

module _ {V W : Type 0} ⦃watch : Watch W⦄ where
  -- Each handle has one watcher.
  abbrev pub IsStaffed : Hub V W → Type 0
  IsStaffed hub = watched hub.tasks ≡ below (size hub)

  same-IsStaffed :
      (hub hub' : Hub V W)
      → hub'.tasks ≡ hub.tasks
      → size hub' ≡ size hub
      → IsStaffed hub
      → IsStaffed hub'
  same-IsStaffed hub hub' t n h = ap watched t ∙ h ∙ sym (ap below n)

  watched-retire : (o : Option ℕ) (hub : Hub V W) → watched (retire o hub).tasks ≡ watched hub.tasks
  unfolding retire
  watched-retire none hub = refl
  watched-retire (some old) hub = refl

  register-IsStaffed :
      (id : String) (link : AgentLink) (meta : SessionMeta) (hub : Hub V W)
      → IsStaffed hub
      → IsStaffed (register id link meta hub)
  unfolding register insert_session
  register-IsStaffed id link meta hub h =
      ap (λ l. size hub ∷ l)
        (ap watched
            (tasks-announce _ (size hub) (retire (get id hub) (insert_session id link meta hub)))
          ∙ watched-retire (get id hub) (insert_session id link meta hub)
          ∙ h)
      ∙ sym (ap below (size-register id link meta hub))

  unregister-IsStaffed :
      (id : String) (hub : Hub V W) → IsStaffed hub → IsStaffed (unregister id hub)
  unfolding unregister
  unregister-IsStaffed id hub =
      same-IsStaffed hub (unregister id hub) (ground arith) (size-unregister id hub)

module _ {V W : Type 0} ⦃json : Json V⦄ ⦃watch : Watch W⦄ where
  update_meta-IsStaffed :
      (id : String) (patch : V) (hub : Hub V W)
      → IsStaffed hub
      → IsStaffed (update_meta id patch hub)
  unfolding update_meta announce
  update_meta-IsStaffed id patch hub =
      same-IsStaffed hub (update_meta id patch hub) (ground arith) (size-update_meta id patch hub)

  publish-IsStaffed :
      (id : String) (payload : V) (hub : Hub V W)
      → IsStaffed hub
      → IsStaffed (publish id payload hub)
  unfolding publish
  publish-IsStaffed id payload hub =
      same-IsStaffed hub (publish id payload hub) (ground arith) (size-publish id payload hub)

  handle_event-IsStaffed :
      (handle : ℕ) (now : ℤ) (event : V) (hub : Hub V W)
      → IsStaffed hub
      → IsStaffed (handle_event handle now event hub)
  unfolding handle_event apply_event announce
  handle_event-IsStaffed handle now event hub =
      same-IsStaffed hub (handle_event handle now event hub) (ground arith)
        (size-handle_event handle now event hub)

  IsStaffed-IsClosed : IsClosed {V = V} {W = W} (λ hub. IsStaffed hub)
  IsStaffed-IsClosed = record {
    registers = λ link meta hub h. register-IsStaffed meta.session_id link meta hub h;
    removes = unregister-IsStaffed;
    patches = update_meta-IsStaffed;
    publishes = publish-IsStaffed;
  }

  Step-IsStaffed : {s t : System V W} → Step s t → IsStaffed s.world.hub → IsStaffed t.world.hub
  Step-IsStaffed {s} (accepts n free) h = h
  Step-IsStaffed {s} (receives n c now message e) h =
      on_message_kept (λ hub. IsStaffed hub) IsStaffed-IsClosed now message c s.world h
  Step-IsStaffed {s} (ends n c e) h =
      on_closed_kept (λ hub. IsStaffed hub) IsStaffed-IsClosed c s.world h
  Step-IsStaffed {s} (watches handle now event) h =
      handle_event-IsStaffed handle now event s.world.hub h
  Step-IsStaffed {s} (subscribes handle) h =
      same-IsStaffed s.world.hub (update_handle handle connected_rx s.world.hub) refl
        (length-modify s.world.hub.handles handle _) h
  Step-IsStaffed {s} (drops handle) h =
      same-IsStaffed s.world.hub (update_handle handle drop_connected_rx s.world.hub) refl
        (length-modify s.world.hub.handles handle _) h
  Step-IsStaffed {s} (shuts_down link) h = rw (shutdown-hub link s.world) h
  Step-IsStaffed {s} (starts_headless process meta) h =
      register-IsStaffed meta.session_id _ meta s.world.hub h
  Step-IsStaffed {s} (exits_headless id) h = unregister-IsStaffed id s.world.hub h

  -- In whatever order steps are taken from a hub without sessions and connections: the watchers that
  -- were spawned are those of all the handles that were ever made, one for each, the newest first.
  pub watchers_spawned :
      {t : System V W}
      → Reach fresh t
      → watched t.world.hub.tasks ≡ below (length t.world.hub.handles)
  watchers_spawned here = refl
  watchers_spawned (next r st) = Step-IsStaffed st (watchers_spawned r)
