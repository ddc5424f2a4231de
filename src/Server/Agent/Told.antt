-- ===== src/Server/Agent/Told.antt =====
-- src/server/agent.rs, src/server/control.rs and src/registry.rs: what phones are told of the steps of
-- the hub with any number of `/agent` connections.

use pi_piper.Prelude.{ℕ, ℤ, String, ◌≡◌, refl, sym, ◌∙◌, subst, some, []}
use pi_piper.Json.{Json}
use pi_piper.Watch.{Watch}
use pi_piper.Session.{
  AgentLink, SessionMeta, SessionHandle, summary, connected_rx, drop_connected_rx,
}
use pi_piper.Registry.{Hub, get, register, unregister, handle_event, update_handle}
use pi_piper.Registry.Invariant.{IsValid}
use pi_piper.Registry.Mirror.{shown_handle}
use pi_piper.Registry.Mirror.Extends.{Extends, Extends-trans, step-Extends}
use pi_piper.Registry.Mirror.Run.{
  Op, registers, unregisters, patches, publishes, emits, watch_event, step, IsSound, step-IsSound,
}
use pi_piper.Server.Agent.Links.{session-modify}
use pi_piper.Server.Agent.Worlds.{
  System, Step, accepts, receives, ends, watches, subscribes, drops, shuts_down, starts_headless,
  exits_headless, shutdown-hub, Step-IsValid,
}
use pi_piper.Server.Agent.Closure.{IsClosed, on_message_kept, on_closed_kept}

module _ {V W : Type 0} ⦃watch : Watch W⦄ where
  -- A change keeps what phones are told in step with the registry, and only adds messages.
  pub record IsTold (hub hub' : Hub V W) : Type 0 where
    pub sound : IsSound hub → IsSound hub'
    pub extends : Extends hub.control hub'.control

  refl-IsTold : (hub : Hub V W) → IsTold hub hub
  refl-IsTold hub = record { sound = λ h. h; extends = ([], refl) }

  trans-IsTold : (a b c : Hub V W) → IsTold a b → IsTold b c → IsTold a c
  trans-IsTold a b c first second = record {
    sound = λ h. second.sound (first.sound h);
    extends = Extends-trans first.extends second.extends;
  }

module _ {V W : Type 0} ⦃json : Json V⦄ ⦃watch : Watch W⦄ where
  step-IsTold : (op : Op V) (hub : Hub V W) → IsTold hub (step op hub)
  step-IsTold op hub = record { sound = step-IsSound op hub; extends = step-Extends op hub }

  started-IsTold :
      (link : AgentLink) (meta : SessionMeta) (hub : Hub V W)
      → IsTold hub (register meta.session_id link meta hub)
  unfolding step
  started-IsTold link meta hub = step-IsTold (registers link meta) hub

  removed-IsTold : (id : String) (hub : Hub V W) → IsTold hub (unregister id hub)
  unfolding step
  removed-IsTold id hub = step-IsTold (unregisters id) hub

  -- The operations of a connection keep a registry told of, from any earlier one.
  IsTold-IsClosed : (start : Hub V W) → IsClosed (IsTold start)
  unfolding step
  IsTold-IsClosed start = record {
    registers = λ link meta hub h. trans-IsTold start hub _ h (started-IsTold link meta hub);
    removes = λ id hub h. trans-IsTold start hub _ h (removed-IsTold id hub);
    patches = λ id patch hub h. trans-IsTold start hub _ h (step-IsTold (patches id patch) hub);
    publishes =
        λ id payload hub h. trans-IsTold start hub _ h (step-IsTold (publishes id payload) hub);
  }

  watched-IsTold :
      (id : String) (handle : ℕ) (now : ℤ) (event : V) (hub : Hub V W)
      → get id hub ≡ some handle
      → IsTold hub (handle_event handle now event hub)
  unfolding step watch_event
  watched-IsTold id handle now event hub e =
      subst (λ o. IsTold hub (watch_event o now event hub)) e (step-IsTold (emits id now event) hub)

module _ {W : Type 0} ⦃watch : Watch W⦄ where
  shown-connected_rx : (s : SessionHandle W) → shown_handle (connected_rx s) ≡ shown_handle s
  unfolding summary connected_rx
  shown-connected_rx s = rw (watch.borrow-subscribe s.connected) refl

  shown-drop_connected_rx :
      (s : SessionHandle W) → shown_handle (drop_connected_rx s) ≡ shown_handle s
  unfolding summary drop_connected_rx
  shown-drop_connected_rx s = rw (watch.borrow-release s.connected) refl

module _ {V W : Type 0} ⦃json : Json V⦄ ⦃watch : Watch W⦄ where
  -- A change of a handle that is not shown.
  unseen-IsTold :
      (f : SessionHandle W → SessionHandle W) (handle : ℕ) (hub : Hub V W)
      → ((s : SessionHandle W) → shown_handle (f s) ≡ shown_handle s)
      → (IsValid hub → IsValid (update_handle handle f hub))
      → IsTold hub (update_handle handle f hub)
  unseen-IsTold f handle hub same valid = record {
    sound = λ h. record {
      valid = valid h.valid;
      mirrors = λ id.
          h.mirrors id
          ∙ sym (
              session-modify shown_handle id handle f hub (update_handle handle f hub) same refl
                refl);
    };
    extends = ([], refl);
  }

  -- A watcher steps only for a handle that is registered.
  abbrev pub IsCurrent : {s t : System V W} → Step s t → Type 0
  IsCurrent {s} (watches handle now event) = (id : String) × (get id s.world.hub ≡ some handle)
  IsCurrent _ = Unit

  Step-IsTold : {s t : System V W} (st : Step s t) → IsCurrent st → IsTold s.world.hub t.world.hub
  Step-IsTold {s} (accepts n free) now = refl-IsTold s.world.hub
  Step-IsTold {s} (receives n c now message e) current =
      on_message_kept (IsTold s.world.hub) (IsTold-IsClosed s.world.hub) now message c s.world
        (refl-IsTold s.world.hub)
  Step-IsTold {s} (ends n c e) current =
      on_closed_kept (IsTold s.world.hub) (IsTold-IsClosed s.world.hub) c s.world
        (refl-IsTold s.world.hub)
  Step-IsTold {s} (watches handle now event) (id, e) =
      watched-IsTold id handle now event s.world.hub e
  Step-IsTold {s} (subscribes handle) current =
      unseen-IsTold connected_rx handle s.world.hub shown-connected_rx
        (Step-IsValid {s = s} (subscribes handle))
  Step-IsTold {s} (drops handle) current =
      unseen-IsTold drop_connected_rx handle s.world.hub shown-drop_connected_rx
        (Step-IsValid {s = s} (drops handle))
  Step-IsTold {s} (shuts_down link) current =
      subst (IsTold s.world.hub) (sym (shutdown-hub link s.world)) (refl-IsTold s.world.hub)
  Step-IsTold {s} (starts_headless process meta) current = started-IsTold _ meta s.world.hub
  Step-IsTold {s} (exits_headless id) current = removed-IsTold id s.world.hub

  -- Steps in which each watcher steps only while its handle is registered.
  pub data CurrentReach (start : System V W) : System V W → Type 0 where
    here : CurrentReach start start
    next :
        {s t : System V W}
        → CurrentReach start s
        → (st : Step s t) → IsCurrent st
        → CurrentReach start t

  pub CurrentReach-IsTold : {s t : System V W} → CurrentReach s t → IsTold s.world.hub t.world.hub
  CurrentReach-IsTold {s} here = refl-IsTold s.world.hub
  CurrentReach-IsTold {s} {t} (next {s = u} r st current) =
      trans-IsTold s.world.hub u.world.hub t.world.hub (CurrentReach-IsTold r)
        (Step-IsTold st current)
