-- ===== src/Server/Agent/Worlds.antt =====
-- The hub with any number of `/agent` connections and the tasks that the registry spawned: every
-- interleaving of their steps. A step is one message, one event or one end of a connection, and with
-- it every operation of the registry that it calls, up to its announcement on the control channel:
-- the source releases the lock on the sessions before it sends there, so that an operation of another
-- thread can come between, which no order of these steps shows.
use pi_piper.Prelude.{ℕ, ℤ, String, ◌≡◌, refl, ◌∙◌, Option, none, some, nat_eq, if◌then◌else◌}
use pi_piper.Json.{Json}
use pi_piper.Watch.{Watch}
use pi_piper.Session.{AgentLink, SessionMeta, SessionHandle, connected_rx, drop_connected_rx}
use pi_piper.Session.Connected.{is_connected-connected_rx, is_connected-drop_connected_rx}
use pi_piper.Registry.{register, unregister, handle_event, update_handle}
use pi_piper.Registry.Invariant.{IsSession, IsValid, register-IsValid, unregister-IsValid}
use pi_piper.Registry.Updates.{modify-IsValid, handle_event-IsValid}
use pi_piper.Rpc.RemoteAgent.{Message, close_frame}
use pi_piper.Server.Agent.{World, Connection, send_to, update_hub, on_message, on_closed}
use pi_piper.Server.Agent.Frames.{on_message-IsValid, on_closed-IsValid}

-- The world, and the open connections by their number.
pub record System (V W : Type 0) : Type 0 where
  pub world : World V W
  pub open_at : ℕ → Option Connection

abbrev pub update_at : ℕ → Option Connection → (ℕ → Option Connection) → ℕ → Option Connection
update_at n c f m = if nat_eq n m then c else f m

module _ {V W : Type 0} ⦃json : Json V⦄ ⦃watch : Watch W⦄ where
  -- `AgentLink::shutdown` of a link, run as a task: a remote agent is sent a close frame. What a
  -- child process is asked is no part of the hub.
  abbrev pub run_shutdown : AgentLink → World V W → World V W
  run_shutdown (AgentLink.headless process) world = world
  run_shutdown (AgentLink.remote agent) world = send_to agent.to_agent close_frame world

  abbrev pub after_message : ℕ → Connection × World V W → System V W → System V W
  after_message n (connection, world) system = record {
    world = world;
    open_at = update_at n (some connection) system.open_at;
  }

  pub data Step (system : System V W) : System V W → Type 0 where
    accepts :
        (n : ℕ)
        → system.open_at n ≡ none
        → Step system (record system {
          open_at = update_at n (some (record { number = n; session_id = none })) system.open_at;
        })
    receives :
        (n : ℕ) (connection : Connection) (now : ℤ) (message : Message)
        → system.open_at n ≡ some connection
        → Step system (after_message n (on_message now message (connection, system.world)) system)
    ends :
        (n : ℕ) (connection : Connection)
        → system.open_at n ≡ some connection
        → Step system (record {
          world = on_closed (connection, system.world);
          open_at = update_at n none system.open_at;
        })
    -- The watcher of any handle, registered or not.
    watches :
        (handle : ℕ) (now : ℤ) (event : V)
        → Step system
            (record system { world = update_hub (handle_event handle now event) system.world })
    -- A watcher or a bridge begins or ends to follow a handle.
    subscribes :
        (handle : ℕ)
        → Step system
            (record system { world = update_hub (update_handle handle connected_rx) system.world })
    drops :
        (handle : ℕ)
        → Step system (record system {
          world = update_hub (update_handle handle drop_connected_rx) system.world;
        })
    shuts_down :
        (link : AgentLink) → Step system (record system { world = run_shutdown link system.world })
    -- The headless session of `main`, and the exit of its child.
    starts_headless :
        (process : ℕ) (meta : SessionMeta)
        → Step system (record system {
          world =
              update_hub (register meta.session_id (AgentLink.headless process) meta) system.world;
        })
    exits_headless :
        (id : String)
        → Step system (record system { world = update_hub (unregister id) system.world })

  pub data Reach (start : System V W) : System V W → Type 0 where
    here : Reach start start
    next : {s t : System V W} → Reach start s → Step s t → Reach start t

  pub shutdown-hub :
      (link : AgentLink) (world : World V W) → (run_shutdown link world).hub ≡ world.hub
  shutdown-hub (AgentLink.headless process) world = refl
  shutdown-hub (AgentLink.remote agent) world = refl

module _ {W : Type 0} ⦃watch : Watch W⦄ where
  connected_rx-IsSession :
      (id : String) (s : SessionHandle W)
      → IsSession id (some s)
      → IsSession id (some (connected_rx s))
  unfolding connected_rx
  connected_rx-IsSession id s h = (h.0, is_connected-connected_rx s ∙ h.1)

  drop_connected_rx-IsSession :
      (id : String) (s : SessionHandle W)
      → IsSession id (some s)
      → IsSession id (some (drop_connected_rx s))
  unfolding drop_connected_rx
  drop_connected_rx-IsSession id s h = (h.0, is_connected-drop_connected_rx s ∙ h.1)

module _ {V W : Type 0} ⦃json : Json V⦄ ⦃watch : Watch W⦄ where
  -- Every step keeps the registry valid.
  pub Step-IsValid : {s t : System V W} → Step s t → IsValid s.world.hub → IsValid t.world.hub
  Step-IsValid {s} (accepts n free) v = v
  Step-IsValid {s} (receives n connection now message e) v =
      on_message-IsValid now message connection s.world v
  Step-IsValid {s} (ends n connection e) v = on_closed-IsValid connection s.world v
  Step-IsValid {s} (watches handle now event) v =
      handle_event-IsValid handle now event s.world.hub v
  Step-IsValid {s} (subscribes handle) v =
      modify-IsValid connected_rx handle s.world.hub _ connected_rx-IsSession refl refl v
  Step-IsValid {s} (drops handle) v =
      modify-IsValid drop_connected_rx handle s.world.hub _ drop_connected_rx-IsSession refl refl v
  Step-IsValid {s} (shuts_down link) v = rw (shutdown-hub link s.world) v
  Step-IsValid {s} (starts_headless process meta) v =
      register-IsValid meta.session_id (AgentLink.headless process) meta s.world.hub refl v
  Step-IsValid {s} (exits_headless id) v = unregister-IsValid id s.world.hub v

  -- From a valid registry, in whatever order connections, watchers, bridges, shutdown tasks and the
  -- headless session take their steps, no id is registered twice, and each registered id stands for
  -- a handle that has the id in its metadata and is connected.
  pub Reach-IsValid : {s t : System V W} → IsValid s.world.hub → Reach s t → IsValid t.world.hub
  Reach-IsValid v here = v
  Reach-IsValid v (next r st) = Step-IsValid st (Reach-IsValid v r)
