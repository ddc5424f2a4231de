-- ===== src/Registry/Mirror/Run.antt =====
-- src/registry.rs: sequences of operations, each run to its end before the next begins.
use mathlib.Core.Option
use pi_piper.Prelude.{ℕ, ℤ, ◌≡◌, refl, String, Option, none, some, List, [], ◌∷◌}
use pi_piper.Json.{Json}
use pi_piper.Watch.{Watch}
use pi_piper.Session.{AgentLink, SessionMeta}
use pi_piper.Registry.{
  Hub, empty, get, session, register, unregister, update_meta, publish, handle_event,
}
use pi_piper.Registry.Invariant.{IsValid, empty-IsValid, register-IsValid, unregister-IsValid}
use pi_piper.Registry.Updates.{publish-IsValid, update_meta-IsValid, handle_event-IsValid}
use pi_piper.Registry.Mirror.{
  client, live, shown_handle, Mirrors, register-Mirrors, unregister-Mirrors, publish-Mirrors,
  update_meta-Mirrors,
}
use pi_piper.Registry.Mirror.Status.{handle_event-Mirrors}

-- A registration is under the id in its metadata, as in `main` and in the `/agent` handler. An
-- event is one of a registered session.
pub data Op (V : Type 0) : Type 0 where
  registers : AgentLink → SessionMeta → Op V
  unregisters : String → Op V
  patches publishes : String → V → Op V
  emits : String → ℤ → V → Op V

module _ {V W : Type 0} ⦃watch : Watch W⦄ where
  -- A valid registry whose control channel tells the phone what is registered.
  pub record IsSound (hub : Hub V W) : Type 0 where
    pub valid : IsValid hub
    pub mirrors : Mirrors hub

module _ {V W : Type 0} ⦃json : Json V⦄ ⦃watch : Watch W⦄ where
  -- The watcher of the session, if there is one, handles the event.
  unfoldable pub watch_event : Option ℕ → ℤ → V → Hub V W → Hub V W
  watch_event none now event hub = hub
  watch_event (some handle) now event hub = handle_event handle now event hub

  unfoldable pub step : Op V → Hub V W → Hub V W
  step (registers link meta) hub = register meta.session_id link meta hub
  step (unregisters id) hub = unregister id hub
  step (patches id patch) hub = update_meta id patch hub
  step (publishes id payload) hub = publish id payload hub
  step (emits id now event) hub = watch_event (get id hub) now event hub

  unfoldable pub run : List (Op V) → Hub V W → Hub V W
  unfolding step
  run [] hub = hub
  run (op ∷ ops) hub = run ops (step op hub)

  watch_event-IsSound :
      (id : String) (o : Option ℕ) (now : ℤ) (event : V) (hub : Hub V W)
      → get id hub ≡ o
      → IsSound hub
      → IsSound (watch_event o now event hub)
  unfolding watch_event
  watch_event-IsSound id none now event hub e h = h
  watch_event-IsSound id (some handle) now event hub e h = record {
    valid = handle_event-IsValid handle now event hub h.valid;
    mirrors = handle_event-Mirrors id handle now event hub h.valid e h.mirrors;
  }

  pub step-IsSound : (op : Op V) (hub : Hub V W) → IsSound hub → IsSound (step op hub)
  unfolding step
  step-IsSound (registers link meta) hub h = record {
    valid = register-IsValid meta.session_id link meta hub refl h.valid;
    mirrors = register-Mirrors link meta hub h.valid h.mirrors;
  }
  step-IsSound (unregisters id) hub h = record {
    valid = unregister-IsValid id hub h.valid;
    mirrors = unregister-Mirrors id hub h.valid h.mirrors;
  }
  step-IsSound (patches id patch) hub h = record {
    valid = update_meta-IsValid id patch hub h.valid;
    mirrors = update_meta-Mirrors id patch hub h.valid h.mirrors;
  }
  step-IsSound (publishes id payload) hub h = record {
    valid = publish-IsValid id payload hub h.valid;
    mirrors = publish-Mirrors id payload hub h.mirrors;
  }
  step-IsSound (emits id now event) hub h = watch_event-IsSound id (get id hub) now event hub refl h

  pub run-IsSound : (ops : List (Op V)) (hub : Hub V W) → IsSound hub → IsSound (run ops hub)
  unfolding run
  run-IsSound [] hub h = h
  run-IsSound (op ∷ ops) hub h = run-IsSound ops (step op hub) (step-IsSound op hub h)

  pub empty-IsSound : IsSound (empty {V = V} {W = W})
  unfolding get
  empty-IsSound = record { valid = empty-IsValid; mirrors = λ id. refl }

module _ {V : Type 0} (W : Type 0) ⦃json : Json V⦄ ⦃watch : Watch W⦄ where
  -- After any registrations, removals, patches, publications and status events of registered
  -- sessions from the empty registry, what a phone that has followed the control channel from the
  -- start knows of each session id is what is registered under it, the time of the last activity
  -- apart.
  pub client-run :
      (ops : List (Op V)) (id : String)
      → live (client none (run {W = W} ops empty).control id)
        ≡ Option.map shown_handle (session id (run {W = W} ops empty))
  client-run ops = (run-IsSound ops empty empty-IsSound).mirrors
