-- ===== src/Main/Startup.antt =====
-- src/main.rs: what a start of the hub comes to, with the headless child.
use mathlib.Core.Option
use mathlib.Core.Option.{map-map}
use pi_piper.Prelude.{
  ℕ, eq_refl, ◌≡◌, refl, subst, String, Option, none, some, List, [], Result, ok, err, Bool-cases,
  Option-cases, inl, inr, arith, ◌>>=◌, get_elem?,
}
use pi_piper.Watch.{Watch}
use pi_piper.Config.{Config}
use pi_piper.Session.{AgentLink, new}
use pi_piper.State.{AppState}
use pi_piper.State as State
use pi_piper.Registry.{
  Hub, empty, get, get_default, session, register, unregister, retire, announce, insert_session,
}
use pi_piper.Registry.Map.{lookup, insert, remove}
use pi_piper.Rpc.Process.{ProcessCall, SpawnError, shutdown}
use pi_piper.AgentToken.{FileSystem, TokenError}
use pi_piper.Server.Ws.{resolve}
use pi_piper.Server.Agent.Links.{link_of}
use pi_piper.Main.{
  MainError, token, spawning, binding, serving, Stop, served, serve_failed, ctrl_c, Environment,
  headless_exited, start_headless, choose_token, register_spawned, prepare, main, stopped,
  with_token, with_headless, finish,
}

-- The calls on the headless child that an end of `main` has made: no child where it ended before
-- there was one, and no call where the server did not start or failed.
abbrev pub child_of : Result MainError (Unit {0}) → Option String → Option (List ProcessCall)
child_of (ok done) project_dir = Option.map (λ _. shutdown) project_dir
child_of (err (token e)) project_dir = none
child_of (err (spawning e)) project_dir = none
child_of (err binding) project_dir = Option.map (λ _. []) project_dir
child_of (err serving) project_dir = Option.map (λ _. []) project_dir

child_of-stopped :
    (project_dir : Option String) (stop : Stop)
    → (stopped (Option.map (λ _. 0) project_dir) stop).1
      ≡ child_of (stopped (Option.map (λ _. 0) project_dir) stop).0 project_dir
child_of-stopped none served = refl
child_of-stopped none serve_failed = refl
child_of-stopped none ctrl_c = refl
child_of-stopped (some dir) served = refl
child_of-stopped (some dir) serve_failed = refl
child_of-stopped (some dir) ctrl_c = refl

module _ {V W S R : Type 0} ⦃watch : Watch W⦄ where
  -- The headless process of a start, and what is registered.
  abbrev IsStarted : Environment V W S R → Config → Result SpawnError (Option ℕ × Hub V W) → Type 0
  IsStarted env config (err e) = Unit
  IsStarted env config (ok (headless, hub)) =
      (headless ≡ Option.map (λ _. 0) config.project_dir)
      × ((resolve none hub >>= get_elem? hub.handles) ≡ session env.uuids.2 hub)
      × (link_of env.uuids.2 hub ≡ Option.map AgentLink.headless headless)
      × (resolve none (headless_exited env.uuids.2 hub) ≡ none)

  registered-IsStarted :
      (env : Environment V W S R) (config : Config) (dir : String)
      → (pipes : Result SpawnError (S × R × R)) → config.project_dir ≡ some dir
      → IsStarted env config (register_spawned 0 env.uuids.2 env.now dir empty pipes)
  unfolding headless_exited register unregister retire announce insert_session get get_default
      lookup insert remove new
  registered-IsStarted env config dir (err e) p = tt
  registered-IsStarted env config dir (ok pipes) p =
      let id = env.uuids.2 in
      (rw p, ground (arith, eq_refl id), ground (arith, eq_refl id), ground (arith, eq_refl id))

  start_headless-IsStarted :
      (env : Environment V W S R) (config : Config)
      → IsStarted env config (start_headless env.start 0 env.uuids.2 env.now config empty)
  unfolding start_headless
  start_headless-IsStarted env config = elim (Option-cases config.project_dir) [
    | inl e ↦
        rw (e, start_headless)
          (
            refl,
            unfold get_default get lookup in refl,
            unfold get lookup in refl,
            unfold headless_exited unregister get lookup get_default in refl,
          )
    | inr (dir, e) ↦
        rw (e, start_headless)
          (registered-IsStarted env (record config { project_dir = some dir }) dir _ refl)
  ]

  prepared_lem :
      (env : Environment V W S R) (config : Config)
      → (r : Result SpawnError (Option ℕ × Hub V W)) (agent_token : String) → IsStarted env config r
      → (finish env config (with_token agent_token r)).1
        ≡ child_of (finish env config (with_token agent_token r)).0 config.project_dir
  prepared_lem env config (err e) agent_token h = refl
  prepared_lem env config (ok (headless, hub)) agent_token h =
      elim (Bool-cases (env.bind config.bind)) [
        | inl b ↦
            rw (b, h.0)
              (child_of-stopped config.project_dir (env.serve (State.new hub agent_token)))
        | inr b ↦ rw (b, h.0) (map-map (λ _. []) (λ _. 0) config.project_dir)
      ]

  with_headless_lem :
      (env : Environment V W S R) (config : Config) (agent_token : Result TokenError String)
      → (finish env config (with_headless env config agent_token)).1
        ≡ child_of (finish env config (with_headless env config agent_token)).0 config.project_dir
  with_headless_lem env config (err e) = refl
  with_headless_lem env config (ok agent_token) =
      prepared_lem env config _ agent_token (start_headless-IsStarted env config)

  -- What `IsStarted` says of the state that the router is given.
  abbrev IsPrepared :
      Environment V W S R → Config → Result MainError (Option ℕ × AppState V W) → Type 0
  IsPrepared env config (err e) = Unit
  IsPrepared env config (ok (headless, state)) =
      IsStarted env config (ok (headless, state.registry))

  with_token-IsPrepared :
      (env : Environment V W S R) (config : Config) (agent_token : String)
      (r : Result SpawnError (Option ℕ × Hub V W))
      → IsStarted env config r
      → IsPrepared env config (with_token agent_token r)
  with_token-IsPrepared env config agent_token (err e) h = tt
  with_token-IsPrepared env config agent_token (ok (headless, hub)) h = h

  with_headless-IsPrepared :
      (env : Environment V W S R) (config : Config) (agent_token : Result TokenError String)
      → IsPrepared env config (with_headless env config agent_token)
  with_headless-IsPrepared env config (err e) = tt
  with_headless-IsPrepared env config (ok agent_token) =
      with_token-IsPrepared env config agent_token _ (start_headless-IsStarted env config)

module _ {V W S R F : Type 0} ⦃watch : Watch W⦄ ⦃fs : FileSystem F⦄ where
  -- Whatever the settings, the files and the environment: a run of `main` that ends well sets out to
  -- close the stdin of the headless child and to kill it, if a project directory is set; one that
  -- ends because the address is not bound or the server fails leaves the child without a call; and
  -- one that ends because of the token or the spawning has no child.
  pub main_child :
      (env : Environment V W S R) (config : Config) (files : F)
      → (main env config files).1 ≡ child_of (main env config files).0 config.project_dir
  unfolding main prepare
  main_child env config files =
      with_headless_lem env config (choose_token env.home env.uuids.0 env.uuids.1 config files).0

  -- Where the state for the router is made: there is a headless child exactly if a project directory
  -- is set; the default session is the one under the headless session's id, which is linked to that
  -- child, or neither is there; and after the exit of the child there is no default session.
  pub prepare-headless_exited :
      (env : Environment V W S R) (config : Config) (files : F) (headless : Option ℕ)
      (state : AppState V W)
      → (prepare env config files).0 ≡ ok (headless, state)
      → (headless ≡ Option.map (λ _. 0) config.project_dir)
        × ((resolve none state.registry >>= get_elem? state.registry.handles)
            ≡ session env.uuids.2 state.registry)
        × (link_of env.uuids.2 state.registry ≡ Option.map AgentLink.headless headless)
        × (resolve none (headless_exited env.uuids.2 state.registry) ≡ none)
  unfolding prepare
  prepare-headless_exited env config files headless state p = subst (IsPrepared env config) p (
      with_headless-IsPrepared env config
        (choose_token env.home env.uuids.0 env.uuids.1 config files).0)
