-- ===== src/Main.antt =====
-- src/main.rs: the choice of the agent token, the headless session, and `main` as a whole.
pub mod Startup
use mathlib.Core.Option
use pi_piper.State.{AppState}
use pi_piper.State as State
use pi_piper.Prelude.{
  Bool, [], if◌then◌else◌, List, ℕ, ℤ, String, Option, none, some, Result, ok, err, unwrap_or,
}
use pi_piper.Watch.{Watch}
use pi_piper.Config.{Config}
use pi_piper.Session.{AgentLink, SessionKind, SessionMeta}
use pi_piper.Registry.{Hub, empty, register, unregister}
use pi_piper.Rpc.Process.{Command, Child, SpawnError, ProcessCall, spawn, shutdown}
use pi_piper.AgentToken.{FileSystem, TokenError, default_path, load_or_create}

module _ {F : Type 0} ⦃fs : FileSystem F⦄ where
  -- `home` is `HOME`, and the two identifiers are those of a new token.
  unfoldable pub choose_token :
      Option String → String → String → Config → F → Result TokenError String × F
  choose_token home first second config s = elim config.agent_token [
    | some token ↦ (ok token, s)
    | none ↦ load_or_create first second (unwrap_or config.agent_token_path (default_path home)) s
  ]

unfoldable pub headless_meta : String → String → ℤ → SessionMeta
headless_meta session_id project_dir now = record {
  session_id = session_id;
  session_file = none;
  session_name = none;
  cwd = project_dir;
  connected_at_ms = now;
  kind = SessionKind.headless;
}

module _ {V W S R : Type 0} ⦃watch : Watch W⦄ where
  abbrev register_spawned :
      ℕ
      → String
      → ℤ
      → String
      → Hub V W
      → Result SpawnError (S × R × R)
      → Result SpawnError (Option ℕ × Hub V W)
  register_spawned process session_id now project_dir hub (err e) = err e
  register_spawned process session_id now project_dir hub (ok pipes) = ok (
    some process,
    register session_id (AgentLink.headless process) (headless_meta session_id project_dir now) hub,
  )

  -- The headless session of `main`: no session without a project directory, an error that ends the
  -- program if `pi` does not start, and else a registration.
  unfoldable pub start_headless :
      (Command → Option (Child S R))
      → ℕ
      → String
      → ℤ
      → Config
      → Hub V W
      → Result SpawnError (Option ℕ × Hub V W)
  start_headless start process session_id now config hub = elim config.project_dir [
    | none ↦ ok (none, hub)
    | some project_dir ↦
        register_spawned process session_id now project_dir hub (spawn start config)
  ]

module _ {V W : Type 0} ⦃watch : Watch W⦄ where
  -- The task that waits for the child.
  unfoldable pub headless_exited : String → Hub V W → Hub V W
  headless_exited session_id hub = unregister session_id hub

-- How `main` can end with an error, and how its `select!` ends.
pub data MainError : Type 0 where
  token : TokenError → MainError
  spawning : SpawnError → MainError
  binding serving : MainError

pub data Stop : Type 0 where
  served serve_failed ctrl_c : Stop

-- The end of `main`: the shutdown of the child, unless the server has failed. The calls are those that
-- it sets out to make.
abbrev pub stopped : Option ℕ → Stop → Result MainError (Unit {0}) × Option (List ProcessCall)
stopped headless serve_failed = (err serving, Option.map (λ _. []) headless)
stopped headless served = (ok tt, Option.map (λ _. shutdown) headless)
stopped headless ctrl_c = (ok tt, Option.map (λ _. shutdown) headless)

-- What main is given by the system: the identifiers, the clock, and how each call ends.
pub record Environment (V W S R : Type 0) : Type 0 where
  pub home : Option String
  -- of the two halves of a new token, and of the headless session
  pub uuids : String × String × String
  pub now : ℤ
  pub start : Command → Option (Child S R)
  pub bind : String → Bool
  pub serve : AppState V W → Stop

module _ {V W : Type 0} where
  abbrev with_token :
      String → Result SpawnError (Option ℕ × Hub V W) → Result MainError (Option ℕ × AppState V W)
  with_token agent_token (err e) = err (spawning e)
  with_token agent_token (ok (headless, registry)) = ok (headless, State.new registry agent_token)

module _ {V W S R : Type 0} ⦃watch : Watch W⦄ where
  abbrev with_headless :
      Environment V W S R
      → Config
      → Result TokenError String
      → Result MainError (Option ℕ × AppState V W)
  with_headless env config (err e) = err (token e)
  with_headless env config (ok agent_token) =
      with_token agent_token (start_headless env.start 0 env.uuids.2 env.now config empty)

  -- What the server and the end of `main` come to, once the state is made.
  abbrev listen :
      Environment V W S R
      → Config
      → Option ℕ × AppState V W
      → Result MainError (Unit {0}) × Option (List ProcessCall)
  listen env config (headless, state) =
      if env.bind config.bind
      then stopped headless (env.serve state)
      else (err binding, Option.map (λ _. []) headless)

  abbrev finish :
      Environment V W S R
      → Config
      → Result MainError (Option ℕ × AppState V W)
      → Result MainError (Unit {0}) × Option (List ProcessCall)
  finish env config (err e) = (err e, none)
  finish env config (ok started) = listen env config started

module _ {V W S R F : Type 0} ⦃watch : Watch W⦄ ⦃fs : FileSystem F⦄ where
  -- The state that `main` hands to the router, with the headless child, if one was spawned.
  unfoldable pub prepare :
      Environment V W S R → Config → F → Result MainError (Option ℕ × AppState V W) × F
  prepare env config files =
      let (agent_token, files') = choose_token env.home env.uuids.0 env.uuids.1 config files in
      (with_headless env config agent_token, files')

  -- Its result, the calls on the headless child, if one was spawned, and the files.
  unfoldable pub main :
      Environment V W S R → Config → F → Result MainError (Unit {0}) × Option (List ProcessCall) × F
  unfolding prepare
  main env config files =
      let (started, files') = prepare env config files in
      let (result, calls) = finish env config started in (result, calls, files')
