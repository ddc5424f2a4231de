-- ===== src/Config.antt =====
-- src/config.rs: the settings that the hub reads, and the arguments of the headless `pi`.
use pi_piper.Prelude.{String, Bool, Option, none, some, List, [], ◌∷◌, ◌++◌, if◌then◌else◌}

-- Paths are the texts that `display` shows.
pub record Config : Type 0 where
  pub pi_command : String
  pub project_dir : Option String
  pub session : Option String
  pub no_session : Bool
  pub extra_pi_args : List String
  pub bind : String
  pub agent_token : Option String
  pub agent_token_path : Option String

abbrev pub session_args : Option String → List String
session_args none = []
session_args (some session) = "--session" ∷ session ∷ []

unfoldable pub pi_args : Config → List String
pi_args config =
    ("--mode" ∷ "rpc" ∷ [])
    ++ (if config.no_session then "--no-session" ∷ [] else session_args config.session)
    ++ config.extra_pi_args
