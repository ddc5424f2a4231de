-- ===== src/State.antt =====
-- src/state.rs: what the handlers share.
use pi_piper.Prelude.{String}
use pi_piper.Registry.{Hub}

pub record AppState (V W : Type 0) : Type 0 where
  pub registry : Hub V W
  pub agent_token : String

module _ {V W : Type 0} where
  abbrev pub new : Hub V W → String → AppState V W
  new registry agent_token = record { registry = registry; agent_token = agent_token }
