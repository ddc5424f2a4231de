-- ===== src/Link.antt =====
-- src/session.rs, `AgentLink`: the one interface to a child process and to a remote agent, over
-- src/rpc/process.rs and src/rpc/remote_agent.rs.
pub mod Commands
pub mod Delivery
use pi_piper.Prelude.{
  ℕ, suc, String, Bool, Option, none, some, List, [], ◌∷◌, ◌++◌, map, Result, ok, err, nat_eq,
  if◌then◌else◌,
}
use pi_piper.Json.{Json}
use pi_piper.Session.{AgentLink, RemoteAgent}
use pi_piper.Rpc.{AsyncWrite, WriteError}
use pi_piper.Rpc.Process.{ProcessCall}
use pi_piper.Rpc.Process as Process
use pi_piper.Rpc.RemoteAgent.{Message, close_frame}
use pi_piper.Rpc.RemoteAgent as Remote

-- What links share: the stdin of each child process, the calls on each, the frames handed to the
-- writer task of each connection, oldest first, and whether that task still receives. `drawn` is how
-- many random identifiers were drawn.
pub record Links (S : Type 0) : Type 0 where
  pub stdin : ℕ → S
  pub calls : List (ℕ × ProcessCall)
  pub outbound : List (ℕ × Message)
  pub receiving : ℕ → Bool
  pub drawn : ℕ

-- The event channel of a child process or of a remote agent.
pub data Channel : Type 0 where
  of_process of_agent : ℕ → Channel

unfoldable pub subscribe : AgentLink → Channel
subscribe (AgentLink.headless process) = of_process process
subscribe (AgentLink.remote agent) = of_agent agent.events_tx

module _ {S : Type 0} where
  abbrev pub set_stdin : ℕ → S → Links S → Links S
  set_stdin process s links = record links {
    stdin = λ q. if nat_eq process q then s else links.stdin q;
  }

  abbrev pub hand_over : ℕ → Message → Links S → Links S
  hand_over n frame links = record links { outbound = links.outbound ++ (n, frame) ∷ [] }

  abbrev pub deliver :
      ℕ → Result WriteError Message → Links S → Result WriteError (Unit {0}) × Links S
  deliver n (ok frame) links = (ok tt, hand_over n frame links)
  deliver n (err e) links = (err e, links)

module _ {V S : Type 0} ⦃json : Json V⦄ ⦃sink : AsyncWrite S⦄ (uuid : ℕ → String) where
  unfoldable pub send : AgentLink → V → Links S → Result WriteError (Unit {0}) × Links S
  send (AgentLink.headless process) command links =
      let (result, s) = Process.send command (links.stdin process) in
      (result, set_stdin process s links)
  send (AgentLink.remote agent) command links =
      deliver agent.to_agent
        (Remote.send (links.receiving agent.to_agent) (uuid links.drawn) command)
        (record links { drawn = suc links.drawn })

module _ {S : Type 0} where
  -- Errors are only logged.
  unfoldable pub shutdown : AgentLink → Links S → Links S
  shutdown (AgentLink.headless process) links = record links {
    calls = links.calls ++ map (λ call. (process, call)) Process.shutdown;
  }
  shutdown (AgentLink.remote agent) links =
      if links.receiving agent.to_agent then hand_over agent.to_agent close_frame links else links
