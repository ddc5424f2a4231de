-- ===== src/Link/Commands.antt =====
-- src/server/ws.rs onto src/session.rs: the commands that a phone sends, at the link of the session.
use Prim.Native.String.{◌++◌ as append}
use mathlib.Core.List.{append_assoc, append-nil}
use pi_piper.Prelude.{
  ℕ, suc, String, ◌≡◌, refl, sym, ap, ◌∙◌, Bool, true, false, Option, none, some, List, [], ◌∷◌,
  ◌++◌, map, Result, ok, err, nat_eq, if◌then◌else◌, Bool-cases, Option-cases, inl, inr, arith,
}
use pi_piper.Json.{Json}
use pi_piper.Session.{AgentLink, RemoteAgent}
use pi_piper.Rpc.{AsyncWrite, WriteError}
use pi_piper.Rpc.Framing.{Buffer, unlines, keep_some, write_each, written-write_each}
use pi_piper.Rpc.Process as Process
use pi_piper.Rpc.RemoteAgent.{Message, text, close, other, envelope}
use pi_piper.Rpc.RemoteAgent as Remote
use pi_piper.Link.{Links, hand_over, deliver, send}
use pi_piper.Server.Ws.{relay_message, relay_commands}

module _ {V : Type 0} ⦃json : Json V⦄ where
  abbrev command_of : Message → Option V
  command_of (text frame) = json.from_str frame
  command_of close = none
  command_of other = none

  -- The commands of a phone: its text messages that are JSON, up to an error of its socket.
  abbrev pub commands : List (Option Message) → List V
  commands [] = []
  commands (none ∷ rest) = []
  commands (some message ∷ rest) = keep_some (command_of message) (commands rest)

  -- The frames of commands for one agent, with the identifiers from the `k`-th on.
  abbrev pub envelopes : (ℕ → String) → ℕ → ℕ → List V → List (ℕ × Message)
  envelopes uuid n k [] = []
  envelopes uuid n k (c ∷ cs) =
      (n, text (json.to_string (envelope (uuid k) c))) ∷ envelopes uuid n (suc k) cs

module _ {V : Type 0} ⦃json : Json V⦄ where
  remote_send-serialized :
      (receiving : Bool) (id : String) (c : V)
      → Remote.send receiving id c ≡ (
          if receiving
          then ok (text (json.to_string (envelope id c)))
          else err WriteError.agent_closed)
  unfolding Remote.send
  remote_send-serialized receiving id c = rw (json.serialize_lem (envelope id c), Remote.send)

module _ {V S : Type 0} ⦃json : Json V⦄ ⦃sink : AsyncWrite S⦄ (uuid : ℕ → String) where
  -- `handle.link.send(&command)`, whose error is only logged.
  abbrev pub send_on : AgentLink → V → Links S → Links S
  send_on link c links = (send uuid link c links).1

  abbrev pub send_each : AgentLink → List V → Links S → Links S
  send_each link [] links = links
  send_each link (c ∷ cs) links = send_each link cs (send_on link c links)

  relay_message-send_each :
      (link : AgentLink) (message : Message) (rest : List V) (links : Links S)
      → send_each link rest (relay_message (send_on link) message links)
        ≡ send_each link (keep_some (command_of message) rest) links
  relay_message-send_each link (text frame) rest links = elim (Option-cases (json.from_str frame)) [
    | inl e ↦ rw e
    | inr (c, e) ↦ rw e
  ]
  relay_message-send_each link close rest links = refl
  relay_message-send_each link other rest links = refl

  -- What one command comes to at the link of an agent.
  abbrev sent_to : RemoteAgent → V → Links S → Links S
  sent_to agent c links =
      let links' : Links S = record links { drawn = suc links.drawn } in
      if links.receiving agent.to_agent
      then hand_over agent.to_agent (text (json.to_string (envelope (uuid links.drawn) c))) links'
      else links'

  send-remote :
      (agent : RemoteAgent) (c : V) (links : Links S)
      → (send uuid (AgentLink.remote agent) c links).1 ≡ sent_to agent c links
  unfolding send
  send-remote agent c links =
      let links' : Links S = record links { drawn = suc links.drawn } in
      ap (λ (r : Result WriteError Message). (deliver agent.to_agent r links').1)
        (remote_send-serialized (links.receiving agent.to_agent) (uuid links.drawn) c)
      ∙ (elim (Bool-cases (links.receiving agent.to_agent)) [ inl e ↦ rw e | inr e ↦ rw e ])

  -- The frames that reach the writer task of an agent, if it still receives.
  abbrev pub received_frames : RemoteAgent → List V → Links S → List (ℕ × Message)
  received_frames agent cs links =
      if links.receiving agent.to_agent then envelopes uuid agent.to_agent links.drawn cs else []

  outbound-send_each :
      (agent : RemoteAgent) (cs : List V) (links : Links S)
      → (send_each (AgentLink.remote agent) cs links).outbound
        ≡ links.outbound ++ received_frames agent cs links
  outbound-send_each agent [] links = elim (Bool-cases (links.receiving agent.to_agent)) [
    | inl e ↦ rw e (sym (append-nil links.outbound))
    | inr e ↦ rw e (sym (append-nil links.outbound))
  ]
  outbound-send_each agent (c ∷ cs) links =
      ap (λ (l : Links S). (send_each (AgentLink.remote agent) cs l).outbound)
        (send-remote agent c links)
      ∙ outbound-send_each agent cs (sent_to agent c links)
      ∙ (elim (Bool-cases (links.receiving agent.to_agent)) [
        | inl e ↦ rw e (append_assoc links.outbound _ _ ∙ rw e)
        | inr e ↦ rw e (rw e)
      ])

  stdin-remote :
      (agent : RemoteAgent) (cs : List V) (links : Links S)
      → (send_each (AgentLink.remote agent) cs links).stdin ≡ links.stdin
  stdin-remote agent [] links = refl
  stdin-remote agent (c ∷ cs) links =
      stdin-remote agent cs (send uuid (AgentLink.remote agent) c links).1
      ∙ ap (λ (l : Links S). l.stdin) (send-remote agent c links)
      ∙ (elim (Bool-cases (links.receiving agent.to_agent)) [ inl e ↦ rw e | inr e ↦ rw e ])

  stdin-headless :
      (process : ℕ) (cs : List V) (links : Links S)
      → (send_each (AgentLink.headless process) cs links).stdin process
        ≡ write_each cs (links.stdin process)
  unfolding send Process.send
  stdin-headless process [] links = refl
  stdin-headless process (c ∷ cs) links =
      stdin-headless process cs (send uuid (AgentLink.headless process) c links).1
      ∙ ap (write_each cs) (ground arith)

  stdin-other :
      (process q : ℕ) (cs : List V) (links : Links S)
      → nat_eq process q ≡ false
      → (send_each (AgentLink.headless process) cs links).stdin q ≡ links.stdin q
  unfolding send
  stdin-other process q [] links apart = refl
  stdin-other process q (c ∷ cs) links apart =
      stdin-other process q cs (send_on (AgentLink.headless process) c links) apart ∙ rw apart

  stdin-headless_at :
      (process q : ℕ) (cs : List V) (links : Links S)
      → (send_each (AgentLink.headless process) cs links).stdin q ≡ (
          if nat_eq process q
          then (send_each (AgentLink.headless process) cs links).stdin process
          else links.stdin q)
  stdin-headless_at process q cs links = elim (Bool-cases (nat_eq process q)) [
    | inl e ↦ rw (e, same process q e)
    | inr e ↦ rw (e, stdin-other process q cs links e)
  ]
    where
      same : (a b : ℕ) → nat_eq a b ≡ true → a ≡ b
      same a b h = ground arith

  outbound-headless :
      (process : ℕ) (cs : List V) (links : Links S)
      → (send_each (AgentLink.headless process) cs links).outbound ≡ links.outbound
  unfolding send
  outbound-headless process [] links = refl
  outbound-headless process (c ∷ cs) links =
      outbound-headless process cs (send uuid (AgentLink.headless process) c links).1

  module _ ⦃buffer : Buffer S⦄ where
    -- What a link has got of commands: an agent that is connected an envelope for each, in order, and
    -- one that is not nothing; a child process a line for each, in order. No other link gets anything.
    abbrev pub Delivered : AgentLink → List V → Links S → Links S → Type 0
    Delivered (AgentLink.remote agent) cs before after =
        (after.outbound ≡ before.outbound ++ received_frames agent cs before)
        × (after.stdin ≡ before.stdin)
    Delivered (AgentLink.headless process) cs before after =
        (buffer.written (after.stdin process)
          ≡ append (buffer.written (before.stdin process)) (unlines (map json.to_string cs)))
        × ((q : ℕ)
            → after.stdin q ≡ (if nat_eq process q then after.stdin process else before.stdin q))
        × (after.outbound ≡ before.outbound)

    send_each-Delivered :
        (link : AgentLink) (cs : List V) (links : Links S)
        → Delivered link cs links (send_each link cs links)
    send_each-Delivered (AgentLink.remote agent) cs links =
        (outbound-send_each agent cs links, stdin-remote agent cs links)
    send_each-Delivered (AgentLink.headless process) cs links = (
      ap buffer.written (stdin-headless process cs links)
          ∙ written-write_each cs (links.stdin process),
      λ q. stdin-headless_at process q cs links,
      outbound-headless process cs links,
    )

module _ (V : Type 0) {S : Type 0} ⦃json : Json V⦄ ⦃sink : AsyncWrite S⦄ (uuid : ℕ → String) where
  relay_commands-send_each :
      (link : AgentLink) (messages : List (Option Message)) (links : Links S)
      → relay_commands (send_on {V = V} uuid link) messages links
        ≡ send_each uuid link (commands {V = V} messages) links
  unfolding relay_commands
  relay_commands-send_each link [] links = refl
  relay_commands-send_each link (none ∷ rest) links = refl
  relay_commands-send_each link (some message ∷ rest) links =
      relay_commands-send_each link rest (relay_message (send_on {V = V} uuid link) message links)
      ∙ relay_message-send_each uuid link message (commands rest) links

  module _ ⦃buffer : Buffer S⦄ where
    -- The JSON messages of a phone, up to an error of its socket, reach the link of the session in
    -- order: an agent whose writer receives is handed one envelope for each, one whose writer has
    -- ended nothing, and in both cases no stdin changes; a child process, where writes to a stdin
    -- succeed, has one line for each appended to its stdin, no other stdin changes, and no frame is
    -- handed over.
    pub relay_commands-Delivered :
        (link : AgentLink) (messages : List (Option Message)) (links : Links S)
        → Delivered uuid link
            (commands {V = V} messages)
            links
            (relay_commands (send_on {V = V} uuid link) messages links)
    relay_commands-Delivered link messages links =
        rw (relay_commands-send_each link messages links)
          (send_each-Delivered uuid link (commands {V = V} messages) links)

  pub outbound-relay_commands :
      (agent : RemoteAgent) (messages : List (Option Message)) (links : Links S)
      → (relay_commands (send_on {V = V} uuid (AgentLink.remote agent)) messages links).outbound
        ≡ links.outbound ++ received_frames uuid agent (commands {V = V} messages) links
  outbound-relay_commands agent messages links =
      ap (λ (l : Links S). l.outbound)
        (relay_commands-send_each (AgentLink.remote agent) messages links)
      ∙ outbound-send_each uuid agent (commands {V = V} messages) links
