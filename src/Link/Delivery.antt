-- ===== src/Link/Delivery.antt =====
-- src/server/ws.rs, src/rpc/remote_agent.rs and src/server/agent.rs: the commands of a phone, from its
-- socket through the link of the session to the socket of the agent.
use pi_piper.Prelude.{
  ℕ, suc, String, ◌≡◌, refl, ap, ◌∙◌, Bool, true, false, Option, List, [], ◌∷◌, ◌++◌, nat_eq,
  if◌then◌else◌, arith, Bool-cases, inl, inr, some, map,
}
use pi_piper.Preview.{str_field}
use pi_piper.Session.Encode.Reading.{str_field_string}
use pi_piper.Json.{Json}
use pi_piper.Session.{AgentLink, RemoteAgent}
use pi_piper.Rpc.{AsyncWrite}
use pi_piper.Rpc.RemoteAgent.{Message, text, envelope}
use pi_piper.Server.Ws.{Sink, relay_commands}
use pi_piper.Server.Ws.Relay.{send_all}
use pi_piper.Server.Agent.Writer.{write_outbound}
use pi_piper.Link.{Links}
use pi_piper.Link.Commands.{commands, envelopes, send_on, outbound-relay_commands}

-- The frames handed to the writer of one connection.
abbrev pub frames_of : ℕ → List (ℕ × Message) → List Message
frames_of n [] = []
frames_of n ((m, frame) ∷ rest) = if nat_eq n m then frame ∷ frames_of n rest else frames_of n rest

frames_of-append :
    (n : ℕ) (xs ys : List (ℕ × Message)) → frames_of n (xs ++ ys) ≡ frames_of n xs ++ frames_of n ys
frames_of-append n [] ys = refl
frames_of-append n ((m, frame) ∷ xs) ys = elim (Bool-cases (nat_eq n m)) [
  | inl e ↦ rw (e, frames_of-append n xs ys)
  | inr e ↦ rw (e, frames_of-append n xs ys)
]

module _ {V : Type 0} ⦃json : Json V⦄ where
  -- What an agent reads in the frame of a command.
  abbrev pub IsCommand : String → V → V → Type 0
  IsCommand id c v =
      (str_field v "type" ≡ some "command")
      × (str_field v "id" ≡ some id)
      × (json.get v "command" ≡ some c)

  -- One per command, in order, with the identifiers from the `k`-th on.
  abbrev pub AreCommands : (ℕ → String) → ℕ → List V → List V → Type 0
  AreCommands uuid k [] [] = Unit
  AreCommands uuid k (c ∷ cs) (v ∷ vs) = IsCommand (uuid k) c v × AreCommands uuid (suc k) cs vs
  AreCommands uuid k [] (v ∷ vs) = ⊥
  AreCommands uuid k (c ∷ cs) [] = ⊥

  abbrev pub text_of : V → Message
  text_of v = text (json.to_string v)

module _ {V : Type 0} ⦃json : Json V⦄ (uuid : ℕ → String) where
  abbrev pub enveloped : ℕ → List V → List V
  enveloped k [] = []
  enveloped k (c ∷ cs) = envelope (uuid k) c ∷ enveloped (suc k) cs

  frames_of-envelopes :
      (n k : ℕ) (cs : List V) → frames_of n (envelopes uuid n k cs) ≡ map text_of (enveloped k cs)
  frames_of-envelopes n k [] = refl
  frames_of-envelopes n k (c ∷ cs) =
      let same : nat_eq n n ≡ true = ground arith in rw (same, frames_of-envelopes n (suc k) cs)

  envelope-IsCommand : (id : String) (c : V) → IsCommand id c (envelope id c)
  unfolding envelope
  envelope-IsCommand id c = (
    str_field_string _ "type" "command" (json.get-object _ "type"),
    str_field_string _ "id" id (json.get-object _ "id"),
    json.get-object _ "command",
  )

  enveloped-AreCommands : (k : ℕ) (cs : List V) → AreCommands uuid k cs (enveloped k cs)
  enveloped-AreCommands k [] = tt
  enveloped-AreCommands k (c ∷ cs) =
      (envelope-IsCommand (uuid k) c, enveloped-AreCommands (suc k) cs)

module _ {S : Type 0} ⦃sink : Sink S⦄ where
  write_outbound-send_all :
      (frames : List Message) (s : S) → write_outbound frames s ≡ send_all false frames s
  unfolding write_outbound
  write_outbound-send_all [] s = refl
  write_outbound-send_all (frame ∷ rest) s =
      ap
        (λ (more : S × Bool). if (sink.send frame s).0 then more else ((sink.send frame s).1, true))
        (write_outbound-send_all rest (sink.send frame s).1)

module _ (V : Type 0) {L S : Type 0} ⦃json : Json V⦄ ⦃stdin : AsyncWrite L⦄ ⦃sink : Sink S⦄
    (uuid : ℕ → String) where
  -- Where the writer task of the agent's connection receives: once the bridge has relayed the
  -- messages of a phone, the task sends on the agent's socket the frames that were handed over
  -- before, and then one text per message that is JSON, in order, up to an error of the phone's
  -- socket and up to the first failed send, and nothing else; each text is that of a value with the
  -- type `command`, the next of the identifiers, and the phone's message as the command.
  pub write_outbound-relay_commands :
      (agent : RemoteAgent) (messages : List (Option Message)) (links : Links L) (s : S)
      → links.receiving agent.to_agent ≡ true
      → (sent : List V) × AreCommands uuid links.drawn (commands {V = V} messages) sent
        × (write_outbound
              (frames_of agent.to_agent
                (relay_commands
                  (send_on {V = V} uuid (AgentLink.remote agent))
                  messages
                  links).outbound)
              s
            ≡ send_all false (frames_of agent.to_agent links.outbound ++ map text_of sent) s)
  write_outbound-relay_commands agent messages links s opened =
      let waiting = frames_of agent.to_agent links.outbound in
      let relayed : (relay_commands (send_on {V = V} uuid (AgentLink.remote agent)) messages
            links).outbound
          ≡ links.outbound
            ++ envelopes uuid agent.to_agent links.drawn (commands {V = V} messages) =
        outbound-relay_commands V uuid agent messages links ∙ rw opened refl in
      (
        enveloped uuid links.drawn (commands {V = V} messages),
        enveloped-AreCommands uuid links.drawn _,
        write_outbound-send_all _ s
            ∙ ap (λ l. send_all false l s)
                (ap (frames_of agent.to_agent) relayed
                  ∙ frames_of-append agent.to_agent links.outbound _
                  ∙ ap (λ l. waiting ++ l)
                      (frames_of-envelopes uuid agent.to_agent links.drawn
                        (commands {V = V} messages))),
      )
