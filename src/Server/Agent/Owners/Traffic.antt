-- ===== src/Server/Agent/Owners/Traffic.antt =====
-- The hub with any number of `/agent` connections: what is sent on the event channel of one session
-- while the connections take their steps in any order.
use pi_piper.Prelude.{
  ℕ, ℤ, String, ◌≡◌, ◌≢◌, refl, ap, true, false, Option, none, some, List, [], ◌∷◌, ◌++◌, nat_eq,
  if◌then◌else◌, arith, Bool-cases, inl, inr,
}
use pi_piper.Json.{Json}
use pi_piper.Watch.{Watch}
use pi_piper.Session.{AgentLink, RemoteAgent}
use pi_piper.Registry.{Hub}
use pi_piper.Rpc.RemoteAgent.{Message}
use pi_piper.Server.Agent.{Connection, on_message}
use pi_piper.Server.Agent.Links.{link_of}
use pi_piper.Server.Agent.Outcome.{registered_id}
use pi_piper.Server.Agent.Published.{payload_of, over, emitted}
use pi_piper.Server.Agent.Owners.Held.{remote_on}
use pi_piper.Server.Agent.Owners.Exclusive.{IsExclusive}
use pi_piper.Server.Agent.Worlds.{System, after_message, Step, receives, ends}

module _ {V : Type 0} where
  -- What was sent on one event channel.
  abbrev pub on_channel : ℕ → List (ℕ × V) → List V
  on_channel channel [] = []
  on_channel channel ((k, payload) ∷ rest) =
      let more = on_channel channel rest in if nat_eq channel k then payload ∷ more else more

  abbrev pub listed : Option V → List V
  listed none = []
  listed (some payload) = payload ∷ []

  pub on_channel-append :
      (channel : ℕ) (xs ys : List (ℕ × V))
      → on_channel channel (xs ++ ys) ≡ on_channel channel xs ++ on_channel channel ys
  on_channel-append channel [] ys = refl
  on_channel-append channel ((k, payload) ∷ xs) ys = elim (Bool-cases (nat_eq channel k)) [
    | inl e ↦ rw e (ap (λ l. payload ∷ l) (on_channel-append channel xs ys))
    | inr e ↦ rw e (on_channel-append channel xs ys)
  ]

  over_other :
      (channel : ℕ) (link : Option AgentLink) (payload : V)
      → ((agent : RemoteAgent)
          → link ≡ some (AgentLink.remote agent)
          → nat_eq channel agent.events_tx ≡ false)
      → on_channel channel (over link payload) ≡ []
  over_other channel none payload apart = refl
  over_other channel (some (AgentLink.headless process)) payload apart = refl
  over_other channel (some (AgentLink.remote agent)) payload apart = rw (apart agent refl) refl

module _ {V W : Type 0} where
  pub own_news :
      (n channel : ℕ) (id : String) (o : Option V) (hub : Hub V W)
      → link_of id hub ≡ remote_on channel n
      → on_channel channel (emitted (some id) o hub) ≡ listed o
  own_news n channel id none hub l = refl
  own_news n channel id (some payload) hub l =
      let same : nat_eq channel channel ≡ true = ground arith in rw (l, same) refl

  pub other_news :
      (channel : ℕ) (o : Option String) (p : Option V) (hub : Hub V W)
      → ((id : String) (agent : RemoteAgent)
          → o ≡ some id
          → link_of id hub ≡ some (AgentLink.remote agent)
          → nat_eq channel agent.events_tx ≡ false)
      → on_channel channel (emitted o p hub) ≡ []
  other_news channel none p hub apart = refl
  other_news channel (some id) none hub apart = refl
  other_news channel (some id) (some payload) hub apart =
      over_other channel (link_of id hub) payload (λ agent l. apart id agent refl l)

module _ {V W : Type 0} ⦃json : Json V⦄ ⦃watch : Watch W⦄ where
  -- A step of another connection than `n`, or of none.
  abbrev pub IsOther : (n : ℕ) {s t : System V W} → Step s t → Type 0
  IsOther n (receives m c now message e) = m ≢ n
  IsOther n (ends m c e) = m ≢ n
  IsOther n _ = Unit

  -- Steps in which connection `n` sends messages that register no id, and everything else takes any
  -- steps that take no id from its holder; with the RPC messages that `n` sends, newest first.
  pub data Traffic (n : ℕ) (start : System V W) : List V → System V W → Type 0 where
    quiet : Traffic n start [] start
    speaks :
        {s : System V W} {news : List V}
        → Traffic n start news s
        → (c : Connection) (now : ℤ) (message : Message) → s.open_at n ≡ some c
        → registered_id V message ≡ none
        → Traffic n start
            (listed (payload_of message) ++ news)
            (after_message n (on_message now message (c, s.world)) s)
    moves :
        {s t : System V W} {news : List V}
        → Traffic n start news s
        → (st : Step s t) → IsExclusive st
        → IsOther n st
        → Traffic n start news t
