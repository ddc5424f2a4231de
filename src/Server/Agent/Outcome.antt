-- ===== src/Server/Agent/Outcome.antt =====
-- src/server/agent.rs: what one message of a connection does to the links of the sessions.

use pi_piper.Prelude.{
  ℕ, ℤ, String, ◌≡◌, refl, Option, none, some, ◌==◌, length, if◌then◌else◌, ◌>>=◌,
}
use pi_piper.Json.{Json}
use pi_piper.Watch.{Watch}
use pi_piper.Session.{AgentLink}
use pi_piper.Preview.{str_field}
use pi_piper.Registry.{Hub, update_meta, publish}
use pi_piper.Registry.Invariant.{IsValid}
use pi_piper.Rpc.RemoteAgent.{Message, text, close, other}
use pi_piper.Server.Agent.{
  World, Connection, when_both, register_meta, register_with, on_register, on_message,
}
use pi_piper.Server.Agent.Links.{link_of, link_of-register, link_of-publish, link_of-update_meta}
use pi_piper.Server.Agent.Dispatch.{DispatchCases, on_message_ind}

abbrev pub frame_id : Option String → Option String → Option String
frame_id none id = none
frame_id (some ty) id = if ty == "register" then id else none

module _ (V : Type 0) ⦃json : Json V⦄ where
  -- The id that a message registers, if it registers one.
  abbrev pub registered_id : Message → Option String
  registered_id (text body) = json.from_str body >>= λ frame.
      frame_id (str_field frame "type") (str_field frame "sessionId")
  registered_id close = none
  registered_id other = none

module _ {V W : Type 0} where
  -- The connection stays as it is, and each session keeps its link.
  pub record Keeps (before after : Connection × World V W) : Type 0 where
    pub connection : after.0 ≡ before.0
    pub links : (j : String) → link_of j after.1.hub ≡ link_of j before.1.hub

  -- The connection takes the id, and the session under it a link to the connection.
  pub record Takes (id : String) (before after : Connection × World V W) : Type 0 where
    pub number : after.0.number ≡ before.0.number
    pub holds : after.0.session_id ≡ some id
    pub channel : ℕ
    pub newest : channel ≡ length before.1.hub.handles
    pub links :
        (j : String)
        → link_of j after.1.hub ≡ (
            if id == j
            then some
                (AgentLink.remote (record { to_agent = before.0.number; events_tx = channel }))
            else link_of j before.1.hub)

  -- What a message that registers `o` does.
  abbrev pub Outcome : Option String → Connection × World V W → Connection × World V W → Type 0
  Outcome none before after = Keeps before after
  Outcome (some id) before after = Takes id before after

module _ {V W : Type 0} ⦃json : Json V⦄ ⦃watch : Watch W⦄ where
  when_both-links :
      (o : Option String) (p : Option V) (f : String → V → Hub V W → Hub V W) (world : World V W)
      → ((id : String) (value : V) (j : String)
          → link_of j (f id value world.hub) ≡ link_of j world.hub)
      → (j : String) → link_of j (when_both o p f world).hub ≡ link_of j world.hub
  when_both-links none p f world keep j = refl
  when_both-links (some id) none f world keep j = refl
  when_both-links (some id) (some value) f world keep j = keep id value j

  register_with-Outcome :
      (o : Option String) (now : ℤ) (frame : V) (connection : Connection) (world : World V W)
      → IsValid world.hub
      → Outcome o (connection, world) (register_with o now frame (connection, world))
  unfolding on_register
  register_with-Outcome none now frame connection world v = record {
    connection = refl;
    links = λ j. refl;
  }
  register_with-Outcome (some id) now frame connection world v = record {
    number = refl;
    holds = refl;
    channel = length world.hub.handles;
    newest = refl;
    links = λ j. link_of-register id j _ (register_meta id now frame) world.hub v;
  }

  dispatch-Outcome :
      (now : ℤ) (frame : V) (connection : Connection) (world : World V W)
      → IsValid world.hub
      → DispatchCases
          (λ o. Outcome (frame_id o (str_field frame "sessionId")) (connection, world))
          now
          frame
          connection
          world
  dispatch-Outcome now frame connection world v =
      let id = connection.session_id in
      let publishes = λ (k : String).
        when_both-links id (json.get frame k) publish world
          (λ i p j. link_of-publish i j p world.hub) in
      record {
        untyped = record { connection = refl; links = λ j. refl };
        registering =
            register_with-Outcome (str_field frame "sessionId") now frame connection world v;
        patching = record {
          connection = refl;
          links =
              when_both-links id (json.get frame "patch") update_meta world
                (λ i p j. link_of-update_meta i j p world.hub v);
        };
        publishing_event = record { connection = refl; links = publishes "event" };
        publishing_response = record { connection = refl; links = publishes "response" };
        skipping =
            λ ty skipped. rw skipped.no_register (record { connection = refl; links = λ j. refl });
      }

  -- A message either registers its id on its connection, or changes no link and no connection.
  pub on_message-Outcome :
      (now : ℤ) (message : Message) (connection : Connection) (world : World V W)
      → IsValid world.hub
      → Outcome
          (registered_id V message)
          (connection, world)
          (on_message now message (connection, world))
  on_message-Outcome now message connection world v =
      on_message_ind (λ m. Outcome (registered_id V m) (connection, world))
        (λ ty frame. Outcome (frame_id ty (str_field frame "sessionId")) (connection, world)) now
        message connection world (record { connection = refl; links = λ j. refl })
        (record { connection = refl; links = λ j. refl })
        (λ body e. rw e (record { connection = refl; links = λ j. refl }))
        (λ body frame after e h. rw e h) (λ frame. dispatch-Outcome now frame connection world v)
