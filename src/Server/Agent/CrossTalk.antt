-- ===== src/Server/Agent/CrossTalk.antt =====
-- src/server/agent.rs and src/registry.rs: a connection whose session another one has replaced, and
-- which still sends events.
use pi_piper.Prelude.{ℤ, String, ◌≡◌, refl, ap, ◌∙◌, some, ◌∷◌, eq_refl, length}
use pi_piper.Json.{Json}
use pi_piper.Watch.{Watch}
use pi_piper.Session.{AgentLink, RemoteAgent, SessionHandle, new}
use pi_piper.Session.AgentLink.{remote}
use pi_piper.Preview.{str_field}
use pi_piper.Registry.{Hub, session, publish, publish_over}
use pi_piper.Registry.Invariant.{IsValid}
use pi_piper.Server.Agent.{World, Connection, on_register, on_frame, register_meta}
use pi_piper.Server.Agent.Frames.{on_register_lem}

module _ {V W : Type 0} where
  published-publish :
      (id : String) (payload : V) (agent : RemoteAgent) (s : SessionHandle W) (hub : Hub V W)
      → session id hub ≡ some s
      → s.link ≡ remote agent
      → (publish id payload hub).published ≡ (agent.events_tx, payload) ∷ hub.published
  unfolding publish
  published-publish id payload agent s hub e l =
      rw (e, publish) (ap (λ (k : AgentLink). (publish_over k payload hub).published) l)

module _ {V W : Type 0} ⦃json : Json V⦄ ⦃watch : Watch W⦄ where
  on_frame_event :
      (id : String) (now : ℤ) (frame payload : V) (connection : Connection) (world : World V W)
      → connection.session_id ≡ some id
      → str_field frame "type" ≡ some "event"
      → json.get frame "event" ≡ some payload
      → (on_frame now frame (connection, world)).1.hub ≡ publish id payload world.hub
  unfolding on_frame
  on_frame_event id now frame payload connection world e t p = rw (t, e, p) refl

  -- With a valid registry, and with an id that one connection has registered: once a second
  -- connection has registered the id, an event that the first connection sends is published on the
  -- channel of the second connection's session.
  pub replaced_events_mix :
      (id : String) (now later : ℤ) (frame frame' payload : V) (older newer : Connection)
      (world : World V W)
      → IsValid world.hub
      → older.session_id ≡ some id
      → str_field frame' "type" ≡ some "event"
      → json.get frame' "event" ≡ some payload
      → let (_, world') = on_register id now frame (newer, world) in
        (on_frame later frame' (older, world')).1.hub.published
        ≡ (length world.hub.handles, payload) ∷ world'.hub.published
  unfolding new
  replaced_events_mix id now later frame frame' payload older newer world v e t p =
      let world' = (on_register id now frame (newer, world)).1 in
      let agent : RemoteAgent = record {
        to_agent = newer.number;
        events_tx = length world.hub.handles;
      } in
      let registered = (on_register_lem id id now frame newer world v).0 in
      ap (λ (h : Hub V W). h.published) (on_frame_event id later frame' payload older world' e t p)
      ∙ published-publish id payload agent (new (remote agent) (register_meta id now frame))
          world'.hub (registered ∙ rw (eq_refl id) refl) refl
