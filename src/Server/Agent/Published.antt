-- ===== src/Server/Agent/Published.antt =====
-- src/server/agent.rs and src/registry.rs: what one message of a connection sends on the event channels.
use pi_piper.Prelude.{
  ℕ, ℤ, String, ◌≡◌, refl, ap, ◌∙◌, sym, Option, none, some, List, [], ◌∷◌, ◌++◌, ◌==◌,
  if◌then◌else◌, ◌>>=◌, Option-cases, inl, inr, arith,
}
use pi_piper.Json.{Json}
use pi_piper.Watch.{Watch}
use pi_piper.Session.{AgentLink, SessionMeta, SessionSummary}
use pi_piper.Events.{ControlEvent}
use pi_piper.Preview.{str_field}
use pi_piper.Registry.{
  Hub, publish_over, get, session, announce, retire, insert_session, register, unregister,
  update_meta, publish, handle_event, apply_event,
}
use pi_piper.Rpc.RemoteAgent.{Message, text, close, other}
use pi_piper.Server.Agent.{
  World, Connection, when_both, register_with, on_register, on_message, on_closed,
}
use pi_piper.Server.Agent.Links.{link_of}
use pi_piper.Server.Agent.Dispatch.{DispatchCases, on_message_ind}

module _ {V : Type 0} ⦃json : Json V⦄ where
  abbrev frame_payload : Option String → V → Option V
  frame_payload none frame = none
  frame_payload (some ty) frame =
      if ty == "event"
      then json.get frame "event"
      else if ty == "response"
      then json.get frame "response"
      else none

  -- The RPC message that a message of a connection carries, if it carries one.
  abbrev pub payload_of : Message → Option V
  payload_of (text body) =
      json.from_str body >>= λ frame. frame_payload (str_field frame "type") frame
  payload_of close = none
  payload_of other = none

module _ {V : Type 0} where
  abbrev pub over : Option AgentLink → V → List (ℕ × V)
  over none payload = []
  over (some (AgentLink.headless process)) payload = []
  over (some (AgentLink.remote agent)) payload = (agent.events_tx, payload) ∷ []

module _ {V W : Type 0} where
  -- What a connection that holds `id` sends for a payload.
  abbrev pub emitted : Option String → Option V → Hub V W → List (ℕ × V)
  emitted none payload hub = []
  emitted (some id) none hub = []
  emitted (some id) (some payload) hub = over (link_of id hub) payload

  published-publish :
      (id : String) (payload : V) (hub : Hub V W)
      → (publish id payload hub).published ≡ over (link_of id hub) payload ++ hub.published
  unfolding publish
  published-publish id payload hub = elim (Option-cases (session id hub)) [
    | inl e ↦ rw (e, publish)
    | inr (s, e) ↦ rw (e, publish) (over_link s.link)
  ]
    where
      over_link :
          (link : AgentLink)
          → (publish_over link payload hub).published ≡ over (some link) payload ++ hub.published
      over_link (AgentLink.headless process) = refl
      over_link (AgentLink.remote agent) = refl

module _ {V W : Type 0} ⦃watch : Watch W⦄ where
  published-announce :
      (event : SessionSummary → ControlEvent) (handle : ℕ) (hub : Hub V W)
      → (announce event handle hub).published ≡ hub.published
  unfolding announce
  published-announce event handle hub = ground arith

  published-retire : (o : Option ℕ) (hub : Hub V W) → (retire o hub).published ≡ hub.published
  unfolding retire
  published-retire none hub = refl
  published-retire (some old) hub = refl

  pub published-register :
      (id : String) (link : AgentLink) (meta : SessionMeta) (hub : Hub V W)
      → (register id link meta hub).published ≡ hub.published
  unfolding register insert_session
  published-register id link meta hub = published-announce _ _ _ ∙ published-retire (get id hub) _

  pub published-unregister :
      (id : String) (hub : Hub V W) → (unregister id hub).published ≡ hub.published
  unfolding unregister
  published-unregister id hub = ground arith

  pub published-on_closed :
      (connection : Connection) (world : World V W)
      → (on_closed (connection, world)).hub.published ≡ world.hub.published
  unfolding on_closed
  published-on_closed connection world = elim (Option-cases connection.session_id) [
    | inl e ↦ rw e refl
    | inr (id, e) ↦ rw e (published-unregister id world.hub)
  ]

module _ {V W : Type 0} ⦃json : Json V⦄ ⦃watch : Watch W⦄ where
  published-update_meta :
      (id : String) (patch : V) (hub : Hub V W)
      → (update_meta id patch hub).published ≡ hub.published
  unfolding update_meta announce
  published-update_meta id patch hub = ground arith

  pub published-handle_event :
      (handle : ℕ) (now : ℤ) (event : V) (hub : Hub V W)
      → (handle_event handle now event hub).published ≡ hub.published
  unfolding handle_event apply_event announce
  published-handle_event handle now event hub = ground arith

  when_both-published :
      (o : Option String) (p : Option V) (world : World V W)
      → (when_both o p publish world).hub.published ≡ emitted o p world.hub ++ world.hub.published
  when_both-published none p world = refl
  when_both-published (some id) none world = refl
  when_both-published (some id) (some payload) world = published-publish id payload world.hub

  when_both-patches :
      (o : Option String) (p : Option V) (world : World V W)
      → (when_both o p update_meta world).hub.published ≡ world.hub.published
  when_both-patches none p world = refl
  when_both-patches (some id) none world = refl
  when_both-patches (some id) (some patch) world = published-update_meta id patch world.hub

  register_with-published :
      (o : Option String) (now : ℤ) (frame : V) (connection : Connection) (world : World V W)
      → (register_with o now frame (connection, world)).1.hub.published ≡ world.hub.published
  unfolding on_register
  register_with-published none now frame connection world = refl
  register_with-published (some id) now frame connection world = published-register id _ _ world.hub

  emitted_silent : (o : Option String) (hub : Hub V W) → emitted o none hub ≡ []
  emitted_silent none hub = refl
  emitted_silent (some id) hub = refl

  dispatch-published :
      (now : ℤ) (frame : V) (connection : Connection) (world : World V W)
      → DispatchCases
          (λ o state.
            state.1.hub.published
            ≡ emitted connection.session_id (frame_payload o frame) world.hub
              ++ world.hub.published)
          now
          frame
          connection
          world
  dispatch-published now frame connection world =
      let id = connection.session_id in
      let silent = ap (λ l. l ++ world.hub.published) (sym (emitted_silent id world.hub)) in
      record {
        untyped = silent;
        registering =
            register_with-published (str_field frame "sessionId") now frame connection world
            ∙ silent;
        patching = when_both-patches id (json.get frame "patch") world ∙ silent;
        publishing_event = when_both-published id (json.get frame "event") world;
        publishing_response = when_both-published id (json.get frame "response") world;
        skipping = λ ty skipped. rw (skipped.no_event, skipped.no_response) silent;
      }

  -- A message sends its RPC message on the channel of the connection's session, and nothing else.
  pub on_message-published :
      (now : ℤ) (message : Message) (connection : Connection) (world : World V W)
      → (on_message now message (connection, world)).1.hub.published
        ≡ emitted connection.session_id (payload_of message) world.hub ++ world.hub.published
  on_message-published now message connection world =
      let id = connection.session_id in
      let silent = ap (λ l. l ++ world.hub.published) (sym (emitted_silent id world.hub)) in
      on_message_ind
        (λ m state.
          state.1.hub.published ≡ emitted id (payload_of m) world.hub ++ world.hub.published)
        (λ ty frame state.
          state.1.hub.published
          ≡ emitted id (frame_payload ty frame) world.hub ++ world.hub.published)
        now message connection world silent silent (λ body e. rw e silent)
        (λ body frame after e h. rw e h) (λ frame. dispatch-published now frame connection world)
