-- ===== src/Server/Agent/Closure.antt =====
-- src/server/agent.rs: what the operations of the registry keep, the messages and the end of a connection
-- keep.
use pi_piper.Prelude.{ℤ, String, Option, none, some, Option-cases, inl, inr}
use pi_piper.Json.{Json}
use pi_piper.Watch.{Watch}
use pi_piper.Session.{AgentLink, SessionMeta}
use pi_piper.Preview.{str_field}
use pi_piper.Registry.{Hub, register, unregister, update_meta, publish}
use pi_piper.Rpc.RemoteAgent.{Message}
use pi_piper.Server.Agent.{
  World, Connection, when_both, register_with, register_meta, on_register, on_message, on_closed,
}
use pi_piper.Server.Agent.Dispatch.{DispatchCases, on_message_ind}

module _ {V W : Type 0} ⦃json : Json V⦄ ⦃watch : Watch W⦄ where
  -- The operations that a connection calls keep `P`; a registration is under the id of its metadata.
  pub record IsClosed (P : Hub V W → Type 0) : Type 0 where
    pub registers :
        (link : AgentLink) (meta : SessionMeta) (hub : Hub V W)
        → P hub
        → P (register meta.session_id link meta hub)
    pub removes : (id : String) (hub : Hub V W) → P hub → P (unregister id hub)
    pub patches : (id : String) (patch : V) (hub : Hub V W) → P hub → P (update_meta id patch hub)
    pub publishes : (id : String) (payload : V) (hub : Hub V W) → P hub → P (publish id payload hub)

  module _ (P : Hub V W → Type 0) (closed : IsClosed P) where
    when_both_kept :
        (o : Option String) (p : Option V) (f : String → V → Hub V W → Hub V W) (world : World V W)
        → ((id : String) (value : V) → P world.hub → P (f id value world.hub))
        → P world.hub
        → P (when_both o p f world).hub
    when_both_kept none p f world keep h = h
    when_both_kept (some id) none f world keep h = h
    when_both_kept (some id) (some value) f world keep h = keep id value h

    register_with_kept :
        (o : Option String) (now : ℤ) (frame : V) (connection : Connection) (world : World V W)
        → P world.hub
        → P (register_with o now frame (connection, world)).1.hub
    unfolding on_register register_meta
    register_with_kept none now frame connection world h = h
    register_with_kept (some id) now frame connection world h =
        closed.registers _ (register_meta id now frame) world.hub h

    dispatch_kept :
        (now : ℤ) (frame : V) (connection : Connection) (world : World V W)
        → P world.hub
        → DispatchCases (λ o state. P state.1.hub) now frame connection world
    dispatch_kept now frame connection world h =
        let id = connection.session_id in
        let publishing = λ (k : String).
          when_both_kept id (json.get frame k) publish world (λ i p. closed.publishes i p world.hub)
            h in
        record {
          untyped = h;
          registering =
              register_with_kept (str_field frame "sessionId") now frame connection world h;
          patching =
              when_both_kept id (json.get frame "patch") update_meta world
                (λ i p. closed.patches i p world.hub) h;
          publishing_event = publishing "event";
          publishing_response = publishing "response";
          skipping = λ ty skipped. h;
        }

    pub on_message_kept :
        (now : ℤ) (message : Message) (connection : Connection) (world : World V W)
        → P world.hub
        → P (on_message now message (connection, world)).1.hub
    on_message_kept now message connection world h =
        on_message_ind (λ m state. P state.1.hub) (λ ty frame state. P state.1.hub) now message
          connection world h h (λ body e. h) (λ body frame after e k. k)
          (λ frame. dispatch_kept now frame connection world h)

    pub on_closed_kept :
        (connection : Connection) (world : World V W)
        → P world.hub
        → P (on_closed (connection, world)).hub
    unfolding on_closed
    on_closed_kept connection world h = elim (Option-cases connection.session_id) [
      | inl e ↦ rw e h
      | inr (id, e) ↦ rw e (closed.removes id world.hub h)
    ]
