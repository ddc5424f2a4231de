-- ===== src/Server/Agent/Frames.antt =====
-- src/server/agent.rs: what the frames of a connection do to the registry.
use pi_piper.Prelude.{
  ℤ, String, ◌≡◌, ◌≢◌, refl, false, none, some, ◌∷◌, ◌==◌, eq_iff, length, if◌then◌else◌, arith,
  Option-cases, inl, inr,
}
use pi_piper.Json.{Json}
use pi_piper.Watch.{Watch}
use pi_piper.Session.{AgentLink, RemoteAgent, new}
use pi_piper.Preview.{str_field}
use pi_piper.Registry.{session}
use pi_piper.Registry.Invariant.{IsValid, register-IsValid, unregister-IsValid}
use pi_piper.Registry.Updates.{publish-IsValid, update_meta-IsValid}
use pi_piper.Registry.Lookup.{session-register}
use pi_piper.Rpc.RemoteAgent.{Message, text}
use pi_piper.Server.Agent.{
  World, Connection, register_meta, registered_ack, on_register, on_frame, on_message, on_closed,
}
use pi_piper.Server.Agent.Closure.{IsClosed, on_message_kept, on_closed_kept}

module _ {V W : Type 0} ⦃json : Json V⦄ ⦃watch : Watch W⦄ where
  -- Before a connection has registered, no frame of another type than `register` changes anything.
  on_frame_unregistered :
      (now : ℤ) (frame : V) (connection : Connection) (world : World V W)
      → connection.session_id ≡ none
      → str_field frame "type" ≢ some "register"
      → on_frame now frame (connection, world) ≡ (connection, world)
  unfolding on_frame
  on_frame_unregistered now frame connection world e h =
      elim (Option-cases (str_field frame "type")) [
        | inl f ↦ rw f
        | inr (ty, f) ↦
            let no_register : (ty == "register") ≡ false =
              ground (arith, h, f, eq_iff ty "register") in
            rw (f, no_register, e) (ground arith)
      ]

  -- With a valid registry, a `register` frame puts a new session with the frame's metadata and a
  -- link to the connection under its id and leaves every other session alone; the id becomes the
  -- connection's, and the one frame that is sent is the acknowledgement, on the same connection.
  pub on_register_lem :
      (id j : String) (now : ℤ) (frame : V) (connection : Connection) (world : World V W)
      → IsValid world.hub
      → let (connection', world') = on_register id now frame (connection, world) in
        let agent : RemoteAgent = record {
          to_agent = connection.number;
          events_tx = length world.hub.handles;
        } in
        (session j world'.hub ≡ (
          if id == j
          then some (new (AgentLink.remote agent) (register_meta id now frame))
          else session j world.hub))
        × (connection'.session_id ≡ some id)
        × (world'.outbound
            ≡ (connection.number, text (json.to_string (registered_ack id))) ∷ world.outbound)
  unfolding on_register
  on_register_lem id j now frame connection world v =
      (session-register id j _ _ world.hub v, refl, refl)

  pub on_register-IsValid :
      (id : String) (now : ℤ) (frame : V) (connection : Connection) (world : World V W)
      → IsValid world.hub
      → IsValid (on_register id now frame (connection, world)).1.hub
  unfolding on_register register_meta
  on_register-IsValid id now frame connection world v =
      register-IsValid id _ (register_meta id now frame) world.hub refl v

  IsValid-IsClosed : IsClosed {V = V} {W = W} (λ hub. IsValid hub)
  IsValid-IsClosed = record {
    registers = λ link meta hub v. register-IsValid meta.session_id link meta hub refl v;
    removes = unregister-IsValid;
    patches = update_meta-IsValid;
    publishes = publish-IsValid;
  }

  -- Whatever a connection sends, the registry stays valid.
  pub on_message-IsValid :
      (now : ℤ) (message : Message) (connection : Connection) (world : World V W)
      → IsValid world.hub
      → IsValid (on_message now message (connection, world)).1.hub
  on_message-IsValid = on_message_kept (λ hub. IsValid hub) IsValid-IsClosed

  pub on_closed-IsValid :
      (connection : Connection) (world : World V W)
      → IsValid world.hub
      → IsValid (on_closed (connection, world)).hub
  on_closed-IsValid = on_closed_kept (λ hub. IsValid hub) IsValid-IsClosed
