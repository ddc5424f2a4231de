-- ===== src/Server/Agent/Registration.antt =====
-- src/server/agent.rs and src/session.rs: a `register` message, and what is read of it afterwards.
use pi_piper.Prelude.{
  ℤ, String, ◌≡◌, refl, ◌∙◌, ap, false, true, some, ◌∷◌, ◌==◌, length, unwrap_or, if◌then◌else◌,
}
use pi_piper.Json.{Json}
use pi_piper.Watch.{Watch}
use pi_piper.Session.{AgentLink, SessionHandle, new, summary, is_connected}
use pi_piper.Session.Encode.{summary_json}
use pi_piper.Session.Encode.Reading.{HasOption, summary_json-IsSummaryOf, str_field_string}
use pi_piper.Preview.{str_field}
use pi_piper.Registry.{session}
use pi_piper.Registry.Invariant.{IsValid}
use pi_piper.Rpc.RemoteAgent.{text}
use pi_piper.Server.Agent.{
  World, Connection, register_meta, registered_ack, on_register, on_frame, on_message,
}
use pi_piper.Server.Agent.Frames.{on_register_lem}

module _ {V : Type 0} ⦃json : Json V⦄ where
  -- What a phone reads of a session that a frame has just registered.
  pub record IsRegistered (v : V) (id : String) (now : ℤ) (frame : V) : Type 0 where
    pub session_id : str_field v "sessionId" ≡ some id
    pub session_file : HasOption v "sessionFile" (str_field frame "sessionFile")
    pub session_name : HasOption v "sessionName" (str_field frame "sessionName")
    pub cwd : str_field v "cwd" ≡ some (unwrap_or (str_field frame "cwd") "")
    pub connected_at_ms : json.get v "connectedAtMs" ≡ some (json.int now)
    pub kind : str_field v "kind" ≡ some "remote"
    pub is_streaming : json.get v "isStreaming" ≡ some (json.bool false)
    pub connected : json.get v "connected" ≡ some (json.bool true)

  -- The acknowledgement of a registration.
  abbrev pub IsAck : V → String → Type 0
  IsAck v id = (str_field v "type" ≡ some "registered") × (str_field v "sessionId" ≡ some id)

module _ (V : Type 0) ⦃json : Json V⦄ where
  registered_ack-IsAck : (id : String) → IsAck {V = V} (registered_ack id) id
  unfolding registered_ack
  registered_ack-IsAck id = (
    str_field_string _ "type" "registered" (json.get-object _ "type"),
    str_field_string _ "sessionId" id (json.get-object _ "sessionId"),
  )

module _ {V : Type 0} (W : Type 0) ⦃json : Json V⦄ ⦃watch : Watch W⦄ where
  new-IsRegistered :
      (link : AgentLink) (id : String) (now : ℤ) (frame : V)
      → IsRegistered
          (summary_json (summary {W = W} (new link (register_meta id now frame))))
          id
          now
          frame
  unfolding summary is_connected new register_meta
  new-IsRegistered link id now frame =
      let read =
        summary_json-IsSummaryOf {V = V}
          (summary {W = W} (new link (register_meta id now frame))) in
      record {
        session_id = read.session_id;
        session_file = read.session_file;
        session_name = read.session_name;
        cwd = read.cwd;
        connected_at_ms = read.connected_at_ms;
        kind = read.kind;
        is_streaming = read.is_streaming;
        connected = read.connected ∙ ap (λ b. some (json.bool b)) (watch.borrow-channel true);
      }

module _ {V W : Type 0} ⦃json : Json V⦄ ⦃watch : Watch W⦄ where
  message-on_register :
      (id body : String) (now : ℤ) (frame : V) (connection : Connection) (world : World V W)
      → json.from_str body ≡ some frame
      → str_field frame "type" ≡ some "register"
      → str_field frame "sessionId" ≡ some id
      → on_message now (text body) (connection, world)
        ≡ on_register id now frame (connection, world)
  unfolding on_message on_frame
  message-on_register id body now frame connection world parses typed named =
      rw (parses, typed, named) refl

  -- With a valid registry, a text that is a `register` frame with a session id puts a session under
  -- the id and leaves every other session alone: it is linked to the connection with a new event
  -- channel, and its summary has the id, the file and the name of the frame or `null`, the directory
  -- of the frame or the empty string, the time of the message and the kind `remote`, and says that
  -- it is connected and not streaming. The id becomes the connection's, and the one frame that is
  -- sent, on the same connection, is the text of a value with the type `registered` and the id.
  pub on_message_lem :
      (id j body : String) (now : ℤ) (frame : V) (connection : Connection) (world : World V W)
      → IsValid world.hub
      → json.from_str body ≡ some frame
      → str_field frame "type" ≡ some "register"
      → str_field frame "sessionId" ≡ some id
      → let (connection', world') = on_message now (text body) (connection, world) in
        (s : SessionHandle W) × (ack : V) × (session j world'.hub
          ≡ (if id == j then some s else session j world.hub))
        × (s.link
            ≡ AgentLink.remote
                (record { to_agent = connection.number; events_tx = length world.hub.handles }))
        × IsRegistered (summary_json (summary s)) id now frame
        × (connection'.number ≡ connection.number)
        × (connection'.session_id ≡ some id)
        × (world'.outbound ≡ (connection.number, text (json.to_string ack)) ∷ world.outbound)
        × IsAck ack id
  unfolding on_register new
  on_message_lem id j body now frame connection world v parses typed named =
      let same = message-on_register id body now frame connection world parses typed named in
      let (registered, held, sent) = on_register_lem id j now frame connection world v in
      let link =
        AgentLink.remote
          (record { to_agent = connection.number; events_tx = length world.hub.handles }) in
      (
        new link (register_meta id now frame),
        registered_ack id,
        ap (λ (r : Connection × World V W). session j r.1.hub) same ∙ registered,
        refl,
        new-IsRegistered W link id now frame,
        ap (λ (r : Connection × World V W). r.0.number) same,
        ap (λ (r : Connection × World V W). r.0.session_id) same ∙ held,
        ap (λ (r : Connection × World V W). r.1.outbound) same ∙ sent,
        registered_ack-IsAck V id,
      )
