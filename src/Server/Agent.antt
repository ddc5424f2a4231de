-- ===== src/Server/Agent.antt =====
-- src/server/agent.rs: a connection of a `pi-piper-agent` extension.
pub mod Dispatch
pub mod Closure
pub mod Frames
pub mod Registration
pub mod Worlds
pub mod Sequential
pub mod Lifetime
pub mod Races
pub mod SelfClose
pub mod Spawned
pub mod CrossTalk
pub mod Links
pub mod Outcome
pub mod Arena
pub mod Published
pub mod Told
pub mod Owners
pub mod Writer
use pi_piper.Prelude.{
  ℕ, ℤ, String, Bool, Option, none, some, List, [], ◌∷◌, ◌==◌, length, unwrap_or, if◌then◌else◌,
  ◌>>=◌,
}
use pi_piper.Json.{Json}
use pi_piper.Watch.{Watch}
use pi_piper.Session.{AgentLink, SessionKind, SessionMeta}
use pi_piper.Preview.{str_field}
use pi_piper.Registry.{Hub, register, unregister, update_meta, publish}
use pi_piper.Rpc.RemoteAgent.{Message, text, close, other}
use pi_piper.Server.Auth.{is_authorized}
use pi_piper.Server.Response.{Response, rejected, accepted}

-- The hub, and the frames handed to the writer task of each connection, newest first.
pub record World (V W : Type 0) : Type 0 where
  pub hub : Hub V W
  pub outbound : List (ℕ × Message)

-- The local state of `handle`: which connection it is, and the id that it last registered.
pub record Connection : Type 0 where
  pub number : ℕ
  pub session_id : Option String

unfoldable pub handler : String → Option String → Response (Unit {0})
unfolding is_authorized
handler agent_token token =
    if is_authorized agent_token token
    then accepted tt
    else rejected 401 "missing or invalid agent token"

module _ {V : Type 0} ⦃json : Json V⦄ where
  -- `text_field` is the same as `str_field`.
  unfoldable pub register_meta : String → ℤ → V → SessionMeta
  register_meta id now frame = record {
    session_id = id;
    session_file = str_field frame "sessionFile";
    session_name = str_field frame "sessionName";
    cwd = unwrap_or (str_field frame "cwd") "";
    connected_at_ms = now;
    kind = SessionKind.remote;
  }

  unfoldable pub registered_ack : String → V
  registered_ack id =
      json.object (("type", json.string "registered") ∷ ("sessionId", json.string id) ∷ [])

module _ {V W : Type 0} where
  abbrev pub update_hub : (Hub V W → Hub V W) → World V W → World V W
  update_hub f world = record world { hub = f world.hub }

  abbrev pub send_to : ℕ → Message → World V W → World V W
  send_to number message world = record world { outbound = (number, message) ∷ world.outbound }

  -- `if let (Some(id), Some(value)) = (&session_id, …)`
  abbrev when_both :
      Option String → Option V → (String → V → Hub V W → Hub V W) → World V W → World V W
  when_both (some id) (some value) f world = update_hub (f id value) world
  when_both _ _ f world = world

module _ {V W : Type 0} ⦃json : Json V⦄ ⦃watch : Watch W⦄ where
  -- A `register` frame with its id. `RemoteAgent::new` makes an event channel of its own, which is
  -- numbered like the handle that it will belong to.
  unfoldable pub on_register : String → ℤ → V → Connection × World V W → Connection × World V W
  on_register id now frame (connection, world) =
      let link =
        AgentLink.remote
          (record { to_agent = connection.number; events_tx = length world.hub.handles }) in
      (
        record connection { session_id = some id },
        send_to connection.number (text (json.to_string (registered_ack id)))
            (update_hub (register id link (register_meta id now frame)) world),
      )

  abbrev register_with : Option String → ℤ → V → Connection × World V W → Connection × World V W
  register_with none now frame state = state
  register_with (some id) now frame state = on_register id now frame state

  abbrev dispatch : Option String → ℤ → V → Connection × World V W → Connection × World V W
  dispatch none now frame state = state
  dispatch (some ty) now frame (connection, world) =
      if ty == "register"
      then register_with (str_field frame "sessionId") now frame (connection, world)
      else if ty == "meta_update"
      then (connection, when_both connection.session_id (json.get frame "patch") update_meta world)
      else if ty == "event"
      then (connection, when_both connection.session_id (json.get frame "event") publish world)
      else if ty == "response"
      then (connection, when_both connection.session_id (json.get frame "response") publish world)
      else (connection, world)

  -- The `match` on the type of a frame.
  unfoldable pub on_frame : ℤ → V → Connection × World V W → Connection × World V W
  on_frame now frame state = dispatch (str_field frame "type") now frame state

  abbrev on_parsed : Option V → ℤ → Connection × World V W → Connection × World V W
  on_parsed none now state = state
  on_parsed (some frame) now state = on_frame now frame state

  -- One message of the socket. `now` is what `now_ms()` returns.
  unfoldable pub on_message : ℤ → Message → Connection × World V W → Connection × World V W
  on_message now (text frame) state = on_parsed (json.from_str frame) now state
  on_message now close state = state
  on_message now other state = state

  -- The `while let Some(Ok(message))` loop, over what the socket yields; `none` is an error.
  unfoldable pub read_loop :
      List (ℤ × Option Message) → Connection × World V W → Connection × World V W
  read_loop [] state = state
  read_loop ((now, none) ∷ rest) state = state
  read_loop ((now, some message) ∷ rest) state = read_loop rest (on_message now message state)

module _ {V W : Type 0} ⦃watch : Watch W⦄ where
  abbrev unregister_last : Option String → World V W → World V W
  unregister_last none world = world
  unregister_last (some id) world = update_hub (unregister id) world

  -- What follows the loop: the last registered id is removed, whoever holds it by then.
  unfoldable pub on_closed : Connection × World V W → World V W
  on_closed (connection, world) = unregister_last connection.session_id world

module _ {V W : Type 0} ⦃json : Json V⦄ ⦃watch : Watch W⦄ where
  unfoldable pub handle : ℕ → List (ℤ × Option Message) → World V W → World V W
  handle number incoming world =
      on_closed (read_loop incoming (record { number = number; session_id = none }, world))
