-- ===== src/Lib.antt =====
-- Pi Piper's hub: the Rust program under src/ that shows the coding sessions of one computer to a
-- phone.
--
-- Terminals connect to it over a WebSocket (`/agent`), register a session each and send its events;
-- a phone lists the sessions (`/api/sessions`, `/ws/control`) and follows one of them (`/ws`).
-- Between them stands a registry of sessions, which announces its changes on a control channel. The
-- program can also run one session itself, as a child process with a JSON value to a line on its
-- stdin and stdout.
--
-- Which file models which part:
-- - Session, Session/Encode and its modules, Session/Connected: src/session.rs. A `SessionHandle` is a record; what
--   the source shares by `Arc` is a position in a list of handles. `connected` is a watch channel.
--   Session/Encode/Reading and Session/Encode/Patch read the members of a summary by name.
-- - Preview, Preview/Text, Preview/Bounds, Status, Status/Laws: the pure parts of src/registry.rs,
--   that is `extract_preview` and its helpers, and what an event and a patch do to the data of one
--   session.
-- - Events, Registry, Registry/Map, Registry/Watcher: the rest of src/registry.rs. `Hub` has the
--   map from ids to handles, the handles, all that was sent on the control channel and on the event
--   channels, newest first, and the spawned tasks; `register`, `unregister`, `update_meta`,
--   `publish`, `get`, `get_default`, `list`, `handle_event` and `watch_status` are the functions of
--   these names.
-- - Registry/Invariant, Registry/Updates, Registry/Lookup: the well-formedness of a registry and
--   the effect of each operation; Registry/Patching has that of `update_meta` on the summary that
--   phones read. Registry/Unlocked is `unregister` in the two parts between which the source holds no
--   lock. Registry/Watcher/Shown: the effect of a whole run of the watcher. Registry/Mirror and its
--   modules: the control channel and the snapshot of src/server/control.rs against the registry.
--   What a phone keeps of them (`client`) is what assets/app.js does with the messages: a summary
--   replaces the one under its id, and a session that has ended stays and is marked as not connected;
--   `live` is what it then shows as connected.
-- - Rpc, Rpc/Process, Rpc/RemoteAgent, Rpc/Framing, Rpc/Failing: src/rpc/mod.rs, src/rpc/process.rs
--   and src/rpc/remote_agent.rs. Rpc/Process/Lock is a step relation of the tasks that share a
--   child process.
-- - Link, Link/Commands, Link/Delivery: `AgentLink` of src/session.rs as the one interface to a
--   child process and to a remote agent. `Links` has what the links write to; the commands of a
--   phone are followed from src/server/ws.rs to the stdin of a child or to the socket of an agent.
-- - Server and its modules: src/server/, a module to each file of it. Server/Agent has the frame
--   loop of a connection; Server/Agent/Worlds is a step relation for any number of connections
--   beside the tasks of the registry, and Server/Agent/Races, Server/Agent/SelfClose and
--   Server/Agent/CrossTalk follow single orders of its steps. Server/Agent/Registration is a
--   `register` message with what is read of it afterwards, Server/Agent/Lifetime the whole of a
--   connection on its own, and Server/Agent/Sequential puts such a run among the steps. Server/Agent/Links, Server/Agent/Outcome and Server/Agent/Owners
--   relate the registered sessions to the open connections along the steps:
--   Server/Agent/Owners/Steady where no connection registers a second id,
--   Server/Agent/Owners/Exclusive where no id is taken from the connection that holds it.
--   Server/Agent/Dispatch has the cases of a frame, one by one, and Server/Agent/Closure what they
--   keep if the operations of the registry do; Server/Agent/Arena counts the handles that a message
--   makes, Server/Agent/Published has what it sends on the event channels, and
--   Server/Agent/Owners/Channels, Server/Agent/Owners/Traffic, Server/Agent/Owners/Kept and
--   Server/Agent/Owners/Delivery follow the channel of one session along the steps.
--   Server/Agent/Spawned has the watchers that are spawned. Server/Agent/Told is what the steps say
--   on the control channel. Server/Agent/Writer is the writer task.
-- - Server/Serve and Server/Serve/Entitled: the router of src/server/mod.rs with the handlers that
--   it names, from a request to the answer.
-- - Broadcast, Broadcast/Order: a receiver of a `tokio::sync::broadcast` channel, and the order of
--   what it gets. Server/Control/Feed, Server/Control/Lag and Server/Control/Interleavings put the
--   registry, the control channel and the handler of src/server/control.rs together, and
--   Server/Ws/Feed the event channels and the bridge of src/server/ws.rs. Server/Ws/Ending is the end
--   of a session at its bridges.
-- - AgentToken: src/agent_token.rs. Config: src/config.rs. State: src/state.rs. Main, Main/Startup:
--   `main` of src/main.rs, with the choice of the token and the headless session; its `Environment`
--   has what the system gives it, the way each call ends included.
-- - Prelude, Json, Watch: shared helpers, and the interfaces of the crates. Samples and Tests:
--   concrete values for the parameters, and runs of the code on them.
--
-- What is a parameter: `serde_json::Value` (Json), the sender of a `tokio::sync::watch` channel
-- (Watch), a receiver of a `tokio::sync::broadcast` channel (Broadcast), the header map of a
-- request, the two halves of a WebSocket, the streams of a child process, the file system, the
-- embedded files and the guess of a media type. Where a theorem relies on what one of them does,
-- the interface has it as a law. The clock and random identifiers are arguments.
--
-- Fuel: `forward_stdout` and `forward_stderr` take a number of rounds, since a stream need not end;
-- a number greater than the lines of a stream is enough for it to end. Every other loop runs over
-- the list of what its source yields.
--
-- Bounds: a length in the source is a `usize` that no session count or text reaches, and is a
-- natural number here. `now_ms` keeps the cast from `u128` to `i64`.
--
-- The control channel keeps 256 messages, as in src/registry.rs, and an event channel 1024, as in
-- src/rpc/process.rs and src/rpc/remote_agent.rs; a receiver with more pending loses the older ones
-- and is told that it lagged.
--
-- Each operation of the registry, with the change of the map, the change of the handle and the
-- announcement, is one step of Server/Agent/Worlds. The source releases the lock on the sessions
-- before it sends on the control channel, so that with several threads another operation can come
-- between: what holds in every order of the steps holds of the orders of whole operations.
-- Registry/Unlocked follows one order in which an operation comes between.
--
-- What is not modelled: the logging, but for the lines of stderr that src/rpc/process.rs logs; the
-- sockets, and the parsing of arguments by the command line library.
-- `main` returns the calls on the child that its shutdown sets out to make; when the second of them
-- is made is the subject of Rpc/Process/Lock. The terminal's extension (pi-piper-agent/) and the
-- phone's page (assets/) are not part of the model, but for what the page keeps of the control
-- messages: what they send is any input.
pub mod Prelude
pub mod Json
pub mod Watch
pub mod Broadcast
pub mod Session
pub mod Preview
pub mod Status
pub mod Events
pub mod Registry
pub mod Config
pub mod Rpc
pub mod Link
pub mod Server
pub mod AgentToken
pub mod State
pub mod Main
pub mod Samples
pub mod Tests
