-- ===== src/Session.antt =====
-- src/session.rs: the identity, metadata and status of a session, its link, and its handle.
pub mod Encode
pub mod Connected
use pi_piper.Prelude.{ℕ, ℤ, pos, String, Bool, true, false, Option, none, some}
use pi_piper.Prelude.Int.{as_i64}
use pi_piper.Watch.{Watch}

-- The clock's reading is its distance from the Unix epoch in milliseconds, `none` before it.
unfoldable pub now_ms : Option ℕ → ℤ
unfolding as_i64
now_ms none = pos 0
now_ms (some elapsed) = as_i64 elapsed

pub data SessionKind : Type 0 where
  remote headless : SessionKind

pub record SessionMeta : Type 0 where
  pub session_id : String
  pub session_file : Option String
  pub session_name : Option String
  pub cwd : String
  pub connected_at_ms : ℤ
  pub kind : SessionKind

pub record SessionStatus : Type 0 where
  pub is_streaming : Bool
  pub last_activity_at_ms : ℤ
  pub last_preview : Option String

pub record SessionSummary : Type 0 where
  pub meta : SessionMeta
  pub status : SessionStatus
  pub connected : Bool

-- src/rpc/remote_agent.rs: the `/agent` connection whose writer task sends the outbound frames,
-- and the broadcast channel of its own that each agent has.
pub record RemoteAgent : Type 0 where
  pub to_agent : ℕ
  pub events_tx : ℕ

-- A child process and a remote agent are shared: the number of a process stands for its `Arc`.
pub data AgentLink : Type 0 where
  headless : ℕ → AgentLink
  remote : RemoteAgent → AgentLink

-- `W` is the sending half of a `tokio::sync::watch` channel.
pub record SessionHandle (W : Type 0) : Type 0 where
  pub link : AgentLink
  pub meta : SessionMeta
  pub status : SessionStatus
  pub connected : W

-- The derived `Default`.
abbrev pub default_status : SessionStatus
default_status = record { is_streaming = false; last_activity_at_ms = pos 0; last_preview = none }

module _ {W : Type 0} ⦃watch : Watch W⦄ where
  unfoldable pub new : AgentLink → SessionMeta → SessionHandle W
  new link meta = record {
    link = link;
    meta = meta;
    status = default_status;
    connected = watch.channel true;
  }

  -- The receiver is dropped by `release`.
  unfoldable pub connected_rx : SessionHandle W → SessionHandle W
  connected_rx handle = record handle { connected = watch.subscribe handle.connected }

  unfoldable pub drop_connected_rx : SessionHandle W → SessionHandle W
  drop_connected_rx handle = record handle { connected = watch.release handle.connected }

  unfoldable pub is_connected : SessionHandle W → Bool
  is_connected handle = watch.borrow handle.connected

  -- The result of `send` is dropped.
  unfoldable pub mark_disconnected : SessionHandle W → SessionHandle W
  mark_disconnected handle = record handle { connected = watch.send false handle.connected }

  unfoldable pub summary : SessionHandle W → SessionSummary
  unfolding is_connected
  summary handle = record {
    meta = handle.meta;
    status = handle.status;
    connected = is_connected handle;
  }
