-- ===== src/Server/Control.antt =====
-- src/server/control.rs: the push channel of the phone's session list.
pub mod Frames
pub mod Reading
pub mod Channel
pub mod Feed
pub mod Lag
pub mod Interleavings
use pi_piper.Prelude.{Bool, true, false, not, List, [], ◌∷◌, map, if◌then◌else◌}
use pi_piper.Json.{Json}
use pi_piper.Watch.{Watch}
use pi_piper.Session.Encode.{summary_json}
use pi_piper.Events.{ControlEvent, control_json}
use pi_piper.Registry.{Hub, list}
use pi_piper.Rpc.RemoteAgent.{text}
use pi_piper.Server.Auth.{HeaderMap, is_authorized_tailscale}
use pi_piper.Server.Response.{Response, accepted}
use pi_piper.Server.Ws.{Sink, not_authorized}

module _ {H : Type 0} ⦃headers : HeaderMap H⦄ where
  unfoldable pub handler : H → Response (Unit {0})
  handler request = if not (is_authorized_tailscale request) then not_authorized else accepted tt

-- What the receiver of the control channel returns.
pub data Recv : Type 0 where
  received : ControlEvent → Recv
  lagged closed : Recv

module _ {V W : Type 0} ⦃json : Json V⦄ ⦃watch : Watch W⦄ where
  unfoldable pub snapshot_json : Hub V W → V
  snapshot_json hub = json.object (
      ("type", json.string "sessions_snapshot")
      ∷ ("sessions", json.array (map summary_json (list hub)))
      ∷ [])

module _ (V : Type 0) {S : Type 0} ⦃json : Json V⦄ ⦃sink : Sink S⦄ where
  -- The loop over the control channel, and whether it has ended.
  pub forward_control : List Recv → S → S × Bool
  forward_control [] s = (s, false)
  forward_control (received event ∷ rest) s =
      let (sent, s') = sink.send (text (json.to_string (control_json event))) s in
      let more = forward_control rest s' in if sent then more else (s', true)
  forward_control (lagged ∷ rest) s = forward_control rest s
  forward_control (closed ∷ rest) s = (s, true)

module _ {V W S : Type 0} ⦃json : Json V⦄ ⦃watch : Watch W⦄ ⦃sink : Sink S⦄ where
  -- The snapshot is of the hub at the time of the list; `events` is what the receiver returns, from
  -- its subscription before that.
  pub handle : Hub V W → List Recv → S → S × Bool
  unfolding forward_control
  handle hub events s =
      let (sent, s') = sink.send (text (json.to_string (snapshot_json hub))) s in
      let more = forward_control V events s' in if sent then more else (s', true)
