-- ===== src/Server/Ws.antt =====
-- src/server/ws.rs: the bridge between a phone's WebSocket and one session.
pub mod Relay
pub mod Bridge
pub mod Feed
pub mod Ending
use pi_piper.Prelude.{
  ℕ, String, Bool, true, false, not, Option, none, some, List, [], ◌∷◌, is_some, if◌then◌else◌,
}
use pi_piper.Json.{Json}
use pi_piper.Registry.{Hub, get, get_default}
use pi_piper.Registry.Watcher.{Signal, changed_err, changed_ok, received, lagged, closed}
use pi_piper.Rpc.RemoteAgent.{Message, text, close, other}
use pi_piper.Server.Auth.{HeaderMap, is_authorized_tailscale}
use pi_piper.Server.Response.{Response, rejected, accepted}

abbrev pub not_authorized {ℓ} : {A : Type ℓ} → Response A
not_authorized = rejected 401 "not authorized: connect over Tailscale"

-- The sending half of a split WebSocket: whether a send succeeds, and the state that it leaves.
pub record Sink (S : Type 0) : Type 0 where
  pub send : Message → S → Bool × S

module _ {V W : Type 0} where
  abbrev pub resolve : Option String → Hub V W → Option ℕ
  resolve none hub = get_default hub
  resolve (some id) hub = get id hub

abbrev pub no_session_hint : Option String → String
no_session_hint none =
    "no session id given and it is not the only one registered; GET /api/sessions and pass ?session=<id>"
no_session_hint (some id) = "no session registered with that id"

abbrev pub or_bad_request : Option String → Option ℕ → Response ℕ
or_bad_request session none = rejected 400 (no_session_hint session)
or_bad_request session (some handle) = accepted handle

module _ {H V W : Type 0} ⦃headers : HeaderMap H⦄ where
  -- An upgrade starts a bridge to the handle.
  unfoldable pub handler : H → Option String → Hub V W → Response ℕ
  handler request session hub =
      if not (is_authorized_tailscale request)
      then not_authorized
      else or_bad_request session (resolve session hub)

module _ {V S : Type 0} ⦃json : Json V⦄ ⦃sink : Sink S⦄ where
  -- The task `forward_events`, and whether it has ended.
  pub forward_events : List (Signal V) → S → S × Bool
  forward_events [] s = (s, false)
  forward_events (changed_err ∷ rest) s = (s, true)
  forward_events (changed_ok connected ∷ rest) s =
      let more = forward_events rest s in if not connected then (s, true) else more
  forward_events (received event ∷ rest) s =
      let (sent, s') = sink.send (text (json.to_string event)) s in
      let more = forward_events rest s' in if sent then more else (s', true)
  forward_events (lagged ∷ rest) s = forward_events rest s
  forward_events (closed ∷ rest) s = (s, true)

module _ {V L : Type 0} ⦃json : Json V⦄ (send : V → L → L) where
  abbrev send_parsed : Option V → L → L
  send_parsed none link = link
  send_parsed (some command) link = send command link

  abbrev pub relay_message : Message → L → L
  relay_message (text frame) link = send_parsed (json.from_str frame) link
  relay_message close link = link
  relay_message other link = link

  -- The `while let Some(Ok(message))` loop; `send` is `handle.link.send`, whose error is only
  -- logged, and `none` is an error of the socket.
  unfoldable pub relay_commands : List (Option Message) → L → L
  relay_commands [] link = link
  relay_commands (none ∷ rest) link = link
  relay_commands (some message ∷ rest) link = relay_commands rest (relay_message message link)
