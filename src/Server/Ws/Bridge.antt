-- ===== src/Server/Ws/Bridge.antt =====
-- src/server/ws.rs: `bridge`, which runs both directions until the phone's half of the socket ends.
use pi_piper.Prelude.{ℕ, String, Bool, Option, List, map, ◌≡◌, ◌∙◌, ◌-◌, ap, arith}
use pi_piper.Json.{Json}
use pi_piper.Watch.{Watch}
use pi_piper.Session.{SessionHandle, connected_rx, drop_connected_rx, is_connected}
use pi_piper.Session.Connected.{watchers, is_connected-connected_rx, is_connected-drop_connected_rx}
use pi_piper.Rpc.{AsyncWrite}
use pi_piper.Rpc.RemoteAgent.{Message, text}
use pi_piper.Registry.Watcher.{Signal}
use pi_piper.Link.{Links, Channel, subscribe}
use pi_piper.Link.Commands.{send_on, commands, Delivered, relay_commands-Delivered}
use pi_piper.Rpc.Framing.{Buffer}
use pi_piper.Server.Ws.Relay.{relayed, is_over, send_all, forward_events_lem}
use pi_piper.Server.Ws.{Sink, forward_events, relay_commands}

module _ {V W S L : Type 0} ⦃json : Json V⦄ ⦃watch : Watch W⦄ ⦃sink : Sink S⦄ ⦃stdin : AsyncWrite L⦄
    (uuid : ℕ → String) where
  -- `signals` is what the task is handed for the event channel that it subscribes to and for the
  -- watch, up to its end or its abort, and `messages` what the phone sends.
  unfoldable pub bridge :
      SessionHandle W
      → (Channel → List (Signal V))
      → List (Option Message)
      → S
      → Links L
      → SessionHandle W × S × Links L
  bridge handle signals messages s links =
      let watched = connected_rx handle in
      let (s', ended) = forward_events (signals (subscribe handle.link)) s in
      (
        drop_connected_rx watched,
        s',
        relay_commands (send_on {V = V} uuid handle.link) messages links,
      )

module _ {W : Type 0} ⦃watch : Watch W⦄ where
  watchers_back :
      (handle : SessionHandle W)
      → watchers (drop_connected_rx (connected_rx handle)) ≡ watchers handle
  unfolding connected_rx drop_connected_rx
  watchers_back handle =
      watch.receiver_count-release (watch.subscribe handle.connected)
      ∙ ap (λ n. n - 1) (watch.receiver_count-subscribe handle.connected)
      ∙ omega arith

module _ (V : Type 0) {W S L : Type 0} ⦃json : Json V⦄ ⦃watch : Watch W⦄ ⦃sink : Sink S⦄
    ⦃stdin : AsyncWrite L⦄ ⦃buffer : Buffer L⦄ (uuid : ℕ → String) where
  -- Where writes to the stdin of a child process succeed: a bridge sends the phone one frame per
  -- event that the channel of the session's link gives while the session is connected, in order, up
  -- to the first failed send; the JSON messages of the phone, up to an error of its socket, reach
  -- the link in order, an agent that still receives by one envelope each, a child process by one
  -- line each on its stdin, and no other stdin and no other writer gets anything; and the handle is
  -- as connected and has as many receivers on its watch as before.
  pub bridge_lem :
      (handle : SessionHandle W) (signals : Channel → List (Signal V))
      (messages : List (Option Message)) (s : S) (links : Links L)
      → let events = signals (subscribe handle.link) in
        let (handle', s', links') = bridge uuid handle signals messages s links in
        (s'
          ≡ (send_all
              (is_over events)
              (map (λ event. text (json.to_string event)) (relayed events))
              s).0)
        × Delivered uuid handle.link (commands {V = V} messages) links links'
        × (is_connected handle' ≡ is_connected handle)
        × (watchers handle' ≡ watchers handle)
  unfolding bridge
  bridge_lem handle signals messages s links = (
    ap (λ (r : S × Bool). r.0) (forward_events_lem (signals (subscribe handle.link)) s),
    relay_commands-Delivered V uuid handle.link messages links,
    is_connected-drop_connected_rx (connected_rx handle) ∙ is_connected-connected_rx handle,
    watchers_back handle,
  )
