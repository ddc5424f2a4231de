-- ===== src/Session/Connected.antt =====
-- src/session.rs: the `connected` watch of a handle.
use pi_piper.Prelude.{ℕ, ◌≡◌, true, false}
use pi_piper.Watch.{Watch}
use pi_piper.Session.{
  AgentLink, SessionMeta, SessionHandle, new, connected_rx, drop_connected_rx, is_connected,
  mark_disconnected,
}

module _ {W : Type 0} ⦃watch : Watch W⦄ where
  -- How many receivers of the watch are alive.
  abbrev pub watchers : SessionHandle W → ℕ
  watchers handle = watch.receiver_count handle.connected

  pub is_connected-connected_rx :
      (handle : SessionHandle W) → is_connected (connected_rx handle) ≡ is_connected handle
  unfolding connected_rx is_connected
  is_connected-connected_rx handle = watch.borrow-subscribe handle.connected

  pub is_connected-drop_connected_rx :
      (handle : SessionHandle W) → is_connected (drop_connected_rx handle) ≡ is_connected handle
  unfolding drop_connected_rx is_connected
  is_connected-drop_connected_rx handle = watch.borrow-release handle.connected

  -- `send` on a watch with no receiver does not store the value.
  pub mark_disconnected_unwatched :
      (handle : SessionHandle W) → watchers handle ≡ 0 → mark_disconnected handle ≡ handle
  unfolding mark_disconnected
  mark_disconnected_unwatched handle h = cc (watch.send_closed false handle.connected h)

module _ (W : Type 0) ⦃watch : Watch W⦄ where
  pub is_connected-new :
      (link : AgentLink) (meta : SessionMeta) → is_connected (new {W = W} link meta) ≡ true
  unfolding new is_connected
  is_connected-new link meta = watch.borrow-channel true

  pub watchers-new : (link : AgentLink) (meta : SessionMeta) → watchers (new {W = W} link meta) ≡ 0
  unfolding new
  watchers-new link meta = watch.receiver_count-channel true
