-- ===== src/Registry/Watcher.antt =====
-- src/registry.rs: the task `watch_status`.
pub mod Shown
use pi_piper.Prelude.{ℕ, ℤ, Bool, true, false, not, List, [], ◌∷◌, if◌then◌else◌}
use pi_piper.Json.{Json}
use pi_piper.Watch.{Watch}
use pi_piper.Session.{connected_rx, drop_connected_rx}
use pi_piper.Registry.{Hub, update_handle, handle_event}

-- What a turn of `tokio::select!` hands to a task that follows a session: a change of `connected`,
-- which fails or leaves the value that is then read, or what the event channel returns.
pub data Signal (V : Type 0) : Type 0 where
  changed_err : Signal V
  changed_ok : Bool → Signal V
  received : V → Signal V
  lagged closed : Signal V

module _ {V W : Type 0} ⦃json : Json V⦄ ⦃watch : Watch W⦄ where
  -- The loop, with what other tasks do to the hub before each turn. `false` says that it still
  -- waits after the last signal.
  unfoldable pub watch_loop :
      ℕ → List ((Hub V W → Hub V W) × ℤ × Signal V) → Hub V W → Hub V W × Bool
  watch_loop handle [] hub = (hub, false)
  watch_loop handle ((others, now, changed_err) ∷ rest) hub = (others hub, true)
  watch_loop handle ((others, now, changed_ok connected) ∷ rest) hub =
      let more = watch_loop handle rest (others hub) in
      if not connected then (others hub, true) else more
  watch_loop handle ((others, now, received event) ∷ rest) hub =
      watch_loop handle rest (handle_event handle now event (others hub))
  watch_loop handle ((others, now, lagged) ∷ rest) hub = watch_loop handle rest (others hub)
  watch_loop handle ((others, now, closed) ∷ rest) hub = (others hub, true)

  -- The receiver is subscribed when the task starts, and dropped when it ends.
  unfoldable pub watch_status : ℕ → List ((Hub V W → Hub V W) × ℤ × Signal V) → Hub V W → Hub V W
  unfolding watch_loop
  watch_status handle turns hub =
      let (hub', ended) = watch_loop handle turns (update_handle handle connected_rx hub) in
      if ended then update_handle handle drop_connected_rx hub' else hub'
