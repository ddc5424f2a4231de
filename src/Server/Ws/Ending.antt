-- ===== src/Server/Ws/Ending.antt =====
-- src/server/ws.rs, src/session.rs and src/registry.rs: the end of a session, at the bridges that follow
-- it.
use pi_piper.Prelude.{
  ℕ, String, ◌<◌, ◌≡◌, refl, ap, ◌∙◌, true, false, some, List, [], ◌∷◌, ◌++◌, map, get_elem?,
  get_elem?-modify_self,
}
use pi_piper.Json.{Json}
use pi_piper.Watch.{Watch}
use pi_piper.Session.{AgentLink, SessionMeta, SessionHandle, mark_disconnected, is_connected}
use pi_piper.Session.Connected.{watchers}
use pi_piper.Registry.{Hub, get, register, unregister}
use pi_piper.Registry.Invariant.{handles-unregister, retired}
use pi_piper.Registry.Watcher.{Signal, changed_err, changed_ok, received, lagged, closed}
use pi_piper.Server.Agent.Races.{replaced_handle}
use pi_piper.Server.Ws.{Sink, forward_events}
use pi_piper.Server.Ws.Feed.{event_frame}
use pi_piper.Server.Ws.Relay.{relayed, is_over, send_all, forward_events_lem}

module _ {V : Type 0} where
  is_over_at_end :
      (before rest : List (Signal V)) → is_over (before ++ changed_ok false ∷ rest) ≡ true
  is_over_at_end [] rest = refl
  is_over_at_end (changed_err ∷ before) rest = refl
  is_over_at_end (changed_ok true ∷ before) rest = is_over_at_end before rest
  is_over_at_end (changed_ok false ∷ before) rest = refl
  is_over_at_end (received event ∷ before) rest = is_over_at_end before rest
  is_over_at_end (lagged ∷ before) rest = is_over_at_end before rest
  is_over_at_end (closed ∷ before) rest = refl

  relayed_to_end :
      (before rest : List (Signal V)) → relayed (before ++ changed_ok false ∷ rest) ≡ relayed before
  relayed_to_end [] rest = refl
  relayed_to_end (changed_err ∷ before) rest = refl
  relayed_to_end (changed_ok true ∷ before) rest = relayed_to_end before rest
  relayed_to_end (changed_ok false ∷ before) rest = refl
  relayed_to_end (received event ∷ before) rest = ap (λ l. event ∷ l) (relayed_to_end before rest)
  relayed_to_end (lagged ∷ before) rest = relayed_to_end before rest
  relayed_to_end (closed ∷ before) rest = refl

module _ {W : Type 0} ⦃watch : Watch W⦄ where
  gone_is_seen : (s : SessionHandle W) → 0 < watchers s → is_connected (mark_disconnected s) ≡ false
  unfolding is_connected mark_disconnected
  gone_is_seen s h = watch.borrow-send false s.connected h

module _ {V W S : Type 0} ⦃json : Json V⦄ ⦃watch : Watch W⦄ ⦃sink : Sink S⦄ where
  -- Where a receiver follows the watch of a registered handle: the removal of its id, and likewise a
  -- new registration of the id, leaves at that handle a value of the watch with which the bridge's
  -- task ends, once it is handed the change; by then it has sent one frame per event that it relayed
  -- before the change, in order, up to the first failed send, and it sends nothing that comes after.
  pub session_end_ends_forwarding :
      (id : String) (handle : ℕ) (link : AgentLink) (meta : SessionMeta) (s : SessionHandle W)
      (hub : Hub V W) (before rest : List (Signal V)) (socket : S)
      → get id hub ≡ some handle
      → get_elem? hub.handles handle ≡ some s
      → 0 < watchers s
      → let gone = mark_disconnected s in
        (get_elem? (unregister id hub).handles handle ≡ some gone)
        × (get_elem? (register id link meta hub).handles handle ≡ some gone)
        × (forward_events (before ++ changed_ok (is_connected gone) ∷ rest) socket
            ≡ send_all true (map event_frame (relayed before)) socket)
  session_end_ends_forwarding id handle link meta s hub before rest socket e f h = (
    ap (λ hs. get_elem? hs handle) (handles-unregister id hub ∙ ap (λ o. retired o hub.handles) e)
        ∙ get_elem?-modify_self hub.handles handle mark_disconnected f,
    replaced_handle id link meta handle s hub e f,
    ap (λ b. forward_events (before ++ changed_ok b ∷ rest) socket) (gone_is_seen s h)
        ∙ forward_events_lem (before ++ changed_ok false ∷ rest) socket
        ∙ ap
            (λ b. send_all b (map event_frame (relayed (before ++ changed_ok false ∷ rest))) socket)
            (is_over_at_end before rest)
        ∙ ap (λ l. send_all true (map event_frame l) socket) (relayed_to_end before rest),
  )
