-- ===== src/Registry/Unlocked.antt =====
-- src/registry.rs: a removal whose announcement is overtaken, since the lock on the sessions is
-- released before the control message is sent.
use pi_piper.Prelude.{
  ℕ, String, ◌≡◌, ◌≢◌, refl, ◌∙◌, true, Option, none, some, length, arith, eq_refl, get_elem?,
  get_elem?-modify_ne, get_elem?-append_length,
}
use pi_piper.Watch.{Watch}
use pi_piper.Events.{session_disconnected}
use pi_piper.Session.{
  AgentLink, SessionMeta, SessionSummary, SessionHandle, new, is_connected, mark_disconnected,
}
use pi_piper.Session.Connected.{is_connected-new}
use pi_piper.Registry.{Hub, get, session, register, unregister, update_handle, send_control}
use pi_piper.Registry.Map.{remove, lookup-remove}
use pi_piper.Registry.Invariant.{IsValid, get-lt, get-register, handles-register}
use pi_piper.Registry.Mirror.{client, live, live-ended}

module _ {V W : Type 0} where
  -- `self.sessions.write().unwrap().remove(id)`: the first part of `unregister`.
  unfoldable pub take_out : String → Hub V W → Option ℕ × Hub V W
  take_out id hub = (get id hub, record hub { sessions = remove id hub.sessions })

module _ {V W : Type 0} ⦃watch : Watch W⦄ where
  -- What `unregister` does after that, without the lock.
  unfoldable pub announce_removal : Option ℕ → String → Hub V W → Hub V W
  announce_removal none id hub = hub
  announce_removal (some handle) id hub =
      send_control (session_disconnected id) (update_handle handle mark_disconnected hub)

  -- Without anything in between, the two parts of a removal of a registered id are `unregister`.
  announce_removal-take_out :
      (id : String) (handle : ℕ) (hub : Hub V W)
      → get id hub ≡ some handle
      → announce_removal (take_out id hub).0 id (take_out id hub).1 ≡ unregister id hub
  unfolding take_out announce_removal unregister
  announce_removal-take_out id handle hub e = rw (e, unregister) refl

  get-take_out : (id : String) (hub : Hub V W) → IsValid hub → get id (take_out id hub).1 ≡ none
  unfolding take_out get
  get-take_out id hub v = rw (lookup-remove id id hub.sessions v.distinct, eq_refl id) refl

  -- The handle of a registration between the two parts, and its place in the arena.
  new-take_out :
      (id : String) (link : AgentLink) (meta : SessionMeta) (hub : Hub V W)
      → IsValid hub
      → get_elem? (register id link meta (take_out id hub).1).handles (length hub.handles)
        ≡ some (new link meta)
  unfolding take_out
  new-take_out id link meta hub v =
      rw (handles-register id link meta (take_out id hub).1, get-take_out id hub v)
        (get_elem?-append_length hub.handles (new link meta))

  -- A removal that is announced of one handle leaves a session with another.
  session-announce_removal :
      (id : String) (handle other : ℕ) (s : SessionHandle W) (hub : Hub V W)
      → get id hub ≡ some other
      → get_elem? hub.handles other ≡ some s
      → handle ≢ other
      → session id (announce_removal (some handle) id hub) ≡ some s
  unfolding announce_removal get
  session-announce_removal id handle other s hub e f differ =
      rw e (get_elem?-modify_ne hub.handles handle other mark_disconnected differ ∙ f)

  -- In a valid registry, a removal of a registered id is to take its entry out of the map and then
  -- to mark its handle and to announce the removal. Where the id is registered again between the
  -- two: the new session is registered and connected, but a phone that has put every control message
  -- on top of whatever it had under the id does not show the session as connected.
  pub late_removal :
      (id : String) (link : AgentLink) (meta : SessionMeta) (handle : ℕ) (hub : Hub V W)
      (base : Option SessionSummary)
      → IsValid hub
      → get id hub ≡ some handle
      → let (removed, without) = take_out id hub in
        let after = announce_removal removed id (register id link meta without) in
        (announce_removal removed id without ≡ unregister id hub)
        × (session id after ≡ some (new link meta))
        × (is_connected {W = W} (new link meta) ≡ true)
        × (live (client base after.control id) ≡ none)
  unfolding take_out announce_removal
  late_removal id link meta handle hub base v e =
      let hub2 = register id link meta (take_out id hub).1 in
      let fresh : get id hub2 ≡ some (length hub.handles) =
        get-register id id link meta (take_out id hub).1 ∙ rw (eq_refl id) refl in
      (
        announce_removal-take_out id handle hub e,
        rw e (
            session-announce_removal id handle (length hub.handles) (new link meta) hub2 fresh
              (new-take_out id link meta hub v)
              (λ same. absurd (omega (arith, get-lt hub id handle v e)))),
        is_connected-new W link meta,
        rw (e, eq_refl id) (live-ended (client base hub2.control id)),
      )
