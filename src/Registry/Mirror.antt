-- ===== src/Registry/Mirror.antt =====
-- src/registry.rs and the control channel: what a phone that follows the channel knows of the
-- sessions. The phone (assets/app.js) keeps the last summary that it was sent for each session
-- id, also of a session that has ended, which it then marks as not connected.
pub mod Status
pub mod Run
pub mod Snapshot
pub mod Extends
pub mod Converge
use mathlib.Core.Option
use pi_piper.Prelude.{
  ℕ, ℤ, pos, ◌≡◌, refl, sym, ◌∙◌, subst, ap, String, Bool, true, false, Option, none, some, List,
  [], ◌∷◌, ◌++◌, arith, ◌==◌, eq_iff, eq_refl, length, get_elem?, modify, Bool-cases, Option-cases,
  inl, inr, if◌then◌else◌, ◌>>=◌, unwrap_or, get_elem?-modify_self,
}
use pi_piper.Json.{Json}
use pi_piper.Watch.{Watch}
use pi_piper.Events.{
  ControlEvent, session_connected, session_meta, session_update, session_disconnected,
}
use pi_piper.Session.{
  AgentLink, SessionMeta, SessionStatus, SessionSummary, SessionHandle, new, summary, is_connected,
}
use pi_piper.Session.Connected.{is_connected-new}
use pi_piper.Preview.{str_field}
use pi_piper.Status.{is_status_event, status_changed, option_eq, next_status, patch_meta}
use pi_piper.Registry.{
  Hub, empty, get, session, announce, retire, insert_session, register, unregister, update_meta,
  publish, apply_event, handle_event,
}
use pi_piper.Registry.Invariant.{
  IsSession, IsValid, empty-IsValid, register-IsValid, unregister-IsValid, handles-announce,
}
use pi_piper.Registry.Updates.{
  patched, with_status, status_of, publish-IsValid, update_meta-IsValid, handle_event-IsValid,
}
use pi_piper.Registry.Lookup.{
  session-register, session-unregister, session-publish, session-update_meta, session-apply_event,
  session_of_get, new_session,
}

abbrev pub upsert : SessionSummary → String → Option SessionSummary → Option SessionSummary
upsert s id before = if s.meta.session_id == id then some s else before

-- A session that has ended stays in the phone's list, marked as not connected.
abbrev pub ended : SessionSummary → SessionSummary
ended s = record s { connected = false }

-- What the phone has for an id after the messages, the newest of which is the first of the list.
abbrev pub client : Option SessionSummary → List ControlEvent → String → Option SessionSummary
client base [] id = base
client base (session_connected s ∷ log) id = upsert s id (client base log id)
client base (session_meta s ∷ log) id = upsert s id (client base log id)
client base (session_update s ∷ log) id = upsert s id (client base log id)
client base (session_disconnected gone ∷ log) id =
    let before = client base log id in if gone == id then Option.map ended before else before

-- A summary without the time of the last activity, which changes with no message.
abbrev pub shown : SessionSummary → SessionSummary
shown s = record s { status = record s.status { last_activity_at_ms = pos 0 } }

-- What the phone shows as connected, the time of the last activity apart.
abbrev pub live : Option SessionSummary → Option SessionSummary
live none = none
live (some s) = if s.connected then some (shown s) else none

pub live-ended : (o : Option SessionSummary) → live (Option.map ended o) ≡ none
live-ended none = refl
live-ended (some s) = refl

module _ {W : Type 0} ⦃watch : Watch W⦄ where
  abbrev pub shown_handle : SessionHandle W → SessionSummary
  shown_handle s = shown (summary s)

  shown-upsert :
      (s : SessionHandle W) (id : String) (a : Option SessionSummary) (b : Option (SessionHandle W))
      → is_connected s ≡ true
      → live a ≡ Option.map shown_handle b
      → live (upsert (summary s) id a)
        ≡ Option.map shown_handle (if s.meta.session_id == id then some s else b)
  unfolding summary is_connected
  shown-upsert s id a b connected h = elim (Bool-cases (s.meta.session_id == id)) [
    | inl here ↦ rw (here, connected) refl
    | inr there ↦ rw there h
  ]

module _ {V W : Type 0} ⦃watch : Watch W⦄ where
  abbrev pub Mirrors : Hub V W → Type 0
  Mirrors hub =
      (id : String) → live (client none hub.control id) ≡ Option.map shown_handle (session id hub)

  -- A registered session is connected.
  pub registered_connected :
      (id : String) (handle : ℕ) (s : SessionHandle W) (hub : Hub V W)
      → IsValid hub
      → get id hub ≡ some handle
      → get_elem? hub.handles handle ≡ some s
      → is_connected s ≡ true
  registered_connected id handle s hub v e f = (subst (IsSession id) f (v.registered id handle e)).1

  live-summary :
      (o : Option ℕ) (id : String) (hub : Hub V W)
      → IsValid hub
      → get id hub ≡ o
      → live (Option.map summary (o >>= get_elem? hub.handles))
        ≡ Option.map shown_handle (o >>= get_elem? hub.handles)
  unfolding summary is_connected
  live-summary none id hub v e = refl
  live-summary (some handle) id hub v e = elim (Option-cases (get_elem? hub.handles handle)) [
    | inl f ↦ rw f refl
    | inr (s, f) ↦ rw (f, registered_connected id handle s hub v e f) refl
  ]

  -- The summary of a registered session shows it as connected.
  pub live-session :
      (id : String) (hub : Hub V W)
      → IsValid hub
      → live (Option.map summary (session id hub)) ≡ Option.map shown_handle (session id hub)
  live-session id hub v = live-summary (get id hub) id hub v refl

  pub control-announce :
      (event : SessionSummary → ControlEvent) (handle : ℕ) (hub : Hub V W) (s : SessionHandle W)
      → get_elem? hub.handles handle ≡ some s
      → (announce event handle hub).control ≡ event (summary s) ∷ hub.control
  unfolding announce
  control-announce event handle hub s e = rw (e, announce)

  pub control-retire : (o : Option ℕ) (hub : Hub V W) → (retire o hub).control ≡ hub.control
  unfolding retire
  control-retire none hub = refl
  control-retire (some old) hub = refl

  control-register :
      (id : String) (link : AgentLink) (meta : SessionMeta) (hub : Hub V W)
      → IsValid hub
      → (register id link meta hub).control
        ≡ session_connected (summary (new {W = W} link meta)) ∷ hub.control
  unfolding register insert_session
  control-register id link meta hub v =
      control-announce session_connected (length hub.handles)
        (retire (get id hub) (insert_session id link meta hub)) (new link meta)
        (sym (
            ap (λ hs. get_elem? hs (length hub.handles))
              (handles-announce session_connected (length hub.handles)
                (retire (get id hub) (insert_session id link meta hub))))
          ∙ new_session id link meta hub v)
      ∙ ap (◌∷◌ (session_connected (summary {W = W} (new link meta))))
          (control-retire (get id hub) (insert_session id link meta hub))

  control-unregister :
      (id : String) (handle : ℕ) (hub : Hub V W)
      → get id hub ≡ some handle
      → (unregister id hub).control ≡ session_disconnected id ∷ hub.control
  unfolding unregister
  control-unregister id handle hub e = rw (e, unregister)

  pub register-Mirrors :
      (link : AgentLink) (meta : SessionMeta) (hub : Hub V W)
      → IsValid hub
      → Mirrors hub
      → Mirrors (register meta.session_id link meta hub)
  unfolding new
  register-Mirrors link meta hub v m id =
      rw
        (
          session-register meta.session_id id link meta hub v,
          control-register meta.session_id link meta hub v,
        )
        (shown-upsert (new link meta) id _ _ (is_connected-new W link meta) (m id))

  unregister_absent : (id : String) (hub : Hub V W) → get id hub ≡ none → unregister id hub ≡ hub
  unfolding unregister
  unregister_absent id hub e = rw (e, unregister)

  pub unregister-Mirrors :
      (id : String) (hub : Hub V W) → IsValid hub → Mirrors hub → Mirrors (unregister id hub)
  unregister-Mirrors id hub v m j = elim (Option-cases (get id hub)) [
    | inl e ↦ subst (λ h. Mirrors h) (sym (unregister_absent id hub e)) m j
    | inr (handle, e) ↦
        rw (session-unregister id j hub v, control-unregister id handle hub e)
          (elim (Bool-cases (id == j)) [
            | inl here ↦ rw here (live-ended _)
            | inr there ↦ rw there (m j)
          ])
  ]

  pub control-publish :
      (id : String) (payload : V) (hub : Hub V W) → (publish id payload hub).control ≡ hub.control
  unfolding publish
  control-publish id payload hub = ground arith

  pub publish-Mirrors :
      (id : String) (payload : V) (hub : Hub V W) → Mirrors hub → Mirrors (publish id payload hub)
  publish-Mirrors id payload hub m j =
      rw (session-publish id j payload hub, control-publish id payload hub) (m j)

  pub session-map :
      (id j : String) (f : SessionHandle W → SessionHandle W) (s : SessionHandle W) (hub : Hub V W)
      → session id hub ≡ some s
      → (if id == j then Option.map f (session j hub) else session j hub)
        ≡ (if id == j then some (f s) else session j hub)
  session-map id j f s hub e = elim (Bool-cases (id == j)) [
    | inl here ↦ rw (here, ← (eq_iff id j).0 here, e)
    | inr there ↦ rw there
  ]

  -- A message about the session `id` that has the summary of its handle after the change.
  pub change-Mirrors :
      (id : String) (f : SessionHandle W → SessionHandle W) (s : SessionHandle W) (hub : Hub V W)
      (j : String) (a : Option SessionSummary)
      → (f s).meta.session_id ≡ id
      → is_connected (f s) ≡ true
      → session id hub ≡ some s
      → live a ≡ Option.map shown_handle (session j hub)
      → live (upsert (summary (f s)) j a)
        ≡ Option.map shown_handle (if id == j then Option.map f (session j hub) else session j hub)
  change-Mirrors id f s hub j a same connected e m =
      subst (λ o. live (upsert (summary (f s)) j a) ≡ Option.map shown_handle o)
        (sym (session-map id j f s hub e))
        (subst
          (λ k.
            live (upsert (summary (f s)) j a)
            ≡ Option.map shown_handle (if k == j then some (f s) else session j hub))
          same (shown-upsert (f s) j a (session j hub) connected m))

module _ {V W : Type 0} ⦃json : Json V⦄ ⦃watch : Watch W⦄ where
  session_id-patched :
      (patch : V) (s : SessionHandle W) → (patched patch s).meta.session_id ≡ s.meta.session_id
  unfolding patch_meta
  session_id-patched patch s = refl

  is_connected-patched :
      (patch : V) (s : SessionHandle W) → is_connected (patched patch s) ≡ is_connected s
  unfolding is_connected
  is_connected-patched patch s = refl

  control-update_meta :
      (id : String) (patch : V) (handle : ℕ) (s : SessionHandle W) (hub : Hub V W)
      → get id hub ≡ some handle
      → get_elem? hub.handles handle ≡ some s
      → (update_meta id patch hub).control ≡ session_meta (summary (patched patch s)) ∷ hub.control
  unfolding update_meta
  control-update_meta id patch handle s hub e f =
      rw (e, update_meta)
        (control-announce session_meta handle _ (patched patch s)
          (get_elem?-modify_self hub.handles handle (patched patch) f))

  update_meta_absent :
      (id : String) (patch : V) (hub : Hub V W) → get id hub ≡ none → update_meta id patch hub ≡ hub
  unfolding update_meta
  update_meta_absent id patch hub e = rw (e, update_meta)

  pub update_meta-Mirrors :
      (id : String) (patch : V) (hub : Hub V W)
      → IsValid hub
      → Mirrors hub
      → Mirrors (update_meta id patch hub)
  update_meta-Mirrors id patch hub v m j = elim (Option-cases (get id hub)) [
    | inl e ↦ subst (λ h. Mirrors h) (sym (update_meta_absent id patch hub e)) m j
    | inr (handle, e) ↦
        let (s, held, named) = session_of_get id handle hub v e in
        rw (session-update_meta id j patch hub v, control-update_meta id patch handle s hub e held)
          (change-Mirrors id (patched patch) s hub j (client none hub.control j)
            (session_id-patched patch s ∙ named)
            (is_connected-patched patch s ∙ registered_connected id handle s hub v e held)
            (rw e held) (m j))
  ]
