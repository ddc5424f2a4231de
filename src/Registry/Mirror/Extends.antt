-- ===== src/Registry/Mirror/Extends.antt =====
-- src/registry.rs: the operations only add messages to the control channel.

use mathlib.Core.List.{append_assoc}
use pi_piper.Prelude.{
  ◌≡◌, refl, sym, ◌∙◌, ap, String, Option, none, some, List, [], ◌∷◌, ◌++◌, Bool-cases,
  Option-cases, inl, inr, arith, ℕ, ℤ, length, get_elem?, unwrap_or,
}
use pi_piper.Json.{Json}
use pi_piper.Watch.{Watch}
use pi_piper.Events.{
  ControlEvent, session_connected, session_meta, session_update, session_disconnected,
}
use pi_piper.Session.{AgentLink, SessionMeta, SessionSummary, SessionHandle, summary}
use pi_piper.Preview.{str_field}
use pi_piper.Status.{is_status_event, status_changed}
use pi_piper.Registry.Updates.{status_of}
use pi_piper.Registry.{
  Hub, get, announce, retire, insert_session, register, unregister, update_meta, publish,
  apply_event, handle_event,
}
use pi_piper.Registry.Mirror.{control-retire, control-publish}
use pi_piper.Registry.Mirror.Run.{
  Op, registers, unregisters, patches, publishes, emits, watch_event, step, run,
}

-- The messages of an operation are put before those that were sent.
abbrev pub Extends {ℓ} : {A : Type ℓ} → List A → List A → Type ℓ
Extends {A} old new = (news : List A) × (new ≡ news ++ old)

pub Extends-trans {ℓ} : {A : Type ℓ} {a b c : List A} → Extends a b → Extends b c → Extends a c
Extends-trans (m, e) (n, f) = (n ++ m, f ∙ ap (λ l. n ++ l) e ∙ sym (append_assoc n m _))

module _ {W : Type 0} ⦃watch : Watch W⦄ where
  abbrev announced : (SessionSummary → ControlEvent) → Option (SessionHandle W) → List ControlEvent
  announced event none = []
  announced event (some s) = event (summary s) ∷ []

module _ {V W : Type 0} ⦃watch : Watch W⦄ where
  announce-Extends :
      (event : SessionSummary → ControlEvent) (handle : ℕ) (hub : Hub V W)
      → Extends hub.control (announce event handle hub).control
  unfolding announce
  announce-Extends event handle hub = (announced event (get_elem? hub.handles handle), ground arith)

  register-Extends :
      (id : String) (link : AgentLink) (meta : SessionMeta) (hub : Hub V W)
      → Extends hub.control (register id link meta hub).control
  unfolding register insert_session
  register-Extends id link meta hub =
      let inserted = retire (get id hub) (insert_session id link meta hub) in
      let (news, e) = announce-Extends session_connected (length hub.handles) inserted in
      (
        news,
        e ∙ ap (λ l. news ++ l) (control-retire (get id hub) (insert_session id link meta hub)),
      )

  unregister-Extends :
      (id : String) (hub : Hub V W) → Extends hub.control (unregister id hub).control
  unfolding unregister
  unregister-Extends id hub = elim (Option-cases (get id hub)) [
    | inl e ↦ ([], rw (e, unregister))
    | inr (handle, e) ↦ (session_disconnected id ∷ [], rw (e, unregister))
  ]

module _ {V W : Type 0} ⦃json : Json V⦄ ⦃watch : Watch W⦄ where
  update_meta-Extends :
      (id : String) (patch : V) (hub : Hub V W)
      → Extends hub.control (update_meta id patch hub).control
  unfolding update_meta
  update_meta-Extends id patch hub = elim (Option-cases (get id hub)) [
    | inl e ↦ ([], rw (e, update_meta))
    | inr (handle, e) ↦ rw (e, update_meta) (announce-Extends session_meta handle _)
  ]

  apply_event-Extends :
      (ty : String) (now : ℤ) (handle : ℕ) (event : V) (s : SessionHandle W) (hub : Hub V W)
      → Extends hub.control (apply_event ty now handle event s hub).control
  unfolding apply_event
  apply_event-Extends ty now handle event s hub =
      elim (Bool-cases (status_changed s.status (status_of ty now event s))) [
        | inl c ↦ rw (c, apply_event) (announce-Extends session_update handle _)
        | inr c ↦ ([], rw (c, apply_event))
      ]

  handle_event-Extends :
      (handle : ℕ) (now : ℤ) (event : V) (hub : Hub V W)
      → Extends hub.control (handle_event handle now event hub).control
  unfolding handle_event
  handle_event-Extends handle now event hub =
      elim (Bool-cases (is_status_event (unwrap_or (str_field event "type") ""))) [
        | inr e ↦ ([], rw e)
        | inl e ↦ elim (Option-cases (get_elem? hub.handles handle)) [
          | inl gone ↦ ([], rw (e, gone))
          | inr (s, held) ↦ rw (e, held) (apply_event-Extends _ now handle event s hub)
        ]
      ]

  watch_event-Extends :
      (o : Option ℕ) (now : ℤ) (event : V) (hub : Hub V W)
      → Extends hub.control (watch_event o now event hub).control
  unfolding watch_event
  watch_event-Extends none now event hub = ([], refl)
  watch_event-Extends (some handle) now event hub = handle_event-Extends handle now event hub

  pub step-Extends : (op : Op V) (hub : Hub V W) → Extends hub.control (step op hub).control
  unfolding step publish
  step-Extends (registers link meta) hub = register-Extends meta.session_id link meta hub
  step-Extends (unregisters id) hub = unregister-Extends id hub
  step-Extends (patches id patch) hub = update_meta-Extends id patch hub
  step-Extends (publishes id payload) hub = ([], control-publish id payload hub)
  step-Extends (emits id now event) hub = watch_event-Extends (get id hub) now event hub

  pub run-Extends : (ops : List (Op V)) (hub : Hub V W) → Extends hub.control (run ops hub).control
  unfolding run
  run-Extends [] hub = ([], refl)
  run-Extends (op ∷ ops) hub = Extends-trans (step-Extends op hub) (run-Extends ops (step op hub))
