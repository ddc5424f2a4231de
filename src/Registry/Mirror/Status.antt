-- ===== src/Registry/Mirror/Status.antt =====
-- src/registry.rs: `handle_event`, seen by a phone that follows the control channel.
use mathlib.Core.Option
use pi_piper.Prelude.{
  ℕ, ℤ, ◌≡◌, refl, sym, ◌∙◌, ap, String, true, false, none, some, ◌∷◌, ◌==◌, eq_iff, get_elem?,
  Bool-cases, inl, inr, if◌then◌else◌, unwrap_or, get_elem?-modify_self,
}
use pi_piper.Json.{Json}
use pi_piper.Watch.{Watch}
use pi_piper.Events.{session_update}
use pi_piper.Session.{SessionStatus, SessionHandle, summary, is_connected}
use pi_piper.Preview.{str_field}
use pi_piper.Status.{is_status_event, status_changed}
use pi_piper.Status.Laws.{status_unchanged_iff}
use pi_piper.Registry.{Hub, get, session, apply_event, handle_event}
use pi_piper.Registry.Invariant.{IsValid}
use pi_piper.Registry.Updates.{with_status, status_of}
use pi_piper.Registry.Lookup.{session-apply_event, session_of_get}
use pi_piper.Registry.Mirror.{
  client, shown_handle, Mirrors, control-announce, change-Mirrors, registered_connected,
}

module _ {W : Type 0} ⦃watch : Watch W⦄ where
  -- A status that differs in the time alone shows no difference.
  shown-with_status :
      (status : SessionStatus) (s : SessionHandle W)
      → status_changed s.status status ≡ false
      → shown_handle (with_status status s) ≡ shown_handle s
  unfolding summary is_connected
  shown-with_status status s h =
      let (streaming, preview) = (status_unchanged_iff s.status status).0 h in
      rw (streaming, preview)

  is_connected-with_status :
      (status : SessionStatus) (s : SessionHandle W)
      → is_connected (with_status status s) ≡ is_connected s
  unfolding is_connected
  is_connected-with_status status s = refl

module _ {V W : Type 0} ⦃watch : Watch W⦄ where
  unchanged-map :
      (id j : String) (f : SessionHandle W → SessionHandle W) (s : SessionHandle W) (hub : Hub V W)
      → session id hub ≡ some s
      → shown_handle (f s) ≡ shown_handle s
      → Option.map shown_handle (session j hub)
        ≡ Option.map shown_handle (if id == j then Option.map f (session j hub) else session j hub)
  unchanged-map id j f s hub e same = elim (Bool-cases (id == j)) [
    | inl here ↦ rw (here, ← (eq_iff id j).0 here, e) (ap some (sym same))
    | inr there ↦ rw there
  ]

module _ {V W : Type 0} ⦃json : Json V⦄ ⦃watch : Watch W⦄ where
  module _ (id ty : String) (now : ℤ) (handle : ℕ) (event : V) (s : SessionHandle W)
      (hub : Hub V W) where
    abbrev next : SessionStatus
    next = status_of ty now event s

    pub control_changed :
        status_changed s.status next ≡ true
        → get_elem? hub.handles handle ≡ some s
        → (apply_event ty now handle event s hub).control
          ≡ session_update (summary (with_status next s)) ∷ hub.control
    unfolding apply_event
    control_changed c held =
        rw (c, apply_event)
          (control-announce session_update handle _ (with_status next s)
            (get_elem?-modify_self hub.handles handle (with_status next) held))

    control_unchanged :
        status_changed s.status next ≡ false
        → (apply_event ty now handle event s hub).control ≡ hub.control
    unfolding apply_event
    control_unchanged c = rw (c, apply_event)

    apply_event-Mirrors :
        IsValid hub
        → get id hub ≡ some handle
        → get_elem? hub.handles handle ≡ some s
        → s.meta.session_id ≡ id
        → Mirrors hub
        → Mirrors (apply_event ty now handle event s hub)
    apply_event-Mirrors v e held named m j = elim (Bool-cases (status_changed s.status next)) [
      | inl c ↦
          rw (session-apply_event id j ty now handle event s hub v e, control_changed c held)
            (change-Mirrors id (with_status next) s hub j (client none hub.control j) named
              (is_connected-with_status next s ∙ registered_connected id handle s hub v e held)
              (rw e held) (m j))
      | inr c ↦
          rw (session-apply_event id j ty now handle event s hub v e, control_unchanged c)
            (m j
              ∙ unchanged-map id j (with_status next) s hub (rw e held)
                  (shown-with_status next s c))
    ]

  -- An event of a registered session, whether it is one that the watcher skips or not.
  pub handle_event-Mirrors :
      (id : String) (handle : ℕ) (now : ℤ) (event : V) (hub : Hub V W)
      → IsValid hub
      → get id hub ≡ some handle
      → Mirrors hub
      → Mirrors (handle_event handle now event hub)
  unfolding handle_event
  handle_event-Mirrors id handle now event hub v e m =
      let (s, held, named) = session_of_get id handle hub v e in
      let ty = unwrap_or (str_field event "type") "" in
      elim (Bool-cases (is_status_event ty)) [
        | inr skipped ↦ rw skipped m
        | inl seen ↦
            rw (seen, held) (apply_event-Mirrors id ty now handle event s hub v e held named m)
      ]
