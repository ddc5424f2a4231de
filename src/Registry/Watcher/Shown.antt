-- ===== src/Registry/Watcher/Shown.antt =====
-- src/registry.rs: what the watcher of a session makes of its events.
use mathlib.Core.Option
use mathlib.Core.Option.{map-map}
use pi_piper.Prelude.{
  ℕ, ℤ, String, ◌≡◌, refl, sym, ap, ◌∙◌, Bool, true, false, Option, none, some, List, [], ◌∷◌, ◌==◌,
  get_elem?, eq_iff, or_else, unwrap_or, if◌then◌else◌, Bool-cases, Option-cases, inl, inr, arith,
}
use pi_piper.Json.{Json}
use pi_piper.Watch.{Watch}
use pi_piper.Session.{SessionHandle, SessionStatus, connected_rx, drop_connected_rx}
use pi_piper.Preview.{str_field, extract_preview}
use pi_piper.Status.{is_status_event, next_status}
use pi_piper.Registry.{Hub, update_handle, handle_event, apply_event}
use pi_piper.Registry.Lookup.{get_elem?-map}
use pi_piper.Registry.Updates.{handles-apply_event}
use pi_piper.Registry.Watcher.{
  Signal, changed_err, changed_ok, received, lagged, closed, watch_loop, watch_status,
}

-- The events that the loop handles: those received before it ends.
abbrev pub heeded : {V W : Type 0} → List ((Hub V W → Hub V W) × ℤ × Signal V) → List V
heeded [] = []
heeded ((others, now, changed_err) ∷ rest) = []
heeded ((others, now, changed_ok true) ∷ rest) = heeded rest
heeded ((others, now, changed_ok false) ∷ rest) = []
heeded ((others, now, received event) ∷ rest) = event ∷ heeded rest
heeded ((others, now, lagged) ∷ rest) = heeded rest
heeded ((others, now, closed) ∷ rest) = []

-- What the last event that says something says.
abbrev pub last_of : {V A : Type 0} → (V → Option A) → List V → Option A
last_of f [] = none
last_of f (e ∷ rest) = or_else (last_of f rest) (f e)

module _ {V : Type 0} ⦃json : Json V⦄ where
  abbrev pub type_of : V → String
  type_of event = unwrap_or (str_field event "type") ""

  -- An event that begins or ends a turn of the agent, and one that has a preview.
  abbrev pub streaming_of : V → Option Bool
  streaming_of event =
      if type_of event == "agent_start"
      then some true
      else if type_of event == "agent_settled"
      then some false
      else none

  abbrev pub preview_of : V → Option String
  preview_of event = if type_of event == "message_end" then extract_preview event else none

  -- What the list screen shows of a status, after events.
  abbrev pub after_events : List V → Bool × Option String → Bool × Option String
  after_events events (streaming, preview) = (
    unwrap_or (last_of streaming_of events) streaming,
    or_else (last_of preview_of events) preview,
  )

-- What the list screen shows of a status.
abbrev pub shown_status : SessionStatus → Bool × Option String
shown_status status = (status.is_streaming, status.last_preview)

module _ {V W : Type 0} where
  -- The same of the handle.
  abbrev pub shown_at : ℕ → Hub V W → Option (Bool × Option String)
  shown_at handle hub = Option.map (λ s. shown_status s.status) (get_elem? hub.handles handle)

  -- Between the turns of the watcher no other task changes the status of the handle.
  abbrev pub IsUndisturbed : ℕ → List ((Hub V W → Hub V W) × ℤ × Signal V) → Type 0
  IsUndisturbed handle [] = Unit
  IsUndisturbed handle ((others, now, signal) ∷ rest) =
      ((hub : Hub V W) (shown : Bool × Option String)
        → shown_at handle hub ≡ some shown
        → shown_at handle (others hub) ≡ some shown)
      × IsUndisturbed handle rest

  shown_at-modify :
      (handle : ℕ) (f : SessionHandle W → SessionHandle W) (hub : Hub V W)
      → ((s : SessionHandle W) → (f s).status ≡ s.status)
      → shown_at handle (update_handle handle f hub) ≡ shown_at handle hub
  shown_at-modify handle f hub keep =
      ap (Option.map (λ (s : SessionHandle W). shown_status s.status))
        (get_elem?-map hub.handles handle f)
      ∙ same (get_elem? hub.handles handle)
    where
      same :
          (o : Option (SessionHandle W))
          → Option.map (λ (s : SessionHandle W). shown_status s.status) (Option.map f o)
            ≡ Option.map (λ (s : SessionHandle W). shown_status s.status) o
      same none = refl
      same (some s) = ap (λ st. some (shown_status st)) (keep s)

unwrap_or-or_else {ℓ} :
    {A : Type ℓ} (o p : Option A) (d : A) → unwrap_or (or_else o p) d ≡ unwrap_or o (unwrap_or p d)
unwrap_or-or_else none p d = refl
unwrap_or-or_else (some a) p d = refl

or_else_assoc {ℓ} :
    {A : Type ℓ} (o p d : Option A) → or_else (or_else o p) d ≡ or_else o (or_else p d)
or_else_assoc none p d = refl
or_else_assoc (some a) p d = refl

module _ {V : Type 0} ⦃json : Json V⦄ where
  after_events-cons :
      (event : V) (rest : List V) (o : Option (Bool × Option String))
      → Option.map (after_events rest) (Option.map (after_events (event ∷ [])) o)
        ≡ Option.map (after_events (event ∷ rest)) o
  after_events-cons event rest none = refl
  after_events-cons event rest (some (b, p)) = rw (
    unwrap_or-or_else (last_of streaming_of rest) (streaming_of event) b,
    or_else_assoc (last_of preview_of rest) (preview_of event) p,
  )

  -- An event that is no status event says nothing.
  after_other :
      (event : V) (o : Option (Bool × Option String))
      → is_status_event (type_of event) ≡ false
      → Option.map (after_events (event ∷ [])) o ≡ o
  unfolding is_status_event
  after_other event none h = refl
  after_other event (some (b, p)) h = ground (arith, h)

  shown_next :
      (ty : String) (event : V) (status : SessionStatus)
      → shown_status (next_status ty event status) ≡ (
        unwrap_or
            (if ty == "agent_start"
              then some true
              else if ty == "agent_settled"
              then some false
              else none)
            status.is_streaming,
        or_else (if ty == "message_end" then extract_preview event else none) status.last_preview,
      )
  unfolding next_status
  shown_next ty event status = elim (Bool-cases (ty == "agent_start")) [
    | inl e ↦ rw ((eq_iff ty "agent_start").0 e)
    | inr e ↦ elim (Bool-cases (ty == "agent_settled")) [
      | inl f ↦ rw ((eq_iff ty "agent_settled").0 f)
      | inr f ↦ elim (Bool-cases (ty == "message_end")) [
        | inl g ↦ rw (e, f, g)
        | inr g ↦ rw (e, f, g)
      ]
    ]
  ]

module _ {V W : Type 0} ⦃json : Json V⦄ ⦃watch : Watch W⦄ where
  shown_at-apply_event :
      (handle : ℕ) (now : ℤ) (event : V) (s : SessionHandle W) (hub : Hub V W)
      → get_elem? hub.handles handle ≡ some s
      → shown_at handle (apply_event (type_of event) now handle event s hub)
        ≡ some (after_events (event ∷ []) (shown_status s.status))
  shown_at-apply_event handle now event s hub e =
      rw
        (
          handles-apply_event (type_of event) now handle event s hub,
          get_elem?-map hub.handles handle,
          e,
        )
        (ap some (shown_next (type_of event) event (record s.status { last_activity_at_ms = now })))

  shown_at-handle_event :
      (handle : ℕ) (now : ℤ) (event : V) (hub : Hub V W)
      → shown_at handle (handle_event handle now event hub)
        ≡ Option.map (after_events (event ∷ [])) (shown_at handle hub)
  unfolding handle_event
  shown_at-handle_event handle now event hub = elim (Bool-cases (is_status_event (type_of event))) [
    | inr e ↦ rw e (sym (after_other event (shown_at handle hub) e))
    | inl e ↦ elim (Option-cases (get_elem? hub.handles handle)) [
      | inl gone ↦
          rw (e, gone) (ap (Option.map (λ (s : SessionHandle W). shown_status s.status)) gone)
      | inr (s, found) ↦ rw (e, found) (shown_at-apply_event handle now event s hub found)
    ]
  ]

  shown_at-watch_loop :
      (handle : ℕ) (turns : List ((Hub V W → Hub V W) × ℤ × Signal V)) (hub : Hub V W)
      (shown : Bool × Option String)
      → IsUndisturbed handle turns
      → shown_at handle hub ≡ some shown
      → shown_at handle (watch_loop handle turns hub).0 ≡ some (after_events (heeded turns) shown)
  unfolding watch_loop
  shown_at-watch_loop handle [] hub shown h e = e
  shown_at-watch_loop handle ((others, now, changed_err) ∷ rest) hub shown h e = h.0 hub shown e
  shown_at-watch_loop handle ((others, now, changed_ok true) ∷ rest) hub shown h e =
      shown_at-watch_loop handle rest (others hub) shown h.1 (h.0 hub shown e)
  shown_at-watch_loop handle ((others, now, changed_ok false) ∷ rest) hub shown h e =
      h.0 hub shown e
  shown_at-watch_loop handle ((others, now, received event) ∷ rest) hub shown h e =
      shown_at-watch_loop handle rest (handle_event handle now event (others hub)) _ h.1 (
        shown_at-handle_event handle now event (others hub)
        ∙ ap (Option.map (after_events (event ∷ []))) (h.0 hub shown e))
      ∙ after_events-cons event (heeded rest) (some shown)
  shown_at-watch_loop handle ((others, now, lagged) ∷ rest) hub shown h e =
      shown_at-watch_loop handle rest (others hub) shown h.1 (h.0 hub shown e)
  shown_at-watch_loop handle ((others, now, closed) ∷ rest) hub shown h e = h.0 hub shown e

  -- Where no other task changes the streaming flag or the preview of the handle between the turns of
  -- its watcher: after a run of the watcher the flag is what the last of the handled events that
  -- begins or ends a turn of the agent says, and the preview is that of the last `message_end` that
  -- has one, and each is as before if no event says anything; the handled events are those received
  -- before the watcher ends.
  pub shown_at-watch_status :
      (handle : ℕ) (turns : List ((Hub V W → Hub V W) × ℤ × Signal V)) (hub : Hub V W)
      (shown : Bool × Option String)
      → IsUndisturbed handle turns
      → shown_at handle hub ≡ some shown
      → shown_at handle (watch_status handle turns hub) ≡ some (after_events (heeded turns) shown)
  unfolding watch_status connected_rx drop_connected_rx
  shown_at-watch_status handle turns hub shown h e =
      let subscribed = update_handle handle connected_rx hub in
      let looped =
        shown_at-watch_loop handle turns subscribed shown h
          (shown_at-modify handle connected_rx hub (λ s. refl) ∙ e) in
      elim (Bool-cases (watch_loop handle turns subscribed).1) [
        | inl ended ↦ rw ended (
            shown_at-modify handle drop_connected_rx (watch_loop handle turns subscribed).0
              (λ s. refl)
            ∙ looped)
        | inr ended ↦ rw ended looped
      ]
