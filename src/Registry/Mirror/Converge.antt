-- ===== src/Registry/Mirror/Converge.antt =====
-- src/server/control.rs: the list of a phone and the messages since its subscription, some of which the
-- list already reflects.
use mathlib.Core.Option
use mathlib.Core.Option.{map-map}
use mathlib.Core.List.{append_assoc}
use pi_piper.Prelude.{
  ◌≡◌, refl, sym, ◌∙◌, ap, String, Option, none, List, [], ◌∷◌, ◌++◌, ◌==◌, Bool-cases, inl, inr,
  if◌then◌else◌,
}
use pi_piper.Json.{Json}
use pi_piper.Watch.{Watch}
use pi_piper.Events.{
  ControlEvent, session_connected, session_meta, session_update, session_disconnected,
}
use pi_piper.Session.{SessionSummary}
use pi_piper.Registry.{Hub, empty, session, list}
use pi_piper.Registry.Mirror.{client, upsert, ended, live, live-ended, live-session, shown_handle}
use pi_piper.Registry.Mirror.Run.{Op, run, IsSound, run-IsSound, empty-IsSound}
use pi_piper.Registry.Mirror.Snapshot.{snapshot_at, snapshot_at-list}
use pi_piper.Registry.Mirror.Extends.{Extends, run-Extends}

module _ (id : String) where
  pub client-append :
      (base : Option SessionSummary) (xs ys : List ControlEvent)
      → client base (xs ++ ys) id ≡ client (client base ys id) xs id
  client-append base [] ys = refl
  client-append base (session_connected s ∷ xs) ys = ap (upsert s id) (client-append base xs ys)
  client-append base (session_meta s ∷ xs) ys = ap (upsert s id) (client-append base xs ys)
  client-append base (session_update s ∷ xs) ys = ap (upsert s id) (client-append base xs ys)
  client-append base (session_disconnected gone ∷ xs) ys =
      ap (λ o. if gone == id then Option.map ended o else o) (client-append base xs ys)

  upsert-live :
      (s : SessionSummary) (a b : Option SessionSummary)
      → live a ≡ live b
      → live (upsert s id a) ≡ live (upsert s id b)
  upsert-live s a b h = elim (Bool-cases (s.meta.session_id == id)) [
    | inl here ↦ rw here refl
    | inr there ↦ rw there h
  ]

  ends-live :
      (gone : String) (a b : Option SessionSummary)
      → live a ≡ live b
      → live (if gone == id then Option.map ended a else a)
        ≡ live (if gone == id then Option.map ended b else b)
  ends-live gone a b h = elim (Bool-cases (gone == id)) [
    | inl here ↦ rw here (live-ended a ∙ sym (live-ended b))
    | inr there ↦ rw there h
  ]

  client-live :
      (a b : Option SessionSummary) (xs : List ControlEvent)
      → live a ≡ live b
      → live (client a xs id) ≡ live (client b xs id)
  client-live a b [] h = h
  client-live a b (session_connected s ∷ xs) h = upsert-live s _ _ (client-live a b xs h)
  client-live a b (session_meta s ∷ xs) h = upsert-live s _ _ (client-live a b xs h)
  client-live a b (session_update s ∷ xs) h = upsert-live s _ _ (client-live a b xs h)
  client-live a b (session_disconnected gone ∷ xs) h = ends-live gone _ _ (client-live a b xs h)

  upsert_twice :
      (s : SessionSummary) (xs : List ControlEvent) (o : Option SessionSummary)
      → live (client o xs id) ≡ live o
      → live (upsert s id (client (upsert s id o) xs id)) ≡ live (upsert s id o)
  upsert_twice s xs o h = elim (Bool-cases (s.meta.session_id == id)) [
    | inl here ↦ rw here refl
    | inr there ↦ rw there h
  ]

  ends_twice :
      (gone : String) (xs : List ControlEvent) (o : Option SessionSummary)
      → live (client o xs id) ≡ live o
      → let after = if gone == id then Option.map ended o else o in
        let again = client after xs id in
        live (if gone == id then Option.map ended again else again) ≡ live after
  ends_twice gone xs o h = elim (Bool-cases (gone == id)) [
    | inl here ↦ rw here (live-ended _ ∙ sym (live-ended o))
    | inr there ↦ rw there h
  ]

  -- Messages that are applied a second time change nothing.
  client_twice :
      (base : Option SessionSummary) (xs : List ControlEvent)
      → live (client (client base xs id) xs id) ≡ live (client base xs id)
  client_twice base [] = refl
  client_twice base (session_connected s ∷ xs) = upsert_twice s xs _ (client_twice base xs)
  client_twice base (session_meta s ∷ xs) = upsert_twice s xs _ (client_twice base xs)
  client_twice base (session_update s ∷ xs) = upsert_twice s xs _ (client_twice base xs)
  client_twice base (session_disconnected gone ∷ xs) = ends_twice gone xs _ (client_twice base xs)

  -- A list that says what the messages `mid` had said by then, and those messages again.
  replay_twice :
      (base c : Option SessionSummary) (mid later : List ControlEvent)
      → live base ≡ live (client c mid id)
      → live (client base (later ++ mid) id) ≡ live (client (client c mid id) later id)
  replay_twice base c mid later h =
      ap live (client-append base later mid)
      ∙ client-live (client base mid id) (client c mid id) later
          (client-live base (client c mid id) mid h ∙ client_twice c mid)

  -- What the messages of a longer list come to.
  client_of_append :
      (c : Option SessionSummary) (old mid later log log' : List ControlEvent)
      → log ≡ mid ++ old
      → log' ≡ later ++ log
      → client c log' id ≡ client (client (client c old id) mid id) later id
  client_of_append c old mid later log log' e f =
      ap (λ l. client c l id) f
      ∙ client-append c later log
      ∙ ap (λ o. client o later id) (ap (λ l. client c l id) e ∙ client-append c mid old)

module _ {V W : Type 0} ⦃watch : Watch W⦄ where
  -- From any sound registry at the time of the subscription, through any at the time of the list.
  pub converge :
      (id : String) (subscribed listed hub : Hub V W)
      → IsSound listed
      → IsSound hub
      → Extends subscribed.control listed.control
      → Extends listed.control hub.control
      → (news : List ControlEvent) × (hub.control ≡ news ++ subscribed.control)
        × (live (client (snapshot_at id (list listed)) news id)
            ≡ Option.map shown_handle (session id hub))
  converge id subscribed listed hub sound sound' (mid, e) (later, f) =
      let before = client none subscribed.control id in
      let base =
        ap live (snapshot_at-list id listed sound.valid)
        ∙ live-session id listed sound.valid
        ∙ sym (sound.mirrors id)
        ∙ ap (λ l. live (client none l id)) e
        ∙ ap live (client-append id none mid subscribed.control) in
      (
        later ++ mid,
        f ∙ ap (λ l. later ++ l) e ∙ sym (append_assoc later mid subscribed.control),
        replay_twice id (snapshot_at id (list listed)) before mid later base
            ∙ sym (
                ap live (
                  client_of_append id none subscribed.control mid later listed.control hub.control e
                    f))
            ∙ sound'.mirrors id,
      )

module _ {V : Type 0} (W : Type 0) ⦃json : Json V⦄ ⦃watch : Watch W⦄ where
  -- Whenever a phone subscribes, whenever after that it is sent the list, and whatever
  -- registrations, removals, patches, publications and status events of registered sessions happen
  -- before, between and after, each run to its end with its announcement before the next one starts,
  -- from the empty registry: once the phone has put every message since the subscription on top of
  -- the list, where the sessions that have ended stay and are marked as not connected, what it shows
  -- as connected under each session id is what is registered under it, the time of the last activity
  -- apart.
  pub snapshot_converges :
      (before between after : List (Op V)) (id : String)
      → let subscribed = run {W = W} before empty in
        let listed = run between subscribed in
        let hub = run after listed in
        (news : List ControlEvent) × (hub.control ≡ news ++ subscribed.control)
        × (live (client (snapshot_at id (list listed)) news id)
            ≡ Option.map shown_handle (session id hub))
  snapshot_converges before between after id =
      let subscribed = run {W = W} before empty in
      let listed = run between subscribed in
      let sound = run-IsSound between subscribed (run-IsSound before empty empty-IsSound) in
      converge id subscribed listed (run after listed) sound (run-IsSound after listed sound)
        (run-Extends between subscribed) (run-Extends after listed)
