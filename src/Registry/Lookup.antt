-- ===== src/Registry/Lookup.antt =====
-- src/registry.rs: what a lookup returns after each operation of the registry.
use mathlib.Core.Option
use mathlib.Core.Option.{some-injective}
use pi_piper.Prelude.{
  ℕ, ℤ, zero, suc, ◌≡◌, ◌≢◌, refl, sym, ◌∙◌, subst, ap, String, Option, none, some, List, [], ◌∷◌,
  arith, ◌==◌, eq_iff, eq_refl, length, get_elem?, modify, Bool-cases, Option-cases, inl, inr,
  if◌then◌else◌, ◌>>=◌, get_elem?-modify_ne, get_elem?-append_lt, get_elem?-append_length,
}
use pi_piper.Json.{Json}
use pi_piper.Watch.{Watch}
use pi_piper.Session.{AgentLink, SessionMeta, SessionHandle, new, mark_disconnected}
use pi_piper.Registry.{Hub, get, session, register, unregister, update_meta, publish, apply_event}
use pi_piper.Registry.Invariant.{
  IsSession, IsValid, sessions-announce, handles-announce, get-lt, get-register, get-unregister,
  handles-register, handles-unregister, handle_unique, retired,
}
use pi_piper.Events.{session_meta}
use pi_piper.Registry.Updates.{
  patched, with_status, status_of, sessions-publish, handles-publish, sessions-apply_event,
  handles-apply_event,
}

module _ {W : Type 0} ⦃watch : Watch W⦄ where
  get_elem?-retired :
      (o : Option ℕ) (handles : List (SessionHandle W)) (handle : ℕ)
      → o ≢ some handle
      → get_elem? (retired o handles) handle ≡ get_elem? handles handle
  get_elem?-retired none handles handle other = refl
  get_elem?-retired (some old) handles handle other =
      get_elem?-modify_ne handles old handle mark_disconnected (λ e. other (ap some e))

pub get_elem?-map {ℓ} :
    {A : Type ℓ} (xs : List A) (i : ℕ) (f : A → A)
    → get_elem? (modify xs i f) i ≡ Option.map f (get_elem? xs i)
get_elem?-map [] i f = refl
get_elem?-map (x ∷ xs) zero f = refl
get_elem?-map (x ∷ xs) (suc i) f = get_elem?-map xs i f

module _ {W : Type 0} ⦃watch : Watch W⦄ where
  found :
      (id : String) (o : Option (SessionHandle W)) {p : Option (SessionHandle W)}
      → p ≡ o
      → IsSession id p
      → (s : SessionHandle W) × (p ≡ some s) × (s.meta.session_id ≡ id)
  found id none e h = absurd (subst (IsSession id) e h)
  found id (some s) e h = (s, e, (subst (IsSession id) e h).0)

module _ {V W : Type 0} ⦃watch : Watch W⦄ where
  get_of_sessions :
      (j : String) (hub hub' : Hub V W) → hub'.sessions ≡ hub.sessions → get j hub' ≡ get j hub
  unfolding get
  get_of_sessions j hub hub' s = rw s

  pub new_session :
      (id : String) (link : AgentLink) (meta : SessionMeta) (hub : Hub V W)
      → IsValid hub
      → get_elem? (register id link meta hub).handles (length hub.handles) ≡ some (new link meta)
  new_session id link meta hub v = rw handles-register (
      get_elem?-retired (get id hub) _ (length hub.handles)
        (λ e. absurd (omega (arith, get-lt hub id (length hub.handles) v e)))
      ∙ get_elem?-append_length hub.handles (new link meta))

  other_session :
      (id j : String) (link : AgentLink) (meta : SessionMeta) (hub : Hub V W)
      → id ≢ j
      → IsValid hub
      → (o : Option ℕ) → get j hub ≡ o
      → (o >>= get_elem? (register id link meta hub).handles) ≡ (o >>= get_elem? hub.handles)
  other_session id j link meta hub other v none e = refl
  other_session id j link meta hub other v (some handle) e = rw handles-register (
      get_elem?-retired (get id hub) _ handle
        (λ same. other (handle_unique hub id j handle v same e))
      ∙ get_elem?-append_lt hub.handles (new link meta ∷ []) handle (get-lt hub j handle v e))

  -- In a valid registry, a registration puts a fresh handle with the given link and metadata under
  -- its id, also where the id was registered before, and leaves every other session alone.
  pub session-register :
      (id j : String) (link : AgentLink) (meta : SessionMeta) (hub : Hub V W)
      → IsValid hub
      → session j (register id link meta hub)
        ≡ (if id == j then some (new link meta) else session j hub)
  session-register id j link meta hub v = elim (Bool-cases (id == j)) [
    | inl here ↦ rw (get-register id j link meta hub, here) (new_session id link meta hub v)
    | inr there ↦
        rw (get-register id j link meta hub, there)
          (other_session id j link meta hub (λ p. cc (there, (eq_iff id j).1 p)) v (get j hub) refl)
  ]

  unregistered_session :
      (id j : String) (hub : Hub V W)
      → id ≢ j
      → IsValid hub
      → (o : Option ℕ) → get j hub ≡ o
      → (o >>= get_elem? (unregister id hub).handles) ≡ (o >>= get_elem? hub.handles)
  unregistered_session id j hub other v none e = refl
  unregistered_session id j hub other v (some handle) e = rw handles-unregister (
      get_elem?-retired (get id hub) hub.handles handle
        (λ same. other (handle_unique hub id j handle v same e)))

  -- In a valid registry, a removal takes away the session under its id, if there is one, and leaves
  -- every other session alone.
  pub session-unregister :
      (id j : String) (hub : Hub V W)
      → IsValid hub
      → session j (unregister id hub) ≡ (if id == j then none else session j hub)
  session-unregister id j hub v = elim (Bool-cases (id == j)) [
    | inl here ↦ rw (get-unregister id j hub v.distinct, here)
    | inr there ↦
        rw (get-unregister id j hub v.distinct, there)
          (unregistered_session id j hub (λ p. cc (there, (eq_iff id j).1 p)) v (get j hub) refl)
  ]

  modified :
      (id j : String) (f : SessionHandle W → SessionHandle W) (handle : ℕ) (hub : Hub V W)
      → IsValid hub
      → get id hub ≡ some handle
      → (o : Option ℕ) → get j hub ≡ o
      → (o >>= get_elem? (modify hub.handles handle f)) ≡ (
          if id == j
          then Option.map f (o >>= get_elem? hub.handles)
          else o >>= get_elem? hub.handles)
  modified id j f handle hub v e none g = ground arith
  modified id j f handle hub v e (some i) g = elim (Bool-cases (id == j)) [
    | inl here ↦
        rw (here, ← some-injective _ _ (sym e ∙ ap (λ k. get k hub) ((eq_iff id j).0 here) ∙ g))
          (get_elem?-map hub.handles handle f)
    | inr there ↦ rw there (
        get_elem?-modify_ne hub.handles handle i f
          (λ p. cc (there, eq_refl id, handle_unique hub id j handle v e (g ∙ ap some (sym p)))))
  ]

  unregistered_map :
      (id j : String) (f : SessionHandle W → SessionHandle W) (hub : Hub V W)
      → get id hub ≡ none
      → session j hub ≡ (if id == j then Option.map f (session j hub) else session j hub)
  unregistered_map id j f hub e = elim (Bool-cases (id == j)) [
    | inl here ↦ rw (here, ap (λ k. get k hub) (sym ((eq_iff id j).0 here)) ∙ e)
    | inr there ↦ rw there
  ]

  -- A change of the handle that is registered under `id` is a change of the session `id` alone.
  pub session-modify :
      (id j : String) (f : SessionHandle W → SessionHandle W) (handle : ℕ) (hub hub' : Hub V W)
      → IsValid hub
      → get id hub ≡ some handle
      → hub'.sessions ≡ hub.sessions
      → hub'.handles ≡ modify hub.handles handle f
      → session j hub' ≡ (if id == j then Option.map f (session j hub) else session j hub)
  session-modify id j f handle hub hub' v e s h =
      rw (get_of_sessions j hub hub' s) (rw h (modified id j f handle hub v e (get j hub) refl))

  -- The handle behind a registered id is in the arena.
  pub session_of_get :
      (id : String) (handle : ℕ) (hub : Hub V W)
      → IsValid hub
      → get id hub ≡ some handle
      → (s : SessionHandle W) × (get_elem? hub.handles handle ≡ some s) × (s.meta.session_id ≡ id)
  session_of_get id handle hub v e = found id _ refl (v.registered id handle e)

  -- Publishing to a session changes no session.
  pub session-publish :
      (id j : String) (payload : V) (hub : Hub V W)
      → session j (publish id payload hub) ≡ session j hub
  session-publish id j payload hub =
      rw (get_of_sessions j hub (publish id payload hub) (sessions-publish id payload hub))
        (rw handles-publish)

module _ {V W : Type 0} ⦃json : Json V⦄ ⦃watch : Watch W⦄ where
  -- In a valid registry, a patch of an id changes the metadata of the session under it by
  -- `patch_meta`, if there is one, and leaves every other session alone.
  pub session-update_meta :
      (id j : String) (patch : V) (hub : Hub V W)
      → IsValid hub
      → session j (update_meta id patch hub)
        ≡ (if id == j then Option.map (patched patch) (session j hub) else session j hub)
  unfolding update_meta
  session-update_meta id j patch hub v = elim (Option-cases (get id hub)) [
    | inl e ↦ rw (e, update_meta) (unregistered_map id j (patched patch) hub e)
    | inr (handle, e) ↦
        rw (e, update_meta)
          (session-modify id j (patched patch) handle hub _ v e
            (sessions-announce session_meta handle _) (handles-announce session_meta handle _))
  ]

  -- An event of a registered handle changes the status of its session alone.
  pub session-apply_event :
      (id j ty : String) (now : ℤ) (handle : ℕ) (event : V) (s : SessionHandle W) (hub : Hub V W)
      → IsValid hub
      → get id hub ≡ some handle
      → session j (apply_event ty now handle event s hub) ≡ (
          if id == j
          then Option.map (with_status (status_of ty now event s)) (session j hub)
          else session j hub)
  session-apply_event id j ty now handle event s hub v e =
      session-modify id j (with_status (status_of ty now event s)) handle hub _ v e
        (sessions-apply_event ty now handle event s hub)
        (handles-apply_event ty now handle event s hub)
