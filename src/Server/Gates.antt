-- ===== src/Server/Gates.antt =====
-- src/server/: what the routes of a phone answer.
use mathlib.Core.Option.{some-injective}
use pi_piper.Prelude.{
  ℕ, String, List, ◌≡◌, ◌≢◌, ◌↔◌, refl, true, false, Option, none, some, inl, inr, if◌then◌else◌,
  ap, ◌∙◌, arith, Bool-cases, [], ◌∷◌, length, nat_eq, ◌==◌, eq_iff, eq_refl,
}
use pi_piper.Json.{Json}
use pi_piper.Watch.{Watch}
use pi_piper.Registry.{Hub, get, get_default}
use pi_piper.Registry.Map.{lookup, first_value}
use pi_piper.Server.Auth.{HeaderMap, is_authorized_tailscale}
use pi_piper.Server.Response.{accepted}
use pi_piper.Server.Ws.{not_authorized, no_session_hint, resolve, or_bad_request}
use pi_piper.Server.Ws as Ws
use pi_piper.Server.Control as Control
use pi_piper.Server.SessionsApi as SessionsApi

ws_accepts_sound :
    (session : Option String) (o : Option ℕ) (handle : ℕ)
    → or_bad_request session o ≡ accepted handle
    → o ≡ some handle
ws_accepts_sound session none handle h = cc
ws_accepts_sound session (some other) handle h = cc

module _ {H V W : Type 0} ⦃headers : HeaderMap H⦄ ⦃json : Json V⦄ ⦃watch : Watch W⦄ where
  -- A request that is not authorized is answered 401 by each of the routes `/ws`, `/ws/control` and
  -- `/api/sessions`, whatever session it names and whatever is registered.
  pub refused :
      (request : H) (session : Option String) (hub : Hub V W)
      → is_authorized_tailscale request ≡ false
      → (Ws.handler request session hub ≡ not_authorized)
        × (Control.handler request ≡ not_authorized)
        × (SessionsApi.handler request hub ≡ not_authorized)
  unfolding Ws.handler Control.handler SessionsApi.handler
  refused request session hub h = rw h (refl, refl, refl)

  -- The upgrade of a phone is accepted, onto a handle, exactly when the request is authorized and
  -- the session it names, or the default one where it names none, is registered with that handle.
  pub ws_accepts :
      (request : H) (session : Option String) (hub : Hub V W) (handle : ℕ)
      → (Ws.handler request session hub ≡ accepted handle)
        ↔ ((is_authorized_tailscale request ≡ true) × (resolve session hub ≡ some handle))
  unfolding Ws.handler
  ws_accepts request session hub handle = elim (Bool-cases (is_authorized_tailscale request)) [
    | inl e ↦
        rw e (λ h. (refl, ws_accepts_sound session (resolve session hub) handle h), λ h. cc (h.1))
    | inr e ↦ rw e (λ h. cc h, λ h. cc (h.0))
  ]

module _ {A : Type 0} where
  sole :
      (m : List (String × A)) (a : A)
      → (if nat_eq (length m) 1 then first_value m else none) ≡ some a
      → (id : String) × (m ≡ (id, a) ∷ [])
  sole [] a h = cc
  sole ((id, b) ∷ []) a h = (id, ap (λ (x : A). (id, x) ∷ []) (some-injective _ _ h))
  sole ((id, b) ∷ (j, more) ∷ m) a h = absurd (ground arith)

  sole_lookup : (id : String) (a : A) → lookup id ((id, a) ∷ []) ≡ some a
  unfolding lookup
  sole_lookup id a = rw (eq_refl id) refl

  other_lookup : (id j : String) (a : A) → id ≢ j → lookup j ((id, a) ∷ []) ≡ none
  unfolding lookup
  other_lookup id j a other = elim (Bool-cases (id == j)) [
    | inl e ↦ absurd (other ((eq_iff id j).0 e))
    | inr e ↦ rw e refl
  ]

module _ {V W : Type 0} where
  -- A default session is the only one: its handle is registered under some id, and no other id is
  -- registered.
  pub get_default_unique :
      (hub : Hub V W) (handle : ℕ)
      → get_default hub ≡ some handle
      → (id : String) × (get id hub ≡ some handle) × ((j : String) → id ≢ j → get j hub ≡ none)
  unfolding get get_default
  get_default_unique hub handle h =
      let (id, e) = sole hub.sessions handle h in
      (
        id,
        ap (lookup id) e ∙ sole_lookup id handle,
        λ j other. ap (lookup j) e ∙ other_lookup id j handle other,
      )
