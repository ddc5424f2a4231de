-- ===== src/Registry/Mirror/Snapshot.antt =====
-- src/registry.rs, `list`, and src/server/control.rs: a phone that subscribes, is sent the list,
-- and then receives every message since it subscribed, those from before the list included.
use mathlib.Core.Option
use pi_piper.Prelude.{
  ℕ, suc, ◌≡◌, refl, ◌∙◌, ap, String, Option, none, some, List, [], ◌∷◌, arith, ◌==◌, eq_iff,
  eq_refl, length, get_elem?, Bool-cases, inl, inr, if◌then◌else◌, ◌>>=◌,
}
use pi_piper.Watch.{Watch}
use pi_piper.Session.{SessionSummary, SessionHandle, summary}
use pi_piper.Registry.Map.{lookup, IsDistinct}
use pi_piper.Registry.{Hub, get, session, summaries, list}
use pi_piper.Registry.Invariant.{IsSession, IsValid}

-- What a list of summaries says of an id.
abbrev pub snapshot_at : String → List SessionSummary → Option SessionSummary
snapshot_at id [] = none
snapshot_at id (s ∷ rest) = if s.meta.session_id == id then some s else snapshot_at id rest

module _ {W : Type 0} ⦃watch : Watch W⦄ where
  abbrev AreSessions : List (SessionHandle W) → List (String × ℕ) → Type 0
  AreSessions handles [] = Unit
  AreSessions handles ((k, h) ∷ m) = IsSession k (get_elem? handles h) × AreSessions handles m

  AreSessions-lookup :
      (handles : List (SessionHandle W)) (m : List (String × ℕ))
      → IsDistinct m
      → ((k : String) (h : ℕ) → lookup k m ≡ some h → IsSession k (get_elem? handles h))
      → AreSessions handles m
  unfolding lookup
  AreSessions-lookup handles [] d at = tt
  AreSessions-lookup handles ((k, h) ∷ m) d at = (
    at k h (rw (eq_refl k)),
    AreSessions-lookup handles m d.1 (λ j i e. at j i (ground (arith, e, d.0, eq_iff k j))),
  )

  -- One entry of the list, whatever follows it.
  head-summaries :
      (id k : String) (h : ℕ) (handles : List (SessionHandle W)) (m : List (String × ℕ))
      → (o : Option (SessionHandle W)) → get_elem? handles h ≡ o
      → IsSession k o
      → (snapshot_at id (summaries handles ((k, h) ∷ m)) ≡ (
          if k == id
          then Option.map summary (get_elem? handles h)
          else snapshot_at id (summaries handles m)))
        × (length (summaries handles ((k, h) ∷ m)) ≡ suc (length (summaries handles m)))
  unfolding summaries summary
  head-summaries id k h handles m none e s = absurd s
  head-summaries id k h handles m (some x) e s = (rw (e, summaries, s.0), rw (e, summaries))

  snapshot_at-summaries :
      (id : String) (handles : List (SessionHandle W)) (m : List (String × ℕ))
      → AreSessions handles m
      → snapshot_at id (summaries handles m)
        ≡ Option.map summary (lookup id m >>= get_elem? handles)
  unfolding lookup
  snapshot_at-summaries id handles [] s = unfold summaries in refl
  snapshot_at-summaries id handles ((k, h) ∷ m) s =
      (head-summaries id k h handles m _ refl s.0).0 ∙ (elim (Bool-cases (k == id)) [
        | inl here ↦ rw here
        | inr there ↦ rw there (snapshot_at-summaries id handles m s.1)
      ])

  length-summaries :
      (handles : List (SessionHandle W)) (m : List (String × ℕ))
      → AreSessions handles m
      → length (summaries handles m) ≡ length m
  length-summaries handles [] s = unfold summaries in refl
  length-summaries handles ((k, h) ∷ m) s =
      (head-summaries k k h handles m _ refl s.0).1 ∙ ap suc (length-summaries handles m s.1)

module _ {V W : Type 0} ⦃watch : Watch W⦄ where
  sessions-AreSessions : (hub : Hub V W) → IsValid hub → AreSessions hub.handles hub.sessions
  unfolding get
  sessions-AreSessions hub v = AreSessions-lookup hub.handles hub.sessions v.distinct v.registered

  -- In a valid registry, the first summary of an id in the list is the present summary of the
  -- session under the id, and there is none where the id is not registered.
  pub snapshot_at-list :
      (id : String) (hub : Hub V W)
      → IsValid hub
      → snapshot_at id (list hub) ≡ Option.map summary (session id hub)
  unfolding list get
  snapshot_at-list id hub v =
      snapshot_at-summaries id hub.handles hub.sessions (sessions-AreSessions hub v)

  -- In a valid registry, the list has as many summaries as ids are registered.
  pub length-list : (hub : Hub V W) → IsValid hub → length (list hub) ≡ length hub.sessions
  unfolding list
  length-list hub v = length-summaries hub.handles hub.sessions (sessions-AreSessions hub v)
