-- ===== src/Server/Agent/Links.antt =====
-- src/registry.rs and src/server/agent.rs: which link each session has, after each operation.
use mathlib.Core.Option
use pi_piper.Prelude.{
  ℕ, ℤ, String, ◌≡◌, refl, ap, ◌∙◌, Bool, true, false, Option, none, some, List, ◌==◌, get_elem?,
  modify, map-get_elem?-modify, if◌then◌else◌, ◌>>=◌, Option-cases, Bool-cases, inl, inr, unwrap_or,
}
use pi_piper.Json.{Json}
use pi_piper.Watch.{Watch}
use pi_piper.Session.{AgentLink, SessionMeta, SessionHandle, new, connected_rx, drop_connected_rx}
use pi_piper.Preview.{str_field}
use pi_piper.Status.{is_status_event}
use pi_piper.Registry.{
  Hub, get, session, register, unregister, update_meta, publish, update_handle, handle_event,
  apply_event,
}
use pi_piper.Registry.Invariant.{IsValid}
use pi_piper.Registry.Updates.{
  patched, with_status, status_of, sessions-apply_event, handles-apply_event,
}
use pi_piper.Registry.Lookup.{
  session-register, session-unregister, session-update_meta, session-publish,
}

module _ {V W : Type 0} where
  -- The link of the session under an id.
  abbrev pub link_of : String → Hub V W → Option AgentLink
  link_of id hub = Option.map (λ s. s.link) (session id hub)

module _ {W : Type 0} where
  map_at-modify :
      {B : Type 0} (g : SessionHandle W → B) (o : Option ℕ) (handle : ℕ)
      (f : SessionHandle W → SessionHandle W) (hs : List (SessionHandle W))
      → ((s : SessionHandle W) → g (f s) ≡ g s)
      → Option.map g (o >>= get_elem? (modify hs handle f)) ≡ Option.map g (o >>= get_elem? hs)
  map_at-modify g none handle f hs h = refl
  map_at-modify g (some k) handle f hs h = map-get_elem?-modify g hs handle k f h

module _ {V W : Type 0} where
  -- What a change of any one handle keeps, it keeps of every session.
  pub session-modify :
      {B : Type 0} (g : SessionHandle W → B) (j : String) (handle : ℕ)
      (f : SessionHandle W → SessionHandle W) (hub hub' : Hub V W)
      → ((s : SessionHandle W) → g (f s) ≡ g s)
      → hub'.sessions ≡ hub.sessions
      → hub'.handles ≡ modify hub.handles handle f
      → Option.map g (session j hub') ≡ Option.map g (session j hub)
  unfolding get
  session-modify g j handle f hub hub' keep s h =
      rw (s, h) (map_at-modify g (get j hub) handle f hub.handles keep)

  -- A change of any one handle that keeps its link changes no link.
  pub link_of-modify :
      (j : String) (handle : ℕ) (f : SessionHandle W → SessionHandle W) (hub hub' : Hub V W)
      → ((s : SessionHandle W) → (f s).link ≡ s.link)
      → hub'.sessions ≡ hub.sessions
      → hub'.handles ≡ modify hub.handles handle f
      → link_of j hub' ≡ link_of j hub
  link_of-modify j handle f hub hub' = session-modify (λ s. s.link) j handle f hub hub'

module _ {V W : Type 0} ⦃watch : Watch W⦄ where
  pub link_of-register :
      (id j : String) (link : AgentLink) (meta : SessionMeta) (hub : Hub V W)
      → IsValid hub
      → link_of j (register id link meta hub) ≡ (if id == j then some link else link_of j hub)
  unfolding new
  link_of-register id j link meta hub v =
      ap (Option.map (λ (s : SessionHandle W). s.link)) (session-register id j link meta hub v)
      ∙ (elim (Bool-cases (id == j)) [ inl e ↦ rw e | inr e ↦ rw e ])

  pub link_of-unregister :
      (id j : String) (hub : Hub V W)
      → IsValid hub
      → link_of j (unregister id hub) ≡ (if id == j then none else link_of j hub)
  link_of-unregister id j hub v =
      ap (Option.map (λ (s : SessionHandle W). s.link)) (session-unregister id j hub v)
      ∙ (elim (Bool-cases (id == j)) [ inl e ↦ rw e | inr e ↦ rw e ])

  pub link_of-publish :
      (id j : String) (payload : V) (hub : Hub V W)
      → link_of j (publish id payload hub) ≡ link_of j hub
  link_of-publish id j payload hub =
      ap (Option.map (λ (s : SessionHandle W). s.link)) (session-publish id j payload hub)

  pub link_of-connected_rx :
      (j : String) (handle : ℕ) (hub : Hub V W)
      → link_of j (update_handle handle connected_rx hub) ≡ link_of j hub
  unfolding connected_rx
  link_of-connected_rx j handle hub =
      link_of-modify j handle connected_rx hub (update_handle handle connected_rx hub) (λ s. refl)
        refl refl

  pub link_of-drop_connected_rx :
      (j : String) (handle : ℕ) (hub : Hub V W)
      → link_of j (update_handle handle drop_connected_rx hub) ≡ link_of j hub
  unfolding drop_connected_rx
  link_of-drop_connected_rx j handle hub =
      link_of-modify j handle drop_connected_rx hub (update_handle handle drop_connected_rx hub)
        (λ s. refl) refl refl

module _ {W : Type 0} where
  link-if :
      (b : Bool) (f : SessionHandle W → SessionHandle W) (o : Option (SessionHandle W))
      → ((s : SessionHandle W) → (f s).link ≡ s.link)
      → Option.map (λ (s : SessionHandle W). s.link) (if b then Option.map f o else o)
        ≡ Option.map (λ (s : SessionHandle W). s.link) o
  link-if true f none h = refl
  link-if true f (some s) h = ap some (h s)
  link-if false f o h = refl

module _ {V W : Type 0} ⦃json : Json V⦄ ⦃watch : Watch W⦄ where
  pub link_of-update_meta :
      (id j : String) (patch : V) (hub : Hub V W)
      → IsValid hub
      → link_of j (update_meta id patch hub) ≡ link_of j hub
  link_of-update_meta id j patch hub v =
      ap (Option.map (λ (s : SessionHandle W). s.link)) (session-update_meta id j patch hub v)
      ∙ link-if (id == j) (patched patch) (session j hub) (λ s. refl)

  pub link_of-handle_event :
      (j : String) (handle : ℕ) (now : ℤ) (event : V) (hub : Hub V W)
      → link_of j (handle_event handle now event hub) ≡ link_of j hub
  unfolding handle_event
  link_of-handle_event j handle now event hub =
      let ty = unwrap_or (str_field event "type") "" in
      elim (Bool-cases (is_status_event ty)) [
        | inr e ↦ rw e
        | inl e ↦ elim (Option-cases (get_elem? hub.handles handle)) [
          | inl gone ↦ rw (e, gone)
          | inr (s, found) ↦
              rw (e, found)
                (link_of-modify j handle (with_status (status_of ty now event s)) hub
                  (apply_event ty now handle event s hub) (λ s. refl)
                  (sessions-apply_event ty now handle event s hub)
                  (handles-apply_event ty now handle event s hub))
        ]
      ]
