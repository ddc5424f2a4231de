-- ===== src/Server/Agent/Owners/Held.antt =====
-- The hub with any number of `/agent` connections: connections that hold an id, at each change.
use mathlib.Core.Option.{some-injective}
use pi_piper.Prelude.{
  ℕ, String, ◌≡◌, ◌≢◌, ◌⊎◌, refl, sym, ap, ◌∙◌, true, false, Option, none, some, ◌==◌, eq_iff,
  nat_eq, arith, Bool-cases, Option-cases, inl, inr,
}
use pi_piper.Json.{Json}
use pi_piper.Watch.{Watch}
use pi_piper.Session.{AgentLink, RemoteAgent, SessionMeta}
use pi_piper.Registry.{Hub, register, unregister}
use pi_piper.Registry.Invariant.{IsValid}
use pi_piper.Server.Agent.{World, Connection, on_closed}
use pi_piper.Server.Agent.Links.{link_of, link_of-register, link_of-unregister}
use pi_piper.Server.Agent.Outcome.{Outcome}
use pi_piper.Server.Agent.Worlds.{System, update_at, after_message}

abbrev pub remote_on : ℕ → ℕ → Option AgentLink
remote_on channel n = some (AgentLink.remote (record { to_agent = n; events_tx = channel }))

module _ {V W : Type 0} where
  -- The session under the id has a link to the connection.
  abbrev pub Serves : Hub V W → ℕ → String → Type 0
  Serves hub n id =
      (channel : ℕ) × (link_of id hub
        ≡ some (AgentLink.remote (record { to_agent = n; events_tx = channel })))

  -- Every open connection that holds an id serves the session under it.
  abbrev pub Held : System V W → Type 0
  Held system =
      (n : ℕ) (c : Connection) (id : String)
      → system.open_at n ≡ some c
      → c.session_id ≡ some id
      → Serves system.world.hub n id

  to_agent_unique :
      (hub : Hub V W) (n m : ℕ) (id : String) → Serves hub n id → Serves hub m id → n ≡ m
  to_agent_unique hub n m id (a, e) (b, f) = number_of (sym e ∙ f)
    where
      number_of :
          {p q : RemoteAgent}
          → some (AgentLink.remote p) ≡ some (AgentLink.remote q)
          → p.to_agent ≡ q.to_agent
      number_of h = cc h

module _ {V W : Type 0} ⦃json : Json V⦄ ⦃watch : Watch W⦄ where
  pub accepts-Held :
      (s : System V W) (n : ℕ)
      → Held s
      → Held (record s {
        open_at = update_at n (some (record { number = n; session_id = none })) s.open_at;
      })
  accepts-Held s n held m d id open_d has = elim (Bool-cases (nat_eq n m)) [
    | inl same ↦
        let c : Connection = record { number = n; session_id = none } in
        let c_d : c ≡ d = some-injective _ _ (sym (rw same) ∙ open_d) in
        cc (ap (λ (k : Connection). k.session_id) c_d, has)
    | inr other ↦ held m d id (sym (rw other) ∙ open_d) has
  ]

  module _ (s : System V W) (n : ℕ) (c : Connection) (opened : s.open_at n ≡ some c) where
    pub taken_id :
        (m : ℕ) (new_id id : String)
        → Held s
        → Serves s.world.hub m id
        → nat_eq n m ≡ false
        → (link_of new_id s.world.hub ≡ none) ⊎ (c.session_id ≡ some new_id)
        → (new_id == id) ≡ true
        → ⊥
    taken_id m new_id id held (channel, l) other (inl f) e =
        cc (ap (λ k. link_of k s.world.hub) ((eq_iff new_id id).0 e), f, l)
    taken_id m new_id id held before other (inr own) e =
        let own_id : c.session_id ≡ some id = own ∙ ap some ((eq_iff new_id id).0 e) in
        let n_m = to_agent_unique s.world.hub n m id (held n c id opened own_id) before in
        ground (arith, n_m, other)

    pub receives-Held :
        (o : Option String) (after : Connection × World V W)
        → ((id : String) → o ≡ some id → (link_of id s.world.hub ≡ none) ⊎ (c.session_id ≡ some id))
        → c.number ≡ n
        → Outcome o (c, s.world) after
        → Held s
        → Held (after_message n after s)
    receives-Held none after free number outcome held m d id open_d has =
        elim (Bool-cases (nat_eq n m)) [
          | inl same ↦
              let after_d : after.0 ≡ d = some-injective _ _ (sym (rw same) ∙ open_d) in
              let c_has : c.session_id ≡ some id =
                ap (λ (k : Connection). k.session_id) (sym outcome.connection ∙ after_d) ∙ has in
              let (channel, l) = held n c id opened c_has in
              let n_m : n ≡ m = ground arith in
              (channel, outcome.links id ∙ l ∙ ap (remote_on channel) n_m)
          | inr other ↦
              let (channel, l) = held m d id (sym (rw other) ∙ open_d) has in
              (channel, outcome.links id ∙ l)
        ]
    receives-Held (some new_id) after free number outcome held m d id open_d has =
        elim (Bool-cases (nat_eq n m)) [
          | inl same ↦
              let after_d : after.0 ≡ d = some-injective _ _ (sym (rw same) ∙ open_d) in
              let ids : new_id ≡ id =
                some-injective _ _
                  (sym outcome.holds ∙ ap (λ (k : Connection). k.session_id) after_d ∙ has) in
              let n_m : n ≡ m = ground arith in
              (
                outcome.channel,
                rw ((eq_iff new_id id).1 ids) at (outcome.links id)
                    ∙ ap (remote_on outcome.channel) (number ∙ n_m),
              )
          | inr other ↦
              let before = held m d id (sym (rw other) ∙ open_d) has in
              elim (Bool-cases (new_id == id)) [
                | inl e ↦ absurd (taken_id m new_id id held before other (free new_id refl) e)
                | inr e ↦ let (channel, l) = before in (channel, rw e at (outcome.links id) ∙ l)
              ]
        ]

    pub ends-Held :
        IsValid s.world.hub
        → Held s
        → Held (record { world = on_closed (c, s.world); open_at = update_at n none s.open_at })
    unfolding on_closed
    ends-Held v held m d id open_d has = elim (Bool-cases (nat_eq n m)) [
      | inl same ↦ cc (same, open_d)
      | inr other ↦
          let before = held m d id (sym (rw other) ∙ open_d) has in
          elim (Option-cases c.session_id) [
            | inl e ↦ rw e before
            | inr (gone, e) ↦ rw e (elim (Bool-cases (gone == id)) [
              | inl g ↦ absurd (taken_id m gone id held before other (inr e) g)
              | inr g ↦
                  let (channel, l) = before in
                  (channel, rw g at (link_of-unregister gone id s.world.hub v) ∙ l)
            ])
          ]
    ]

  pub moved-Serves :
      (hub hub' : Hub V W) (n : ℕ) (id : String)
      → link_of id hub' ≡ link_of id hub
      → Serves hub n id
      → Serves hub' n id
  moved-Serves hub hub' n id links (channel, l) = (channel, links ∙ l)

  pub headless-Serves :
      (s : System V W) (process n : ℕ) (meta : SessionMeta) (id : String)
      → IsValid s.world.hub
      → link_of meta.session_id s.world.hub ≡ none
      → Serves s.world.hub n id
      → Serves (register meta.session_id (AgentLink.headless process) meta s.world.hub) n id
  headless-Serves s process n meta id v free (channel, l) =
      elim (Bool-cases (meta.session_id == id)) [
        | inl e ↦ cc (ap (λ k. link_of k s.world.hub) ((eq_iff meta.session_id id).0 e), free, l)
        | inr e ↦ (
          channel,
          rw e at (
                link_of-register meta.session_id id (AgentLink.headless process) meta s.world.hub v)
              ∙ l,
        )
      ]

  pub exit-Serves :
      (s : System V W) (n : ℕ) (gone id : String)
      → IsValid s.world.hub
      → ((m channel : ℕ) → link_of gone s.world.hub ≢ remote_on channel m)
      → Serves s.world.hub n id
      → Serves (unregister gone s.world.hub) n id
  exit-Serves s n gone id v own (channel, l) = elim (Bool-cases (gone == id)) [
    | inl e ↦ absurd (own n channel (ap (λ k. link_of k s.world.hub) ((eq_iff gone id).0 e) ∙ l))
    | inr e ↦ (channel, rw e at (link_of-unregister gone id s.world.hub v) ∙ l)
  ]
