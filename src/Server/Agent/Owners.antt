-- ===== src/Server/Agent/Owners.antt =====
-- The hub with any number of `/agent` connections: whose the registered sessions are.
pub mod Numbering
pub mod Held
pub mod Steady
pub mod Exclusive
pub mod Channels
pub mod Traffic
pub mod Kept
pub mod Delivery
use mathlib.Core.Option
use mathlib.Core.Option.{some-injective}
use pi_piper.Prelude.{
  ℕ, String, ◌≡◌, ◌⊎◌, refl, sym, ap, ◌∙◌, Bool, true, false, Option, none, some, [], ◌==◌, eq_iff,
  nat_eq, if◌then◌else◌, arith, Bool-cases, inl, inr,
}
use pi_piper.Json.{Json}
use pi_piper.Watch.{Watch}
use pi_piper.Session.{AgentLink, RemoteAgent}
use pi_piper.Registry.{empty}
use pi_piper.Registry.Invariant.{IsValid}
use pi_piper.Server.Agent.{World, Connection, on_message, on_closed}
use pi_piper.Server.Agent.Links.{
  link_of, link_of-register, link_of-unregister, link_of-handle_event, link_of-connected_rx,
  link_of-drop_connected_rx,
}
use pi_piper.Server.Agent.Outcome.{registered_id, Keeps, Takes, Outcome, on_message-Outcome}
use pi_piper.Server.Agent.Worlds.{
  System, update_at, run_shutdown, after_message, Step, accepts, receives, ends, watches,
  subscribes, drops, shuts_down, starts_headless, exits_headless, Step-IsValid,
}

module _ {V W : Type 0} where
  -- Every registered session with a link to a connection is that of an open connection that holds
  -- its id.
  abbrev pub Owned : System V W → Type 0
  Owned system =
      (id : String) (agent : RemoteAgent)
      → link_of id system.world.hub ≡ some (AgentLink.remote agent)
      → (c : Connection) × (system.open_at agent.to_agent ≡ some c) × (c.session_id ≡ some id)

  -- Connections are kept under their own numbers.
  abbrev pub Numbered : System V W → Type 0
  Numbered system = (n : ℕ) (c : Connection) → system.open_at n ≡ some c → c.number ≡ n

module _ {V W : Type 0} where
  -- No session and no connection.
  abbrev pub fresh : System V W
  fresh = record { world = record { hub = empty; outbound = [] }; open_at = λ n. none }

pub nothing_there {ℓ} : {A : Type ℓ} {a : A} → none ≡ some a → ⊥
nothing_there h = cc

pub remote-injective :
    {a b : RemoteAgent} → some (AgentLink.remote a) ≡ some (AgentLink.remote b) → a ≡ b
remote-injective h = cc h

other_id :
    (new_id id : String) (o : Option String)
    → (o ≡ none) ⊎ (o ≡ some new_id)
    → o ≡ some id
    → (new_id == id) ≡ false
    → ⊥
other_id new_id id o (inl e) held other = cc
other_id new_id id o (inr e) held other =
    cc ((eq_iff new_id id).1 (some-injective _ _ (sym e ∙ held)), other)

module _ {V W : Type 0} where
  -- An owner is still there when another number changes hands.
  module _ (system : System V W) (n : ℕ) (c : Connection) (here : system.open_at n ≡ some c) where
    owner_kept :
        (id : String) (agent : RemoteAgent) (c' : Connection)
        → ((c0 : Connection) × (system.open_at agent.to_agent ≡ some c0)
            × (c0.session_id ≡ some id))
        → (n ≡ agent.to_agent → c.session_id ≡ some id → c'.session_id ≡ some id)
        → (d : Connection) × (update_at n (some c') system.open_at agent.to_agent ≡ some d)
          × (d.session_id ≡ some id)
    owner_kept id agent c' (c0, open_c0, held) stays = elim (Bool-cases (nat_eq n agent.to_agent)) [
      | inl e ↦
          let same : n ≡ agent.to_agent = ground arith in
          let c_c0 : c ≡ c0 = some-injective _ _ (sym here ∙ ap system.open_at same ∙ open_c0) in
          (c', rw e, stays same (ap (λ (k : Connection). k.session_id) c_c0 ∙ held))
      | inr e ↦ (c0, rw e open_c0, held)
    ]

module _ {V W : Type 0} where
  number-Outcome :
      (o : Option String) (before after : Connection × World V W)
      → Outcome o before after
      → after.0.number ≡ before.0.number
  number-Outcome none before after outcome = ap (λ (k : Connection). k.number) outcome.connection
  number-Outcome (some id) before after outcome = outcome.number

module _ {V W : Type 0} ⦃json : Json V⦄ ⦃watch : Watch W⦄ where
  module _ (system : System V W) (n : ℕ) (c : Connection) (here : system.open_at n ≡ some c) where
    pub receives-Owned :
        (o : Option String) (after : Connection × World V W)
        → ((id : String) → o ≡ some id → (c.session_id ≡ none) ⊎ (c.session_id ≡ some id))
        → c.number ≡ n
        → Outcome o (c, system.world) after
        → Owned system
        → Owned (after_message n after system)
    receives-Owned none after steady number outcome owned id agent l =
        owner_kept system n c here id agent after.0 (owned id agent (sym (outcome.links id) ∙ l))
          (λ _ held. ap (λ (k : Connection). k.session_id) outcome.connection ∙ held)
    receives-Owned (some new_id) after steady number outcome owned id agent l =
        elim (Bool-cases (new_id == id)) [
          | inl e ↦
              let agents = remote-injective (sym (rw e at (outcome.links id)) ∙ l) in
              let same : n ≡ agent.to_agent =
                sym number ∙ ap (λ (a : RemoteAgent). a.to_agent) agents in
              let found : nat_eq n agent.to_agent ≡ true = ground arith in
              (after.0, rw found, outcome.holds ∙ ap some ((eq_iff new_id id).0 e))
          | inr e ↦
              owner_kept system n c here id agent after.0
                (owned id agent (sym (rw e at (outcome.links id)) ∙ l))
                (λ _ held. absurd (other_id new_id id c.session_id (steady new_id refl) held e))
        ]

    pub receives-Numbered :
        (o : Option String) (after : Connection × World V W)
        → Outcome o (c, system.world) after
        → Numbered system
        → Numbered (after_message n after system)
    receives-Numbered o after outcome numbered m d e = elim (Bool-cases (nat_eq n m)) [
      | inl same ↦
          let after_d : after.0 ≡ d = some-injective _ _ (sym (rw same) ∙ e) in
          ap (λ (k : Connection). k.number) (sym after_d)
          ∙ number-Outcome o (c, system.world) after outcome
          ∙ numbered n c here
          ∙ ground arith
      | inr other ↦ numbered m d (sym (rw other) ∙ e)
    ]
