-- ===== src/Server/Agent/Owners/Steady.antt =====
-- The hub with any number of `/agent` connections, where no connection registers a second id.

use mathlib.Core.Option.{some-injective}
use pi_piper.Prelude.{
  ℕ, String, ◌≡◌, ◌≢◌, ◌⊎◌, sym, ap, ◌∙◌, true, none, some, ◌==◌, eq_iff, nat_eq, arith, Bool-cases,
  Option-cases, inl, inr,
}
use pi_piper.Json.{Json}
use pi_piper.Watch.{Watch}
use pi_piper.Session.{AgentLink, RemoteAgent, SessionMeta}
use pi_piper.Registry.{get, register, unregister}
use pi_piper.Registry.Invariant.{IsValid, empty-IsValid}
use pi_piper.Server.Agent.{World, Connection, on_message, on_closed}
use pi_piper.Server.Agent.Links.{
  link_of, link_of-register, link_of-unregister, link_of-handle_event, link_of-connected_rx,
  link_of-drop_connected_rx,
}
use pi_piper.Server.Agent.Outcome.{registered_id, on_message-Outcome}
use pi_piper.Server.Agent.Owners.{Owned, Numbered, fresh, nothing_there, receives-Owned}
use pi_piper.Server.Agent.Owners.Numbering.{Step-Numbered}
use pi_piper.Server.Agent.Worlds.{
  System, update_at, shutdown-hub, Step, accepts, receives, ends, watches, subscribes, drops,
  shuts_down, starts_headless, exits_headless, Step-IsValid,
}

module _ {V W : Type 0} ⦃json : Json V⦄ ⦃watch : Watch W⦄ where
  -- A connection registers an id only if it has none yet, or that one.
  abbrev pub IsSteady : {s t : System V W} → Step s t → Type 0
  IsSteady (receives n c now message e) =
      (id : String)
      → registered_id V message ≡ some id
      → (c.session_id ≡ none) ⊎ (c.session_id ≡ some id)
  IsSteady _ = Unit

  pub data SteadyReach (start : System V W) : System V W → Type 0 where
    here : SteadyReach start start
    next :
        {s t : System V W}
        → SteadyReach start s
        → (st : Step s t) → IsSteady st
        → SteadyReach start t

  pub record IsOwned (system : System V W) : Type 0 where
    pub valid : IsValid system.world.hub
    pub numbered : Numbered system
    pub owned : Owned system

  accepts-Owned :
      (s : System V W) (n : ℕ) (c : Connection)
      → s.open_at n ≡ none
      → Owned s
      → Owned (record s { open_at = update_at n (some c) s.open_at })
  accepts-Owned s n c free owned id agent l =
      let (d, open_d, held) = owned id agent l in
      elim (Bool-cases (nat_eq n agent.to_agent)) [
        | inl e ↦
            absurd (nothing_there (sym free ∙ ap s.open_at (equal n agent.to_agent e) ∙ open_d))
        | inr e ↦ (d, rw e open_d, held)
      ]
    where
      equal : (a b : ℕ) → nat_eq a b ≡ true → a ≡ b
      equal a b h = ground arith

  -- What is left after the end of a connection is not its own.
  module _ (s : System V W) (n : ℕ) (c : Connection) (here : s.open_at n ≡ some c) where
    left-Owned :
        (world : World V W)
        → ((id : String) (agent : RemoteAgent)
            → link_of id world.hub ≡ some (AgentLink.remote agent)
            → (link_of id s.world.hub ≡ some (AgentLink.remote agent)) × (c.session_id ≢ some id))
        → Owned s
        → Owned (record { world = world; open_at = update_at n none s.open_at })
    left-Owned world links owned id agent l =
        let (before, foreign) = links id agent l in
        let (d, open_d, held) = owned id agent before in
        elim (Bool-cases (nat_eq n agent.to_agent)) [
          | inl e ↦
              let same : n ≡ agent.to_agent = ground arith in
              let c_d : c ≡ d = some-injective _ _ (sym here ∙ ap s.open_at same ∙ open_d) in
              absurd (foreign (ap (λ (k : Connection). k.session_id) c_d ∙ held))
          | inr e ↦ (d, rw e open_d, held)
        ]

    ends-Owned :
        IsValid s.world.hub
        → Owned s
        → Owned (record { world = on_closed (c, s.world); open_at = update_at n none s.open_at })
    unfolding on_closed
    ends-Owned v owned = elim (Option-cases c.session_id) [
      | inl e ↦ rw e (left-Owned s.world (λ id agent l. (l, λ h. cc (e, h))) owned)
      | inr (gone, e) ↦ rw e (
          left-Owned (record s.world { hub = unregister gone s.world.hub })
            (λ id agent l. closed_link gone id agent e l) owned)
    ]
      where
        closed_link :
            (gone id : String) (agent : RemoteAgent)
            → c.session_id ≡ some gone
            → link_of id (unregister gone s.world.hub) ≡ some (AgentLink.remote agent)
            → (link_of id s.world.hub ≡ some (AgentLink.remote agent)) × (c.session_id ≢ some id)
        closed_link gone id agent e l = elim (Bool-cases (gone == id)) [
          | inl same ↦
              absurd
                (nothing_there (sym (rw same at (link_of-unregister gone id s.world.hub v)) ∙ l))
          | inr other ↦ (
            sym (rw other at (link_of-unregister gone id s.world.hub v)) ∙ l,
            λ h. cc ((eq_iff gone id).1 (some-injective _ _ (sym e ∙ h)), other),
          )
        ]

  -- A headless registration or removal gives no connection a session.
  register_headless-Owned :
      (s : System V W) (process : ℕ) (meta : SessionMeta) (id : String) (agent : RemoteAgent)
      → IsValid s.world.hub
      → link_of id (register meta.session_id (AgentLink.headless process) meta s.world.hub)
        ≡ some (AgentLink.remote agent)
      → link_of id s.world.hub ≡ some (AgentLink.remote agent)
  register_headless-Owned s process meta id agent v l = elim (Bool-cases (meta.session_id == id)) [
    | inl same ↦ absurd (
        headless_remote (
          sym (
            rw same at
              (link_of-register meta.session_id id (AgentLink.headless process) meta s.world.hub v))
          ∙ l))
    | inr other ↦
        sym (
          rw other at
            (link_of-register meta.session_id id (AgentLink.headless process) meta s.world.hub v))
        ∙ l
  ]
    where
      headless_remote :
          {p : ℕ} {a : RemoteAgent} → some (AgentLink.headless p) ≡ some (AgentLink.remote a) → ⊥
      headless_remote h = cc h

  unregister-Owned :
      (s : System V W) (gone id : String) (agent : RemoteAgent)
      → IsValid s.world.hub
      → link_of id (unregister gone s.world.hub) ≡ some (AgentLink.remote agent)
      → link_of id s.world.hub ≡ some (AgentLink.remote agent)
  unregister-Owned s gone id agent v l = elim (Bool-cases (gone == id)) [
    | inl same ↦
        absurd (nothing_there (sym (rw same at (link_of-unregister gone id s.world.hub v)) ∙ l))
    | inr other ↦ sym (rw other at (link_of-unregister gone id s.world.hub v)) ∙ l
  ]

  Step-IsOwned : {s t : System V W} (st : Step s t) → IsSteady st → IsOwned s → IsOwned t
  Step-IsOwned {s} (accepts n free) steady h = record {
    valid = Step-IsValid {s = s} (accepts n free) h.valid;
    numbered = Step-Numbered {s = s} (accepts n free) h.valid h.numbered;
    owned = accepts-Owned s n _ free h.owned;
  }
  Step-IsOwned {s} (receives n c now message e) steady h =
      let outcome = on_message-Outcome now message c s.world h.valid in
      record {
        valid = Step-IsValid {s = s} (receives n c now message e) h.valid;
        numbered = Step-Numbered {s = s} (receives n c now message e) h.valid h.numbered;
        owned =
            receives-Owned s n c e (registered_id V message) (on_message now message (c, s.world))
              steady (h.numbered n c e) outcome h.owned;
      }
  Step-IsOwned {s} (ends n c e) steady h = record {
    valid = Step-IsValid {s = s} (ends n c e) h.valid;
    numbered = Step-Numbered {s = s} (ends n c e) h.valid h.numbered;
    owned = ends-Owned s n c e h.valid h.owned;
  }
  Step-IsOwned {s} (watches handle now event) steady h = record {
    valid = Step-IsValid {s = s} (watches handle now event) h.valid;
    numbered = h.numbered;
    owned = λ id agent l.
        h.owned id agent (sym (link_of-handle_event id handle now event s.world.hub) ∙ l);
  }
  Step-IsOwned {s} (subscribes handle) steady h = record {
    valid = Step-IsValid {s = s} (subscribes handle) h.valid;
    numbered = h.numbered;
    owned = λ id agent l. h.owned id agent (sym (link_of-connected_rx id handle s.world.hub) ∙ l);
  }
  Step-IsOwned {s} (drops handle) steady h = record {
    valid = Step-IsValid {s = s} (drops handle) h.valid;
    numbered = h.numbered;
    owned =
        λ id agent l. h.owned id agent (sym (link_of-drop_connected_rx id handle s.world.hub) ∙ l);
  }
  Step-IsOwned {s} (shuts_down link) steady h = record {
    valid = Step-IsValid {s = s} (shuts_down link) h.valid;
    numbered = h.numbered;
    owned = rw (shutdown-hub link s.world) h.owned;
  }
  Step-IsOwned {s} (starts_headless process meta) steady h = record {
    valid = Step-IsValid {s = s} (starts_headless process meta) h.valid;
    numbered = h.numbered;
    owned =
        λ id agent l. h.owned id agent (register_headless-Owned s process meta id agent h.valid l);
  }
  Step-IsOwned {s} (exits_headless gone) steady h = record {
    valid = Step-IsValid {s = s} (exits_headless gone) h.valid;
    numbered = h.numbered;
    owned = λ id agent l. h.owned id agent (unregister-Owned s gone id agent h.valid l);
  }

  SteadyReach-IsOwned : {s t : System V W} → IsOwned s → SteadyReach s t → IsOwned t
  SteadyReach-IsOwned h here = h
  SteadyReach-IsOwned h (next r st steady) = Step-IsOwned st steady (SteadyReach-IsOwned h r)

  fresh-IsOwned : IsOwned (fresh {V = V} {W = W})
  unfolding get
  fresh-IsOwned = record { valid = empty-IsValid; numbered = λ n c e. cc; owned = λ id agent l. cc }

  -- In whatever order the connections, watchers, bridges, shutdown tasks and the headless session
  -- take their steps from a hub without sessions and connections, where no connection registers
  -- another id than its first: each session that is linked to a connection is linked to an open one,
  -- and that connection holds its id.
  pub no_zombies :
      {t : System V W} (id : String) (agent : RemoteAgent)
      → SteadyReach fresh t
      → link_of id t.world.hub ≡ some (AgentLink.remote agent)
      → (c : Connection) × (t.open_at agent.to_agent ≡ some c) × (c.session_id ≡ some id)
  no_zombies id agent r = (SteadyReach-IsOwned fresh-IsOwned r).owned id agent
