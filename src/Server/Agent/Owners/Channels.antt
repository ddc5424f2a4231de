-- ===== src/Server/Agent/Owners/Channels.antt =====
-- The hub with any number of `/agent` connections: the event channels of the registered sessions.
use pi_piper.Prelude.{
  suc, String, ◌≡◌, ◌≢◌, ◌≤◌, ◌<◌, sym, ap, ◌∙◌, true, false, Option, none, some, ◌==◌, eq_iff,
  if◌then◌else◌, arith, Bool-cases, Option-cases, inl, inr, length-modify,
}
use pi_piper.Json.{Json}
use pi_piper.Watch.{Watch}
use pi_piper.Session.{AgentLink, RemoteAgent}
use pi_piper.Registry.{Hub, get, unregister}
use pi_piper.Registry.Invariant.{IsValid, empty-IsValid}
use pi_piper.Server.Agent.{World, Connection, on_message, on_closed}
use pi_piper.Server.Agent.Links.{
  link_of, link_of-register, link_of-unregister, link_of-handle_event, link_of-connected_rx,
  link_of-drop_connected_rx,
}
use pi_piper.Server.Agent.Arena.{
  size, size-register, size-unregister, size-handle_event, size_after, on_message-size,
}
use pi_piper.Server.Agent.Outcome.{registered_id, Outcome, on_message-Outcome}
use pi_piper.Server.Agent.Owners.{fresh, nothing_there, remote-injective}
use pi_piper.Server.Agent.Worlds.{
  System, Reach, here, next, shutdown-hub, Step, accepts, receives, ends, watches, subscribes,
  drops, shuts_down, starts_headless, exits_headless, Reach-IsValid,
}

module _ {V W : Type 0} where
  -- The event channels of the registered sessions have been made, and each is of one session.
  pub record IsChanneled (hub : Hub V W) : Type 0 where
    pub below :
        (id : String) (agent : RemoteAgent)
        → link_of id hub ≡ some (AgentLink.remote agent)
        → agent.events_tx < size hub
    pub apart :
        (i j : String) (a b : RemoteAgent)
        → link_of i hub ≡ some (AgentLink.remote a)
        → link_of j hub ≡ some (AgentLink.remote b)
        → a.events_tx ≡ b.events_tx
        → i ≡ j

  -- No link to an agent is new.
  fewer-IsChanneled :
      (hub hub' : Hub V W)
      → ((j : String) (agent : RemoteAgent)
          → link_of j hub' ≡ some (AgentLink.remote agent)
          → link_of j hub ≡ some (AgentLink.remote agent))
      → size hub ≤ size hub'
      → IsChanneled hub
      → IsChanneled hub'
  fewer-IsChanneled hub hub' was n ch = record {
    below =
        λ id agent l. let before = ch.below id agent (was id agent l) in omega (arith, before, n);
    apart = λ i j a b k l e. ch.apart i j a b (was i a k) (was j b l) e;
  }

  same-IsChanneled :
      (hub hub' : Hub V W)
      → ((j : String) → link_of j hub' ≡ link_of j hub)
      → size hub' ≡ size hub
      → IsChanneled hub
      → IsChanneled hub'
  same-IsChanneled hub hub' links n ch =
      fewer-IsChanneled hub hub' (λ j agent l. sym (links j) ∙ l) (omega (arith, n)) ch

  -- One id has got a link with the newest channel.
  newest-IsChanneled :
      (hub hub' : Hub V W) (id : String) (agent : RemoteAgent)
      → ((j : String)
          → link_of j hub' ≡ (if id == j then some (AgentLink.remote agent) else link_of j hub))
      → agent.events_tx ≡ size hub
      → size hub' ≡ suc (size hub)
      → IsChanneled hub
      → IsChanneled hub'
  newest-IsChanneled hub hub' id agent links newest n ch = record { below = below; apart = apart }
    where
      is_old :
          (j : String) (a : RemoteAgent)
          → link_of j hub' ≡ some (AgentLink.remote a)
          → (id == j) ≡ false
          → link_of j hub ≡ some (AgentLink.remote a)
      is_old j a l e = sym (rw e at (links j)) ∙ l

      is_new :
          (j : String) (a : RemoteAgent)
          → link_of j hub' ≡ some (AgentLink.remote a)
          → (id == j) ≡ true
          → a.events_tx ≡ size hub
      is_new j a l e =
          let agents = remote-injective (sym (rw e at (links j)) ∙ l) in
          ap (λ (k : RemoteAgent). k.events_tx) (sym agents) ∙ newest

      below :
          (j : String) (a : RemoteAgent)
          → link_of j hub' ≡ some (AgentLink.remote a)
          → a.events_tx < size hub'
      below j a l = elim (Bool-cases (id == j)) [
        | inl e ↦ let made = is_new j a l e in omega (arith, made, n)
        | inr e ↦ let made = ch.below j a (is_old j a l e) in omega (arith, made, n)
      ]

      apart :
          (i j : String) (a b : RemoteAgent)
          → link_of i hub' ≡ some (AgentLink.remote a)
          → link_of j hub' ≡ some (AgentLink.remote b)
          → a.events_tx ≡ b.events_tx
          → i ≡ j
      apart i j a b k l e = elim (Bool-cases (id == i)) [
        | inl p ↦ elim (Bool-cases (id == j)) [
          | inl q ↦ sym ((eq_iff id i).0 p) ∙ (eq_iff id j).0 q
          | inr q ↦
              let made = is_new i a k p in
              let made' = ch.below j b (is_old j b l q) in absurd (omega (arith, made, made', e))
        ]
        | inr p ↦ elim (Bool-cases (id == j)) [
          | inl q ↦
              let made = is_new j b l q in
              let made' = ch.below i a (is_old i a k p) in absurd (omega (arith, made, made', e))
          | inr q ↦ ch.apart i j a b (is_old i a k p) (is_old j b l q) e
        ]
      ]

  without-IsChanneled :
      (hub hub' : Hub V W) (id : String) (o : Option AgentLink)
      → ((agent : RemoteAgent) → o ≡ some (AgentLink.remote agent) → ⊥)
      → ((j : String) → link_of j hub' ≡ (if id == j then o else link_of j hub))
      → size hub ≤ size hub'
      → IsChanneled hub
      → IsChanneled hub'
  without-IsChanneled hub hub' id o no_agent links n ch =
      fewer-IsChanneled hub hub'
        (λ j agent l. elim (Bool-cases (id == j)) [
          | inl e ↦ absurd (no_agent agent (sym (rw e at (links j)) ∙ l))
          | inr e ↦ sym (rw e at (links j)) ∙ l
        ])
        n ch

module _ {V W : Type 0} ⦃json : Json V⦄ ⦃watch : Watch W⦄ where
  Outcome-IsChanneled :
      (o : Option String) (before after : Connection × World V W)
      → Outcome o before after
      → size after.1.hub ≡ size_after o (size before.1.hub)
      → IsChanneled before.1.hub
      → IsChanneled after.1.hub
  Outcome-IsChanneled none before after outcome n ch =
      same-IsChanneled before.1.hub after.1.hub outcome.links n ch
  Outcome-IsChanneled (some id) before after outcome n ch =
      newest-IsChanneled before.1.hub after.1.hub id _ outcome.links outcome.newest n ch

  removed-IsChanneled :
      (id : String) (hub : Hub V W)
      → IsValid hub
      → IsChanneled hub
      → IsChanneled (unregister id hub)
  removed-IsChanneled id hub v ch =
      without-IsChanneled hub (unregister id hub) id none (λ agent e. cc e)
        (λ j. link_of-unregister id j hub v) (omega (arith, size-unregister id hub)) ch

  closed-IsChanneled :
      (c : Connection) (world : World V W)
      → IsValid world.hub
      → IsChanneled world.hub
      → IsChanneled (on_closed (c, world)).hub
  unfolding on_closed
  closed-IsChanneled c world v ch = elim (Option-cases c.session_id) [
    | inl e ↦ rw e ch
    | inr (id, e) ↦ rw e (removed-IsChanneled id world.hub v ch)
  ]

  -- Every step keeps the channels apart.
  pub Step-IsChanneled :
      {s t : System V W}
      → Step s t
      → IsValid s.world.hub
      → IsChanneled s.world.hub
      → IsChanneled t.world.hub
  Step-IsChanneled {s} (accepts n free) v ch = ch
  Step-IsChanneled {s} (receives n c now message e) v ch =
      Outcome-IsChanneled (registered_id V message) (c, s.world)
        (on_message now message (c, s.world)) (on_message-Outcome now message c s.world v)
        (on_message-size now message c s.world) ch
  Step-IsChanneled {s} (ends n c e) v ch = closed-IsChanneled c s.world v ch
  Step-IsChanneled {s} (watches handle now event) v ch =
      same-IsChanneled s.world.hub _ (λ j. link_of-handle_event j handle now event s.world.hub)
        (size-handle_event handle now event s.world.hub) ch
  Step-IsChanneled {s} (subscribes handle) v ch =
      same-IsChanneled s.world.hub _ (λ j. link_of-connected_rx j handle s.world.hub)
        (length-modify s.world.hub.handles handle _) ch
  Step-IsChanneled {s} (drops handle) v ch =
      same-IsChanneled s.world.hub _ (λ j. link_of-drop_connected_rx j handle s.world.hub)
        (length-modify s.world.hub.handles handle _) ch
  Step-IsChanneled {s} (shuts_down link) v ch = rw (shutdown-hub link s.world) ch
  Step-IsChanneled {s} (starts_headless process meta) v ch =
      let id = meta.session_id in
      let link = AgentLink.headless process in
      without-IsChanneled s.world.hub _ id (some link) (λ agent e. cc e)
        (λ j. link_of-register id j link meta s.world.hub v)
        (omega (arith, size-register id link meta s.world.hub)) ch
  Step-IsChanneled {s} (exits_headless id) v ch = removed-IsChanneled id s.world.hub v ch

  pub fresh-IsChanneled : IsChanneled (fresh {V = V} {W = W}).world.hub
  unfolding get
  fresh-IsChanneled = record {
    below = λ id agent l. absurd (nothing_there l);
    apart = λ i j a b k l e. absurd (nothing_there k);
  }

  pub Reach-IsChanneled : {t : System V W} → Reach fresh t → IsChanneled t.world.hub
  Reach-IsChanneled here = fresh-IsChanneled
  Reach-IsChanneled (next r st) =
      Step-IsChanneled st (Reach-IsValid empty-IsValid r) (Reach-IsChanneled r)

  -- In whatever order steps are taken from a hub without sessions and connections, whoever registers
  -- which id: two different ids that are registered with links to agents have links to different
  -- event channels.
  pub channels_apart :
      {t : System V W} (i j : String) (a b : RemoteAgent)
      → Reach fresh t
      → link_of i t.world.hub ≡ some (AgentLink.remote a)
      → link_of j t.world.hub ≡ some (AgentLink.remote b)
      → i ≢ j
      → a.events_tx ≢ b.events_tx
  channels_apart i j a b r k l other e = other ((Reach-IsChanneled r).apart i j a b k l e)
