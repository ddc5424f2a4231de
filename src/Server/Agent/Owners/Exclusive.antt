-- ===== src/Server/Agent/Owners/Exclusive.antt =====
-- The hub with any number of `/agent` connections, where no id is taken from its holder.

use pi_piper.Prelude.{ℕ, String, ◌≡◌, ◌≢◌, ◌⊎◌, ap, none, some}
use pi_piper.Json.{Json}
use pi_piper.Watch.{Watch}
use pi_piper.Session.{AgentLink}
use pi_piper.Registry.Invariant.{IsValid, empty-IsValid}
use pi_piper.Server.Agent.{Connection, on_message}
use pi_piper.Server.Agent.Links.{
  link_of, link_of-handle_event, link_of-connected_rx, link_of-drop_connected_rx,
}
use pi_piper.Server.Agent.Outcome.{registered_id, on_message-Outcome}
use pi_piper.Server.Agent.Owners.{Numbered, fresh}
use pi_piper.Server.Agent.Owners.Numbering.{Step-Numbered}
use pi_piper.Server.Agent.Worlds as Worlds
use pi_piper.Server.Agent.Worlds.{
  System, Reach, shutdown-hub, Step, accepts, receives, ends, watches, subscribes, drops,
  shuts_down, starts_headless, exits_headless, Step-IsValid,
}
use pi_piper.Server.Agent.Owners.Held.{
  Held, accepts-Held, receives-Held, ends-Held, moved-Serves, headless-Serves, exit-Serves,
}

module _ {V W : Type 0} ⦃json : Json V⦄ ⦃watch : Watch W⦄ where
  -- An id is registered on a connection only if it is free or the connection's own, and the headless
  -- session has an id of its own.
  abbrev pub IsExclusive : {s t : System V W} → Step s t → Type 0
  IsExclusive {s} (receives n c now message e) =
      (id : String)
      → registered_id V message ≡ some id
      → (link_of id s.world.hub ≡ none) ⊎ (c.session_id ≡ some id)
  IsExclusive {s} (starts_headless process meta) = link_of meta.session_id s.world.hub ≡ none
  IsExclusive {s} (exits_headless id) =
      (n channel : ℕ)
      → link_of id s.world.hub
        ≢ some (AgentLink.remote (record { to_agent = n; events_tx = channel }))
  IsExclusive _ = Unit

  pub data ExclusiveReach (start : System V W) : System V W → Type 0 where
    here : ExclusiveReach start start
    next :
        {s t : System V W}
        → ExclusiveReach start s
        → (st : Step s t) → IsExclusive st
        → ExclusiveReach start t

  -- Where no id is taken, any steps are.
  pub ExclusiveReach-Reach : {s t : System V W} → ExclusiveReach s t → Reach s t
  ExclusiveReach-Reach here = Worlds.here
  ExclusiveReach-Reach (next r st own) = Worlds.next (ExclusiveReach-Reach r) st

  pub record IsHeld (system : System V W) : Type 0 where
    pub valid : IsValid system.world.hub
    pub numbered : Numbered system
    pub held : Held system

  Step-Held : {s t : System V W} (st : Step s t) → IsExclusive st → IsHeld s → Held t
  Step-Held {s} (accepts n free) own h = accepts-Held s n h.held
  Step-Held {s} (receives n c now message e) own h =
      receives-Held s n c e (registered_id V message) (on_message now message (c, s.world)) own
        (h.numbered n c e) (on_message-Outcome now message c s.world h.valid) h.held
  Step-Held {s} (ends n c e) own h = ends-Held s n c e h.valid h.held
  Step-Held {s} (watches handle now event) own h = λ n c id open_c has.
      moved-Serves s.world.hub _ n id (link_of-handle_event id handle now event s.world.hub)
        (h.held n c id open_c has)
  Step-Held {s} (subscribes handle) own h = λ n c id open_c has.
      moved-Serves s.world.hub _ n id (link_of-connected_rx id handle s.world.hub)
        (h.held n c id open_c has)
  Step-Held {s} (drops handle) own h = λ n c id open_c has.
      moved-Serves s.world.hub _ n id (link_of-drop_connected_rx id handle s.world.hub)
        (h.held n c id open_c has)
  Step-Held {s} (shuts_down link) own h = λ n c id open_c has.
      moved-Serves s.world.hub _ n id (ap (link_of id) (shutdown-hub link s.world))
        (h.held n c id open_c has)
  Step-Held {s} (starts_headless process meta) own h = λ n c id open_c has.
      headless-Serves s process n meta id h.valid own (h.held n c id open_c has)
  Step-Held {s} (exits_headless gone) own h =
      λ n c id open_c has. exit-Serves s n gone id h.valid own (h.held n c id open_c has)

  pub Step-IsHeld : {s t : System V W} (st : Step s t) → IsExclusive st → IsHeld s → IsHeld t
  Step-IsHeld st own h = record {
    valid = Step-IsValid st h.valid;
    numbered = Step-Numbered st h.valid h.numbered;
    held = Step-Held st own h;
  }

  pub ExclusiveReach-IsHeld : {s t : System V W} → IsHeld s → ExclusiveReach s t → IsHeld t
  ExclusiveReach-IsHeld h here = h
  ExclusiveReach-IsHeld h (next r st own) = Step-IsHeld st own (ExclusiveReach-IsHeld h r)

  pub fresh-IsHeld : IsHeld (fresh {V = V} {W = W})
  fresh-IsHeld = record { valid = empty-IsValid; numbered = λ n c e. cc; held = λ n c id e has. cc }

  -- In whatever order the steps are taken from a hub without sessions and connections, where a
  -- connection registers only an id that is free or its own, and the headless session takes a free
  -- id and its exit removes no session of a connection: while a connection that holds an id is open,
  -- the session under the id is linked to it.
  pub holders_serve :
      {t : System V W} (n : ℕ) (c : Connection) (id : String)
      → ExclusiveReach fresh t
      → t.open_at n ≡ some c
      → c.session_id ≡ some id
      → (channel : ℕ) × (link_of id t.world.hub
          ≡ some (AgentLink.remote (record { to_agent = n; events_tx = channel })))
  holders_serve n c id r = (ExclusiveReach-IsHeld fresh-IsHeld r).held n c id
