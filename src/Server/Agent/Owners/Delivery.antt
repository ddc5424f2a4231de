-- ===== src/Server/Agent/Owners/Delivery.antt =====
-- The hub with any number of `/agent` connections: the event channel of a session gets what the
-- connection of the session sends, whatever the others do.
use mathlib.Core.Option.{some-injective}
use mathlib.Core.List.{append_assoc}
use pi_piper.Prelude.{
  ℕ, ℤ, String, ◌≡◌, refl, sym, ap, subst, ◌∙◌, true, Option, none, some, List, ◌++◌, nat_eq, arith,
}
use pi_piper.Json.{Json}
use pi_piper.Watch.{Watch}
use pi_piper.Session.{AgentLink}
use pi_piper.Rpc.RemoteAgent.{Message}
use pi_piper.Server.Agent.{World, Connection, on_message}
use pi_piper.Server.Agent.Links.{link_of}
use pi_piper.Server.Agent.Outcome.{registered_id, Outcome, Keeps, on_message-Outcome}
use pi_piper.Server.Agent.Published.{payload_of, emitted, on_message-published}
use pi_piper.Server.Agent.Owners.{fresh}
use pi_piper.Server.Agent.Owners.Exclusive.{
  IsExclusive, ExclusiveReach, ExclusiveReach-Reach, Step-IsHeld, ExclusiveReach-IsHeld,
  fresh-IsHeld,
}
use pi_piper.Server.Agent.Owners.Channels.{Step-IsChanneled, Reach-IsChanneled}
use pi_piper.Server.Agent.Worlds.{System, after_message, Step, receives}
use pi_piper.Server.Agent.Owners.Traffic.{
  on_channel, listed, on_channel-append, own_news, IsOther, Traffic, quiet, speaks, moves,
}
use pi_piper.Server.Agent.Owners.Kept.{IsFollowed, opened_kept, link_kept, published_kept}

module _ {V W : Type 0} ⦃json : Json V⦄ ⦃watch : Watch W⦄ where
  silent_message :
      (o : Option String) (before after : Connection × World V W)
      → o ≡ none
      → Outcome o before after
      → Keeps before after
  silent_message none before after e outcome = outcome
  silent_message (some id) before after e outcome = cc e

  other-IsFollowed :
      (n channel : ℕ) (id : String) (c : Connection) {s t : System V W} (st : Step s t)
      → IsExclusive st
      → IsOther n st
      → IsFollowed n channel id c s
      → IsFollowed n channel id c t
  other-IsFollowed n channel id c {s} st own away f = record {
    held = Step-IsHeld st own f.held;
    channeled = Step-IsChanneled st f.held.valid f.channeled;
    opened = opened_kept n channel id c s f st away ∙ f.opened;
    holds = f.holds;
    link = link_kept n channel id c s f st own away ∙ f.link;
  }

  speaks-IsFollowed :
      (n channel : ℕ) (id : String) (c : Connection) (s : System V W) (now : ℤ) (message : Message)
      → registered_id V message ≡ none
      → IsFollowed n channel id c s
      → IsFollowed n channel id c (after_message n (on_message now message (c, s.world)) s)
  speaks-IsFollowed n channel id c s now message silent f =
      let same : nat_eq n n ≡ true = ground arith in
      let st = receives n c now message f.opened in
      let keeps =
        silent_message (registered_id V message) (c, s.world) (on_message now message (c, s.world))
          silent (on_message-Outcome now message c s.world f.held.valid) in
      record {
        held = Step-IsHeld st (λ new_id e. cc (silent, e)) f.held;
        channeled = Step-IsChanneled st f.held.valid f.channeled;
        opened = rw same (ap some keeps.connection);
        holds = f.holds;
        link = keeps.links id ∙ f.link;
      }

  speaks-published :
      (n channel : ℕ) (id : String) (c : Connection) (s : System V W) (now : ℤ) (message : Message)
      → IsFollowed n channel id c s
      → on_channel channel (on_message now message (c, s.world)).1.hub.published
        ≡ listed (payload_of message) ++ on_channel channel s.world.hub.published
  speaks-published n channel id c s now message f =
      ap (on_channel channel) (on_message-published now message c s.world)
      ∙ on_channel-append channel _ s.world.hub.published
      ∙ ap
          (λ o.
            on_channel channel (emitted o (payload_of message) s.world.hub)
            ++ on_channel channel s.world.hub.published)
          f.holds
      ∙ ap (λ l. l ++ on_channel channel s.world.hub.published)
          (own_news n channel id (payload_of message) s.world.hub f.link)

  Traffic-IsFollowed :
      (n channel : ℕ) (id : String) (c : Connection) {s t : System V W} {news : List V}
      → IsFollowed n channel id c s
      → Traffic n s news t
      → IsFollowed n channel id c t
        × (on_channel channel t.world.hub.published
            ≡ news ++ on_channel channel s.world.hub.published)
  Traffic-IsFollowed n channel id c f quiet = (f, refl)
  Traffic-IsFollowed n channel id c {s} f (speaks {s = u} {news = news} r d now message e silent) =
      let (g, sent) = Traffic-IsFollowed n channel id c f r in
      let same : c ≡ d = some-injective _ _ (sym g.opened ∙ e) in
      subst
        (λ k.
          IsFollowed n channel id c (after_message n (on_message now message (k, u.world)) u)
          × (on_channel channel (on_message now message (k, u.world)).1.hub.published
              ≡ (listed (payload_of message) ++ news) ++ on_channel channel s.world.hub.published))
        same
        (
          speaks-IsFollowed n channel id c u now message silent g,
          speaks-published n channel id c u now message g
              ∙ ap (λ l. listed (payload_of message) ++ l) sent
              ∙ sym (append_assoc (listed (payload_of message)) news _),
        )
  Traffic-IsFollowed n channel id c f (moves {s = u} r st own away) =
      let (g, sent) = Traffic-IsFollowed n channel id c f r in
      (
        other-IsFollowed n channel id c st own away g,
        published_kept n channel id c u g st away ∙ sent,
      )

  -- From any system that is reached from a hub without sessions and connections by steps that take
  -- no id from its holder, where a connection holds an id whose session is linked to it: while this
  -- connection sends messages that register no id, and everything else takes any steps that take no
  -- id from its holder, the RPC messages of this connection are what is sent on the session's event
  -- channel, in order, and the connection stays open with the session linked to it as before.
  pub messages_delivered :
      (n channel : ℕ) (id : String) (c : Connection) {s t : System V W} {news : List V}
      → ExclusiveReach fresh s
      → s.open_at n ≡ some c
      → c.session_id ≡ some id
      → link_of id s.world.hub
        ≡ some (AgentLink.remote (record { to_agent = n; events_tx = channel }))
      → Traffic n s news t
      → (on_channel channel t.world.hub.published
          ≡ news ++ on_channel channel s.world.hub.published)
        × (link_of id t.world.hub ≡ link_of id s.world.hub)
        × (t.open_at n ≡ some c)
  messages_delivered n channel id c {s} r opened holds link traffic =
      let start : IsFollowed n channel id c s = record {
        held = ExclusiveReach-IsHeld fresh-IsHeld r;
        channeled = Reach-IsChanneled (ExclusiveReach-Reach r);
        opened = opened;
        holds = holds;
        link = link;
      } in
      let (followed, sent) = Traffic-IsFollowed n channel id c start traffic in
      (sent, followed.link ∙ sym link, followed.opened)
