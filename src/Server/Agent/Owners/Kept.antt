-- ===== src/Server/Agent/Owners/Kept.antt =====
-- The hub with any number of `/agent` connections: what a step of another connection leaves of a
-- session that is followed.
use pi_piper.Prelude.{
  ℕ, String, ◌≡◌, ◌≢◌, ◌⊎◌, refl, ap, ◌∙◌, true, false, Option, none, some, ◌==◌, eq_iff, ◌++◌,
  nat_eq, arith, Bool-cases, Option-cases, inl, inr,
}
use pi_piper.Json.{Json}
use pi_piper.Watch.{Watch}
use pi_piper.Session.{AgentLink, RemoteAgent}
use pi_piper.Registry.{Hub, unregister}
use pi_piper.Server.Agent.{World, Connection, on_message, on_closed}
use pi_piper.Server.Agent.Links.{
  link_of, link_of-register, link_of-unregister, link_of-handle_event, link_of-connected_rx,
  link_of-drop_connected_rx,
}
use pi_piper.Server.Agent.Outcome.{registered_id, Outcome, on_message-Outcome}
use pi_piper.Server.Agent.Published.{
  payload_of, on_message-published, published-register, published-unregister, published-on_closed,
  published-handle_event,
}
use pi_piper.Server.Agent.Owners.Held.{remote_on, taken_id}
use pi_piper.Server.Agent.Owners.Exclusive.{IsExclusive, IsHeld}
use pi_piper.Server.Agent.Owners.Channels.{IsChanneled}
use pi_piper.Server.Agent.Worlds.{
  System, update_at, shutdown-hub, Step, accepts, receives, ends, watches, subscribes, drops,
  shuts_down, starts_headless, exits_headless,
}
use pi_piper.Server.Agent.Owners.Traffic.{on_channel, on_channel-append, other_news, IsOther}

update_other :
    (m n : ℕ) (c : Option Connection) (f : ℕ → Option Connection)
    → nat_eq m n ≡ false
    → update_at m c f n ≡ f n
update_other m n c f away = rw away refl

apart_of : (m n : ℕ) → m ≢ n → nat_eq m n ≡ false
apart_of m n away = elim (Bool-cases (nat_eq m n)) [
  | inl e ↦ absurd (away (ground arith))
  | inr e ↦ e
]

module _ {V W : Type 0} ⦃json : Json V⦄ ⦃watch : Watch W⦄ where
  -- The connection is open, and its session is registered with the channel.
  pub record IsFollowed (n channel : ℕ) (id : String) (c : Connection) (s : System V W)
      : Type 0 where
    pub held : IsHeld s
    pub channeled : IsChanneled s.world.hub
    pub opened : s.open_at n ≡ some c
    pub holds : c.session_id ≡ some id
    pub link : link_of id s.world.hub ≡ remote_on channel n

  module _ (n channel : ℕ) (id : String) (c : Connection) (s : System V W)
      (f : IsFollowed n channel id c s) where
    pub opened_kept : {t : System V W} (st : Step s t) → IsOther n st → t.open_at n ≡ s.open_at n
    opened_kept (accepts m free) away =
        let apart = apart_of m n (λ same. cc (ap s.open_at same, free, f.opened)) in
        update_other m n _ s.open_at apart
    opened_kept (receives m d now message e) away = update_other m n _ s.open_at (apart_of m n away)
    opened_kept (ends m d e) away = update_other m n _ s.open_at (apart_of m n away)
    opened_kept (watches handle now event) away = refl
    opened_kept (subscribes handle) away = refl
    opened_kept (drops handle) away = refl
    opened_kept (shuts_down link) away = refl
    opened_kept (starts_headless process meta) away = refl
    opened_kept (exits_headless gone) away = refl

    -- No other connection can take the id.
    not_taken :
        (m : ℕ) (d : Connection) (new_id : String)
        → s.open_at m ≡ some d
        → m ≢ n
        → (link_of new_id s.world.hub ≡ none) ⊎ (d.session_id ≡ some new_id)
        → (new_id == id) ≡ true
        → ⊥
    not_taken m d new_id e away free same =
        taken_id s m d e n new_id id f.held.held (channel, f.link) (apart_of m n away) free same

    registration_kept :
        (o : Option String) (m : ℕ) (d : Connection) (after : Connection × World V W)
        → s.open_at m ≡ some d
        → m ≢ n
        → ((new_id : String)
            → o ≡ some new_id
            → (link_of new_id s.world.hub ≡ none) ⊎ (d.session_id ≡ some new_id))
        → Outcome o (d, s.world) after
        → link_of id after.1.hub ≡ link_of id s.world.hub
    registration_kept none m d after e away own outcome = outcome.links id
    registration_kept (some new_id) m d after e away own outcome =
        elim (Bool-cases (new_id == id)) [
          | inl same ↦ absurd (not_taken m d new_id e away (own new_id refl) same)
          | inr apart ↦ rw apart at (outcome.links id)
        ]

    removed_kept :
        (gone : String)
        → ((gone == id) ≡ true → ⊥)
        → link_of id (unregister gone s.world.hub) ≡ link_of id s.world.hub
    removed_kept gone own = elim (Bool-cases (gone == id)) [
      | inl same ↦ absurd (own same)
      | inr apart ↦ rw apart at (link_of-unregister gone id s.world.hub f.held.valid)
    ]

    closed_kept :
        (m : ℕ) (d : Connection)
        → s.open_at m ≡ some d
        → m ≢ n
        → link_of id (on_closed (d, s.world)).hub ≡ link_of id s.world.hub
    unfolding on_closed
    closed_kept m d e away = elim (Option-cases d.session_id) [
      | inl none_held ↦ rw none_held refl
      | inr (gone, has) ↦
          rw has (removed_kept gone (λ same. not_taken m d gone e away (inr has) same))
    ]

    same_link :
        (new_id : String) → (new_id == id) ≡ true → link_of new_id s.world.hub ≡ remote_on channel n
    same_link new_id same = ap (λ k. link_of k s.world.hub) ((eq_iff new_id id).0 same) ∙ f.link

    pub link_kept :
        {t : System V W} (st : Step s t)
        → IsExclusive st
        → IsOther n st
        → link_of id t.world.hub ≡ link_of id s.world.hub
    link_kept (accepts m free) own away = refl
    link_kept (receives m d now message e) own away =
        registration_kept (registered_id V message) m d (on_message now message (d, s.world)) e away
          own (on_message-Outcome now message d s.world f.held.valid)
    link_kept (ends m d e) own away = closed_kept m d e away
    link_kept (watches handle now event) own away =
        link_of-handle_event id handle now event s.world.hub
    link_kept (subscribes handle) own away = link_of-connected_rx id handle s.world.hub
    link_kept (drops handle) own away = link_of-drop_connected_rx id handle s.world.hub
    link_kept (shuts_down link) own away = ap (link_of id) (shutdown-hub link s.world)
    link_kept (starts_headless process meta) own away = elim (Bool-cases (meta.session_id == id)) [
      | inl same ↦ cc (own, same_link meta.session_id same)
      | inr apart ↦ rw apart at (
          link_of-register meta.session_id id (AgentLink.headless process) meta s.world.hub
            f.held.valid)
    ]
    link_kept (exits_headless gone) own away =
        removed_kept gone (λ same. own n channel (same_link gone same))

    -- What another connection sends goes to another channel.
    other_channel :
        (m : ℕ) (d : Connection)
        → s.open_at m ≡ some d
        → m ≢ n
        → (j : String) (agent : RemoteAgent) → d.session_id ≡ some j
        → link_of j s.world.hub ≡ some (AgentLink.remote agent)
        → nat_eq channel agent.events_tx ≡ false
    other_channel m d e away j agent has l = elim (Bool-cases (nat_eq channel agent.events_tx)) [
      | inl same ↦
          let shared : agent.events_tx ≡ channel = ground arith in
          let ids = f.channeled.apart j id agent _ l f.link shared in
          absurd (not_taken m d j e away (inr has) ((eq_iff j id).1 ids))
      | inr apart ↦ apart
    ]

    pub published_kept :
        {t : System V W} (st : Step s t)
        → IsOther n st
        → on_channel channel t.world.hub.published ≡ on_channel channel s.world.hub.published
    published_kept (accepts m free) away = refl
    published_kept (receives m d now message e) away =
        ap (on_channel channel) (on_message-published now message d s.world)
        ∙ on_channel-append channel _ s.world.hub.published
        ∙ ap (λ l. l ++ on_channel channel s.world.hub.published)
            (other_news channel d.session_id (payload_of message) s.world.hub
              (other_channel m d e away))
    published_kept (ends m d e) away = ap (on_channel channel) (published-on_closed d s.world)
    published_kept (watches handle now event) away =
        ap (on_channel channel) (published-handle_event handle now event s.world.hub)
    published_kept (subscribes handle) away = refl
    published_kept (drops handle) away = refl
    published_kept (shuts_down link) away =
        ap (λ (h : Hub V W). on_channel channel h.published) (shutdown-hub link s.world)
    published_kept (starts_headless process meta) away =
        ap (on_channel channel) (published-register meta.session_id _ meta s.world.hub)
    published_kept (exits_headless gone) away =
        ap (on_channel channel) (published-unregister gone s.world.hub)
