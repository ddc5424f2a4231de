-- ===== src/Server/Agent/Lifetime.antt =====
-- src/server/agent.rs: the whole of `handle`, from the registration of a session to the end of its
-- connection.
use mathlib.Core.List.{append_assoc}
use pi_piper.Prelude.{
  ℕ, ℤ, String, ◌≡◌, refl, sym, ap, subst, ◌∙◌, Option, none, some, List, [], ◌∷◌, ◌++◌, map,
  length, ◌==◌, eq_refl, Bool-cases, inl, inr, if◌then◌else◌,
}
use pi_piper.Json.{Json}
use pi_piper.Watch.{Watch}
use pi_piper.Session.{AgentLink}
use pi_piper.Preview.{str_field}
use pi_piper.Registry.{Hub}
use pi_piper.Registry.Invariant.{IsValid}
use pi_piper.Rpc.RemoteAgent.{Message, text}
use pi_piper.Server.Agent.{World, Connection, on_message, read_loop, on_closed, handle}
use pi_piper.Server.Agent.Frames.{on_message-IsValid}
use pi_piper.Server.Agent.Links.{link_of, link_of-unregister}
use pi_piper.Server.Agent.Outcome.{registered_id, Outcome, Keeps, Takes, on_message-Outcome}
use pi_piper.Server.Agent.Published.{
  payload_of, over, emitted, on_message-published, published-on_closed,
}
use pi_piper.Server.Agent.Owners.Traffic.{listed}

module _ (V : Type 0) ⦃json : Json V⦄ where
  -- No message up to an error registers an id.
  abbrev pub RegistersNothing : List (ℤ × Option Message) → Type 0
  RegistersNothing [] = Unit
  RegistersNothing ((now, none) ∷ rest) = Unit
  RegistersNothing ((now, some message) ∷ rest) =
      (registered_id V message ≡ none) × RegistersNothing rest

module _ {V : Type 0} ⦃json : Json V⦄ where
  -- The RPC messages up to an error, the newest first.
  abbrev pub news : List (ℤ × Option Message) → List V
  news [] = []
  news ((now, none) ∷ rest) = []
  news ((now, some message) ∷ rest) = news rest ++ listed (payload_of message)

  abbrev pub sent_on : ℕ → List V → List (ℕ × V)
  sent_on channel payloads = map (λ payload. (channel, payload)) payloads

  sent_on-append :
      (channel : ℕ) (xs ys : List V)
      → sent_on channel (xs ++ ys) ≡ sent_on channel xs ++ sent_on channel ys
  sent_on-append channel [] ys = refl
  sent_on-append channel (x ∷ xs) ys = ap (λ l. (channel, x) ∷ l) (sent_on-append channel xs ys)

module _ {V W : Type 0} where
  own_emitted :
      (channel number : ℕ) (id : String) (o : Option V) (hub : Hub V W)
      → link_of id hub ≡ some (AgentLink.remote (record { to_agent = number; events_tx = channel }))
      → emitted (some id) o hub ≡ map (λ payload. (channel, payload)) (listed o)
  own_emitted channel number id none hub l = refl
  own_emitted channel number id (some payload) hub l = ap (λ link. over link payload) l

module _ {V W : Type 0} ⦃watch : Watch W⦄ where
  -- What a run of the loop leaves of the registry: a valid one with the same links, and what was
  -- sent on the channel on top of what had been sent.
  record IsServed (channel : ℕ) (sent : List V) (before after : Connection × World V W)
      : Type 0 where
    valid : IsValid after.1.hub
    connection : after.0 ≡ before.0
    links : (j : String) → link_of j after.1.hub ≡ link_of j before.1.hub
    published :
        after.1.hub.published ≡ map (λ payload. (channel, payload)) sent ++ before.1.hub.published

module _ {V W : Type 0} ⦃json : Json V⦄ ⦃watch : Watch W⦄ where
  kept_message :
      (o : Option String) (before after : Connection × World V W)
      → o ≡ none
      → Outcome o before after
      → Keeps before after
  kept_message none before after e outcome = outcome
  kept_message (some id) before after e outcome = cc e

  taken_message :
      (o : Option String) (id : String) (before after : Connection × World V W)
      → o ≡ some id
      → Outcome o before after
      → Takes id before after
  taken_message o id before after e outcome = subst (λ p. Outcome p before after) e outcome

  read_loop-IsServed :
      (channel number : ℕ) (id : String) (incoming : List (ℤ × Option Message)) (c : Connection)
      (world : World V W)
      → IsValid world.hub
      → c.session_id ≡ some id
      → link_of id world.hub
        ≡ some (AgentLink.remote (record { to_agent = number; events_tx = channel }))
      → RegistersNothing V incoming
      → IsServed channel (news incoming) (c, world) (read_loop incoming (c, world))
  unfolding read_loop
  read_loop-IsServed channel number id [] c world v holds link quiet = record {
    valid = v;
    connection = refl;
    links = λ j. refl;
    published = refl;
  }
  read_loop-IsServed channel number id ((now, none) ∷ rest) c world v holds link quiet = record {
    valid = v;
    connection = refl;
    links = λ j. refl;
    published = refl;
  }
  read_loop-IsServed channel number id ((now, some message) ∷ rest) c world v holds link quiet =
      let state = on_message now message (c, world) in
      let kept =
        kept_message (registered_id V message) (c, world) state quiet.0
          (on_message-Outcome now message c world v) in
      let later =
        read_loop-IsServed channel number id rest state.0 state.1
          (on_message-IsValid now message c world v)
          (ap (λ (k : Connection). k.session_id) kept.connection ∙ holds) (kept.links id ∙ link)
          quiet.1 in
      let own =
        on_message-published now message c world
        ∙ ap (λ o. emitted o (payload_of message) world.hub ++ world.hub.published) holds
        ∙ ap (λ l. l ++ world.hub.published)
            (own_emitted channel number id (payload_of message) world.hub link) in
      record {
        valid = later.valid;
        connection = later.connection ∙ kept.connection;
        links = λ j. later.links j ∙ kept.links j;
        published =
            later.published
            ∙ ap (λ l. sent_on channel (news rest) ++ l) own
            ∙ sym (append_assoc (sent_on channel (news rest)) _ world.hub.published)
            ∙ ap (λ l. l ++ world.hub.published)
                (sym (sent_on-append channel (news rest) (listed (payload_of message))));
      }

  link_of-on_closed :
      (id j : String) (c : Connection) (world : World V W)
      → IsValid world.hub
      → c.session_id ≡ some id
      → link_of j (on_closed (c, world)).hub ≡ (if id == j then none else link_of j world.hub)
  unfolding on_closed
  link_of-on_closed id j c world v holds = rw holds (link_of-unregister id j world.hub v)

  pub handle_lem :
      (id j body : String) (now : ℤ) (frame : V) (number : ℕ) (incoming : List (ℤ × Option Message))
      (world : World V W)
      → IsValid world.hub
      → json.from_str body ≡ some frame
      → str_field frame "type" ≡ some "register"
      → str_field frame "sessionId" ≡ some id
      → RegistersNothing V incoming
      → let after = handle number ((now, some (text body)) ∷ incoming) world in
        (after.hub.published
          ≡ sent_on (length world.hub.handles) (news incoming) ++ world.hub.published)
        × (link_of j after.hub ≡ (if id == j then none else link_of j world.hub))
  unfolding handle read_loop
  handle_lem id j body now frame number incoming world v parses typed named quiet =
      let c : Connection = record { number = number; session_id = none } in
      let state = on_message now (text body) (c, world) in
      let taken =
        taken_message (registered_id V (text body)) id (c, world) state
          (rw (parses, typed, named) refl) (on_message-Outcome now (text body) c world v) in
      let valid = on_message-IsValid now (text body) c world v in
      let served =
        read_loop-IsServed (length world.hub.handles) number id incoming state.0 state.1 valid
          taken.holds (taken.links id ∙ rw (eq_refl id, taken.newest) refl) quiet in
      let last = read_loop incoming state in
      (
        published-on_closed last.0 last.1
            ∙ served.published
            ∙ ap (λ l. sent_on (length world.hub.handles) (news incoming) ++ l)
                (on_message-published now (text body) c world),
        link_of-on_closed id j last.0 last.1 served.valid
              (ap (λ (k : Connection). k.session_id) served.connection ∙ taken.holds)
            ∙ (elim (Bool-cases (id == j)) [
              | inl e ↦ rw e refl
              | inr e ↦ rw e (served.links j ∙ taken.links j ∙ rw e refl)
            ]),
      )
