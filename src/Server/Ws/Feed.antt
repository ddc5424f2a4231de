-- ===== src/Server/Ws/Feed.antt =====
-- src/server/ws.rs, src/server/agent.rs, src/registry.rs and src/rpc/process.rs: the events of a
-- terminal, or of the child process, on their way to the phones that follow its session.
use mathlib.Core.Option
use mathlib.Core.Option.{some-injective}
use mathlib.Core.List.{reverse, append_cancel_right, reverse-reverse}
use pi_piper.Prelude.{
  ℕ, String, ◌≡◌, refl, sym, ap, ◌∙◌, Bool, false, Option, some, List, [], ◌∷◌, ◌++◌, map, length,
  ◌<◌,
}
use pi_piper.Json.{Json}
use pi_piper.Watch.{Watch}
use pi_piper.Session.{AgentLink, SessionHandle}
use pi_piper.Rpc.{AsyncWrite, Lines}
use pi_piper.Rpc.Framing.{All, NoNewline, unlines, parsed, LineText, forward_stdout-unlines}
use pi_piper.Rpc.Process.{forward_stdout}
use pi_piper.Rpc.Process as Process
use pi_piper.Rpc.RemoteAgent.{Message, text, event_channel_capacity}
use pi_piper.Registry.{session}
use pi_piper.Registry.Watcher.{Signal, received, lagged}
use pi_piper.Link.{Links, Channel, of_agent, of_process, subscribe}
use pi_piper.Broadcast.{Polled, got, missed, Receiver, Turn, sent, KeepsUp}
use pi_piper.Broadcast.Order.{received_all, received_all_lem, catches_up, catches_up_lem}
use pi_piper.Server.Agent.{Connection}
use pi_piper.Server.Agent.Owners.{fresh}
use pi_piper.Server.Agent.Owners.Exclusive.{ExclusiveReach}
use pi_piper.Server.Agent.Owners.Traffic.{Traffic, on_channel}
use pi_piper.Server.Agent.Owners.Delivery.{messages_delivered}
use pi_piper.Server.Agent.Worlds.{System}
use pi_piper.Server.Ws.{Sink, forward_events}
use pi_piper.Server.Ws.Bridge.{bridge}
use pi_piper.Server.Ws.Relay.{relayed, is_over, send_all, forward_events_lem}

-- What `events.recv()` returns.
abbrev pub signal_of : {V : Type 0} → Polled V → Signal V
signal_of (got event) = received event
signal_of missed = lagged

module _ {V : Type 0} where
  relayed-got : (events : List V) → relayed (map signal_of (map got events)) ≡ events
  relayed-got [] = refl
  relayed-got (e ∷ events) = ap (λ l. e ∷ l) (relayed-got events)

  is_over-got : (events : List V) → is_over (map signal_of (map got events)) ≡ false
  is_over-got [] = refl
  is_over-got (e ∷ events) = is_over-got events

module _ {V : Type 0} ⦃json : Json V⦄ where
  abbrev pub event_frame : V → Message
  event_frame event = text (json.to_string event)

module _ {V S : Type 0} ⦃json : Json V⦄ ⦃sink : Sink S⦄ where
  forward_events-got :
      (events : List V) (polled : List (Polled V)) (s : S)
      → polled ≡ map got events
      → forward_events (map signal_of polled) s ≡ send_all false (map event_frame events) s
  forward_events-got events polled s e =
      ap (λ l. forward_events (map signal_of l) s) e
      ∙ forward_events_lem (map signal_of (map got events)) s
      ∙ ap (λ b. send_all b (map event_frame (relayed (map signal_of (map got events)))) s)
          (is_over-got events)
      ∙ ap (λ l. send_all false (map event_frame l) s) (relayed-got events)

  -- Where the receiver of a bridge, on a channel made with a capacity of 1024, has more values
  -- pending than that, the turns in which it receives all that the channel has kept send the phone
  -- one frame for each of the newest 1024, in order, up to the first failed send; the older ones are
  -- skipped, and the bridge goes on.
  pub lag_skips :
      {R : Type 0} ⦃receiver : Receiver V R⦄ (r : R) (dropped kept : List V) (event : V) (s : S)
      → receiver.capacity ≡ event_channel_capacity
      → receiver.pending r ≡ dropped ++ event ∷ kept
      → length kept ≡ event_channel_capacity
      → forward_events (map signal_of (catches_up kept r)) s
        ≡ send_all false (map event_frame kept) s
  unfolding forward_events
  lag_skips r dropped kept event s c p n =
      ap (λ l. forward_events (map signal_of l) s)
        (catches_up_lem r dropped kept event p (n ∙ sym c))
      ∙ forward_events-got kept (map got kept) s refl

module _ {V W S L : Type 0} ⦃json : Json V⦄ ⦃watch : Watch W⦄ ⦃sink : Sink S⦄ ⦃stdin : AsyncWrite L⦄
    (uuid : ℕ → String) where
  bridge_events :
      (handle : SessionHandle W) (signals : Channel → List (Signal V))
      (messages : List (Option Message)) (socket : S) (links : Links L) (polled : List (Polled V))
      (events : List V)
      → signals (subscribe handle.link) ≡ map signal_of polled
      → polled ≡ map got events
      → (bridge uuid handle signals messages socket links).1
        ≡ (send_all false (map event_frame events) socket).0
  unfolding bridge
  bridge_events handle signals messages socket links polled events e g =
      ap (λ l. (forward_events l socket).0) e
      ∙ ap (λ (x : S × Bool). x.0) (forward_events-got events polled socket g)

module _ {V W S L R : Type 0} ⦃json : Json V⦄ ⦃watch : Watch W⦄ ⦃sink : Sink S⦄
    ⦃stdin : AsyncWrite L⦄ ⦃receiver : Receiver V R⦄ (uuid : ℕ → String) where
  -- From any system that is reached from a hub without sessions and connections by steps that take
  -- no id from its holder: let a connection hold an id whose session is linked to it, and let a
  -- phone be bridged to that session. The connection then sends messages that register no id, while
  -- everything else takes any steps that take no id from its holder. If nothing is pending at the
  -- phone's subscription, what is sent on the session's channel in the meantime is what the phone's
  -- receiver is sent, never more than 1024 of these values are pending at a turn of the bridge's
  -- task or at the end, on a channel made with that capacity, and the task then has one more turn
  -- for each value still pending and is handed nothing else, the bridge sends the phone one frame
  -- per RPC message of this connection, in order, up to the first failed send, and nothing else.
  pub events_reach_phones :
      (n channel : ℕ) (id : String) (c : Connection) {s t : System V W} {news : List V}
      (turns : List (Turn V)) (r : R) (handle : SessionHandle W)
      (signals : Channel → List (Signal V)) (messages : List (Option Message)) (socket : S)
      (links : Links L)
      → ExclusiveReach fresh s
      → s.open_at n ≡ some c
      → c.session_id ≡ some id
      → session id s.world.hub ≡ some handle
      → handle.link ≡ AgentLink.remote (record { to_agent = n; events_tx = channel })
      → Traffic n s news t
      → on_channel channel t.world.hub.published
        ≡ reverse (sent turns) ++ on_channel channel s.world.hub.published
      → receiver.pending r ≡ []
      → KeepsUp event_channel_capacity turns r
      → signals (of_agent channel) ≡ map signal_of (received_all turns r)
      → (bridge uuid handle signals messages socket links).1
        ≡ (send_all false (map event_frame (reverse news)) socket).0
  unfolding subscribe
  events_reach_phones n channel id c {news = news} turns r handle signals messages socket links
        reach opened holds registered link traffic sends p h e =
      let linked = ap (Option.map (λ (k : SessionHandle W). k.link)) registered ∙ ap some link in
      let (told, _, _) = messages_delivered n channel id c reach opened holds linked traffic in
      let same = append_cancel_right (reverse (sent turns)) news _ (sym sends ∙ told) in
      bridge_events uuid handle signals messages socket links (received_all turns r) (reverse news)
        (ap (λ k. signals (subscribe k)) link ∙ e)
        (received_all_lem event_channel_capacity turns r p h
          ∙ ap (map got) (sym (reverse-reverse (sent turns)) ∙ ap reverse same))

module _ {V W S L R : Type 0} (C : Type 0) ⦃json : Json V⦄ ⦃watch : Watch W⦄ ⦃sink : Sink S⦄
    ⦃stdin : AsyncWrite L⦄ ⦃receiver : Receiver V R⦄ ⦃lines : Lines C⦄ ⦃source : LineText C⦄
    (uuid : ℕ → String) where
  -- Where no line of the child's stdout has a newline in it, the rounds are more than the lines, and
  -- a phone that is bridged to the child's session has subscribed after the task has sent the first
  -- of the events that it forwards: if nothing is pending at the subscription, never more than 1024
  -- events are pending at a turn of the bridge's task or at the end, on a channel made with that
  -- capacity, and the task then has one more turn for each event still pending and is handed nothing
  -- else, the lines that are JSON are these first events and then those of which the bridge sends
  -- the phone one frame each, in order, up to the first failed send.
  pub stdout_reaches_phones :
      (process : ℕ) (ls : List String) (rounds : ℕ) (earlier : List V) (turns : List (Turn V))
      (r : R) (handle : SessionHandle W) (signals : Channel → List (Signal V))
      (messages : List (Option Message)) (socket : S) (links : Links L)
      → All NoNewline ls
      → length ls < rounds
      → handle.link ≡ AgentLink.headless process
      → forward_stdout rounds (source.of_text (unlines ls)) ≡ some (earlier ++ sent turns)
      → receiver.pending r ≡ []
      → KeepsUp Process.event_channel_capacity turns r
      → signals (of_process process) ≡ map signal_of (received_all turns r)
      → (later : List V) × (parsed ls ≡ earlier ++ later)
        × ((bridge uuid handle signals messages socket links).1
            ≡ (send_all false (map event_frame later) socket).0)
  unfolding subscribe
  stdout_reaches_phones process ls rounds earlier turns r handle signals messages socket links whole
        more link sends p h e =
      (
        sent turns,
        some-injective _ _ (sym (forward_stdout-unlines C ls rounds whole more) ∙ sends),
        bridge_events uuid handle signals messages socket links (received_all turns r) (sent turns)
            (ap (λ k. signals (subscribe k)) link ∙ e)
            (received_all_lem Process.event_channel_capacity turns r p h),
      )
