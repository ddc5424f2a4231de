-- ===== src/Server/Control/Lag.antt =====
-- src/server/control.rs: a phone that falls behind by more than the control channel keeps.
use mathlib.Core.Option
use mathlib.Core.List.{reverse, reverse-cons, append_assoc}
use pi_piper.Prelude.{
  ◌≡◌, refl, sym, ◌∙◌, ap, String, false, Option, none, some, List, [], ◌∷◌, ◌++◌, map, length,
  ◌==◌, eq_refl,
}
use pi_piper.Json.{Json}
use pi_piper.Watch.{Watch}
use pi_piper.Events.{
  ControlEvent, session_connected, session_meta, session_update, session_disconnected,
}
use pi_piper.Session.{SessionSummary}
use pi_piper.Registry.{empty, session}
use pi_piper.Registry.Mirror.{client, live, live-ended, shown_handle}
use pi_piper.Registry.Mirror.Run.{Op, run, client-run}
use pi_piper.Registry.Mirror.Converge.{client-append}
use pi_piper.Server.Control.{received, lagged, forward_control}
use pi_piper.Server.Control.Frames.{announcements, control_frame, forward_control_lem}
use pi_piper.Server.Control.Feed.{announcements-received, closes-received, recv_of-got}
use pi_piper.Server.Control.Channel.{control_channel_capacity, recv_of}
use pi_piper.Server.Ws.{Sink}
use pi_piper.Server.Ws.Relay.{send_all}
use pi_piper.Broadcast.{Receiver}
use pi_piper.Broadcast.Order.{catches_up, catches_up_lem}

-- The session that a message is about.
abbrev pub subject : ControlEvent → String
subject (session_connected s) = s.meta.session_id
subject (session_meta s) = s.meta.session_id
subject (session_update s) = s.meta.session_id
subject (session_disconnected id) = id

-- No message is about the session.
abbrev pub IsSilent : String → List ControlEvent → Type 0
IsSilent id [] = Unit
IsSilent id (e ∷ rest) = (subject e == id ≡ false) × IsSilent id rest

client-silent :
    (id : String) (e : ControlEvent) (base : Option SessionSummary)
    → subject e == id ≡ false
    → client base (e ∷ []) id ≡ base
client-silent id (session_connected s) base h = rw h
client-silent id (session_meta s) base h = rw h
client-silent id (session_update s) base h = rw h
client-silent id (session_disconnected gone) base h = rw h

client-reverse :
    (id : String) (kept : List ControlEvent) (base : Option SessionSummary)
    → IsSilent id kept
    → client base (reverse kept) id ≡ base
client-reverse id [] base h = refl
client-reverse id (e ∷ rest) base h =
    ap (λ l. client base l id) (reverse-cons e rest)
    ∙ client-append id base (reverse rest) (e ∷ [])
    ∙ ap (λ b. client b (reverse rest) id) (client-silent id e base h.0)
    ∙ client-reverse id rest base h.1

-- What a phone knows of a session that has ended, where every later message is about others.
client-disconnected :
    (id : String) (kept older : List ControlEvent)
    → IsSilent id kept
    → live (client none (reverse (session_disconnected id ∷ kept) ++ older) id) ≡ none
client-disconnected id kept older h =
    ap (λ l. live (client none (l ++ older) id)) (reverse-cons (session_disconnected id) kept)
    ∙ ap (λ l. live (client none l id))
        (append_assoc (reverse kept) (session_disconnected id ∷ []) older)
    ∙ ap live (
        client-append id none (reverse kept) (session_disconnected id ∷ older)
        ∙ client-reverse id kept _ h)
    ∙ rw (eq_refl id) (live-ended (client none older id))

none_of_map {ℓ κ} :
    {A : Type ℓ} {B : Type κ} (f : A → B) (o : Option A) → none ≡ Option.map f o → o ≡ none
none_of_map f none h = refl
none_of_map f (some x) h = cc

module _ {V : Type 0} (W : Type 0) {S R : Type 0} ⦃json : Json V⦄ ⦃watch : Watch W⦄ ⦃sink : Sink S⦄
    ⦃receiver : Receiver ControlEvent R⦄ where
  -- After any operations from the empty registry whose last message about a session is its end,
  -- followed by 256 messages about other sessions: where all these are still pending at a phone's
  -- receiver, on a channel made with a capacity of 256, the session is not registered; the turns in
  -- which the loop of the control channel receives all that the channel has kept send the phone one
  -- frame for each of the 256 messages, in order, up to the first failed send, and no new list; and
  -- after these messages the phone has of the session what it had before.
  pub lag_keeps_gone :
      (ops : List (Op V)) (r : R) (dropped kept older : List ControlEvent) (id : String)
      (base : Option SessionSummary) (s : S)
      → let hub = run {W = W} ops empty in
        hub.control ≡ reverse (session_disconnected id ∷ kept) ++ older
        → receiver.pending r ≡ dropped ++ session_disconnected id ∷ kept
        → receiver.capacity ≡ control_channel_capacity
        → length kept ≡ control_channel_capacity
        → IsSilent id kept
        → (session id hub ≡ none)
          × (forward_control V (map recv_of (catches_up kept r)) s
              ≡ send_all false (map (control_frame V) kept) s)
          × (client base (reverse kept) id ≡ base)
  lag_keeps_gone ops r dropped kept older id base s c p same n h =
      let seen =
        ap (map recv_of) (catches_up_lem r dropped kept (session_disconnected id) p (n ∙ sym same))
        ∙ ap (λ l. lagged ∷ l) (recv_of-got kept) in
      (
        none_of_map shown_handle (session id (run {W = W} ops empty)) (
            sym (ap (λ l. live (client none l id)) c ∙ client-disconnected id kept older h)
            ∙ client-run W ops id),
        ap (λ l. forward_control V l s) seen
            ∙ forward_control_lem V (lagged ∷ map received kept) s
            ∙ ap (λ b. send_all b (map (control_frame V) (announcements (map received kept))) s)
                (closes-received kept)
            ∙ ap (λ l. send_all false (map (control_frame V) l) s) (announcements-received kept),
        client-reverse id kept base h,
      )
