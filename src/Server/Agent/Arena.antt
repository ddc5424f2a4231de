-- ===== src/Server/Agent/Arena.antt =====
-- src/server/agent.rs: how many handles the registry has made after one message of a connection.
use pi_piper.Prelude.{
  ℕ, ℤ, suc, String, ◌≡◌, refl, ap, ◌∙◌, Option, none, some, length, length-append, length-modify,
  get_elem?, Option-cases, Bool-cases, inl, inr, arith, unwrap_or, List,
}
use pi_piper.Json.{Json}
use pi_piper.Watch.{Watch}
use pi_piper.Session.{AgentLink, SessionMeta, SessionHandle}
use pi_piper.Preview.{str_field}
use pi_piper.Registry.{Hub, get, register, unregister, update_meta, publish, handle_event}
use pi_piper.Registry.Invariant.{handles-register, handles-unregister, handles-announce, retired}
use pi_piper.Registry.Updates.{handles-publish, handles-apply_event}
use pi_piper.Status.{is_status_event}
use pi_piper.Rpc.RemoteAgent.{Message}
use pi_piper.Server.Agent.{World, Connection, when_both, register_with, on_register, on_message}
use pi_piper.Server.Agent.Outcome.{frame_id, registered_id}
use pi_piper.Server.Agent.Dispatch.{DispatchCases, on_message_ind}

-- A registration makes one handle.
abbrev pub size_after : Option String → ℕ → ℕ
size_after none n = n
size_after (some id) n = suc n

module _ {V W : Type 0} where
  abbrev pub size : Hub V W → ℕ
  size hub = length hub.handles

module _ {W : Type 0} ⦃watch : Watch W⦄ where
  length-retired :
      (o : Option ℕ) (handles : List (SessionHandle W))
      → length (retired o handles) ≡ length handles
  length-retired none handles = refl
  length-retired (some old) handles = length-modify handles old _

module _ {V W : Type 0} ⦃watch : Watch W⦄ where
  pub size-publish :
      (id : String) (payload : V) (hub : Hub V W) → size (publish id payload hub) ≡ size hub
  size-publish id payload hub = ap length (handles-publish id payload hub)

  pub size-register :
      (id : String) (link : AgentLink) (meta : SessionMeta) (hub : Hub V W)
      → size (register id link meta hub) ≡ suc (size hub)
  size-register id link meta hub =
      ap length (handles-register id link meta hub)
      ∙ length-retired (get id hub) _
      ∙ length-append hub.handles _
      ∙ omega arith

  pub size-unregister : (id : String) (hub : Hub V W) → size (unregister id hub) ≡ size hub
  size-unregister id hub =
      ap length (handles-unregister id hub) ∙ length-retired (get id hub) hub.handles

module _ {V W : Type 0} ⦃json : Json V⦄ ⦃watch : Watch W⦄ where
  pub size-update_meta :
      (id : String) (patch : V) (hub : Hub V W) → size (update_meta id patch hub) ≡ size hub
  unfolding update_meta
  size-update_meta id patch hub = elim (Option-cases (get id hub)) [
    | inl e ↦ rw (update_meta, e) refl
    | inr (handle, e) ↦
        rw (update_meta, e)
          (ap length (handles-announce _ handle _) ∙ length-modify hub.handles handle _)
  ]

  pub size-handle_event :
      (handle : ℕ) (now : ℤ) (event : V) (hub : Hub V W)
      → size (handle_event handle now event hub) ≡ size hub
  unfolding handle_event
  size-handle_event handle now event hub =
      let ty = unwrap_or (str_field event "type") "" in
      elim (Bool-cases (is_status_event ty)) [
        | inr e ↦ rw e refl
        | inl e ↦ elim (Option-cases (get_elem? hub.handles handle)) [
          | inl gone ↦ rw (e, gone) refl
          | inr (s, found) ↦
              rw (e, found)
                (ap length (handles-apply_event ty now handle event s hub)
                  ∙ length-modify hub.handles handle _)
        ]
      ]

  when_both-size :
      (o : Option String) (p : Option V) (f : String → V → Hub V W → Hub V W) (world : World V W)
      → ((id : String) (value : V) → size (f id value world.hub) ≡ size world.hub)
      → size (when_both o p f world).hub ≡ size world.hub
  when_both-size none p f world keep = refl
  when_both-size (some id) none f world keep = refl
  when_both-size (some id) (some value) f world keep = keep id value

  register_with-size :
      (o : Option String) (now : ℤ) (frame : V) (connection : Connection) (world : World V W)
      → size (register_with o now frame (connection, world)).1.hub ≡ size_after o (size world.hub)
  unfolding on_register
  register_with-size none now frame connection world = refl
  register_with-size (some id) now frame connection world = size-register id _ _ world.hub

  dispatch-size :
      (now : ℤ) (frame : V) (connection : Connection) (world : World V W)
      → DispatchCases
          (λ o state.
            size state.1.hub
            ≡ size_after (frame_id o (str_field frame "sessionId")) (size world.hub))
          now
          frame
          connection
          world
  dispatch-size now frame connection world =
      let id = connection.session_id in
      let publishes = λ (k : String).
        when_both-size id (json.get frame k) publish world (λ i p. size-publish i p world.hub) in
      record {
        untyped = refl;
        registering = register_with-size (str_field frame "sessionId") now frame connection world;
        patching =
            when_both-size id (json.get frame "patch") update_meta world
              (λ i p. size-update_meta i p world.hub);
        publishing_event = publishes "event";
        publishing_response = publishes "response";
        skipping = λ ty skipped. rw skipped.no_register refl;
      }

  -- A message makes a handle when it registers an id, and else none.
  pub on_message-size :
      (now : ℤ) (message : Message) (connection : Connection) (world : World V W)
      → size (on_message now message (connection, world)).1.hub
        ≡ size_after (registered_id V message) (size world.hub)
  on_message-size now message connection world =
      on_message_ind (λ m state. size state.1.hub ≡ size_after (registered_id V m) (size world.hub))
        (λ ty frame state.
          size state.1.hub
          ≡ size_after (frame_id ty (str_field frame "sessionId")) (size world.hub))
        now message connection world refl refl (λ body e. rw e refl)
        (λ body frame after e h. rw e h) (λ frame. dispatch-size now frame connection world)
