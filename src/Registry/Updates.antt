-- ===== src/Registry/Updates.antt =====
-- src/registry.rs: the operations that change a session in place, and the invariant.
use pi_piper.Prelude.{
  ℕ, ℤ, ◌≡◌, String, some, arith, get_elem?, modify, unwrap_or, Option-cases, Bool-cases, inl, inr,
}
use pi_piper.Json.{Json}
use pi_piper.Watch.{Watch}
use pi_piper.Events.{session_meta}
use pi_piper.Session.{SessionHandle, SessionStatus, is_connected}
use pi_piper.Preview.{str_field}
use pi_piper.Status.{patch_meta, is_status_event, next_status}
use pi_piper.Registry.{Hub, get, announce, update_meta, publish, apply_event, handle_event}
use pi_piper.Registry.Invariant.{
  IsSession, IsSession-modify, IsValid, sessions-announce, handles-announce,
}

module _ {V W : Type 0} ⦃watch : Watch W⦄ where
  -- A change of one handle that keeps its id and its connection keeps the registry valid.
  pub modify-IsValid :
      (f : SessionHandle W → SessionHandle W) (handle : ℕ) (hub hub' : Hub V W)
      → ((id : String) (s : SessionHandle W) → IsSession id (some s) → IsSession id (some (f s)))
      → hub'.sessions ≡ hub.sessions
      → hub'.handles ≡ modify hub.handles handle f
      → IsValid hub
      → IsValid hub'
  unfolding get
  modify-IsValid f handle hub hub' keep s h v = record {
    distinct = rw s v.distinct;
    registered = λ id i e.
        rw h
          (IsSession-modify id f hub.handles handle i (keep id) (v.registered id i (rw (← s) e)));
  }

  -- The sends on a channel and the spawned tasks do not matter.
  pub same-IsValid :
      (hub hub' : Hub V W)
      → hub'.sessions ≡ hub.sessions
      → hub'.handles ≡ hub.handles
      → IsValid hub
      → IsValid hub'
  unfolding get
  same-IsValid hub hub' s h v = record {
    distinct = rw s v.distinct;
    registered = λ id handle e. rw h (v.registered id handle (rw (← s) e));
  }

  pub sessions-publish :
      (id : String) (payload : V) (hub : Hub V W) → (publish id payload hub).sessions ≡ hub.sessions
  unfolding publish
  sessions-publish id payload hub = ground arith

  pub handles-publish :
      (id : String) (payload : V) (hub : Hub V W) → (publish id payload hub).handles ≡ hub.handles
  unfolding publish
  handles-publish id payload hub = ground arith

  pub publish-IsValid :
      (id : String) (payload : V) (hub : Hub V W) → IsValid hub → IsValid (publish id payload hub)
  publish-IsValid id payload hub =
      same-IsValid hub (publish id payload hub) (sessions-publish id payload hub)
        (handles-publish id payload hub)

module _ {W : Type 0} where
  abbrev pub with_status : SessionStatus → SessionHandle W → SessionHandle W
  with_status status s = record s { status = status }

module _ {W : Type 0} ⦃watch : Watch W⦄ where
  with_status-IsSession :
      (status : SessionStatus) (id : String) (s : SessionHandle W)
      → IsSession id (some s)
      → IsSession id (some (with_status status s))
  unfolding is_connected
  with_status-IsSession status id s h = h

module _ {V W : Type 0} ⦃json : Json V⦄ ⦃watch : Watch W⦄ where
  abbrev pub patched : V → SessionHandle W → SessionHandle W
  patched patch s = record s { meta = patch_meta patch s.meta }

  patched-IsSession :
      (patch : V) (id : String) (s : SessionHandle W)
      → IsSession id (some s)
      → IsSession id (some (patched patch s))
  unfolding patch_meta is_connected
  patched-IsSession patch id s h = h

  -- A `meta_update` keeps the registry valid.
  pub update_meta-IsValid :
      (id : String) (patch : V) (hub : Hub V W) → IsValid hub → IsValid (update_meta id patch hub)
  unfolding update_meta
  update_meta-IsValid id patch hub v = elim (Option-cases (get id hub)) [
    | inl e ↦ rw (update_meta, e) v
    | inr (handle, e) ↦
        rw (update_meta, e)
          (modify-IsValid (patched patch) handle hub _ (patched-IsSession patch)
            (sessions-announce session_meta handle _) (handles-announce session_meta handle _) v)
  ]

  -- The status that an event leaves, and the hub with it.
  abbrev pub status_of : String → ℤ → V → SessionHandle W → SessionStatus
  status_of ty now event s = next_status ty event (record s.status { last_activity_at_ms = now })

  pub sessions-apply_event :
      (ty : String) (now : ℤ) (handle : ℕ) (event : V) (s : SessionHandle W) (hub : Hub V W)
      → (apply_event ty now handle event s hub).sessions ≡ hub.sessions
  unfolding apply_event announce
  sessions-apply_event ty now handle event s hub = ground arith

  pub handles-apply_event :
      (ty : String) (now : ℤ) (handle : ℕ) (event : V) (s : SessionHandle W) (hub : Hub V W)
      → (apply_event ty now handle event s hub).handles
        ≡ modify hub.handles handle (with_status (status_of ty now event s))
  unfolding apply_event announce
  handles-apply_event ty now handle event s hub = ground arith

  -- An event of any watched handle keeps the registry valid.
  pub handle_event-IsValid :
      (handle : ℕ) (now : ℤ) (event : V) (hub : Hub V W)
      → IsValid hub
      → IsValid (handle_event handle now event hub)
  unfolding handle_event
  handle_event-IsValid handle now event hub v =
      let ty = unwrap_or (str_field event "type") "" in
      elim (Bool-cases (is_status_event ty)) [
        | inr e ↦ rw e v
        | inl e ↦ elim (Option-cases (get_elem? hub.handles handle)) [
          | inl gone ↦ rw (e, gone) v
          | inr (s, found) ↦
              rw (e, found)
                (modify-IsValid (with_status (status_of ty now event s)) handle hub _
                  (with_status-IsSession (status_of ty now event s))
                  (sessions-apply_event ty now handle event s hub)
                  (handles-apply_event ty now handle event s hub) v)
        ]
      ]
