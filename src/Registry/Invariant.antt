-- ===== src/Registry/Invariant.antt =====
-- src/registry.rs: the well-formedness of the registry, and the operations on it.
use pi_piper.Prelude.{
  ℕ, zero, suc, ◌<◌, ◌≡◌, ◌≢◌, refl, sym, ◌∙◌, subst, String, true, Option, none, some, List, [],
  ◌∷◌, ◌++◌, ap, inl, inr, arith, ◌==◌, eq_iff, length, get_elem?, modify, Bool-cases,
  if◌then◌else◌, get_elem?-modify_ne, get_elem?-append_lt, get_elem?-append_length,
}
use pi_piper.Watch.{Watch}
use pi_piper.Session.{
  AgentLink, SessionMeta, SessionSummary, SessionHandle, new, is_connected, mark_disconnected,
}
use pi_piper.Session.Connected.{is_connected-new}
use pi_piper.Events.{ControlEvent}
use pi_piper.Registry.Map.{
  IsDistinct, insert, lookup-insert, lookup-remove, insert-IsDistinct, remove-IsDistinct,
}
use pi_piper.Registry.{Hub, empty, get, announce, insert_session, retire, register, unregister}

module _ {W : Type 0} ⦃watch : Watch W⦄ where
  -- What a registered id stands for: a connected handle with the id in its metadata.
  abbrev pub IsSession : String → Option (SessionHandle W) → Type 0
  IsSession id none = ⊥
  IsSession id (some s) = (s.meta.session_id ≡ id) × (is_connected s ≡ true)

  -- The arena after `retire`.
  abbrev pub retired : Option ℕ → List (SessionHandle W) → List (SessionHandle W)
  retired none handles = handles
  retired (some old) handles = modify handles old mark_disconnected

  -- A handle that is not the retired one stays as it was.
  IsSession-retired :
      (id : String) (o : Option ℕ) (handles : List (SessionHandle W)) (handle : ℕ)
      → o ≢ some handle
      → IsSession id (get_elem? handles handle)
      → IsSession id (get_elem? (retired o handles) handle)
  IsSession-retired id none handles handle other h = h
  IsSession-retired id (some old) handles handle other h =
      rw (get_elem?-modify_ne handles old handle mark_disconnected (λ e. other (ap some e))) h

  pub IsSession-unique :
      (i j : String) (o : Option (SessionHandle W)) → IsSession i o → IsSession j o → i ≡ j
  IsSession-unique i j none a b = absurd a
  IsSession-unique i j (some s) a b = sym a.0 ∙ b.0

  pub IsSession-modify :
      (id : String) (f : SessionHandle W → SessionHandle W) (xs : List (SessionHandle W)) (i j : ℕ)
      → ((s : SessionHandle W) → IsSession id (some s) → IsSession id (some (f s)))
      → IsSession id (get_elem? xs j)
      → IsSession id (get_elem? (modify xs i f) j)
  IsSession-modify id f [] i j keep h = h
  IsSession-modify id f (x ∷ xs) zero zero keep h = keep x h
  IsSession-modify id f (x ∷ xs) zero (suc j) keep h = h
  IsSession-modify id f (x ∷ xs) (suc i) zero keep h = h
  IsSession-modify id f (x ∷ xs) (suc i) (suc j) keep h = IsSession-modify id f xs i j keep h

  pub IsSession-lt :
      (id : String) (xs : List (SessionHandle W)) (i : ℕ)
      → IsSession id (get_elem? xs i)
      → i < length xs
  IsSession-lt id [] i h = absurd h
  IsSession-lt id (x ∷ xs) zero h = omega arith
  IsSession-lt id (x ∷ xs) (suc i) h = omega (arith, IsSession-lt id xs i h)

module _ (W : Type 0) ⦃watch : Watch W⦄ where
  IsSession-new :
      (id : String) (link : AgentLink) (meta : SessionMeta)
      → meta.session_id ≡ id
      → IsSession id (some (new {W = W} link meta))
  unfolding new
  IsSession-new id link meta same = (same, is_connected-new W link meta)

module _ {V W : Type 0} ⦃watch : Watch W⦄ where
  pub record IsValid (hub : Hub V W) : Type 0 where
    pub distinct : IsDistinct hub.sessions
    pub registered :
        (id : String) (handle : ℕ)
        → get id hub ≡ some handle
        → IsSession id (get_elem? hub.handles handle)

  pub empty-IsValid : IsValid empty
  unfolding get
  empty-IsValid = record { distinct = tt; registered = λ id handle e. cc }

  -- No handle is registered under two ids.
  pub handle_unique :
      (hub : Hub V W) (i j : String) (handle : ℕ)
      → IsValid hub
      → get i hub ≡ some handle
      → get j hub ≡ some handle
      → i ≡ j
  handle_unique hub i j handle v a b =
      IsSession-unique i j _ (v.registered i handle a) (v.registered j handle b)

  pub sessions-announce :
      (event : SessionSummary → ControlEvent) (handle : ℕ) (hub : Hub V W)
      → (announce event handle hub).sessions ≡ hub.sessions
  unfolding announce
  sessions-announce event handle hub = ground arith

  pub handles-announce :
      (event : SessionSummary → ControlEvent) (handle : ℕ) (hub : Hub V W)
      → (announce event handle hub).handles ≡ hub.handles
  unfolding announce
  handles-announce event handle hub = ground arith

  sessions-retire : (o : Option ℕ) (hub : Hub V W) → (retire o hub).sessions ≡ hub.sessions
  unfolding retire
  sessions-retire none hub = refl
  sessions-retire (some old) hub = refl

  handles-retire : (o : Option ℕ) (hub : Hub V W) → (retire o hub).handles ≡ retired o hub.handles
  unfolding retire
  handles-retire none hub = refl
  handles-retire (some old) hub = refl

  pub sessions-register :
      (id : String) (link : AgentLink) (meta : SessionMeta) (hub : Hub V W)
      → (register id link meta hub).sessions ≡ insert id (length hub.handles) hub.sessions
  unfolding register insert_session
  sessions-register id link meta hub =
      sessions-announce _ _ _ ∙ sessions-retire (get id hub) (insert_session id link meta hub)

  pub handles-register :
      (id : String) (link : AgentLink) (meta : SessionMeta) (hub : Hub V W)
      → (register id link meta hub).handles
        ≡ retired (get id hub) (hub.handles ++ new link meta ∷ [])
  unfolding register insert_session
  handles-register id link meta hub =
      handles-announce _ _ _ ∙ handles-retire (get id hub) (insert_session id link meta hub)

  -- The lookup after a registration.
  pub get-register :
      (id j : String) (link : AgentLink) (meta : SessionMeta) (hub : Hub V W)
      → get j (register id link meta hub)
        ≡ (if id == j then some (length hub.handles) else get j hub)
  unfolding get
  get-register id j link meta hub = rw sessions-register (lookup-insert id j _ _)

  pub get-lt :
      (hub : Hub V W) (id : String) (handle : ℕ)
      → IsValid hub
      → get id hub ≡ some handle
      → handle < length hub.handles
  get-lt hub id handle v e = IsSession-lt id hub.handles handle (v.registered id handle e)

  new-IsSession :
      (id : String) (link : AgentLink) (meta : SessionMeta) (hub : Hub V W)
      → meta.session_id ≡ id
      → IsValid hub
      → IsSession id (get_elem? (register id link meta hub).handles (length hub.handles))
  new-IsSession id link meta hub same v = rw handles-register (
      IsSession-retired id (get id hub) _ (length hub.handles)
        (λ e. absurd (omega (arith, get-lt hub id (length hub.handles) v e)))
        (rw (get_elem?-append_length hub.handles (new link meta))
          (IsSession-new W id link meta same)))

  old-IsSession :
      (id j : String) (link : AgentLink) (meta : SessionMeta) (hub : Hub V W) (handle : ℕ)
      → id ≢ j
      → IsValid hub
      → get j hub ≡ some handle
      → IsSession j (get_elem? (register id link meta hub).handles handle)
  old-IsSession id j link meta hub handle other v e = rw handles-register (
      IsSession-retired j (get id hub) _ handle
        (λ same. other (handle_unique hub id j handle v same e))
        (rw (get_elem?-append_lt hub.handles (new link meta ∷ []) handle (get-lt hub j handle v e))
          (v.registered j handle e)))

  -- A registration under the id that is in the metadata keeps the registry valid.
  pub register-IsValid :
      (id : String) (link : AgentLink) (meta : SessionMeta) (hub : Hub V W)
      → meta.session_id ≡ id
      → IsValid hub
      → IsValid (register id link meta hub)
  register-IsValid id link meta hub same v = record {
    distinct = rw sessions-register (insert-IsDistinct id _ _ v.distinct);
    registered = λ j handle e. elim (Bool-cases (id == j)) [
      | inl here ↦
          let p : id ≡ j = (eq_iff id j).0 here in
          let q : length hub.handles ≡ handle = cc (e, get-register id j link meta hub, here) in
          subst (λ k. IsSession k (get_elem? (register id link meta hub).handles handle)) p
            (subst (λ k. IsSession id (get_elem? (register id link meta hub).handles k)) q
              (new-IsSession id link meta hub same v))
      | inr there ↦
          old-IsSession id j link meta hub handle (λ p. cc (there, (eq_iff id j).1 p)) v
            (ground (arith, e, get-register id j link meta hub))
    ];
  }

  unregister-IsDistinct :
      (id : String) (hub : Hub V W)
      → IsDistinct hub.sessions
      → IsDistinct (unregister id hub).sessions
  unfolding unregister
  unregister-IsDistinct id hub d = ground (arith, remove-IsDistinct id hub.sessions d)

  pub handles-unregister :
      (id : String) (hub : Hub V W) → (unregister id hub).handles ≡ retired (get id hub) hub.handles
  unfolding unregister
  handles-unregister id hub = ground arith

  -- The lookup after a removal.
  pub get-unregister :
      (id j : String) (hub : Hub V W)
      → IsDistinct hub.sessions
      → get j (unregister id hub) ≡ (if id == j then none else get j hub)
  unfolding get unregister
  get-unregister id j hub d = ground (arith, lookup-remove id j hub.sessions d, eq_iff id j)

  -- A removal keeps the registry valid.
  pub unregister-IsValid : (id : String) (hub : Hub V W) → IsValid hub → IsValid (unregister id hub)
  unregister-IsValid id hub v = record {
    distinct = unregister-IsDistinct id hub v.distinct;
    registered = λ j handle e.
        let there : id ≢ j = λ p. cc (e, get-unregister id j hub v.distinct, (eq_iff id j).1 p) in
        let before : get j hub ≡ some handle =
          ground (arith, e, get-unregister id j hub v.distinct, eq_iff id j, there) in
        rw handles-unregister (
          IsSession-retired j (get id hub) hub.handles handle
            (λ same. there (handle_unique hub id j handle v same before))
            (v.registered j handle before));
  }
