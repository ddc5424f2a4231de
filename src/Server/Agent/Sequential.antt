-- ===== src/Server/Agent/Sequential.antt =====
-- src/server/agent.rs: the whole of `handle` as steps of the hub with any number of connections.
use pi_piper.Prelude.{
  ℕ, ℤ, ◌≡◌, refl, sym, ap, ◌∙◌, true, false, Option, none, some, List, [], ◌∷◌, nat_eq, Bool-cases,
  inl, inr, arith,
}
use pi_piper.Json.{Json}
use pi_piper.Watch.{Watch}
use pi_piper.Rpc.RemoteAgent.{Message}
use pi_piper.Server.Agent.{World, Connection, on_message, read_loop, on_closed, handle}
use pi_piper.Server.Agent.Worlds.{
  System, update_at, after_message, accepts, receives, ends, Reach, here, next,
}

freed :
    (n m : ℕ) (f g : ℕ → Option Connection)
    → g n ≡ none
    → nat_eq n m ≡ true
    → update_at n none f m ≡ g m
freed n m f g free e = let same : n ≡ m = ground arith in rw e (sym free ∙ ap g same)

module _ {V W : Type 0} ⦃json : Json V⦄ ⦃watch : Watch W⦄ where
  Reach-trans : {s t u : System V W} → Reach s t → Reach t u → Reach s u
  Reach-trans first here = first
  Reach-trans first (next rest st) = next (Reach-trans first rest) st

  -- The loop has been run on the connection `n`, and the other connections are as before.
  record IsAfterLoop (n : ℕ) (s : System V W) (state : Connection × World V W) : Type 0 where
    after : System V W
    reached : Reach s after
    world : after.world ≡ state.1
    opened : after.open_at n ≡ some state.0
    others : (m : ℕ) → nat_eq n m ≡ false → after.open_at m ≡ s.open_at m

  read_loop-IsAfterLoop :
      (n : ℕ) (incoming : List (ℤ × Option Message)) (s : System V W) (c : Connection)
      → s.open_at n ≡ some c
      → IsAfterLoop n s (read_loop incoming (c, s.world))
  unfolding read_loop
  read_loop-IsAfterLoop n [] s c e = record {
    after = s;
    reached = here;
    world = refl;
    opened = e;
    others = λ m h. refl;
  }
  read_loop-IsAfterLoop n ((now, none) ∷ rest) s c e = record {
    after = s;
    reached = here;
    world = refl;
    opened = e;
    others = λ m h. refl;
  }
  read_loop-IsAfterLoop n ((now, some message) ∷ rest) s c e =
      let state = on_message now message (c, s.world) in
      let same : nat_eq n n ≡ true = ground arith in
      let later = read_loop-IsAfterLoop n rest (after_message n state s) state.0 (rw same) in
      record {
        after = later.after;
        reached = Reach-trans (next here (receives n c now message e)) later.reached;
        world = later.world;
        opened = later.opened;
        others = λ m h. later.others m h ∙ rw h;
      }

  -- Whatever a new connection receives, up to its end or an error: from any hub where its number is
  -- free, the whole run of the handler is a sequence of steps of the hub with any number of
  -- connections, which leaves the world that the handler leaves and the other connections as they
  -- were.
  pub handle-Reach :
      (n : ℕ) (incoming : List (ℤ × Option Message)) (s : System V W)
      → s.open_at n ≡ none
      → (t : System V W) × Reach s t
        × (t.world ≡ handle n incoming s.world)
        × ((m : ℕ) → t.open_at m ≡ s.open_at m)
  unfolding handle
  handle-Reach n incoming s free =
      let c : Connection = record { number = n; session_id = none } in
      let same : nat_eq n n ≡ true = ground arith in
      let looped =
        read_loop-IsAfterLoop n incoming (record s { open_at = update_at n (some c) s.open_at }) c
          (rw same) in
      let last = (read_loop incoming (c, s.world)).0 in
      (
        record {
          world = on_closed (last, looped.after.world);
          open_at = update_at n none looped.after.open_at;
        },
        next (Reach-trans (next here (accepts n free)) looped.reached) (ends n last looped.opened),
        ap (λ w. on_closed (last, w)) looped.world,
        λ m. elim (Bool-cases (nat_eq n m)) [
          | inl e ↦ freed n m looped.after.open_at s.open_at free e
          | inr e ↦ rw e (looped.others m e ∙ rw e)
        ],
      )
