-- ===== src/Rpc/Process/Lock.antt =====
-- src/rpc/process.rs: `wait` and `shutdown`, which both take the lock on the child. `main` spawns one
-- task that waits; shutdowns come from `main` and from the registry.
use pi_piper.Prelude.{
  ℕ, ◌≡◌, ◌≢◌, refl, sym, ◌∙◌, Bool, true, false, List, [], ◌∷◌, nat_eq, if◌then◌else◌, Bool-cases,
  inl, inr,
}
use pi_piper.Rpc.Process.{ProcessCall, shutdown_stdin, start_kill}

-- `wait` holds the lock from its start until the child has exited.
pub data Waiter : Type 0 where
  unstarted waiting returned : Waiter

-- A call of `shutdown`: after the first call it asks for the lock.
pub data Stopper : Type 0 where
  unstarted asking finished : Stopper

-- The child, the task that waits for it, the shutdowns by number, and the calls made on the child,
-- newest first.
pub record Shared : Type 0 where
  pub exited : Bool
  pub waiter : Waiter
  pub stopper_at : ℕ → Stopper
  pub calls : List ProcessCall

abbrev pub put : ℕ → Stopper → (ℕ → Stopper) → ℕ → Stopper
put n s f m = if nat_eq n m then s else f m

-- The steps of the tasks and the exit of the child. A shutdown gives the lock back at once, so that
-- the lock is free unless the task waits.
pub data Step (s : Shared) : Shared → Type 0 where
  exits : Step s (record s { exited = true })
  wait_locks : s.waiter ≡ Waiter.unstarted → Step s (record s { waiter = waiting })
  wait_returns : s.waiter ≡ waiting → s.exited ≡ true → Step s (record s { waiter = returned })
  shuts_stdin :
      (n : ℕ)
      → s.stopper_at n ≡ Stopper.unstarted
      → Step s
          (record s { stopper_at = put n asking s.stopper_at; calls = shutdown_stdin ∷ s.calls })
  kills :
      (n : ℕ)
      → s.stopper_at n ≡ asking
      → s.waiter ≢ waiting
      → Step s (record s { stopper_at = put n finished s.stopper_at; calls = start_kill ∷ s.calls })

pub data Reach (start : Shared) : Shared → Type 0 where
  here : Reach start start
  next : {s t : Shared} → Reach start s → Step s t → Reach start t

-- The calls of `start_kill`.
abbrev pub kill_calls : List ProcessCall → List ProcessCall
kill_calls [] = []
kill_calls (shutdown_stdin ∷ rest) = kill_calls rest
kill_calls (start_kill ∷ rest) = start_kill ∷ kill_calls rest

-- The task waits, and no shutdown has made its second call since the start.
pub record IsBlocked (start s : Shared) : Type 0 where
  pub waits : s.waiter ≡ waiting
  pub same_kills : kill_calls s.calls ≡ kill_calls start.calls
  pub unfinished : (n : ℕ) → s.stopper_at n ≡ finished → start.stopper_at n ≡ finished

exit_contradiction : true ≡ false → ⊥
exit_contradiction h = cc h

asking_finished : asking ≡ finished → ⊥
asking_finished h = cc h

Step-running : {s t : Shared} → Step s t → t.exited ≡ false → s.exited ≡ false
Step-running exits r = absurd (exit_contradiction r)
Step-running (wait_locks e) r = r
Step-running (wait_returns e x) r = r
Step-running (shuts_stdin n e) r = r
Step-running (kills n e w) r = r

asking_put :
    (start s : Shared) (n m : ℕ)
    → ((k : ℕ) → s.stopper_at k ≡ finished → start.stopper_at k ≡ finished)
    → put n asking s.stopper_at m ≡ finished
    → start.stopper_at m ≡ finished
asking_put start s n m h e = elim (Bool-cases (nat_eq n m)) [
  | inl same ↦ absurd (asking_finished (sym (rw same) ∙ e))
  | inr other ↦ h m (sym (rw other) ∙ e)
]

Step-IsBlocked :
    (start : Shared) {s t : Shared}
    → Step s t
    → t.exited ≡ false
    → IsBlocked start s
    → IsBlocked start t
Step-IsBlocked start exits r b = absurd (exit_contradiction r)
Step-IsBlocked start (wait_locks e) r b = record {
  waits = refl;
  same_kills = b.same_kills;
  unfinished = b.unfinished;
}
Step-IsBlocked start (wait_returns e x) r b = absurd (exit_contradiction (sym x ∙ r))
Step-IsBlocked start {s} (shuts_stdin n e) r b = record {
  waits = b.waits;
  same_kills = b.same_kills;
  unfinished = λ m. asking_put start s n m b.unfinished;
}
Step-IsBlocked start (kills n e w) r b = absurd (w b.waits)

Reach-IsBlocked :
    (start : Shared) {t : Shared}
    → start.waiter ≡ waiting
    → Reach start t
    → t.exited ≡ false
    → IsBlocked start t
Reach-IsBlocked start w here r = record { waits = w; same_kills = refl; unfinished = λ n e. e }
Reach-IsBlocked start w (next before st) r =
    Step-IsBlocked start st r (Reach-IsBlocked start w before (Step-running st r))

-- Once the task that waits for the child has the lock, and in whatever order the tasks take their
-- steps: as long as the child has not exited, no further `start_kill` is called, and no shutdown
-- that had not ended ends.
pub shutdown_waits_for_exit :
    (start : Shared) {t : Shared} (n : ℕ)
    → start.waiter ≡ waiting
    → start.stopper_at n ≢ finished
    → Reach start t
    → t.exited ≡ false
    → (kill_calls t.calls ≡ kill_calls start.calls) × (t.stopper_at n ≢ finished)
shutdown_waits_for_exit start n w unfinished reached r =
    let b = Reach-IsBlocked start w reached r in (b.same_kills, λ e. unfinished (b.unfinished n e))
