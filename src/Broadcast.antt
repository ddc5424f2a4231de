-- ===== src/Broadcast.antt =====
-- `tokio::sync::broadcast`, as src/registry.rs, src/rpc/process.rs and src/rpc/remote_agent.rs use it.
-- The crate is not part of the repository: a receiver of a channel is a parameter, with the documented
-- laws of `recv`.
pub mod Order
use pi_piper.Prelude.{ℕ, ◌≤◌, ◌<◌, ◌≡◌, Option, none, some, List, [], ◌∷◌, ◌++◌, length}

-- What `recv` returns while the channel is open: a value, or that values were missed.
pub data Polled (E : Type 0) : Type 0 where
  got : E → Polled E
  missed : Polled E

pub record Receiver (E R : Type 0) : Type 0 where
  -- What the channel was made with.
  pub capacity : ℕ
  -- A send on the channel, and `recv`, whose result is none while it waits.
  pub send : E → R → R
  pub recv : R → Option (Polled E) × R
  -- The values that were sent since the subscription and not yet received, oldest first.
  pub pending : R → List E
  -- laws
  pub pending-send : (e : E) (r : R) → pending (send e r) ≡ pending r ++ e ∷ []
  pub recv_waits : (r : R) → pending r ≡ [] → recv r ≡ (none, r)
  pub recv_got :
      (r : R) (e : E) (rest : List E)
      → pending r ≡ e ∷ rest
      → length (e ∷ rest) ≤ capacity
      → ((recv r).0 ≡ some (got e)) × (pending (recv r).1 ≡ rest)
  -- The channel keeps the last values, up to its capacity.
  pub recv_missed :
      (r : R) (dropped kept : List E)
      → pending r ≡ dropped ++ kept
      → 0 < length dropped
      → length kept ≡ capacity
      → ((recv r).0 ≡ some missed) × (pending (recv r).1 ≡ kept)

-- A sender sends, or the task that has the receiver receives.
pub data Turn (E : Type 0) : Type 0 where
  sends : E → Turn E
  polls : Turn E

module _ {E : Type 0} where
  abbrev pub sent : List (Turn E) → List E
  sent [] = []
  sent (sends e ∷ turns) = e ∷ sent turns
  sent (polls ∷ turns) = sent turns

  abbrev pub and_then : Option (Polled E) → List (Polled E) → List (Polled E)
  and_then none rest = rest
  and_then (some polled) rest = polled ∷ rest

module _ {E R : Type 0} ⦃receiver : Receiver E R⦄ where
  -- What the task receives, and the receiver after the turns.
  unfoldable pub play : List (Turn E) → R → List (Polled E) × R
  play [] r = ([], r)
  play (sends e ∷ turns) r = play turns (receiver.send e r)
  play (polls ∷ turns) r =
      let rest = play turns (receiver.recv r).1 in (and_then (receiver.recv r).0 rest.0, rest.1)

  -- The channel was made with the capacity, and at each turn of the task, and at the end, no more is
  -- pending than that.
  abbrev pub KeepsUp : ℕ → List (Turn E) → R → Type 0
  KeepsUp capacity [] r = (receiver.capacity ≡ capacity) × (length (receiver.pending r) ≤ capacity)
  KeepsUp capacity (sends e ∷ turns) r = KeepsUp capacity turns (receiver.send e r)
  KeepsUp capacity (polls ∷ turns) r =
      (length (receiver.pending r) ≤ capacity) × KeepsUp capacity turns (receiver.recv r).1
