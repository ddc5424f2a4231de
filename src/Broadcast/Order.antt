-- ===== src/Broadcast/Order.antt =====
-- `tokio::sync::broadcast`: what a receiver gets over any mix of sends and turns of its task.
use mathlib.Core.List.{append_assoc, append-nil, map-append}
use pi_piper.Prelude.{
  ℕ, ◌≤◌, ◌<◌, ◌≡◌, refl, sym, ◌∙◌, ap, subst, Option, List, [], ◌∷◌, ◌++◌, map, length, arith,
}
use pi_piper.Broadcast.{
  Polled, got, missed, Receiver, Turn, sends, polls, sent, and_then, play, KeepsUp,
}

one_at_least {ℓ} : {E : Type ℓ} (xs : List E) (e : E) → 0 < length (xs ++ e ∷ [])
one_at_least [] e = omega arith
one_at_least (x ∷ xs) e = omega arith

module _ {E R : Type 0} ⦃receiver : Receiver E R⦄ where
  abbrev pub remaining : List (Turn E) → R → List E
  remaining turns r = receiver.pending (play turns r).1

  -- The task has received what was sent, in order, but for what is still pending.
  abbrev IsInOrder : List (Turn E) → R → Type 0
  IsInOrder turns r =
      (told : List E) × ((play turns r).0 ≡ map got told)
      × (told ++ remaining turns r ≡ receiver.pending r ++ sent turns)

  polled-IsInOrder :
      (turns : List (Turn E)) (r : R) (waiting : List E)
      → receiver.pending r ≡ waiting
      → length (receiver.pending r) ≤ receiver.capacity
      → IsInOrder turns (receiver.recv r).1
      → IsInOrder (polls ∷ turns) r
  unfolding play
  polled-IsInOrder turns r [] p h (told, seen, order) =
      let idle = receiver.recv_waits r p in
      (
        told,
        ap (λ (q : Option (Polled E) × R). and_then q.0 (play turns (receiver.recv r).1).0) idle
            ∙ seen,
        order ∙ ap (λ (q : Option (Polled E) × R). receiver.pending q.1 ++ sent turns) idle,
      )
  polled-IsInOrder turns r (e ∷ rest) p h (told, seen, order) =
      let (first, left) =
        receiver.recv_got r e rest p (subst (λ l. length l ≤ receiver.capacity) p h) in
      (
        e ∷ told,
        ap (λ o. and_then o (play turns (receiver.recv r).1).0) first ∙ ap (λ l. got e ∷ l) seen,
        ap (λ l. e ∷ l) (order ∙ ap (λ l. l ++ sent turns) left)
            ∙ sym (ap (λ l. l ++ sent turns) p),
      )

  KeepsUp-capacity :
      (capacity : ℕ) (turns : List (Turn E)) (r : R)
      → KeepsUp capacity turns r
      → receiver.capacity ≡ capacity
  KeepsUp-capacity capacity [] r h = h.0
  KeepsUp-capacity capacity (sends e ∷ turns) r h =
      KeepsUp-capacity capacity turns (receiver.send e r) h
  KeepsUp-capacity capacity (polls ∷ turns) r h =
      KeepsUp-capacity capacity turns (receiver.recv r).1 h.1

  play-IsInOrder :
      (capacity : ℕ) (turns : List (Turn E)) (r : R) → KeepsUp capacity turns r → IsInOrder turns r
  unfolding play
  play-IsInOrder capacity [] r h = ([], refl, sym (append-nil (receiver.pending r)))
  play-IsInOrder capacity (sends e ∷ turns) r h =
      let (told, seen, order) = play-IsInOrder capacity turns (receiver.send e r) h in
      (
        told,
        seen,
        order
            ∙ ap (λ l. l ++ sent turns) (receiver.pending-send e r)
            ∙ append_assoc (receiver.pending r) (e ∷ []) (sent turns),
      )
  play-IsInOrder capacity (polls ∷ turns) r h =
      let same = KeepsUp-capacity capacity turns (receiver.recv r).1 h.1 in
      polled-IsInOrder turns r _ refl (omega (arith, same, h.0))
        (play-IsInOrder capacity turns (receiver.recv r).1 h.1)

  -- As many turns as there are values pending receive them all.
  drain :
      (waiting : List E) (r : R)
      → receiver.pending r ≡ waiting
      → length waiting ≤ receiver.capacity
      → (play (map (λ _. polls) waiting) r).0 ≡ map got waiting
  unfolding play
  drain [] r p h = refl
  drain (e ∷ rest) r p h =
      let (first, left) = receiver.recv_got r e rest p h in
      ap (λ o. and_then o (play (map (λ _. polls) rest) (receiver.recv r).1).0) first
      ∙ ap (λ l. got e ∷ l) (drain rest (receiver.recv r).1 left (omega (arith, h)))

  KeepsUp-remaining :
      (capacity : ℕ) (turns : List (Turn E)) (r : R)
      → KeepsUp capacity turns r
      → length (remaining turns r) ≤ receiver.capacity
  unfolding play
  KeepsUp-remaining capacity [] r h = omega (arith, h.0, h.1)
  KeepsUp-remaining capacity (sends e ∷ turns) r h =
      KeepsUp-remaining capacity turns (receiver.send e r) h
  KeepsUp-remaining capacity (polls ∷ turns) r h =
      KeepsUp-remaining capacity turns (receiver.recv r).1 h.1

  -- All that the task receives over the turns, and over one more turn for each value that is still
  -- pending after them.
  abbrev pub received_all : List (Turn E) → R → List (Polled E)
  received_all turns r =
      let (seen, r') = play turns r in seen ++ (play (map (λ _. polls) (receiver.pending r')) r').0

  -- A receiver that keeps up gets every value once, in order.
  pub received_all_lem :
      (capacity : ℕ) (turns : List (Turn E)) (r : R)
      → receiver.pending r ≡ []
      → KeepsUp capacity turns r
      → received_all turns r ≡ map got (sent turns)
  received_all_lem capacity turns r p h =
      let (told, seen, order) = play-IsInOrder capacity turns r h in
      ap (λ l. l ++ (play (map (λ _. polls) (remaining turns r)) (play turns r).1).0) seen
      ∙ ap (λ l. map got told ++ l)
          (drain _ (play turns r).1 refl (KeepsUp-remaining capacity turns r h))
      ∙ sym (map-append got told (remaining turns r))
      ∙ ap (map got) (order ∙ ap (λ l. l ++ sent turns) p)

  -- The turns in which the task receives all that the channel has kept.
  abbrev pub catches_up : List E → R → List (Polled E)
  catches_up kept r = (play (polls ∷ map (λ _. polls) kept) r).0

  -- A receiver with more pending than the channel keeps misses the older values, and is told so once.
  pub catches_up_lem :
      (r : R) (dropped kept : List E) (e : E)
      → receiver.pending r ≡ dropped ++ e ∷ kept
      → length kept ≡ receiver.capacity
      → catches_up kept r ≡ missed ∷ map got kept
  unfolding play
  catches_up_lem r dropped kept e p n =
      let (first, left) =
        receiver.recv_missed r (dropped ++ e ∷ []) kept
          (p ∙ sym (append_assoc dropped (e ∷ []) kept)) (one_at_least dropped e) n in
      ap (λ o. and_then o (play (map (λ _. polls) kept) (receiver.recv r).1).0) first
      ∙ ap (λ l. missed ∷ l) (drain kept (receiver.recv r).1 left (omega (arith, n)))
