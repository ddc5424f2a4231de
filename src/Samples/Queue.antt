-- ===== src/Samples/Queue.antt =====
-- A broadcast channel as one of its receivers sees it: a queue that keeps the last values.
use pi_piper.Prelude.{
  ℕ, zero, suc, ◌-◌, ◌≤◌, ◌<◌, ◌+◌, ◌≡◌, refl, ◌∙◌, ap, true, false, Option, none, some, List, [],
  ◌∷◌, ◌++◌, length, length-append, arith, leb, if◌then◌else◌,
}
use pi_piper.Broadcast.{Polled, got, missed, Receiver}

-- The values that are still pending, oldest first.
pub record Queue (E : Type 0) : Type 0 where
  pub waiting : List E

module _ {E : Type 0} where
  abbrev pub without : ℕ → List E → List E
  without zero events = events
  without (suc n) [] = []
  without (suc n) (e ∷ events) = without n events

  without-append : (dropped kept : List E) → without (length dropped) (dropped ++ kept) ≡ kept
  without-append [] kept = refl
  without-append (e ∷ dropped) kept = without-append dropped kept

module _ {E : Type 0} (capacity : ℕ) where
  abbrev pub queue_recv : List E → Option (Polled E) × Queue E
  queue_recv [] = (none, record { waiting = [] })
  queue_recv (e ∷ rest) =
      if leb (length (e ∷ rest)) capacity
      then (some (got e), record { waiting = rest })
      else (some missed, record { waiting = without (length (e ∷ rest) - capacity) (e ∷ rest) })

  pub queue_recv_waits : (r : Queue E) → r.waiting ≡ [] → queue_recv r.waiting ≡ (none, r)
  queue_recv_waits r h = rw h

  pub queue_recv_got :
      (r : Queue E) (e : E) (rest : List E)
      → r.waiting ≡ e ∷ rest
      → length (e ∷ rest) ≤ capacity
      → ((queue_recv r.waiting).0 ≡ some (got e)) × ((queue_recv r.waiting).1.waiting ≡ rest)
  queue_recv_got r e rest p h =
      let fits : leb (length (e ∷ rest)) capacity ≡ true = ground (arith, h) in
      rw (p, fits) (refl, refl)

  pub queue_recv_missed :
      (r : Queue E) (dropped kept : List E)
      → r.waiting ≡ dropped ++ kept
      → 0 < length dropped
      → length kept ≡ capacity
      → ((queue_recv r.waiting).0 ≡ some missed) × ((queue_recv r.waiting).1.waiting ≡ kept)
  queue_recv_missed r [] kept p h n = absurd (omega (arith, h))
  queue_recv_missed r (e ∷ dropped) kept p h n =
      let long : length (dropped ++ kept) ≡ length dropped + capacity =
        length-append dropped kept ∙ ap (λ k. length dropped + k) n in
      let full : leb (suc (length (dropped ++ kept))) capacity ≡ false = ground (arith, long) in
      let over : suc (length (dropped ++ kept)) - capacity ≡ suc (length dropped) =
        omega (arith, long) in
      rw (p, full)
        (refl, ap (λ k. without k (e ∷ dropped ++ kept)) over ∙ without-append dropped kept)

abbrev pub queue_receiver : (E : Type 0) → ℕ → Receiver E (Queue E)
queue_receiver E capacity = record {
  capacity = capacity;
  send = λ e r. record { waiting = r.waiting ++ e ∷ [] };
  recv = λ r. queue_recv capacity r.waiting;
  pending = λ r. r.waiting;
  pending-send = λ e r. refl;
  recv_waits = queue_recv_waits capacity;
  recv_got = queue_recv_got capacity;
  recv_missed = queue_recv_missed capacity;
}
