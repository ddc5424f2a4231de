-- ===== src/Server/Agent/Owners/Numbering.antt =====
-- The hub with any number of `/agent` connections: each is kept under its own number.
use mathlib.Core.Option.{some-injective}
use pi_piper.Prelude.{ℕ, ◌≡◌, sym, ap, ◌∙◌, none, some, nat_eq, arith, Bool-cases, inl, inr}
use pi_piper.Json.{Json}
use pi_piper.Watch.{Watch}
use pi_piper.Registry.Invariant.{IsValid}
use pi_piper.Server.Agent.{World, Connection, on_message, on_closed}
use pi_piper.Server.Agent.Outcome.{registered_id, on_message-Outcome}
use pi_piper.Server.Agent.Owners.{Numbered, receives-Numbered}
use pi_piper.Server.Agent.Worlds.{
  System, update_at, Step, accepts, receives, ends, watches, subscribes, drops, shuts_down,
  starts_headless, exits_headless,
}

module _ {V W : Type 0} where
  accepts-Numbered :
      (s : System V W) (n : ℕ)
      → Numbered s
      → Numbered (record s {
        open_at = update_at n (some (record { number = n; session_id = none })) s.open_at;
      })
  accepts-Numbered s n numbered m d e = elim (Bool-cases (nat_eq n m)) [
    | inl same ↦
        let c : Connection = record { number = n; session_id = none } in
        let c_d : c ≡ d = some-injective _ _ (sym (rw same) ∙ e) in
        ap (λ (k : Connection). k.number) (sym c_d) ∙ ground arith
    | inr other ↦ numbered m d (sym (rw other) ∙ e)
  ]

  ends-Numbered :
      (s : System V W) (n : ℕ) (world : World V W)
      → Numbered s
      → Numbered (record { world = world; open_at = update_at n none s.open_at })
  ends-Numbered s n world numbered m d e = elim (Bool-cases (nat_eq n m)) [
    | inl same ↦ cc (same, e)
    | inr other ↦ numbered m d (sym (rw other) ∙ e)
  ]

module _ {V W : Type 0} ⦃json : Json V⦄ ⦃watch : Watch W⦄ where
  -- Every step keeps the numbers.
  pub Step-Numbered : {s t : System V W} → Step s t → IsValid s.world.hub → Numbered s → Numbered t
  Step-Numbered {s} (accepts n free) v numbered = accepts-Numbered s n numbered
  Step-Numbered {s} (receives n c now message e) v numbered =
      receives-Numbered s n c e (registered_id V message) (on_message now message (c, s.world))
        (on_message-Outcome now message c s.world v) numbered
  Step-Numbered {s} (ends n c e) v numbered = ends-Numbered s n (on_closed (c, s.world)) numbered
  Step-Numbered (watches handle now event) v numbered = numbered
  Step-Numbered (subscribes handle) v numbered = numbered
  Step-Numbered (drops handle) v numbered = numbered
  Step-Numbered (shuts_down link) v numbered = numbered
  Step-Numbered (starts_headless process meta) v numbered = numbered
  Step-Numbered (exits_headless gone) v numbered = numbered
