-- ===== src/Rpc/Failing.antt =====
-- src/rpc/process.rs: the stdout task on a stream whose reads fail.
use pi_piper.Prelude.{ℕ, zero, suc, ◌≡◌, refl, ap, ◌∙◌, none}
use pi_piper.Json.{Json}
use pi_piper.Rpc.{NextLine, failed, Lines, parse_line, next}
use pi_piper.Rpc.Process.{forward_read, forward_stdout}

module _ (V : Type 0) {R : Type 0} ⦃json : Json V⦄ ⦃lines : Lines R⦄ where
  -- Where a read of the stream fails and leaves the stream as it is, the task is still reading after
  -- any number of rounds.
  pub forward_stdout_failing :
      (reader : R)
      → lines.next_line reader ≡ (failed, reader)
      → (rounds : ℕ) → forward_stdout {V = V} rounds reader ≡ none
  unfolding forward_stdout next parse_line
  forward_stdout_failing reader h zero = refl
  forward_stdout_failing reader h (suc rounds) =
      ap (λ (p : NextLine × R). forward_read (parse_line {V = V} p.0) (forward_stdout rounds p.1)) h
      ∙ forward_stdout_failing reader h rounds
