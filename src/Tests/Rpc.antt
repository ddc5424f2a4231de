-- ===== src/Tests/Rpc.antt =====
-- Lines of values, and the token's file.
use Prim.Native.Char.{code}
use pi_piper.Prelude.Text.{is_whitespace}
use pi_piper.Prelude.{
  none, nat_eq, Bool-cases, inl, inr, if◌then◌else◌, ◌≡◌, ◌≢◌, refl, String, Bool, true, false,
  some, List, [], ◌∷◌, arith, ok,
}
use pi_piper.Rpc.Framing.{
  NoNewline, unlines, All, IsFramed, write_each, forward_stdout-unlines, forward_stdout-write_each,
}
use pi_piper.Rpc.{Lines, failed}
use pi_piper.Rpc.Failing.{forward_stdout_failing}
use pi_piper.Rpc.Process.{forward_stdout, forward_stderr, shutdown_stdin, start_kill}
use pi_piper.Rpc.Process.Lock.{
  Waiter, Stopper, Shared, waiting, asking, finished, put, Reach, exits, wait_returns, shuts_stdin,
  kills, here, next, kill_calls, shutdown_waits_for_exit,
}
use pi_piper.AgentToken.{load_or_create, existing_token, create, write_private}
use pi_piper.Registry.Map.{lookup}
use pi_piper.AgentToken.Persist.{NoBlank, load_or_create_again}
use pi_piper.Samples.Value.{Value, value_json, text, register_frame}
use pi_piper.Tests.Channels.{text_lines, text_source, text_sink, text_buffer, Files, list_files}

abbrev pub has_newline : String → Bool
has_newline String.[] = false
has_newline (String.◌∷◌ c s) = if nat_eq (code c) 10 then true else has_newline s

pub NoNewline-has_newline : (s : String) → has_newline s ≡ false → NoNewline s
NoNewline-has_newline String.[] h = tt
NoNewline-has_newline (String.◌∷◌ c s) h = elim (Bool-cases (nat_eq (code c) 10)) [
  | inl e ↦ absurd (ground arith)
  | inr e ↦ (ground (arith, e), NoNewline-has_newline s (ground (arith, e)))
]

abbrev some_lines : List String
some_lines = "register a" ∷ "oops" ∷ "hello" ∷ []

some_lines-NoNewline : All NoNewline some_lines
some_lines-NoNewline = (
  NoNewline-has_newline "register a" refl,
  (NoNewline-has_newline "oops" refl, (NoNewline-has_newline "hello" refl, tt)),
)

forward_stdout-unlines_example :
    forward_stdout 4 (unlines some_lines) ≡ some (register_frame "a" ∷ text "hello" ∷ [])
forward_stdout-unlines_example =
    forward_stdout-unlines String some_lines 4 some_lines-NoNewline (omega arith)

abbrev some_values : List Value
some_values = text "hello" ∷ text "world" ∷ []

some_values-IsFramed : All IsFramed some_values
some_values-IsFramed = (
  record { one_line = NoNewline-has_newline "hello" refl; reads_back = refl },
  (record { one_line = NoNewline-has_newline "world" refl; reads_back = refl }, tt),
)

forward_stdout-write_each_example :
    forward_stdout {R = String} 3 (write_each some_values "") ≡ some some_values
forward_stdout-write_each_example =
    forward_stdout-write_each {S = String} String some_values "" 3 refl some_values-IsFramed
      (omega arith)

abbrev no_files : Files
no_files = []

abcd-NoBlank : NoBlank "abcd"
unfolding is_whitespace
abcd-NoBlank = (refl, (refl, (refl, (refl, tt))))

abcd_full : ◌≢◌ {A = String} "abcd" ""
abcd_full h = cc h

first_token : (load_or_create "ab" "cd" "/home/token" no_files).0 ≡ ok "abcd"
unfolding load_or_create existing_token lookup create write_private
first_token = refl

load_or_create_again_example :
    load_or_create "ef" "gh" "/home/token" (load_or_create "ab" "cd" "/home/token" no_files).1
    ≡ (ok "abcd", (load_or_create "ab" "cd" "/home/token" no_files).1)
load_or_create_again_example =
    load_or_create_again "ab" "cd" "ef" "gh" "/home/token" "abcd" no_files abcd-NoBlank abcd_full
      first_token

-- A stream whose every read fails.
data BrokenPipe : Type 0 where
  broken : BrokenPipe

instance abbrev broken_lines : Lines BrokenPipe
broken_lines = record { next_line = λ r. (failed, broken) }

forward_stdout_failing_example : forward_stdout {V = Value} 1000 broken ≡ none
forward_stdout_failing_example = forward_stdout_failing Value broken refl 1000

stderr_is_logged : forward_stderr 4 (unlines some_lines) ≡ some some_lines
unfolding forward_stderr
stderr_is_logged = refl

-- The child runs and the task of `main` waits for it.
abbrev child_running : Shared
child_running = record {
  exited = false;
  waiter = waiting;
  stopper_at = λ n. Stopper.unstarted;
  calls = [];
}

abbrev child_asked : Shared
child_asked = record child_running {
  stopper_at = put 0 asking child_running.stopper_at;
  calls = shutdown_stdin ∷ [];
}

never_finished : Stopper.unstarted ≢ finished
never_finished h = cc h

asked_reached : Reach child_running child_asked
asked_reached = next here (shuts_stdin 0 refl)

shutdown_waits_for_exit_example :
    (kill_calls (shutdown_stdin ∷ []) ≡ []) × (child_asked.stopper_at 0 ≢ finished)
shutdown_waits_for_exit_example =
    shutdown_waits_for_exit child_running 0 refl never_finished asked_reached refl

returned_no_longer_waits : Waiter.returned ≢ waiting
returned_no_longer_waits h = cc h

-- Once the child has exited, the shutdown goes on.
exited_is_stopped :
    (t : Shared) × Reach child_running t
    × (t.calls ≡ start_kill ∷ shutdown_stdin ∷ [])
    × (t.stopper_at 0 ≡ finished)
exited_is_stopped = (
  _,
  next (next (next asked_reached exits) (wait_returns refl refl))
      (kills 0 refl returned_no_longer_waits),
  refl,
  refl,
)
