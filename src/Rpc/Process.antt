-- ===== src/Rpc/Process.antt =====
-- src/rpc/process.rs: the headless `pi` child. The operating system's part is a parameter: what
-- spawning returns, the child's pipes, and how each call on them ends.
pub mod Lock
use pi_piper.Prelude.{
  ℕ, zero, suc, String, Option, none, some, List, [], ◌∷◌, Result, ok, err, ◌>>=◌,
}
use pi_piper.Json.{Json}
use pi_piper.Config.{Config, pi_args}
use pi_piper.Rpc.{
  NextLine, line, end_of_stream, failed, Lines, ReadError, WriteError, AsyncWrite, next,
  write_json_line,
}

abbrev pub event_channel_capacity : ℕ
event_channel_capacity = 1024

-- The command that is spawned, with its three streams piped.
pub record Command : Type 0 where
  pub program : String
  pub args : List String
  pub current_dir : String

-- A spawned child, with the pipes that `take` finds.
pub record Child (S R : Type 0) : Type 0 where
  pub stdin : Option S
  pub stdout : Option R
  pub stderr : Option R

pub data SpawnError : Type 0 where
  no_project_dir : SpawnError
  spawning : String → SpawnError
  stdin_not_piped stdout_not_piped stderr_not_piped : SpawnError

-- The calls on the child that `shutdown` makes.
pub data ProcessCall : Type 0 where
  shutdown_stdin start_kill : ProcessCall

module _ {S R : Type 0} where
  -- The three `take`s, in order.
  abbrev pub take_pipes : Child S R → Result SpawnError (S × R × R)
  take_pipes child = elim child.stdin [
    | none ↦ err stdin_not_piped
    | some stdin ↦ elim child.stdout [
      | none ↦ err stdout_not_piped
      | some stdout ↦ elim child.stderr [
        | none ↦ err stderr_not_piped
        | some stderr ↦ ok (stdin, stdout, stderr)
      ]
    ]
  ]

  abbrev pub spawned : String → Option (Child S R) → Result SpawnError (S × R × R)
  spawned program none = err (spawning program)
  spawned program (some child) = take_pipes child

  -- `PiProcess::spawn` up to the two forwarding tasks.
  unfoldable pub spawn : (Command → Option (Child S R)) → Config → Result SpawnError (S × R × R)
  unfolding pi_args
  spawn start config = elim config.project_dir [
    | none ↦ err no_project_dir
    | some project_dir ↦ spawned config.pi_command (
        start (record {
          program = config.pi_command;
          args = pi_args config;
          current_dir = project_dir;
        }))
  ]

-- One turn of the loop, with what the later turns send.
abbrev pub forward_read :
    {V : Type 0} → Result ReadError (Option V) → Option (List V) → Option (List V)
forward_read (ok none) rest = some []
forward_read (ok (some event)) rest = rest >>= λ events. some (event ∷ events)
forward_read (err e) rest = rest

module _ {V R : Type 0} ⦃json : Json V⦄ ⦃lines : Lines R⦄ where
  -- The task that forwards the child's stdout: the events that it sends until the stream ends, or
  -- `none` if it is still reading after the given number of lines.
  unfoldable pub forward_stdout : ℕ → R → Option (List V)
  unfolding next
  forward_stdout zero reader = none
  forward_stdout (suc rounds) reader =
      let rest = forward_stdout rounds (next {V = V} reader).1 in forward_read (next reader).0 rest

-- One turn of the loop over stderr, with what the later turns log.
abbrev pub log_read : NextLine → Option (List String) → Option (List String)
log_read (line text) rest = rest >>= λ logged. some (text ∷ logged)
log_read end_of_stream rest = some []
log_read failed rest = some []

module _ {R : Type 0} ⦃lines : Lines R⦄ where
  -- The task that logs the child's stderr: its lines until the stream ends or a read fails, or `none`
  -- if it is still reading after the given number of lines.
  unfoldable pub forward_stderr : ℕ → R → Option (List String)
  forward_stderr zero reader = none
  forward_stderr (suc rounds) reader =
      let (read, reader') = lines.next_line reader in
      let rest = forward_stderr rounds reader' in log_read read rest

module _ {V S : Type 0} ⦃json : Json V⦄ ⦃sink : AsyncWrite S⦄ where
  -- `PiProcess::send`, under the lock of the child's stdin
  unfoldable pub send : V → S → Result WriteError (Unit {0}) × S
  unfolding write_json_line
  send command stdin = write_json_line command stdin

-- `PiProcess::shutdown`: the second call comes after the first, whatever that returns, once the lock
-- on the child is free.
abbrev pub shutdown : List ProcessCall
shutdown = shutdown_stdin ∷ start_kill ∷ []
