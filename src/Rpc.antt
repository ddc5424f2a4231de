-- ===== src/Rpc.antt =====
-- src/rpc/mod.rs: one JSON value to a line. The line reader and the byte sink are tokio's: their
-- states and operations are parameters.
pub mod Process
pub mod RemoteAgent
pub mod Framing
pub mod Failing
use Prim.Native.String.{◌++◌ as append}
use pi_piper.Prelude.{
  ℕ, String, ◌≡◌, Bool, true, false, Option, none, some, Result, ok, err, if◌then◌else◌,
}
use pi_piper.Json.{Json}

-- What `Lines::next_line` returns.
pub data NextLine : Type 0 where
  line : String → NextLine
  end_of_stream failed : NextLine

pub record Lines (R : Type 0) : Type 0 where
  pub next_line : R → NextLine × R

-- `write_all` and `flush`, and whether they succeed.
pub record AsyncWrite (S : Type 0) : Type 0 where
  pub write_all : String → S → Bool × S
  pub flush : S → Bool × S

-- The contexts of the errors.
pub data ReadError : Type 0 where
  reading_line : ReadError
  invalid_json : String → ReadError

pub data WriteError : Type 0 where
  serializing writing flushing agent_closed : WriteError

module _ {V : Type 0} ⦃json : Json V⦄ where
  pub parse_line : NextLine → Result ReadError (Option V)
  parse_line failed = err reading_line
  parse_line end_of_stream = ok none
  parse_line (line text) = elim (json.from_str text) [
    | none ↦ err (invalid_json text)
    | some value ↦ ok (some value)
  ]

module _ {V R : Type 0} ⦃json : Json V⦄ ⦃lines : Lines R⦄ where
  -- `JsonLineReader::next`
  pub next : R → Result ReadError (Option V) × R
  unfolding parse_line
  next reader = let (read, reader') = lines.next_line reader in (parse_line read, reader')

module _ {S : Type 0} ⦃sink : AsyncWrite S⦄ where
  abbrev pub flush_line : S → Result WriteError (Unit {0}) × S
  flush_line s = let (flushed, s') = sink.flush s in (if flushed then ok tt else err flushing, s')

  abbrev pub write_line : String → S → Result WriteError (Unit {0}) × S
  write_line text s =
      let (written, s') = sink.write_all (append text "\n") s in
      if written then flush_line s' else (err writing, s')

module _ {V S : Type 0} ⦃json : Json V⦄ ⦃sink : AsyncWrite S⦄ where
  pub write_json_line : V → S → Result WriteError (Unit {0}) × S
  write_json_line value s = elim (json.serialize value) [
    | none ↦ (err serializing, s)
    | some text ↦ write_line text s
  ]
