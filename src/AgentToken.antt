-- ===== src/AgentToken.antt =====
-- src/agent_token.rs: the agent token in its file. The file system and the random numbers are
-- parameters: the operations of `std::fs` that the code calls, and the two identifiers.
pub mod Persist
use Prim.Native.String.{◌++◌ as append}
use pi_piper.Prelude.{
  String, ◌≡◌, Bool, true, false, Option, none, some, Result, ok, err, if◌then◌else◌, unwrap_or,
}
use pi_piper.Prelude.Text.{is_empty, trim}

-- Each operation says whether it succeeds, and leaves the file system in some state.
pub record FileSystem (F : Type 0) : Type 0 where
  pub read_to_string : String → F → Option String
  pub parent : String → Option String
  pub create_dir_all : String → F → Bool × F
  -- `open` for writing, with `create`, `truncate` and mode 0600
  pub open_private : String → F → Bool × F
  pub write_all : String → String → F → Bool × F
  -- A file that was opened with `truncate` and then written has what was written.
  pub read-write_all :
      (path text : String) (fs : F)
      → (open_private path fs).0 ≡ true
      → (write_all path text (open_private path fs).1).0 ≡ true
      → read_to_string path (write_all path text (open_private path fs).1).1 ≡ some text

pub data TokenError : Type 0 where
  creating_dir creating writing : String → TokenError

-- `default_path`, with `join` on Unix paths.
abbrev pub join : String → String → String
join dir name = append dir (append "/" name)

unfoldable pub default_path : Option String → String
default_path home =
    join (join (join (join (unwrap_or home ".") ".pi") "agent") "pi-piper") "agent-token"

-- The trimmed content of the file, if it has one that is not empty.
unfoldable pub existing_token : Option String → Option String
unfolding trim
existing_token none = none
existing_token (some content) =
    let token = trim content in if is_empty token then none else some token

module _ {F : Type 0} ⦃fs : FileSystem F⦄ where
  -- `writeln!`
  abbrev write_line : String → String → F → Result TokenError (Unit {0}) × F
  write_line path token s =
      let (written, s') = fs.write_all path (append token "\n") s in
      (if written then ok tt else err (writing path), s')

  -- `write_private` on Unix
  unfoldable pub write_private : String → String → F → Result TokenError (Unit {0}) × F
  write_private path token s =
      let (opened, s') = fs.open_private path s in
      if opened then write_line path token s' else (err (creating path), s')

  abbrev returning : String → Result TokenError (Unit {0}) × F → Result TokenError String × F
  returning token (ok done, s) = (ok token, s)
  returning token (err e, s) = (err e, s)

  abbrev create_parent : Option String → F → Result TokenError (Unit {0}) × F
  create_parent none s = (ok tt, s)
  create_parent (some dir) s =
      let (created, s') = fs.create_dir_all dir s in
      (if created then ok tt else err (creating_dir dir), s')

  abbrev then_write :
      String → String → Result TokenError (Unit {0}) × F → Result TokenError String × F
  then_write path token (ok done, s) = returning token (write_private path token s)
  then_write path token (err e, s) = (err e, s)

  -- The part that makes a new token from the two identifiers.
  unfoldable pub create : String → String → String → F → Result TokenError String × F
  create first second path s =
      then_write path (append first second) (create_parent (fs.parent path) s)

  unfoldable pub load_or_create : String → String → String → F → Result TokenError String × F
  load_or_create first second path s = elim (existing_token (fs.read_to_string path s)) [
    | some token ↦ (ok token, s)
    | none ↦ create first second path s
  ]
