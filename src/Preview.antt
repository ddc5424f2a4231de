-- ===== src/Preview.antt =====
-- src/registry.rs: the preview of a session, from a `message_end` event.
pub mod Text
pub mod Bounds
use mathlib.Core.Bool.{◌&&◌, not}
use Prim.Native.String.{◌++◌ as append}
use pi_piper.Prelude.{
  ℕ, String, Bool, Option, none, some, List, [], ◌∷◌, ◌==◌, leb, if◌then◌else◌, ◌>>=◌,
}
use pi_piper.Prelude.Text.{char_count, take_chars, is_empty, trim}
use pi_piper.Json.{Json}

-- What the pattern `Some("text")` tests.
abbrev pub is_text : String → Option String → Bool
is_text s none = Bool.false
is_text s (some t) = t == s

unfoldable pub truncate_chars : String → ℕ → String
truncate_chars s max = if leb (char_count s) max then s else append (take_chars max s) "…"

-- The text of one block, pushed on what was collected before it.
unfoldable pub push_text : String → String → String
push_text out t = append (if is_empty out then out else append out " ") t

abbrev pub push_block : String → Option String → String
push_block out none = out
push_block out (some t) = push_text out t

unfoldable pub preview_of_text : String → Option String
preview_of_text text =
    let trimmed = trim text in if is_empty trimmed then none else some (truncate_chars trimmed 120)

module _ {V : Type 0} ⦃json : Json V⦄ where
  -- `value.get(key).and_then(Value::as_str)`
  abbrev pub str_field : V → String → Option String
  str_field value key = json.get value key >>= json.as_str

  -- The text that a block adds, if it is a text block.
  unfoldable pub block_text : V → Option String
  block_text block =
      if is_text "text" (str_field block "type") then str_field block "text" else none

  -- The `for` loop over the blocks.
  unfoldable pub collect_text : String → List V → String
  collect_text out [] = out
  collect_text out (block ∷ rest) = collect_text (push_block out (block_text block)) rest

  unfoldable pub extract_text_from_array : List V → Option String
  extract_text_from_array blocks =
      let out = collect_text "" blocks in if is_empty out then none else some out

  unfoldable pub extract_text_from_content : V → Option String
  extract_text_from_content content = elim (json.as_str content) [
    | some s ↦ some s
    | none ↦ json.as_array content >>= extract_text_from_array
  ]

  unfoldable pub extract_preview : V → Option String
  extract_preview event = do
    message ← json.get event "message"
    role_value ← json.get message "role"
    role ← json.as_str role_value
    if not (role == "user") && not (role == "assistant") then none else do
      content ← json.get message "content"
      text ← extract_text_from_content content
      preview_of_text text
