-- ===== src/Tests/Preview.antt =====
-- Previews of texts and blocks.
use pi_piper.Prelude.{◌≡◌, refl, String, some, List, [], ◌∷◌}
use pi_piper.Prelude.Text.{char_count, trim, trim_end, trim_start}
use pi_piper.Preview.{
  truncate_chars, collect_text, extract_preview, block_text, push_text, extract_text_from_content,
  preview_of_text,
}
use pi_piper.Preview.Bounds.{IsPreview, extract_preview-IsPreview}
use pi_piper.Samples.Value.{Value, value_json, obj, entry, end, text}

abbrev text_block : String → Value
text_block t = obj (entry "type" (text "text") (entry "text" (text t) end))

abbrev some_blocks : List Value
some_blocks =
    text_block ""
    ∷ text_block "two"
    ∷ obj (entry "type" (text "image") end)
    ∷ text_block "three"
    ∷ []

collected : collect_text "" some_blocks ≡ "two three"
unfolding collect_text block_text push_text
collected = refl

abbrev message_end_event : Value
message_end_event = obj (
    entry "type" (text "message_end") (
      entry "message" (obj (entry "role" (text "user") (entry "content" (text "  hi there ") end)))
        end))

previewed : extract_preview message_end_event ≡ some "hi there"
unfolding extract_preview extract_text_from_content preview_of_text trim trim_end trim_start
    truncate_chars char_count
previewed = refl

extract_preview-IsPreview_example : IsPreview "hi there"
extract_preview-IsPreview_example = extract_preview-IsPreview message_end_event "hi there" previewed
