-- ===== src/Tests/Watcher.antt =====
-- The watcher of one session, while another task publishes to it.
use pi_piper.Prelude.{
  String, ℤ, pos, ◌≡◌, refl, ap, ◌∙◌, Bool, true, false, Option, none, some, List, [], ◌∷◌,
  get_elem?,
}
use mathlib.Core.Option
use pi_piper.Session.{SessionHandle, new}
use pi_piper.Prelude.Text.{trim, trim_end, trim_start, char_count}
use pi_piper.Preview.{extract_preview, extract_text_from_content, preview_of_text, truncate_chars}
use pi_piper.Registry.{Hub, publish, register, announce, retire, insert_session, get}
use pi_piper.Registry.Map.{lookup, insert}
use pi_piper.Registry.Updates.{handles-publish}
use pi_piper.Registry.Watcher.{Signal, received, lagged, closed, watch_status}
use pi_piper.Registry.Watcher.Shown.{
  heeded, after_events, shown_status, shown_at, IsUndisturbed, shown_at-watch_status,
}
use pi_piper.Samples.Value.{Value, obj, entry, end, text, value_json}
use pi_piper.Samples.Channels.{Cell, cell_watch}
use pi_piper.Tests.Data.{start_event, hub_one}

abbrev message_event : Value
message_event = obj (
    entry "type" (text "message_end")
      (entry "message" (obj (entry "role" (text "user") (entry "content" (text "hello") end))) end))

abbrev turns : List ((Hub Value Cell → Hub Value Cell) × ℤ × Signal Value)
turns =
    (publish "a" start_event, pos 9, received start_event)
    ∷ (publish "a" message_event, pos 10, lagged)
    ∷ (publish "a" message_event, pos 11, received message_event)
    ∷ (publish "a" start_event, pos 12, closed)
    ∷ []

publish_undisturbed :
    (event : Value) (hub : Hub Value Cell) (shown : Bool × Option String)
    → shown_at 0 hub ≡ some shown
    → shown_at 0 (publish "a" event hub) ≡ some shown
publish_undisturbed event hub shown e =
    ap (λ hs. Option.map (λ (s : SessionHandle Cell). shown_status s.status) (get_elem? hs 0))
      (handles-publish "a" event hub)
    ∙ e

turns-IsUndisturbed : IsUndisturbed 0 turns
turns-IsUndisturbed = (
  publish_undisturbed start_event,
  (
    publish_undisturbed message_event,
    (publish_undisturbed message_event, (publish_undisturbed start_event, tt)),
  ),
)

shown_at_first : shown_at 0 hub_one ≡ some (false, none)
unfolding register announce retire insert_session insert get lookup new
shown_at_first = refl

shown_at-watch_status_example :
    shown_at 0 (watch_status 0 turns hub_one) ≡ some (after_events (heeded turns) (false, none))
shown_at-watch_status_example =
    shown_at-watch_status 0 turns hub_one (false, none) turns-IsUndisturbed shown_at_first

last_ones_win : after_events (heeded turns) (false, none) ≡ (true, some "hello")
unfolding extract_preview extract_text_from_content preview_of_text truncate_chars trim trim_end
    trim_start char_count
last_ones_win = refl
