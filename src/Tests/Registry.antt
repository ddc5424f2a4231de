-- ===== src/Tests/Registry.antt =====
-- The registry and the control channel, on two sessions.
use mathlib.Core.Option
use pi_piper.Prelude.{◌≡◌, refl, true, none, some, List, ◌++◌}
use pi_piper.Events.{ControlEvent}
use pi_piper.Session.{new}
use pi_piper.Registry.{Hub, empty, session, list, register, unregister, update_meta}
use pi_piper.Registry.Updates.{patched}
use pi_piper.Registry.Lookup.{session-register, session-unregister}
use pi_piper.Registry.Patching.{update_meta-patched_member}
use pi_piper.Registry.Unlocked.{take_out, announce_removal, late_removal}
use pi_piper.Registry.{get, insert_session, announce, retire}
use pi_piper.Registry.Map.{insert, lookup}
use pi_piper.Session.{SessionHandle, summary, is_connected}
use pi_piper.Session.Encode.{summary_json}
use pi_piper.Registry.Mirror.{client, live, shown_handle}
use pi_piper.Registry.Mirror.Run.{run}
use pi_piper.Registry.Mirror.Snapshot.{snapshot_at}
use pi_piper.Registry.Mirror.Converge.{snapshot_converges}
use pi_piper.Samples.Value.{Value, text, value_json}
use pi_piper.Samples.Channels.{Cell, cell_watch}
use pi_piper.Tests.Data.{
  meta_of, link_one, link_two, name_patch, earlier_ops, middle_ops, later_ops, hub_one,
  hub_one-IsValid,
}

abbrev subscribed_hub : Hub Value Cell
subscribed_hub = run earlier_ops empty

abbrev listed_hub : Hub Value Cell
listed_hub = run middle_ops subscribed_hub

abbrev final_hub : Hub Value Cell
final_hub = run later_ops listed_hub

snapshot_converges_example :
    (news : List ControlEvent) × (final_hub.control ≡ news ++ subscribed_hub.control)
    × (live (client (snapshot_at "b" (list listed_hub)) news "b")
        ≡ Option.map shown_handle (session "b" final_hub))
snapshot_converges_example = snapshot_converges Cell earlier_ops middle_ops later_ops "b"

session-register_example :
    session "b" (register "b" link_two (meta_of "b") hub_one) ≡ some (new link_two (meta_of "b"))
session-register_example = session-register "b" "b" link_two (meta_of "b") hub_one hub_one-IsValid

session-unregister_example : session "a" (unregister "a" hub_one) ≡ none
session-unregister_example = session-unregister "a" "a" hub_one hub_one-IsValid

abbrev session_a : SessionHandle Cell
session_a = new link_one (meta_of "a")

update_meta-patched_member_example :
    (session "a" (update_meta "a" name_patch hub_one)
      ≡ Option.map (patched name_patch) (session "a" hub_one))
    × ((patched name_patch session_a).link ≡ link_one)
    × (value_json.get (summary_json (summary (patched name_patch session_a))) "sessionName"
        ≡ some (text "work"))
unfolding new summary
update_meta-patched_member_example =
    update_meta-patched_member "a" "a" "sessionName" name_patch session_a hub_one hub_one-IsValid

-- The removal of "a" is announced after its agent has connected again.
abbrev overtaken : Hub Value Cell
overtaken =
    announce_removal (take_out "a" hub_one).0 "a"
      (register "a" link_two (meta_of "a") (take_out "a" hub_one).1)

late_removal_example :
    (announce_removal (take_out "a" hub_one).0 "a" (take_out "a" hub_one).1
      ≡ unregister "a" hub_one)
    × (session "a" overtaken ≡ some (new link_two (meta_of "a")))
    × (is_connected {W = Cell} (new link_two (meta_of "a")) ≡ true)
    × (live (client none overtaken.control "a") ≡ none)
unfolding get register insert_session insert lookup announce retire
late_removal_example = late_removal "a" link_two (meta_of "a") 0 hub_one none hub_one-IsValid refl
