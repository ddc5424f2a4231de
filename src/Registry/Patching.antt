-- ===== src/Registry/Patching.antt =====
-- src/registry.rs: what a phone reads in the summary of a session after a `meta_update`.
use mathlib.Core.Option
use pi_piper.Prelude.{String, ◌≡◌, refl, ◌==◌, if◌then◌else◌}
use pi_piper.Json.{Json}
use pi_piper.Watch.{Watch}
use pi_piper.Session.{SessionHandle, summary}
use pi_piper.Session.Encode.{summary_json}
use pi_piper.Session.Encode.Patch.{patched_member, get-IsPatched}
use pi_piper.Registry.{Hub, session, update_meta}
use pi_piper.Registry.Invariant.{IsValid}
use pi_piper.Registry.Updates.{patched}
use pi_piper.Registry.Lookup.{session-update_meta}

module _ {V W : Type 0} ⦃json : Json V⦄ ⦃watch : Watch W⦄ where
  -- In a valid registry, an update of an id leaves every other session alone and patches the session
  -- under the id, if there is one; and a patched session has the link it had, and in its summary,
  -- under each of `sessionFile`, `sessionName` and `cwd`, the string that the patch has under this
  -- name, or what was there where the patch has no string there, and under every other name what was
  -- there.
  pub update_meta-patched_member :
      (id j k : String) (patch : V) (s : SessionHandle W) (hub : Hub V W)
      → IsValid hub
      → (session j (update_meta id patch hub)
          ≡ (if id == j then Option.map (patched patch) (session j hub) else session j hub))
        × ((patched patch s).link ≡ s.link)
        × (json.get (summary_json (summary (patched patch s))) k
            ≡ patched_member patch (summary_json (summary s)) k)
  unfolding summary
  update_meta-patched_member id j k patch s hub v =
      (session-update_meta id j patch hub v, refl, get-IsPatched patch (summary s) k)
