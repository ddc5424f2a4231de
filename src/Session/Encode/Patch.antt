-- ===== src/Session/Encode/Patch.antt =====
-- src/session.rs and src/registry.rs: the members of a summary whose metadata is patched.
use mathlib.Core.Option
use pi_piper.Prelude.{
  String, ◌≡◌, refl, sym, ◌∙◌, ap, Bool, false, Option, none, some, ◌==◌, ◌||◌, or_else, unwrap_or,
  if◌then◌else◌, Bool-cases, subst, eq_iff, inl, inr,
}
use pi_piper.Json.{Json}
use pi_piper.Preview.{str_field}
use pi_piper.Session.{SessionSummary}
use pi_piper.Session.Encode.{option_json, meta_fields, status_fields, summary_json}
use pi_piper.Status.{patch_meta}

abbrev pub is_patchable : String → Bool
is_patchable k = "sessionFile" == k || "sessionName" == k || "cwd" == k

module _ {V : Type 0} ⦃json : Json V⦄ where
  -- A member of a summary after a patch: the file, the name and the directory are the strings that
  -- the patch has under these names, if it has any; everything else is as before.
  abbrev pub patched_member : V → V → String → Option V
  patched_member patch before k =
      if is_patchable k
      then or_else (Option.map json.string (str_field patch k)) (json.get before k)
      else json.get before k

  option_json-or_else :
      (o p : Option String)
      → some (option_json (or_else o p))
        ≡ or_else (Option.map json.string o) (some (option_json {V = V} p))
  unfolding option_json
  option_json-or_else none p = refl
  option_json-or_else (some s) p = refl

  string-unwrap_or :
      (o : Option String) (s : String)
      → some (json.string (unwrap_or o s))
        ≡ or_else (Option.map json.string o) (some (json.string s))
  string-unwrap_or none s = refl
  string-unwrap_or (some t) s = refl

  abbrev IsPatched : V → SessionSummary → String → Type 0
  IsPatched patch s k =
      json.get (summary_json (record s { meta = patch_meta patch s.meta })) k
      ≡ patched_member patch (summary_json s) k

  file-IsPatched : (patch : V) (s : SessionSummary) → IsPatched patch s "sessionFile"
  unfolding summary_json meta_fields status_fields patch_meta
  file-IsPatched patch s =
      json.get-object _ "sessionFile"
      ∙ option_json-or_else _ s.meta.session_file
      ∙ ap (or_else (Option.map json.string (str_field patch "sessionFile")))
          (sym (json.get-object _ "sessionFile"))

  name-IsPatched : (patch : V) (s : SessionSummary) → IsPatched patch s "sessionName"
  unfolding summary_json meta_fields status_fields patch_meta
  name-IsPatched patch s =
      json.get-object _ "sessionName"
      ∙ option_json-or_else _ s.meta.session_name
      ∙ ap (or_else (Option.map json.string (str_field patch "sessionName")))
          (sym (json.get-object _ "sessionName"))

  cwd-IsPatched : (patch : V) (s : SessionSummary) → IsPatched patch s "cwd"
  unfolding summary_json meta_fields status_fields patch_meta
  cwd-IsPatched patch s =
      json.get-object _ "cwd"
      ∙ string-unwrap_or _ s.meta.cwd
      ∙ ap (or_else (Option.map json.string (str_field patch "cwd")))
          (sym (json.get-object _ "cwd"))

  other-IsPatched :
      (patch : V) (s : SessionSummary) (k : String)
      → ("sessionFile" == k) ≡ false
      → ("sessionName" == k) ≡ false
      → ("cwd" == k) ≡ false
      → IsPatched patch s k
  unfolding summary_json meta_fields status_fields patch_meta
  other-IsPatched patch s k e f g =
      json.get-object _ k ∙ rw (e, f, g) (sym (json.get-object _ k ∙ rw (e, f, g) refl))

  pub get-IsPatched : (patch : V) (s : SessionSummary) (k : String) → IsPatched patch s k
  get-IsPatched patch s k = elim (Bool-cases ("sessionFile" == k)) [
    | inl e ↦ subst (IsPatched patch s) ((eq_iff _ k).0 e) (file-IsPatched patch s)
    | inr e ↦ elim (Bool-cases ("sessionName" == k)) [
      | inl f ↦ subst (IsPatched patch s) ((eq_iff _ k).0 f) (name-IsPatched patch s)
      | inr f ↦ elim (Bool-cases ("cwd" == k)) [
        | inl g ↦ subst (IsPatched patch s) ((eq_iff _ k).0 g) (cwd-IsPatched patch s)
        | inr g ↦ other-IsPatched patch s k e f g
      ]
    ]
  ]
