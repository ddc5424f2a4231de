-- ===== src/Server/StaticFiles/Paths.antt =====
-- src/server/static_files.rs: which file a path names.
use Prim.Native.Char.{code}
use text.Mathlib.TextLemmas.{cons-ne-nil}
use pi_piper.Prelude.{
  String, ◌≡◌, ◌≢◌, ◌↔◌, refl, ◌⊎◌, arith, ◌==◌, eq_iff, nat_eq, Bool-cases, inl, inr,
  if◌then◌else◌,
}
use pi_piper.Prelude.Text.{trim_start_matches, is_empty}
use pi_piper.Server.StaticFiles.{asset_path, cache_control_of}

-- A text whose first character is no slash.
abbrev pub IsRelative : String → Type 0
IsRelative String.[] = ⊥
IsRelative (String.◌∷◌ c s) = code c ≢ b'/'

trim_start_matches-IsRelative :
    (s : String) → (trim_start_matches b'/' s ≡ "") ⊎ IsRelative (trim_start_matches b'/' s)
unfolding trim_start_matches
trim_start_matches-IsRelative String.[] = inl refl
trim_start_matches-IsRelative (String.◌∷◌ c s) = elim (Bool-cases (nat_eq (code c) b'/')) [
  | inl slash ↦ rw slash (trim_start_matches-IsRelative s)
  | inr plain ↦ rw plain (inr (ground arith))
]

IsRelative-index :
    (p : String) → (p ≡ "") ⊎ IsRelative p → IsRelative (if is_empty p then "index.html" else p)
IsRelative-index String.[] h = omega arith
IsRelative-index (String.◌∷◌ c s) (inl e) = absurd (cons-ne-nil c s e)
IsRelative-index (String.◌∷◌ c s) (inr h) = h

-- Whatever the path of a request, the name that is looked up is not empty and begins with no slash.
pub asset_path-IsRelative : (uri_path : String) → IsRelative (asset_path uri_path)
unfolding asset_path
asset_path-IsRelative uri_path = IsRelative-index _ (trim_start_matches-IsRelative uri_path)

-- A file is served as not to be cached exactly when it is the service worker or the page itself.
cache_control_iff :
    (path : String)
    → (cache_control_of path ≡ "no-cache") ↔ ((path ≡ "sw.js") ⊎ (path ≡ "index.html"))
unfolding cache_control_of
cache_control_iff path = elim (Bool-cases (path == "sw.js")) [
  | inl e ↦ rw e (λ h. inl ((eq_iff path "sw.js").0 e), λ h. refl)
  | inr e ↦ elim (Bool-cases (path == "index.html")) [
    | inl f ↦ rw e (rw f (λ h. inr ((eq_iff path "index.html").0 f), λ h. refl))
    | inr f ↦ rw e (
        rw f (
          λ h. cc h,
          λ h. elim h [
            | inl g ↦ cc (e, (eq_iff path "sw.js").1 g)
            | inr g ↦ cc (f, (eq_iff path "index.html").1 g)
          ],
        ))
  ]
]
