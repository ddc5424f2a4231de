-- ===== src/Preview/Bounds.antt =====
-- src/registry.rs: the length of a preview, and what it begins with.
use Prim.Native.Char.{Char}
use Prim.Native.String.{◌++◌ as append}
use text.Mathlib.TextLemmas.{nil-append, cons-append, cons-ne-nil}
use pi_piper.Prelude.{
  ℕ, zero, suc, ◌+◌, ◌≤◌, ◌<◌, String, ◌≡◌, refl, ◌∙◌, ap, Bool, true, false, none, some,
  Bool-cases, inl, inr, if◌then◌else◌, arith, leb, ◌⊎◌, ◌>>=◌, >>=-eq-some, ◌==◌, not, ◌&&◌,
}
use pi_piper.Prelude.Text.{
  char_count, take_chars, is_empty, is_whitespace, trim, trim_start, trim_end, cons_unless_blank,
}
use pi_piper.Json.{Json}
use mathlib.Core.Option.{some-injective}
use pi_piper.Preview.{extract_text_from_content, truncate_chars, preview_of_text, extract_preview}

char_count-append : (s t : String) → char_count (append s t) ≡ char_count s + char_count t
unfolding char_count
char_count-append String.[] t = rw nil-append (omega arith)
char_count-append (String.◌∷◌ c s) t = rw cons-append (omega (arith, char_count-append s t))

char_count-take_chars : (n : ℕ) (s : String) → n ≤ char_count s → char_count (take_chars n s) ≡ n
unfolding char_count take_chars
char_count-take_chars zero s h = refl
char_count-take_chars (suc n) String.[] h = absurd (omega arith)
char_count-take_chars (suc n) (String.◌∷◌ c s) h = ap suc (char_count-take_chars n s (omega arith))

-- A text of at most `max` characters stays as it is, and a longer one becomes its first `max`
-- characters and an ellipsis, which is one character more than `max`.
pub truncate_chars_lem :
    (s : String) (max : ℕ)
    → (char_count s ≤ max → truncate_chars s max ≡ s)
      × (max < char_count s
          → (truncate_chars s max ≡ append (take_chars max s) "…")
            × (char_count (truncate_chars s max) ≡ suc max))
unfolding truncate_chars
truncate_chars_lem s max = (
  λ h. ground arith,
  λ h.
      let long : truncate_chars s max ≡ append (take_chars max s) "…" = ground arith in
      (
        long,
        ap char_count long
            ∙ char_count-append (take_chars max s) "…"
            ∙ unfold char_count in omega (arith, char_count-take_chars max s),
      ),
)

-- A text that begins with a character that is no white space.
abbrev pub StartsInk : String → Type 0
StartsInk String.[] = ⊥
StartsInk (String.◌∷◌ c s) = is_whitespace c ≡ false

trim_start-StartsInk : (s : String) → (trim_start s ≡ "") ⊎ StartsInk (trim_start s)
unfolding trim_start
trim_start-StartsInk String.[] = inl refl
trim_start-StartsInk (String.◌∷◌ c s) = elim (Bool-cases (is_whitespace c)) [
  | inl blank ↦ rw blank (trim_start-StartsInk s)
  | inr ink ↦ rw ink (inr ink)
]

cons_unless_blank-StartsInk :
    (c : Char) (s : String) → is_whitespace c ≡ false → StartsInk (cons_unless_blank c s)
cons_unless_blank-StartsInk c String.[] ink = rw ink ink
cons_unless_blank-StartsInk c (String.◌∷◌ d s) ink = ink

trim_end-StartsInk : (s : String) → StartsInk s → StartsInk (trim_end s)
unfolding trim_end
trim_end-StartsInk String.[] h = absurd h
trim_end-StartsInk (String.◌∷◌ c s) h = cons_unless_blank-StartsInk c (trim_end s) h

-- What is left of a text after `trim` is empty or begins with no white space.
trim-StartsInk : (s : String) → (trim s ≡ "") ⊎ StartsInk (trim s)
unfolding trim
trim-StartsInk s = elim (trim_start-StartsInk s) [
  | inl e ↦ rw e (unfold trim_end in inl refl)
  | inr ink ↦ inr (trim_end-StartsInk (trim_start s) ink)
]

truncate_chars-StartsInk :
    (s : String) (max : ℕ) → StartsInk s → StartsInk (truncate_chars s (suc max))
unfolding truncate_chars take_chars
truncate_chars-StartsInk String.[] max h = absurd h
truncate_chars-StartsInk (String.◌∷◌ c s) max h =
    elim (Bool-cases (leb (char_count (String.◌∷◌ c s)) (suc max))) [
      | inl short ↦ rw short h
      | inr long ↦ rw (long, cons-append) h
    ]

char_count-truncate_chars : (s : String) (max : ℕ) → char_count (truncate_chars s max) ≤ suc max
char_count-truncate_chars s max = elim (Bool-cases (leb (char_count s) max)) [
  | inl short ↦ rw ((truncate_chars_lem s max).0 (ground arith)) (ground arith)
  | inr long ↦ omega (arith, ((truncate_chars_lem s max).1 (ground arith)).1)
]

-- What a preview is: some text, and at most 121 characters of it.
abbrev pub IsPreview : String → Type 0
IsPreview p = StartsInk p × (char_count p ≤ 121)

truncated-IsPreview :
    (u p : String)
    → (u ≡ "") ⊎ StartsInk u
    → (if is_empty u then none else some (truncate_chars u 120)) ≡ some p
    → IsPreview p
truncated-IsPreview String.[] p ink h = cc
truncated-IsPreview (String.◌∷◌ c s) p (inl e) h = absurd (cons-ne-nil c s e)
truncated-IsPreview (String.◌∷◌ c s) p (inr ink) h =
    let e : truncate_chars (String.◌∷◌ c s) 120 ≡ p = some-injective _ _ h in
    rw (← e) (
      truncate_chars-StartsInk (String.◌∷◌ c s) 119 ink,
      char_count-truncate_chars (String.◌∷◌ c s) 120,
    )

preview_of_text-IsPreview : (t p : String) → preview_of_text t ≡ some p → IsPreview p
unfolding preview_of_text
preview_of_text-IsPreview t p h = truncated-IsPreview (trim t) p (trim-StartsInk t) h

module _ {V : Type 0} ⦃json : Json V⦄ where
  IsPreview-content :
      (b : Bool) (m : V) (p : String)
      → (if b
          then none
          else (json.get m "content" >>= λ c. extract_text_from_content c >>= preview_of_text))
        ≡ some p
      → IsPreview p
  IsPreview-content true m p h = cc
  IsPreview-content false m p h =
      let (c, _, e) = >>=-eq-some (json.get m "content") _ h in
      let (t, _, f) = >>=-eq-some (extract_text_from_content c) preview_of_text e in
      preview_of_text-IsPreview t p f

  -- Whatever the event, a preview that is extracted from it begins with a character that is no white
  -- space and has at most 121 characters.
  pub extract_preview-IsPreview :
      (event : V) (p : String) → extract_preview event ≡ some p → IsPreview p
  unfolding extract_preview
  extract_preview-IsPreview event p h =
      let (message, _, e) = >>=-eq-some (json.get event "message") _ h in
      let (role_value, _, f) = >>=-eq-some (json.get message "role") _ e in
      let (role, _, g) = >>=-eq-some (json.as_str role_value) _ f in
      IsPreview-content (not (role == "user") && not (role == "assistant")) message p g
