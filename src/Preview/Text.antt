-- ===== src/Preview/Text.antt =====
-- src/registry.rs: what `extract_text_from_content` collects from an array of blocks.
use Prim.Native.String.{◌++◌ as append}
use text.Mathlib.TextLemmas.{nil-append, cons-append, append_assoc, append-nil}
use pi_piper.Prelude.{
  String, ◌≡◌, refl, sym, ◌∙◌, ap, true, false, Option, none, some, List, [], ◌∷◌, Bool-cases,
  Option-cases, inl, inr, if◌then◌else◌,
}
use pi_piper.Prelude.Text.{is_empty}
use pi_piper.Json.{Json}
use pi_piper.Preview.{push_text, block_text, collect_text}

abbrev pub add_text : Option String → List String → List String
add_text none ts = ts
add_text (some t) ts = t ∷ ts

-- Each text with a space before it.
abbrev pub spaced : List String → String
spaced [] = ""
spaced (t ∷ ts) = append " " (append t (spaced ts))

-- The texts with a space between each two, from the first that is not empty.
abbrev pub joined : List String → String
joined [] = ""
joined (t ∷ ts) = if is_empty t then joined ts else append t (spaced ts)

is_empty-append : (s t : String) → is_empty s ≡ false → is_empty (append s t) ≡ false
is_empty-append String.[] t h = cc
is_empty-append (String.◌∷◌ c s) t h = rw cons-append refl

empty_of_is_empty : (s : String) → is_empty s ≡ true → s ≡ ""
empty_of_is_empty String.[] h = refl
empty_of_is_empty (String.◌∷◌ c s) h = cc

push_text_first : (t : String) → push_text "" t ≡ t
unfolding push_text
push_text_first t = nil-append t

push_text_later :
    (out t : String) → is_empty out ≡ false → push_text out t ≡ append out (append " " t)
unfolding push_text
push_text_later out t h = rw h (append_assoc out " " t)

module _ {V : Type 0} ⦃json : Json V⦄ where
  -- The texts of the text blocks, in order.
  abbrev pub texts : List V → List String
  texts [] = []
  texts (block ∷ rest) = add_text (block_text block) (texts rest)

  collect_more :
      (out : String) (blocks : List V)
      → is_empty out ≡ false
      → collect_text out blocks ≡ append out (spaced (texts blocks))
  unfolding collect_text
  collect_more out [] h = sym (append-nil out)
  collect_more out (block ∷ rest) h = elim (Option-cases (block_text block)) [
    | inl e ↦ rw e (collect_more out rest h)
    | inr (t, e) ↦
        rw (e, push_text_later out t h)
          (collect_more (append out (append " " t)) rest (is_empty-append out _ h)
            ∙ append_assoc out (append " " t) _
            ∙ ap (append out) (append_assoc " " t _))
  ]

  -- The loop over the blocks of a message gives the texts of the text blocks with a space between
  -- each two, from the first that is not empty.
  pub collect_text_lem : (blocks : List V) → collect_text "" blocks ≡ joined (texts blocks)
  unfolding collect_text
  collect_text_lem [] = refl
  collect_text_lem (block ∷ rest) = elim (Option-cases (block_text block)) [
    | inl e ↦ rw e (collect_text_lem rest)
    | inr (t, e) ↦ elim (Bool-cases (is_empty t)) [
      | inl blank ↦
          rw (e, push_text_first t, blank) (rw (empty_of_is_empty t blank) (collect_text_lem rest))
      | inr full ↦ rw (e, push_text_first t, full) (collect_more t rest full)
    ]
  ]
