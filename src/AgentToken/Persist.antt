-- ===== src/AgentToken/Persist.antt =====
-- src/agent_token.rs: what a start finds of the token of an earlier start.
use Prim.Native.Char.{Char}
use Prim.Native.String.{◌++◌ as append}
use text.Mathlib.TextLemmas.{cons-append}
use native.Mathlib.Omega.{arith}
use pi_piper.Prelude.{
  String, ◌≡◌, ◌≢◌, refl, sym, ◌∙◌, ap, false, none, some, Result, ok, err, Option-cases, inl, inr,
}
use pi_piper.Prelude.Text.{is_empty, is_whitespace, trim, trim_start, trim_end, cons_unless_blank}
use pi_piper.AgentToken.{
  FileSystem, TokenError, existing_token, write_private, returning, create_parent, then_write,
  create, load_or_create,
}

-- No character is white space, as in the 64 hexadecimal digits of two identifiers.
abbrev pub NoBlank : String → Type 0
NoBlank String.[] = Unit
NoBlank (String.◌∷◌ c s) = (is_whitespace c ≡ false) × NoBlank s

trim_end-newline : (s : String) → NoBlank s → trim_end (append s "\n") ≡ s
unfolding trim_end is_whitespace
trim_end-newline String.[] h = refl
trim_end-newline (String.◌∷◌ c s) h = rw (cons-append, trim_end-newline s h.1) (keeps_last c s h.0)
  where
    keeps_last :
        (d : Char) (t : String) → is_whitespace d ≡ false → cons_unless_blank d t ≡ String.◌∷◌ d t
    keeps_last d String.[] ink = rw ink
    keeps_last d (String.◌∷◌ e t) ink = refl

-- A line is trimmed back to the token that it was written with.
trim-newline : (s : String) → NoBlank s → s ≢ "" → trim (append s "\n") ≡ s
unfolding trim trim_start
trim-newline String.[] h full = absurd (full refl)
trim-newline (String.◌∷◌ c s) h full =
    rw (cons-append, h.0, ← cons-append) (trim_end-newline (String.◌∷◌ c s) h)

is_empty-false : (s : String) → s ≢ "" → is_empty s ≡ false
is_empty-false String.[] h = absurd (h refl)
is_empty-false (String.◌∷◌ c s) h = refl

existing_token-newline :
    (token : String)
    → NoBlank token
    → token ≢ ""
    → existing_token (some (append token "\n")) ≡ some token
unfolding existing_token
existing_token-newline token h full = rw (trim-newline token h full, is_empty-false token full)

ok-injective {ℓ} : {E A : Type ℓ} {a b : A} → ◌≡◌ {A = Result E A} (ok a) (ok b) → a ≡ b
ok-injective h = cc

module _ {F : Type 0} ⦃fs : FileSystem F⦄ where
  read-write_private :
      (path token : String) (s : F)
      → (write_private path token s).0 ≡ ok tt
      → fs.read_to_string path (write_private path token s).1 ≡ some (append token "\n")
  unfolding write_private
  read-write_private path token s h =
      ground (arith, h, fs.read-write_all path (append token "\n") s)

  read-returning :
      (path token t : String) (s : F) (p : Result TokenError (Unit {0}) × F)
      → write_private path token s ≡ p
      → (returning token p).0 ≡ ok t
      → (t ≡ token) × (fs.read_to_string path (returning token p).1 ≡ some (append token "\n"))
  read-returning path token t s (ok done, s') e h = (
    ok-injective (sym h),
    ap (λ (q : Result TokenError (Unit {0}) × F). fs.read_to_string path q.1) (sym e)
        ∙ read-write_private path token s (ap (λ (q : Result TokenError (Unit {0}) × F). q.0) e),
  )
  read-returning path token t s (err x, s') e h = cc

  read-then_write :
      (path token t : String) (p : Result TokenError (Unit {0}) × F)
      → (then_write path token p).0 ≡ ok t
      → (t ≡ token)
        × (fs.read_to_string path (then_write path token p).1 ≡ some (append token "\n"))
  read-then_write path token t (ok done, s) h =
      read-returning path token t s (write_private path token s) refl h
  read-then_write path token t (err x, s) h = cc

  load_existing :
      (first second path t : String) (s : F)
      → existing_token (fs.read_to_string path s) ≡ some t
      → load_or_create first second path s ≡ (ok t, s)
  unfolding load_or_create
  load_existing first second path t s e = rw (e, load_or_create)

  load_new :
      (first second path : String) (s : F)
      → existing_token (fs.read_to_string path s) ≡ none
      → load_or_create first second path s ≡ create first second path s
  unfolding load_or_create
  load_new first second path s e = rw (e, load_or_create)

  loaded :
      (first second path t : String) (s : F)
      → NoBlank (append first second)
      → append first second ≢ ""
      → (load_or_create first second path s).0 ≡ ok t
      → existing_token (fs.read_to_string path (load_or_create first second path s).1) ≡ some t
  unfolding create
  loaded first second path t s clean full h =
      elim (Option-cases (existing_token (fs.read_to_string path s))) [
        | inr (old, e) ↦
            let l = load_existing first second path old s e in
            let same : old ≡ t =
              ok-injective (sym (ap (λ (p : Result TokenError String × F). p.0) l) ∙ h) in
            ap (λ (p : Result TokenError String × F). existing_token (fs.read_to_string path p.1)) l
            ∙ e
            ∙ ap some same
        | inl e ↦
            let l = load_new first second path s e in
            let (same, reads) =
              read-then_write path (append first second) t (create_parent (fs.parent path) s)
                (sym (ap (λ (p : Result TokenError String × F). p.0) l) ∙ h) in
            ap (λ (p : Result TokenError String × F). existing_token (fs.read_to_string path p.1)) l
            ∙ ap existing_token reads
            ∙ existing_token-newline (append first second) clean full
            ∙ ap some (sym same)
      ]

  -- Where the two identifiers, put together, are not empty and hold no white space: once a start has
  -- returned a token, a start right after it on the same path returns the same token, whatever
  -- identifiers it is given, and leaves the file system as it is.
  pub load_or_create_again :
      (first second later last path t : String) (s : F)
      → NoBlank (append first second)
      → append first second ≢ ""
      → (load_or_create first second path s).0 ≡ ok t
      → load_or_create later last path (load_or_create first second path s).1
        ≡ (ok t, (load_or_create first second path s).1)
  load_or_create_again first second later last path t s clean full h =
      load_existing later last path t (load_or_create first second path s).1
        (loaded first second path t s clean full h)
