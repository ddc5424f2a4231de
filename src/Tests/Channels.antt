-- ===== src/Tests/Channels.antt =====
-- A text that is read line by line, a buffer, and a file system that keeps its files.
use Prim.Native.Char.{code}
use Prim.Native.String.{◌++◌ as append}
use text.Mathlib.TextLemmas.{nil-append, cons-append, cons-ne-nil}
use pi_piper.Prelude.{
  ◌≡◌, ◌≢◌, refl, ap, sym, ◌∙◌, String, true, some, List, arith, eq_refl, nat_eq, if◌then◌else◌,
}
use pi_piper.Registry.Map.{lookup, insert, lookup-insert}
use pi_piper.Rpc.{NextLine, line, end_of_stream, Lines, AsyncWrite}
use pi_piper.Rpc.Framing.{strip_cr, NoNewline, LineText, Buffer}
use pi_piper.AgentToken.{FileSystem}

-- The text before the first newline, and the text after it.
abbrev split_line : String → String × String
split_line String.[] = ("", "")
split_line (String.◌∷◌ c s) =
    let (before, after) = split_line s in
    if nat_eq (code c) 10 then ("", s) else (String.◌∷◌ c before, after)

abbrev next_of_text : String → NextLine × String
next_of_text String.[] = (end_of_stream, "")
next_of_text (String.◌∷◌ c s) =
    let (before, after) = split_line (String.◌∷◌ c s) in (line (strip_cr before), after)

instance abbrev pub text_lines : Lines String
text_lines = record { next_line = next_of_text }

split_line-cons :
    (s rest : String) → NoNewline s → split_line (append s (append "\n" rest)) ≡ (s, rest)
split_line-cons String.[] rest h =
    rw (nil-append, cons-append) (ap (λ t. ("", t)) (nil-append rest))
split_line-cons (String.◌∷◌ c s) rest h =
    rw (cons-append, split_line-cons s rest h.1) (ground (arith, h.0))

next_of_text_full :
    (t : String) → t ≢ "" → next_of_text t ≡ (line (strip_cr (split_line t).0), (split_line t).1)
next_of_text_full String.[] h = absurd (h refl)
next_of_text_full (String.◌∷◌ c s) h = refl

full : (s rest : String) → append s (append "\n" rest) ≢ ""
full String.[] rest h =
    cons-ne-nil _ (append "" rest)
      (sym (cons-append _ "" rest) ∙ sym (nil-append (append "\n" rest)) ∙ h)
full (String.◌∷◌ c s) rest h =
    cons-ne-nil c (append s (append "\n" rest)) (sym (cons-append c s _) ∙ h)

pub next_of_text-cons :
    (s rest : String)
    → NoNewline s
    → next_of_text (append s (append "\n" rest)) ≡ (line (strip_cr s), rest)
next_of_text-cons s rest h =
    next_of_text_full (append s (append "\n" rest)) (full s rest)
    ∙ ap (λ (p : String × String). (line (strip_cr p.0), p.1)) (split_line-cons s rest h)

instance abbrev pub text_source : LineText String
text_source = record { of_text = λ t. t; next_line-cons = next_of_text-cons; next_line-end = refl }

instance abbrev pub text_sink : AsyncWrite String
text_sink = record { write_all = λ t s. (true, append s t); flush = λ s. (true, s) }

instance abbrev pub text_buffer : Buffer String
text_buffer = record {
  written = λ s. s;
  write_all-succeeds = λ t s. refl;
  written-write_all = λ t s. refl;
  flush-succeeds = λ s. refl;
  written-flush = λ s. refl;
}

-- Each file with its content.
abbrev pub Files : Type 0
Files = List (String × String)

pub lookup-insert_self : (k t : String) (m : Files) → lookup k (insert k t m) ≡ some t
lookup-insert_self k t m = lookup-insert k k t m ∙ rw (eq_refl k) refl

instance abbrev pub list_files : FileSystem Files
list_files = record {
  read_to_string = lookup;
  parent = λ path. some "/home";
  create_dir_all = λ dir fs. (true, fs);
  open_private = λ path fs. (true, insert path "" fs);
  write_all = λ path t fs. (true, insert path t fs);
  read-write_all = λ path t fs opened written. lookup-insert_self path t (insert path "" fs);
}
