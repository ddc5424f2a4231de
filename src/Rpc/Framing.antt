-- ===== src/Rpc/Framing.antt =====
-- src/rpc/mod.rs and the stdout task of src/rpc/process.rs: a text of lines, written and read.
use Prim.Native.Char.{code}
use Prim.Native.String.{◌++◌ as append}
use text.Mathlib.TextLemmas.{append_assoc, append-nil, nil-append}
use pi_piper.Prelude.{
  ℕ, zero, suc, ◌<◌, String, ◌≡◌, ◌≢◌, refl, sym, ◌∙◌, ap, true, Option, none, some, List, [], ◌∷◌,
  map, length, length-map, ok, err, nat_eq, if◌then◌else◌, arith,
}
use pi_piper.Json.{Json}
use pi_piper.Rpc.{
  NextLine, line, end_of_stream, invalid_json, Lines, AsyncWrite, parse_line, next, write_line,
  write_json_line,
}
use pi_piper.Rpc.Process.{forward_read, forward_stdout}

-- What `Lines` strips off the end of a line beside the `\n`.
abbrev pub strip_cr : String → String
strip_cr String.[] = ""
strip_cr (String.◌∷◌ c String.[]) = if nat_eq (code c) 13 then "" else String.◌∷◌ c ""
strip_cr (String.◌∷◌ c (String.◌∷◌ d s)) = String.◌∷◌ c (strip_cr (String.◌∷◌ d s))

abbrev pub NoNewline : String → Type 0
NoNewline String.[] = Unit
NoNewline (String.◌∷◌ c s) = (code c ≢ 10) × NoNewline s

abbrev pub unlines : List String → String
unlines [] = ""
unlines (l ∷ ls) = append l (append "\n" (unlines ls))

-- A reader over a whole text: lines end at `\n`, a `\r` before it is dropped, and at the end of the
-- text there is no further line.
pub record LineText (R : Type 0) ⦃lines : Lines R⦄ : Type 0 where
  pub of_text : String → R
  pub next_line-cons :
      (s rest : String)
      → NoNewline s
      → lines.next_line (of_text (append s (append "\n" rest))) ≡ (line (strip_cr s), of_text rest)
  pub next_line-end : lines.next_line (of_text "") ≡ (end_of_stream, of_text "")

-- A sink that keeps all that it is sent.
pub record Buffer (S : Type 0) ⦃sink : AsyncWrite S⦄ : Type 0 where
  pub written : S → String
  pub write_all-succeeds : (t : String) (s : S) → (sink.write_all t s).0 ≡ true
  pub written-write_all :
      (t : String) (s : S) → written (sink.write_all t s).1 ≡ append (written s) t
  pub flush-succeeds : (s : S) → (sink.flush s).0 ≡ true
  pub written-flush : (s : S) → written (sink.flush s).1 ≡ written s

abbrev pub All {ℓ κ} : {A : Type ℓ} → (A → Type κ) → List A → Type κ
All P [] = Unit
All P (x ∷ xs) = P x × All P xs

module _ {V : Type 0} ⦃json : Json V⦄ where
  abbrev pub keep_some : Option V → List V → List V
  keep_some none vs = vs
  keep_some (some v) vs = v ∷ vs

  -- The values of the lines that are JSON.
  abbrev pub parsed : List String → List V
  parsed [] = []
  parsed (l ∷ ls) = keep_some (json.from_str (strip_cr l)) (parsed ls)

module _ {V : Type 0} ⦃json : Json V⦄ where
  parse_bad :
      (t : String) → json.from_str t ≡ none → parse_line {V = V} (line t) ≡ err (invalid_json t)
  unfolding parse_line
  parse_bad t e = rw (e, parse_line)

  parse_good : (t : String) (v : V) → json.from_str t ≡ some v → parse_line (line t) ≡ ok (some v)
  unfolding parse_line
  parse_good t v e = rw (e, parse_line)

  read_one :
      (t : String) {rest : Option (List V)} {vs : List V} (o : Option V)
      → json.from_str t ≡ o
      → rest ≡ some vs
      → forward_read (parse_line (line t)) rest ≡ some (keep_some o vs)
  read_one t none e h = rw (parse_bad t e) h
  read_one t (some v) e h = rw (parse_good t v e, h)

module _ {V : Type 0} (R : Type 0) ⦃json : Json V⦄ ⦃lines : Lines R⦄ ⦃source : LineText R⦄ where
  -- Where no line has a newline in it and the rounds are more than the lines: the task reads a text
  -- of lines to its end and forwards the lines that are JSON, in order, after a carriage return at a
  -- line's end is dropped; a line that is not JSON is skipped.
  pub forward_stdout-unlines :
      (ls : List String) (rounds : ℕ)
      → All NoNewline ls
      → length ls < rounds
      → forward_stdout {V = V} rounds (source.of_text (unlines ls)) ≡ some (parsed ls)
  unfolding forward_stdout next parse_line
  forward_stdout-unlines ls zero h more = absurd (omega arith)
  forward_stdout-unlines [] (suc rounds) h more =
      ap (λ (p : NextLine × R). forward_read (parse_line {V = V} p.0) (forward_stdout rounds p.1))
        source.next_line-end
  forward_stdout-unlines (l ∷ ls) (suc rounds) h more =
      ap (λ (p : NextLine × R). forward_read (parse_line {V = V} p.0) (forward_stdout rounds p.1))
        (source.next_line-cons l (unlines ls) h.0)
      ∙ read_one (strip_cr l) (json.from_str (strip_cr l)) refl
          (forward_stdout-unlines ls rounds h.1 (omega arith))

module _ {S : Type 0} ⦃sink : AsyncWrite S⦄ ⦃buffer : Buffer S⦄ where
  write_line_lem :
      (t : String) (s : S)
      → ((write_line t s).0 ≡ ok tt)
        × (buffer.written (write_line t s).1 ≡ append (buffer.written s) (append t "\n"))
  write_line_lem t s =
      let u = append t "\n" in
      rw (buffer.write_all-succeeds u s, buffer.flush-succeeds (sink.write_all u s).1)
        (refl, buffer.written-flush (sink.write_all u s).1 ∙ buffer.written-write_all u s)

module _ {V S : Type 0} ⦃json : Json V⦄ ⦃sink : AsyncWrite S⦄ where
  abbrev pub write_each : List V → S → S
  write_each [] s = s
  write_each (v ∷ vs) s = write_each vs (write_json_line v s).1

  module _ ⦃buffer : Buffer S⦄ where
    -- One value is written as its text and a newline, without error.
    pub write_json_line_lem :
        (v : V) (s : S)
        → ((write_json_line v s).0 ≡ ok tt)
          × (buffer.written (write_json_line v s).1
              ≡ append (buffer.written s) (append (json.to_string v) "\n"))
    unfolding write_json_line
    write_json_line_lem v s =
        rw (json.serialize_lem v, write_json_line) (write_line_lem (json.to_string v) s)

    pub written-write_each :
        (vs : List V) (s : S)
        → buffer.written (write_each vs s)
          ≡ append (buffer.written s) (unlines (map json.to_string vs))
    written-write_each [] s = sym (append-nil (buffer.written s))
    written-write_each (v ∷ vs) s =
        written-write_each vs (write_json_line v s).1
        ∙ ap (λ t. append t (unlines (map json.to_string vs))) (write_json_line_lem v s).1
        ∙ append_assoc (buffer.written s) (append (json.to_string v) "\n")
            (unlines (map json.to_string vs))
        ∙ ap (append (buffer.written s))
            (append_assoc (json.to_string v) "\n" (unlines (map json.to_string vs)))

module _ {V : Type 0} ⦃json : Json V⦄ where
  -- A value whose text is one line that is read back as the value.
  pub record IsFramed (v : V) : Type 0 where
    pub one_line : NoNewline (json.to_string v)
    pub reads_back : json.from_str (strip_cr (json.to_string v)) ≡ some v

  lines_of_framed : (vs : List V) → All IsFramed vs → All NoNewline (map json.to_string vs)
  lines_of_framed [] h = tt
  lines_of_framed (v ∷ vs) h = (h.0.one_line, lines_of_framed vs h.1)

  parsed_of_framed : (vs : List V) → All IsFramed vs → parsed (map json.to_string vs) ≡ vs
  parsed_of_framed [] h = refl
  parsed_of_framed (v ∷ vs) h = rw h.0.reads_back (ap (◌∷◌ v) (parsed_of_framed vs h.1))

module _ {V S : Type 0} (R : Type 0) ⦃json : Json V⦄ ⦃lines : Lines R⦄ ⦃source : LineText R⦄ where
  -- Where each value's text is one line that is read back as the value, and the rounds are more than
  -- the values: values that are written one after another to an empty buffer are what the reading
  -- task forwards from its content, each once and in order, and the task ends.
  pub forward_stdout-write_each :
      ⦃sink : AsyncWrite S⦄ ⦃buffer : Buffer S⦄ (vs : List V) (s : S) (rounds : ℕ)
      → buffer.written s ≡ ""
      → All IsFramed vs
      → length vs < rounds
      → forward_stdout rounds (source.of_text (buffer.written (write_each vs s))) ≡ some vs
  forward_stdout-write_each vs s rounds blank h more =
      ap (λ t. forward_stdout rounds (source.of_text t))
        (written-write_each vs s
          ∙ ap (λ t. append t (unlines (map json.to_string vs))) blank
          ∙ nil-append _)
      ∙ forward_stdout-unlines R (map json.to_string vs) rounds (lines_of_framed vs h)
          (rw length-map more)
      ∙ ap some (parsed_of_framed vs h)
