-- ===== src/Signing/Quoted.antt =====
-- internal/signing/gpg.go: options that are written in single quotes, read back.
use deb_s3_go.Base.{
  ℕ, true, false, ◌==◌, List, [], ◌∷◌, ◌++◌, append_assoc, append-nil, Bytes, ok, if◌then◌else◌,
  ◌≡◌, refl, sym, ap, ◌∙◌, Bool-cases, ==_iff, inl, inr,
}
use deb_s3_go.Base.{map, All, arith}
use deb_s3_go.Base.Runes.{encode_rune, encoded, IsRune, runes-encoded}
use deb_s3_go.Base.Strings.{codes}
use deb_s3_go.Signing.{Tokens, no_tokens, flush, token_step, tokens_of, finished, parse_options}

-- Options are given by their runes. An option as a shell has it quoted: in single quotes, with a quote inside as `'\''`.
abbrev pub quoted_rune : ℕ → List ℕ
quoted_rune c = if c == b'\'' then codes "'\\''" else c ∷ []

abbrev pub quoted_from : List ℕ → List ℕ
quoted_from [] = codes "'"
quoted_from (c ∷ s) = quoted_rune c ++ quoted_from s

abbrev pub quoted : List ℕ → List ℕ
quoted s = b'\'' ∷ quoted_from s

-- Options behind one another, with a space before each.
abbrev pub command_line : List (List ℕ) → List ℕ
command_line [] = []
command_line (s ∷ options) = b' ' ∷ (quoted s ++ command_line options)

abbrev in_quotes : List Bytes → Bytes → Tokens
in_quotes options current = record {
  options = options;
  current = current;
  quote = b'\'';
  escaped = false;
  have_token = true;
}

abbrev outside : List Bytes → Bytes → Tokens
outside options current = record {
  options = options;
  current = current;
  quote = 0;
  escaped = false;
  have_token = true;
}

-- A quote inside: the token is left, escaped, and entered again.
inner_quote :
    (options : List Bytes) (current : Bytes) (rest : List ℕ)
    → tokens_of (in_quotes options current) (codes "'\\''" ++ rest)
      ≡ tokens_of (in_quotes options (current ++ encode_rune b'\'')) rest
unfolding tokens_of token_step
inner_quote options current rest = refl

inner_rune :
    (options : List Bytes) (current : Bytes) (rest : List ℕ) (c : ℕ)
    → (c == b'\'') ≡ false
    → tokens_of (in_quotes options current) (c ∷ rest)
      ≡ tokens_of (in_quotes options (current ++ encode_rune c)) rest
unfolding tokens_of token_step
inner_rune options current rest c h = elim (Bool-cases (c == b'\\')) [
  | inl backslash ↦ rw (backslash, h) refl
  | inr plain ↦ rw (plain, h) refl
]

closing :
    (options : List Bytes) (current : Bytes) (rest : List ℕ)
    → tokens_of (in_quotes options current) (b'\'' ∷ rest)
      ≡ tokens_of (outside options current) rest
unfolding tokens_of token_step
closing options current rest = refl

-- One rune of an option, quoted.
quoted_rune_step :
    (options : List Bytes) (current : Bytes) (rest : List ℕ) (c : ℕ)
    → tokens_of (in_quotes options current) (quoted_rune c ++ rest)
      ≡ tokens_of (in_quotes options (current ++ encode_rune c)) rest
quoted_rune_step options current rest c = elim (Bool-cases (c == b'\'')) [
  | inl quote ↦ rw quote (
      inner_quote options current rest
      ∙ ap (λ d. tokens_of (in_quotes options (current ++ encode_rune d)) rest)
          (sym ((==_iff c b'\'').0 quote)))
  | inr other ↦ rw other (inner_rune options current rest c other)
]

tokens_of-quoted :
    (options : List Bytes) (s : List ℕ) (current : Bytes) (rest : List ℕ)
    → tokens_of (in_quotes options current) (quoted_from s ++ rest)
      ≡ tokens_of (outside options (current ++ encoded s)) rest
tokens_of-quoted options [] current rest =
    closing options current rest
    ∙ ap (λ s. tokens_of (outside options s) rest) (sym (append-nil current))
tokens_of-quoted options (c ∷ s) current rest =
    ap (tokens_of (in_quotes options current)) (append_assoc (quoted_rune c) (quoted_from s) rest)
    ∙ quoted_rune_step options current (quoted_from s ++ rest) c
    ∙ tokens_of-quoted options s (current ++ encode_rune c) rest
    ∙ ap (λ t. tokens_of (outside options t) rest)
        (append_assoc current (encode_rune c) (encoded s))

-- The first option, and one behind another.
entering :
    (options : List Bytes) (rest : List ℕ)
    → tokens_of (record no_tokens { options = options }) (b' ' ∷ b'\'' ∷ rest)
      ≡ tokens_of (in_quotes options []) rest
unfolding tokens_of token_step flush
entering options rest = refl

entering_next :
    (options : List Bytes) (current : Bytes) (rest : List ℕ)
    → tokens_of (outside options current) (b' ' ∷ b'\'' ∷ rest)
      ≡ tokens_of (in_quotes (options ++ (current ∷ [])) []) rest
unfolding tokens_of token_step flush
entering_next options current rest = refl

tokens_of-rest :
    (options : List (List ℕ)) (before : List Bytes) (current : Bytes)
    → finished (tokens_of (outside before current) (command_line options))
      ≡ ok ((before ++ (current ∷ [])) ++ map encoded options)
unfolding finished flush tokens_of
tokens_of-rest [] before current = ap ok (sym (append-nil (before ++ (current ∷ []))))
tokens_of-rest (s ∷ options) before current =
    ap finished (
      entering_next before current (quoted_from s ++ command_line options)
      ∙ tokens_of-quoted (before ++ (current ∷ [])) s [] (command_line options))
    ∙ tokens_of-rest options (before ++ (current ∷ [])) (encoded s)
    ∙ ap ok (append_assoc (before ++ (current ∷ [])) (encoded s ∷ []) (map encoded options))

read_back :
    (options : List (List ℕ))
    → finished (tokens_of no_tokens (command_line options)) ≡ ok (map encoded options)
unfolding finished flush tokens_of
read_back [] = refl
read_back (s ∷ options) =
    ap finished (
      entering [] (quoted_from s ++ command_line options)
      ∙ tokens_of-quoted [] s [] (command_line options))
    ∙ tokens_of-rest options [] (encoded s)

quoted_from-All-IsRune :
    (s rest : List ℕ) → All IsRune s → All IsRune rest → All IsRune (quoted_from s ++ rest)
quoted_from-All-IsRune [] rest h k = (inl (omega arith), k)
quoted_from-All-IsRune (c ∷ s) rest h k = elim (Bool-cases (c == b'\'')) [
  | inl quote ↦
      let small : IsRune b'\'' = inl (omega arith) in
      rw quote (small, (inl (omega arith), (small, (small, quoted_from-All-IsRune s rest h.1 k))))
  | inr other ↦ rw other (h.0, quoted_from-All-IsRune s rest h.1 k)
]

command_line-All-IsRune :
    (options : List (List ℕ)) → All (All IsRune) options → All IsRune (command_line options)
command_line-All-IsRune [] h = tt
command_line-All-IsRune (s ∷ options) h = (
  inl (omega arith),
  (
    inl (omega arith),
    quoted_from-All-IsRune s (command_line options) h.0 (command_line-All-IsRune options h.1),
  ),
)

-- Options of any Unicode text, in UTF-8, that are written each in single quotes, with a quote inside as
-- `'\''`, and a space before each, are read back as they are; also an empty option, and none.
pub parse_options-command_line :
    (options : List (List ℕ))
    → All (All IsRune) options
    → parse_options (encoded (command_line options)) ≡ ok (map encoded options)
unfolding parse_options
parse_options-command_line options h =
    ap (λ input. finished (tokens_of no_tokens input))
      (runes-encoded (command_line options) (command_line-All-IsRune options h))
    ∙ read_back options
