-- ===== src/Apt/Fields/RoundTrip.antt =====
-- internal/apt/package_render.go and control.go: one field, written and parsed.
pub mod Paragraphs
use deb_s3_go.Base.{
  ℕ, zero, suc, ◌+◌, Bool, true, false, ◌&&◌, ◌||◌, List, [], ◌∷◌, ◌++◌, Option, none, some, Bytes,
  if◌then◌else◌, ◌≡◌, refl, sym, ap, ◌∙◌, arith, ◌==◌, Bool-cases, inl, inr, ◌⊎◌, All, All-append,
  map, append_assoc, append-nil, leb, take, drop, length,
}
use deb_s3_go.Base.Strings.{
  codes, equal, equal_iff, split, join, replace_crlf, trim_suffix, trim_space, index_byte,
}
use deb_s3_go.Base.Paths.Laws.{Lacks, split-join, split-append_sep}
use deb_s3_go.Apt.Control.{
  Field, Paragraph, is_space_byte, is_name_byte, all_bytes, ParserState, continuation,
  control_field, commit, continue_field, begin_field, parse_bare_line, parse_line, parse_lines,
  initial, parse_paragraph, set,
}
use deb_s3_go.Apt.Control.Lines.{
  IsName, headed, control_field-headed, continuation-headed, continuation-shown,
  parse_bare_line-shown, parse_bare_line-headed,
}
use deb_s3_go.Apt.Control.Dictionary.{set_named, position, Distinct}
use deb_s3_go.Apt.Control.Index.{IsIndexed}
use deb_s3_go.Apt.Fields.{
  drop_trailing, split_value_lines, folded_line, folded_lines, written_lines, write_field,
  write_fields,
}
use deb_s3_go.Apt.Fields.Lines.{
  IsLine, unlines, split-unlines, Lacks-unlines, Lacks-append, replace_crlf-Lacks,
  trim_suffix-Lacks, StartsWithText, IsContinued, shown, folded_lines-unlines,
}

-- The last line is not blank.
abbrev pub EndsFull : List Bytes → Type 0
EndsFull [] = Unit
EndsFull (l ∷ []) = equal l [] ≡ false
EndsFull (l ∷ m ∷ ls) = EndsFull (m ∷ ls)

-- A value that survives folding: its first line has no outer white space, and is empty only if it
-- is the whole value; the lines after it are blank or begin with text other than a single dot; the
-- last is not blank; no carriage returns.
pub record IsFoldable (value : Bytes) : Type 0 where
  pub first : Bytes
  pub rest : List Bytes
  pub text : value ≡ join (b'\n' ∷ []) (first ∷ rest)
  pub line : IsLine first
  pub trimmed : trim_space (b' ' ∷ first) ≡ first
  pub starts : (equal first [] ≡ false) ⊎ (rest ≡ [])
  pub continued : All IsContinued rest
  pub ends : EndsFull rest

abbrev grown : Bytes → List Bytes → Bytes
grown value [] = value
grown value (l ∷ ls) = grown (value ++ (b'\n' ∷ l)) ls

pub parse_line-bare :
    (st : ParserState) (line : Bytes) → Lacks 13 line → parse_line st line ≡ parse_bare_line st line
unfolding parse_line
parse_line-bare st line h = ap (parse_bare_line st) (trim_suffix-Lacks line h)

-- A continuation line adds itself to a value that has begun.
parse_line-shown :
    (st : ParserState) (l : Bytes)
    → IsContinued l
    → equal st.current_name [] ≡ false
    → equal st.current_value [] ≡ false
    → parse_line st (shown l) ≡ record st { current_value = st.current_value ++ (b'\n' ∷ l) }
parse_line-shown st [] h n v = unfold parse_line continue_field equal in rw (n, continue_field) refl
parse_line-shown st (c ∷ l) h n v = elim h.starts [
  | inl e ↦ cc
  | inr e ↦
      parse_line-bare st (b' ' ∷ c ∷ l) (refl, h.line.no_return)
      ∙ parse_bare_line-shown st c l e
      ∙ unfold continue_field in rw (n, h.not_dot, v) refl
]

not_nil-append : (s t : Bytes) → equal s [] ≡ false → equal (s ++ t) [] ≡ false
unfolding equal
not_nil-append [] t h = cc
not_nil-append (x ∷ s) t h = refl

parse_lines-shown :
    (ls : List Bytes) (st : ParserState) (more : List Bytes)
    → All IsContinued ls
    → equal st.current_name [] ≡ false
    → (equal st.current_value [] ≡ false) ⊎ (ls ≡ [])
    → parse_lines st (map shown ls ++ more)
      ≡ parse_lines (record st { current_value = grown st.current_value ls }) more
unfolding parse_lines
parse_lines-shown [] st more h n v = refl
parse_lines-shown (l ∷ ls) st more h n (inr e) = cc
parse_lines-shown (l ∷ ls) st more h n (inl v) =
    ap (λ t. parse_lines t (map shown ls ++ more)) (parse_line-shown st l h.0 n v)
    ∙ parse_lines-shown ls (record st { current_value = st.current_value ++ (b'\n' ∷ l) }) more h.1
        n (inl (not_nil-append st.current_value (b'\n' ∷ l) v))

grown-join : (first : Bytes) (ls : List Bytes) → grown first ls ≡ join (b'\n' ∷ []) (first ∷ ls)
unfolding join
grown-join first [] = refl
grown-join first (l ∷ ls) = grown-join (first ++ (b'\n' ∷ l)) ls ∙ regroup ls
  where
    regroup :
        (ls : List Bytes)
        → join (b'\n' ∷ []) ((first ++ (b'\n' ∷ l)) ∷ ls)
          ≡ first ++ (b'\n' ∷ join (b'\n' ∷ []) (l ∷ ls))
    regroup [] = refl
    regroup (m ∷ ls) = append_assoc first (b'\n' ∷ l) (b'\n' ∷ join (b'\n' ∷ []) (m ∷ ls))

-- The lines of one field, read after any others.
parse_lines-field :
    (st : ParserState) (name first : Bytes) (ls more : List Bytes)
    → IsName name
    → Lacks 13 (headed name first)
    → trim_space (b' ' ∷ first) ≡ first
    → (equal first [] ≡ false) ⊎ (ls ≡ [])
    → All IsContinued ls
    → parse_lines st (headed name first ∷ (map shown ls ++ more))
      ≡ parse_lines
          (record {
            paragraph = commit st;
            current_name = name;
            current_value = join (b'\n' ∷ []) (first ∷ ls);
          })
          more
unfolding parse_lines
parse_lines-field st name first ls more h l t s c =
    ap (λ x. parse_lines x (map shown ls ++ more))
      (parse_line-bare st (headed name first) l
        ∙ parse_bare_line-headed st name first h
        ∙ rw t refl)
    ∙ parse_lines-shown ls
        (record { paragraph = commit st; current_name = name; current_value = first }) more c
        h.ne_nil s
    ∙ rw (grown-join first ls) refl
