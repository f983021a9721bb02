-- ===== src/Apt/Control.antt =====
-- internal/apt/control.go: ordered control paragraphs and their lenient parser.
-- Text is read as ASCII, except that `continuation` tests single bytes as Latin-1, as the code does.
pub mod Dictionary
pub mod Index
pub mod Lines
mod Tests
use deb_s3_go.Base.{
  ℕ, zero, suc, ◌+◌, Bool, true, false, not, ◌||◌, ◌&&◌, List, [], ◌∷◌, ◌++◌, Option, none, some,
  Bytes, Error, message, Result, ok, err, if◌then◌else◌, length, take, drop, leb, ltb, ◌==◌,
}
use deb_s3_go.Base.Strings.{codes, equal, split, replace_crlf, trim_space, trim_suffix, index_byte}
use deb_s3_go.Base.Assoc.{Assoc, lookup, insert}

-- `Field`
pub record Field : Type 0 where
  pub name : Bytes
  pub value : Bytes

-- `Paragraph`: the fields in order, and the position of each name.
pub record Paragraph : Type 0 where
  pub fields : List Field
  pub index : Assoc ℕ

abbrev pub empty_paragraph : Paragraph
empty_paragraph = record { fields = []; index = [] }

-- `p.fields[position].Value`; an index out of range, which Go refuses, reads as the empty string.
-- `Control.Index` shows that no paragraph built by the parser has such an index.
abbrev pub value_at : List Field → ℕ → Bytes
value_at [] n = []
value_at (f ∷ fs) zero = f.value
value_at (f ∷ fs) (suc n) = value_at fs n

-- `p.fields[position].Value = value`
abbrev pub set_value : List Field → ℕ → Bytes → List Field
set_value [] n v = []
set_value (f ∷ fs) zero v = record f { value = v } ∷ fs
set_value (f ∷ fs) (suc n) v = f ∷ set_value fs n v

-- `append(p.fields[:position], p.fields[position+1:]...)`
abbrev pub remove_at : List Field → ℕ → List Field
remove_at fs n = take n fs ++ drop (suc n) fs

-- `reindex`
unfoldable pub reindex_from : ℕ → Assoc ℕ → List Field → Assoc ℕ
reindex_from n index [] = index
reindex_from n index (f ∷ fs) = reindex_from (suc n) (insert f.name n index) fs

unfoldable pub reindex : Paragraph → Paragraph
unfolding reindex_from
reindex p = record p { index = reindex_from 0 [] p.fields }

abbrev get_at : Paragraph → Option ℕ → Option Bytes
get_at p none = none
get_at p (some n) = some (value_at p.fields n)

-- `Get`; `none` is the `false` of the second result.
unfoldable pub get : Paragraph → Bytes → Option Bytes
get p name = get_at p (lookup name p.index)

take_at : Paragraph → Option ℕ → Option Bytes × Paragraph
take_at p none = (none, p)
take_at p (some n) =
    (some (value_at p.fields n), reindex (record p { fields = remove_at p.fields n }))

-- `Take`
unfoldable pub take_field : Paragraph → Bytes → Option Bytes × Paragraph
unfolding reindex take_at
take_field p name = take_at p (lookup name p.index)

set_at : Paragraph → Bytes → Bytes → Option ℕ → Paragraph
set_at p name value (some n) = record p { fields = set_value p.fields n value }
set_at p name value none = record {
  fields = p.fields ++ (record { name = name; value = value } ∷ []);
  index = insert name (length p.fields) p.index;
}

-- `set`
unfoldable pub set : Paragraph → Bytes → Bytes → Paragraph
unfolding set_at
set p name value = set_at p name value (lookup name p.index)

-- `unicode.IsSpace` of a byte as a rune.
abbrev pub is_space_byte : ℕ → Bool
is_space_byte c = (leb 9 c && leb c 13) || c == 32 || c == 0x85 || c == 0xA0

-- The loop of `continuation`: the indent, and what follows it.
abbrev indent_from : ℕ → Bytes → ℕ × Bytes
indent_from n [] = (n, [])
indent_from n (c ∷ s) =
    let rest = indent_from (suc n) s in if is_space_byte c then rest else (n, c ∷ s)

abbrev checked_indent : ℕ → Bytes → Option (ℕ × Bytes)
checked_indent zero rest = none
checked_indent (suc n) [] = none
checked_indent (suc n) (c ∷ rest) = some (suc n, c ∷ rest)

-- `continuation`
unfoldable pub continuation : Bytes → Option (ℕ × Bytes)
continuation line = let (n, rest) = indent_from 0 line in checked_indent n rest

abbrev pub is_letter : ℕ → Bool
is_letter c = (leb b'a' c && leb c b'z') || (leb b'A' c && leb c b'Z')

abbrev pub is_digit : ℕ → Bool
is_digit c = leb b'0' c && leb c b'9'

abbrev pub is_name_byte : ℕ → Bool
is_name_byte c = c == b'-' || c == b'_' || is_letter c || is_digit c

unfoldable pub all_bytes : (ℕ → Bool) → Bytes → Bool
all_bytes p [] = true
all_bytes p (c ∷ s) = p c && all_bytes p s

-- `controlField`
named_field : Bytes → Option ℕ → Option (Bytes × Bytes)
named_field line none = none
named_field line (some zero) = none
named_field line (some (suc n)) =
    let name = take (suc n) line in
    if all_bytes is_name_byte name then some (name, drop (suc (suc n)) line) else none

unfoldable pub control_field : Bytes → Option (Bytes × Bytes)
unfolding named_field index_byte all_bytes
control_field line = named_field line (index_byte b':' line)

-- The variables of the loop in `ParseParagraph`.
pub record ParserState : Type 0 where
  pub paragraph : Paragraph
  pub current_name : Bytes
  pub current_value : Bytes

-- `commit`
unfoldable pub commit : ParserState → Paragraph
unfolding set
commit st =
    if equal st.current_name []
    then st.paragraph
    else set st.paragraph st.current_name st.current_value

-- A continuation line under the current field.
unfoldable pub continue_field : ParserState → ℕ → Bytes → ParserState
continue_field st indent rest =
    if equal st.current_name []
    then st
    else if indent == 1 && equal rest (codes ".")
    then record st { current_value = st.current_value ++ (b'\n' ∷ []) }
    else if equal st.current_value []
    then record st { current_value = rest }
    else record st { current_value = st.current_value ++ (b'\n' ∷ rest) }

-- A line that is no continuation.
unfoldable pub begin_field : ParserState → Option (Bytes × Bytes) → ParserState
unfolding commit
begin_field st none = st
begin_field st (some (name, value)) = record {
  paragraph = commit st;
  current_name = name;
  current_value = trim_space value;
}

-- The body of the loop, on a line without its `\r`.
parse_with : ParserState → Bytes → Option (ℕ × Bytes) → ParserState
parse_with st line (some (indent, rest)) = continue_field st indent rest
parse_with st line none = begin_field st (control_field line)

unfoldable pub parse_bare_line : ParserState → Bytes → ParserState
unfolding continuation control_field continue_field begin_field parse_with
parse_bare_line st line = parse_with st line (continuation line)

unfoldable pub parse_line : ParserState → Bytes → ParserState
unfolding parse_bare_line trim_suffix
parse_line st line = parse_bare_line st (trim_suffix line (13 ∷ []))

unfoldable pub parse_lines : ParserState → List Bytes → ParserState
unfolding parse_line
parse_lines st [] = st
parse_lines st (line ∷ lines) = parse_lines (parse_line st line) lines

abbrev pub initial : ParserState
initial = record { paragraph = empty_paragraph; current_name = []; current_value = [] }

-- `ParseParagraph`
unfoldable pub parse_paragraph : Bytes → Paragraph
unfolding parse_lines replace_crlf split
parse_paragraph input = commit (parse_lines initial (split b'\n' (replace_crlf input)))

-- `requireField`
unfoldable pub require_field : Paragraph → Bytes → Result Bytes × Paragraph
unfolding take_field
require_field p name =
    let (value, p') = take_field p name in
    (
      elim value [
        | none ↦ err (message "missing required control field")
        | some v ↦ if equal v [] then err (message "missing required control field") else ok v
      ],
      p',
    )
