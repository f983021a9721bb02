-- ===== src/Apt/Fields/RoundTrip/Paragraphs.antt =====
-- internal/apt/package_render.go and control.go: fields, written and parsed as a paragraph.
use deb_s3_go.Base.{
  ℕ, true, false, List, [], ◌∷◌, ◌++◌, none, Bytes, ◌≡◌, refl, sym, ap, ◌∙◌, arith, inl, inr, ◌⊎◌,
  All, All-append, map, append_assoc, append-nil,
}
use deb_s3_go.Base.Strings.{codes, equal, equal_iff, split, join, replace_crlf}
use deb_s3_go.Base.Paths.Laws.{Lacks, split-join}
use deb_s3_go.Apt.Control.{
  Field, Paragraph, is_name_byte, all_bytes, ParserState, commit, parse_lines, initial,
  parse_paragraph, set,
}
use deb_s3_go.Apt.Control.Lines.{IsName, headed}
use deb_s3_go.Apt.Control.Dictionary.{set_named, position, Distinct}
use deb_s3_go.Apt.Control.Index.{IsIndexed, IsIndexed-empty, fields-set, set-IsIndexed}
use deb_s3_go.Apt.Fields.{drop_trailing, write_field, write_fields}
use deb_s3_go.Apt.Fields.Lines.{
  IsLine, unlines, split-unlines, Lacks-unlines, Lacks-append, replace_crlf-Lacks, IsContinued,
  shown, folded_lines-unlines,
}
use deb_s3_go.Apt.Fields.RoundTrip.{EndsFull, IsFoldable, parse_lines-field}

-- A field that survives writing and parsing.
pub record IsWritable (f : Field) : Type 0 where
  pub name : IsName f.name
  pub value : IsFoldable f.value

drop_trailing-EndsFull :
    (l : Bytes) (ls : List Bytes) → EndsFull (l ∷ ls) → drop_trailing (l ∷ ls) ≡ l ∷ ls
unfolding drop_trailing
drop_trailing-EndsFull l [] h = rw h refl
drop_trailing-EndsFull l (m ∷ ls) h = rw (drop_trailing-EndsFull m ls h) refl

-- The lines of the text of a field.
abbrev lines_of : (f : Field) → IsWritable f → List Bytes
lines_of f w = headed f.name w.value.first ∷ map shown w.value.rest

name-Lacks :
    (c : ℕ) (name : Bytes)
    → is_name_byte c ≡ false
    → all_bytes is_name_byte name ≡ true
    → Lacks c name
unfolding all_bytes
name-Lacks c [] n h = tt
name-Lacks c (x ∷ name) n h = (ground (arith, n, h), name-Lacks c name n (ground (arith, h)))

headed-IsLine : (name first : Bytes) → IsName name → IsLine first → IsLine (headed name first)
headed-IsLine name first n l = record {
  no_newline =
      Lacks-append b'\n' name _ (name-Lacks b'\n' name refl n.bytes) (refl, (refl, l.no_newline));
  no_return = Lacks-append 13 name _ (name-Lacks 13 name refl n.bytes) (refl, (refl, l.no_return));
}

shown-IsLine : (ls : List Bytes) → All IsContinued ls → All IsLine (map shown ls)
shown-IsLine [] h = tt
shown-IsLine ([] ∷ ls) h = (
  record { no_newline = (refl, (refl, tt)); no_return = (refl, (refl, tt)) },
  shown-IsLine ls h.1,
)
shown-IsLine ((c ∷ l) ∷ ls) h = (
  record { no_newline = (refl, h.0.line.no_newline); no_return = (refl, h.0.line.no_return) },
  shown-IsLine ls h.1,
)

lines_of-IsLine : (f : Field) (w : IsWritable f) → All IsLine (lines_of f w)
lines_of-IsLine f w = (
  headed-IsLine f.name w.value.first w.name w.value.line,
  shown-IsLine w.value.rest w.value.continued,
)

-- `writeField` writes those lines.
write_field-nil : (name : Bytes) → write_field name [] ≡ unlines (headed name [] ∷ [])
unfolding write_field
write_field-nil name = unfold equal in sym (append_assoc name (codes ": ") (b'\n' ∷ []))

write_field-lines :
    (name : Bytes) (first : Bytes) (rest : List Bytes)
    → IsLine first
    → All IsContinued rest
    → EndsFull (first ∷ rest)
    → equal (join (b'\n' ∷ []) (first ∷ rest)) [] ≡ false
    → write_field name (join (b'\n' ∷ []) (first ∷ rest))
      ≡ unlines (headed name first ∷ map shown rest)
write_field-lines name first rest l c e n =
    unfold write_field in
    rw
      (
        n,
        split-join b'\n' first rest (l.no_newline, without_newline rest c),
        drop_trailing-EndsFull first rest e,
        folded_lines-unlines rest c,
      )
      (sym (append_assoc name (b':' ∷ b' ' ∷ first) _))
  where
    without_newline : (ls : List Bytes) → All IsContinued ls → All (Lacks b'\n') ls
    without_newline [] h = tt
    without_newline (m ∷ ls) h = (h.0.line.no_newline, without_newline ls h.1)

write_field-split :
    (name first : Bytes) (rest : List Bytes)
    → IsLine first
    → (equal first [] ≡ false) ⊎ (rest ≡ [])
    → All IsContinued rest
    → EndsFull rest
    → write_field name (join (b'\n' ∷ []) (first ∷ rest))
      ≡ unlines (headed name first ∷ map shown rest)
unfolding join equal
write_field-split name [] [] l s c e = write_field-nil name
write_field-split name [] (m ∷ ls) l (inl s) c e = cc
write_field-split name [] (m ∷ ls) l (inr s) c e = cc
write_field-split name (x ∷ first) [] l s c e = write_field-lines name (x ∷ first) [] l tt refl refl
write_field-split name (x ∷ first) (m ∷ ls) l s c e =
    write_field-lines name (x ∷ first) (m ∷ ls) l c e refl

write_field-lines_of :
    (f : Field) (w : IsWritable f) → write_field f.name f.value ≡ unlines (lines_of f w)
write_field-lines_of f w =
    ap (write_field f.name) w.value.text
    ∙ write_field-split f.name w.value.first w.value.rest w.value.line w.value.starts
        w.value.continued w.value.ends

abbrev all_lines : (fs : List Field) → All IsWritable fs → List Bytes
all_lines [] w = []
all_lines (f ∷ fs) w = lines_of f w.0 ++ all_lines fs w.1

unlines-append : (ls ms : List Bytes) → unlines (ls ++ ms) ≡ unlines ls ++ unlines ms
unlines-append [] ms = refl
unlines-append (l ∷ ls) ms =
    ap (λ t. l ++ (b'\n' ∷ t)) (unlines-append ls ms)
    ∙ sym (append_assoc l (b'\n' ∷ unlines ls) (unlines ms))

write_fields-lines :
    (fs : List Field) (w : All IsWritable fs) → write_fields fs ≡ unlines (all_lines fs w)
unfolding write_fields
write_fields-lines [] w = refl
write_fields-lines (f ∷ fs) w =
    rw (write_field-lines_of f w.0, write_fields-lines fs w.1)
      (sym (unlines-append (lines_of f w.0) (all_lines fs w.1)))

all_lines-IsLine : (fs : List Field) (w : All IsWritable fs) → All IsLine (all_lines fs w)
all_lines-IsLine [] w = tt
all_lines-IsLine (f ∷ fs) w =
    All-append IsLine (lines_of f w.0) (all_lines fs w.1) (lines_of-IsLine f w.0)
      (all_lines-IsLine fs w.1)

-- The state after reading fields: each commits the one before it.
abbrev after : ParserState → List Field → ParserState
after st [] = st
after st (f ∷ fs) =
    after (record { paragraph = commit st; current_name = f.name; current_value = f.value }) fs

parse_lines_fields :
    (fs : List Field) (w : All IsWritable fs) (st : ParserState) (more : List Bytes)
    → parse_lines st (all_lines fs w ++ more) ≡ parse_lines (after st fs) more
parse_lines_fields [] w st more = refl
parse_lines_fields (f ∷ fs) w st more =
    ap (λ t. parse_lines st (headed f.name w.0.value.first ∷ t))
      (append_assoc (map shown w.0.value.rest) (all_lines fs w.1) more)
    ∙ parse_lines-field st f.name w.0.value.first w.0.value.rest (all_lines fs w.1 ++ more) w.0.name
        (headed-IsLine f.name w.0.value.first w.0.name w.0.value.line).no_return w.0.value.trimmed
        w.0.value.starts w.0.value.continued
    ∙ rw (← w.0.value.text) refl
    ∙ parse_lines_fields fs w.1
        (record { paragraph = commit st; current_name = f.name; current_value = f.value }) more

position-append :
    (j : Bytes) (fs gs : List Field)
    → position j (fs ++ gs) ≡ none
    → (position j fs ≡ none) × (position j gs ≡ none)
position-append j [] gs h = (refl, h)
position-append j (f ∷ fs) gs h = ground (arith, position-append j fs gs)

Distinct-append :
    (fs : List Field) (f : Field) (gs : List Field)
    → Distinct (fs ++ (f ∷ gs))
    → position f.name fs ≡ none
Distinct-append [] f gs h = refl
Distinct-append (x ∷ fs) f gs h = ground (
  arith,
  position-append x.name fs (f ∷ gs) h.0,
  Distinct-append fs f gs h.1,
  equal_iff x.name f.name,
  equal_iff f.name x.name,
)

set_named-absent :
    (name value : Bytes) (fs : List Field)
    → position name fs ≡ none
    → set_named name value fs ≡ fs ++ (record { name = name; value = value } ∷ [])
set_named-absent name value [] h = refl
set_named-absent name value (f ∷ fs) h = ground (arith, set_named-absent name value fs)

after-fields :
    (fs : List Field) (w : All IsWritable fs) (st : ParserState)
    → IsIndexed (commit st)
    → Distinct ((commit st).fields ++ fs)
    → (commit (after st fs)).fields ≡ (commit st).fields ++ fs
after-fields [] w st h d = sym (append-nil (commit st).fields)
after-fields (f ∷ fs) w st h d =
    let committed : commit next ≡ set (commit st) f.name f.value =
      unfold commit in rw w.0.name.ne_nil refl in
    let added : (commit next).fields ≡ (commit st).fields ++ (f ∷ []) =
      ap (λ (p : Paragraph). p.fields) committed
      ∙ fields-set (commit st) h f.name f.value
      ∙ set_named-absent f.name f.value (commit st).fields
          (Distinct-append (commit st).fields f fs d) in
    let grown = ap (λ t. t ++ fs) added ∙ append_assoc (commit st).fields (f ∷ []) fs in
    after-fields fs w.1 next (rw committed (set-IsIndexed (commit st) h f.name f.value))
      (rw grown d)
    ∙ grown
  where
    next : ParserState
    next = record { paragraph = commit st; current_name = f.name; current_value = f.value }

ignored_line : (st : ParserState) → parse_lines st ([] ∷ []) ≡ st
ignored_line st = unfold parse_lines in refl

-- Fields of distinct names that can be written are read back: their names are not empty and of
-- letters, digits, dashes and underscores, and their values survive folding.
pub parse_paragraph-write_fields :
    (fs : List Field)
    → All IsWritable fs
    → Distinct fs
    → (parse_paragraph (write_fields fs)).fields ≡ fs
unfolding parse_paragraph
parse_paragraph-write_fields fs w d =
    let lines = all_lines-IsLine fs w in
    let text =
      ap replace_crlf (write_fields-lines fs w)
      ∙ replace_crlf-Lacks (unlines (all_lines fs w)) (Lacks-unlines (all_lines fs w) lines) in
    ap (λ t. (commit (parse_lines initial (split b'\n' t))).fields) text
    ∙ ap (λ t. (commit (parse_lines initial t)).fields) (split-unlines (all_lines fs w) lines)
    ∙ ap (λ t. (commit t).fields)
        (parse_lines_fields fs w initial ([] ∷ []) ∙ ignored_line (after initial fs))
    ∙ after-fields fs w initial (unfold commit equal in IsIndexed-empty) (unfold commit equal in d)
    ∙ unfold commit equal in refl
