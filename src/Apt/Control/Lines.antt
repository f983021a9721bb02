-- ===== src/Apt/Control/Lines.antt =====
-- internal/apt/control.go: the lines `Name: value` and indented lines, as the parser takes them.
use deb_s3_go.Base.{
  ℕ, suc, true, false, [], ◌∷◌, ◌++◌, none, some, Bytes, ◌≡◌, refl, ap, ◌∙◌, arith, drop, length,
  take-length-append,
}
use deb_s3_go.Base.Strings.{equal, index_byte, trim_space}
use deb_s3_go.Apt.Control.{
  is_space_byte, is_name_byte, all_bytes, continuation, control_field, named_field, ParserState,
  commit, continue_field, begin_field, parse_with, parse_bare_line,
}

-- A field name: not empty, of letters, digits, dashes and underscores.
pub record IsName (name : Bytes) : Type 0 where
  pub ne_nil : equal name [] ≡ false
  pub bytes : all_bytes is_name_byte name ≡ true

-- The line `Name: value`.
abbrev pub headed : Bytes → Bytes → Bytes
headed name first = name ++ (b':' ∷ b' ' ∷ first)

index_byte-name :
    (name t : Bytes)
    → all_bytes is_name_byte name ≡ true
    → index_byte b':' (name ++ (b':' ∷ t)) ≡ some (length name)
unfolding index_byte all_bytes
index_byte-name [] t h = refl
index_byte-name (c ∷ name) t h = ground (arith, index_byte-name name t)

-- A name starts with no space and has no colon.
pub control_field-headed :
    (name first : Bytes)
    → IsName name
    → control_field (headed name first) ≡ some (name, b' ' ∷ first)
unfolding control_field
control_field-headed [] first h = unfold equal in cc
control_field-headed (c ∷ name) first h =
    rw
      (
        index_byte-name (c ∷ name) (b' ' ∷ first) h.bytes,
        named_field,
        take-length-append name (b':' ∷ b' ' ∷ first),
        drop_colon name,
        h.bytes,
      )
      refl
  where
    drop_colon : (s : Bytes) → drop (suc (length s)) (s ++ (b':' ∷ b' ' ∷ first)) ≡ b' ' ∷ first
    drop_colon [] = refl
    drop_colon (x ∷ s) = drop_colon s

pub continuation-headed :
    (name first : Bytes) → IsName name → continuation (headed name first) ≡ none
unfolding continuation all_bytes equal
continuation-headed [] first h = cc
continuation-headed (c ∷ name) first h = ground (arith, h.bytes)

pub continuation-shown :
    (c : ℕ) (l : Bytes) → is_space_byte c ≡ false → continuation (b' ' ∷ c ∷ l) ≡ some (1, c ∷ l)
unfolding continuation
continuation-shown c l h = ground arith

pub parse_bare_line-shown :
    (st : ParserState) (c : ℕ) (l : Bytes)
    → is_space_byte c ≡ false
    → parse_bare_line st (b' ' ∷ c ∷ l) ≡ continue_field st 1 (c ∷ l)
unfolding parse_bare_line
parse_bare_line-shown st c l h = ap (parse_with st (b' ' ∷ c ∷ l)) (continuation-shown c l h)

pub parse_bare_line-headed :
    (st : ParserState) (name first : Bytes)
    → IsName name
    → parse_bare_line st (headed name first) ≡ record {
      paragraph = commit st;
      current_name = name;
      current_value = trim_space (b' ' ∷ first);
    }
unfolding parse_bare_line
parse_bare_line-headed st name first h =
    ap (parse_with st (headed name first)) (continuation-headed name first h)
    ∙ ap (begin_field st) (control_field-headed name first h)
