-- ===== src/Apt/Fields.antt =====
-- internal/apt/package_render.go: how one control field is written. A `strings.Builder` is the text
-- written so far, so each function gives what it appends.
pub mod Lines
pub mod RoundTrip
use deb_s3_go.Base.{
  Bool, true, false, ◌&&◌, List, [], ◌∷◌, ◌++◌, Option, none, some, Bytes, if◌then◌else◌,
}
use deb_s3_go.Base.Strings.{codes, equal, split, trim_space}
use deb_s3_go.Apt.Control.{Field}

-- The loop of `splitValueLines`, which cuts the empty lines at the end.
keep_line : Bytes → List Bytes → List Bytes
keep_line l (m ∷ ms) = l ∷ m ∷ ms
keep_line l [] = if equal l [] then [] else l ∷ []

unfoldable pub drop_trailing : List Bytes → List Bytes
unfolding keep_line
drop_trailing [] = []
drop_trailing (l ∷ ls) = keep_line l (drop_trailing ls)

-- `splitValueLines`
unfoldable pub split_value_lines : Bytes → List Bytes
unfolding drop_trailing
split_value_lines value = if equal value [] then [] else drop_trailing (split b'\n' value)

-- A line after the first in `writeField`.
unfoldable pub folded_line : Bytes → Bytes
folded_line line =
    if equal (trim_space line) [] then codes " .\n" else b' ' ∷ (line ++ (b'\n' ∷ []))

unfoldable pub folded_lines : List Bytes → Bytes
unfolding folded_line
folded_lines [] = []
folded_lines (l ∷ ls) = folded_line l ++ folded_lines ls

written_lines : Bytes → List Bytes → Bytes
unfolding folded_lines
written_lines name [] = name ++ codes ": \n"
written_lines name (l ∷ ls) = name ++ (codes ": " ++ (l ++ (b'\n' ∷ folded_lines ls)))

-- `writeField`
unfoldable pub write_field : Bytes → Bytes → Bytes
unfolding written_lines split_value_lines
write_field name value = written_lines name (split_value_lines value)

-- `writeOptionalField`
unfoldable pub write_optional_field : Bytes → Option Bytes → Bytes
unfolding write_field
write_optional_field name none = []
write_optional_field name (some value) = write_field name value

-- `writeDescription`
unfoldable pub write_description : Option Bytes → Bytes
unfolding write_field
write_description none = write_field (codes "Description") (codes "no description given")
write_description (some value) = write_field (codes "Description") value

-- `pointerValue`
abbrev pub pointer_value : Option Bytes → Bytes
pointer_value none = []
pointer_value (some value) = value

-- The loop `for _, field := range … { writeField(…) }`.
unfoldable pub write_fields : List Field → Bytes
unfolding write_field
write_fields [] = []
write_fields (f ∷ fs) = write_field f.name f.value ++ write_fields fs
