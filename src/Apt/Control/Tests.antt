-- ===== src/Apt/Control/Tests.antt =====
-- internal/apt/control.go: paragraphs parsed by evaluation.
use deb_s3_go.Base.{[], ◌∷◌, ◌≡◌, refl, Bytes}
use deb_s3_go.Base.Strings.{codes, equal, trim_func}
use deb_s3_go.Base.Assoc.{lookup, insert}
use deb_s3_go.Apt.Control.{Field, parse_paragraph}

abbrev field : Bytes → Bytes → Field
field n v = record { name = n; value = v }

parse_folded :
    (parse_paragraph (codes "Package: a\r\nDescription: x\n .\n  y\nPackage:  b \n")).fields
    ≡ field (codes "Package") (codes "b") ∷ field (codes "Description") (codes "x\n\ny") ∷ []
unfolding parse_paragraph equal lookup trim_func insert
parse_folded = refl
