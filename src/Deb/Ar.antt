-- ===== src/Deb/Ar.antt =====
-- internal/deb/ar.go: the members of an ar archive, read from a stream of bytes. The stream is what is
-- left of the file; it fails only by ending.
pub mod Written
pub mod RoundTrip
pub mod Finite
use deb_s3_go.Base.{
  ℕ, zero, suc, ◌+◌, ◌-◌, ◌%◌, min, Bool, true, false, not, ◌||◌, List, [], ◌∷◌, ◌++◌, Option, none,
  some, Bytes, Error, eof, format, unexpected_eof, Result, ok, err, ◌>>=◌, if◌then◌else◌, length,
  take, drop, ltb, leb, String,
}
use deb_s3_go.Base.Strings.{codes, equal, has_prefix, trim_space, trim_suffix}
use deb_s3_go.Base.Int.{ℤ, pos, negsuc, parse_int}

abbrev pub ar_magic : Bytes
ar_magic = codes "!<arch>\n"

-- `arReader`
pub record Archive : Type 0 where
  pub reader : Bytes
  pub started : Bool
  pub remaining : ℕ
  pub padding : ℕ

-- `newARReader`
abbrev pub new_archive : Bytes → Archive
new_archive reader = record { reader = reader; started = false; remaining = 0; padding = 0 }

-- `arMember`; its body is read from the archive.
pub record Member : Type 0 where
  pub name : Bytes
  pub size : ℕ

-- `io.ReadFull` and `io.CopyN`, with the error that `formatReadError` makes of an early end: the bytes
-- read, and the rest.
unfoldable pub read_full : ℕ → String → Bytes → Result (Bytes × Bytes)
read_full n reason reader =
    if ltb (length reader) n then err (format reason) else ok (take n reader, drop n reader)

abbrev checked_magic : Archive → Bytes × Bytes → Result Archive
checked_magic ar (magic, reader) =
    if not (equal magic ar_magic)
    then err (format "incorrect ar magic")
    else ok (record ar { reader = reader; started = true })

unfoldable pub start : Archive → Result Archive
unfolding read_full
start ar =
    if ar.started then ok ar else read_full 8 "missing ar magic" ar.reader >>= checked_magic ar

-- What is left of the member before is skipped, and its padding.
unfoldable pub skip : Archive → Result Archive
unfolding read_full
skip ar = do
  body ← read_full ar.remaining "truncated ar member" ar.reader
  pad ← read_full ar.padding "truncated ar member padding" body.1
  ok (record ar { reader = pad.1; remaining = 0; padding = 0 })

-- The fields of a header.
abbrev sized : Bytes → Option (ℤ × Bool) → Result Member
sized name (some (pos n, true)) = ok (record { name = name; size = n })
sized name _ = err (format "invalid size for ar member")

unfoldable pub checked_fields : Bytes → Bytes → Bytes → Result Member
unfolding parse_int
checked_fields trailer name size_text =
    if not (equal trailer (codes "`\n"))
    then err (format "invalid ar member header trailer")
    else if equal name []
    then err (format "ar member has an empty name")
    else if equal name (codes "/") || equal name (codes "//") || has_prefix name (codes "#1/")
    then err (format "unsupported extended ar member name")
    else sized name (parse_int size_text)

unfoldable pub parse_header : Bytes → Result Member
unfolding trim_suffix checked_fields
parse_header header =
    checked_fields (drop 58 header) (trim_suffix (trim_space (take 16 header)) (codes "/"))
      (trim_space (take 10 (drop 48 header)))

-- `io.EOF` where nothing at all is left.
unfoldable pub read_header : Archive → Result (Member × Archive)
unfolding read_full parse_header
read_header ar = if equal ar.reader [] then err eof else (do
  header ← read_full 60 "truncated ar member header" ar.reader
  member ← parse_header header.0
  ok (member, record ar { reader = header.1; remaining = member.size; padding = member.size % 2 }))

-- `Next`
unfoldable pub next : Archive → Result (Member × Archive)
unfolding start skip read_header
next ar = do begun ← start ar; skipped ← skip begun; read_header skipped

-- `memberReader.Read`, where the stream delivers `n` bytes if the member and the stream have them.
abbrev delivered : ℕ → Archive → ℕ
delivered n ar = min n (min ar.remaining (length ar.reader))

unfoldable pub read : ℕ → Archive → Bytes × Archive
read n ar =
    let m = delivered n ar in
    (take m ar.reader, record ar { reader = drop m ar.reader; remaining = ar.remaining - m })

-- What can be read of a body, and whether it is all of it.
pub record Body : Type 0 where
  pub content : Bytes
  pub complete : Bool

unfoldable pub body_of : Archive → Body
body_of ar = record {
  content = take ar.remaining ar.reader;
  complete = leb ar.remaining (length ar.reader);
}

-- The members that `Next` gives one after the other, and the error that ends them; `unfinished`
-- means that the fuel ran out.
pub data Scan : Type 0 where
  ended : Error → Scan
  found : Member → Body → Scan → Scan
  unfinished : Scan

abbrev scanned : (Archive → Scan) → Result (Member × Archive) → Scan
scanned rest (err e) = ended e
scanned rest (ok (member, ar)) = found member (body_of ar) (rest ar)

unfoldable pub scan : ℕ → Archive → Scan
unfolding next
scan zero ar = unfinished
scan (suc fuel) ar = scanned (λ later. scan fuel later) (next ar)
