-- ===== src/Examples/Reading.antt =====
-- internal/deb: the theorems on archives and package files, applied to a small file.
use deb_s3_go.Base.{true, List, [], ◌∷◌, ◌++◌, Bytes, eof, Result, ok, err, ◌≡◌, refl, arith}
use deb_s3_go.Base.Strings.{
  codes, equal, has_prefix, trim_func, drop_while, trim_suffix, trim_prefix, index_byte, split,
  join, contains_byte,
}
use deb_s3_go.Base.Int.{pos, parse_int}
use deb_s3_go.Base.Assoc.{lookup, insert}
use deb_s3_go.Base.Paths.{clean}
use deb_s3_go.Apt.Control.{parse_paragraph}
use deb_s3_go.Apt.Package.{parse_package}
use deb_s3_go.Deb.Ar.{ar_magic, new_archive, parse_header, next, scan, body_of}
use deb_s3_go.Deb.Ar.Written.{Entry, IsEntry, written_all, read_back}
use deb_s3_go.Deb.Ar.RoundTrip.{scan-written}
use deb_s3_go.Deb.Reader.{
  Tools, ReaderOptions, stopped, entry, PackageInfo, read_package_file, walk, read_control_archive,
  validate_debian_binary,
}
use deb_s3_go.Examples.Apt.{package_b}
use deb_s3_go.Deb.Reader.Accepted.{IsRead, read_package_file-IsRead}

abbrev member_of : Bytes → Bytes → Bytes → Entry
member_of name size body = record {
  name_text = name;
  details = codes "0           0     0     100644  ";
  size_text = size;
  body = body;
}

-- The first member's name has a slash behind it, and the last body an odd size.
abbrev binary : Entry
binary = member_of (codes "debian-binary/") (codes "4") (codes "2.0\n")

abbrev control : Entry
control = member_of (codes "control.tar") (codes "2") (codes "ab")

abbrev archive : Entry
archive = member_of (codes "data.tar") (codes "1") (codes "x")

abbrev entries : List Entry
entries = binary ∷ control ∷ archive ∷ []

abbrev file : Bytes
file = ar_magic ++ written_all entries

binary-IsEntry : IsEntry binary
unfolding equal has_prefix trim_suffix trim_prefix parse_int
binary-IsEntry = record {
  name_trimmed = record {
    first = b'd';
    more = _;
    starts = refl;
    first_kept = refl;
    last = b'/';
    init = _;
    ends = refl;
    last_kept = refl;
  };
  name_fits = omega arith;
  name_given = refl;
  name_plain = refl;
  details_fit = refl;
  size_trimmed = record {
    first = b'4';
    more = [];
    starts = refl;
    first_kept = refl;
    last = b'4';
    init = [];
    ends = refl;
    last_kept = refl;
  };
  size_fits = omega arith;
  size_says = refl;
}

scan-written_example :
    scan 2 (new_archive (ar_magic ++ written_all (binary ∷ []))) ≡ read_back (binary ∷ [])
scan-written_example = scan-written (binary ∷ []) 2 (binary-IsEntry, tt) (omega arith)

-- The control archive holds one file.
abbrev tools : Tools
tools = record {
  untar = λ limit kind body. ok (
      entry (record { name = codes "./control"; regular = true; size = 22 })
        (λ n. ok (codes "Package: a\nVersion: 1\n")) (stopped eof));
  md5 = λ c. codes "m";
  sha1 = λ c. codes "s";
  sha256 = λ c. codes "h";
  open_file = λ name. ok file;
}

abbrev options : ReaderOptions
options = record { max_control_archive_size = pos 0; max_control_file_size = pos 0 }

abbrev read_or : Result PackageInfo → PackageInfo → PackageInfo
read_or (ok info) other = info
read_or (err e) other = other

abbrev info : PackageInfo
info =
    read_or (read_package_file tools options (codes "a.deb"))
      (record { pack = package_b; size = 0; md5 = []; sha1 = []; sha256 = [] })

read_at : read_package_file tools options (codes "a.deb") ≡ ok info
unfolding read_package_file walk scan next parse_header read_control_archive validate_debian_binary
    index_byte equal has_prefix trim_func drop_while trim_suffix trim_prefix parse_int clean split
    join parse_package parse_paragraph body_of lookup insert contains_byte
read_at = refl

read_package_file-IsRead_example : IsRead tools (codes "a.deb") info
read_package_file-IsRead_example = read_package_file-IsRead tools options (codes "a.deb") read_at
