-- ===== src/Deb/Reader/Accepted.antt =====
-- internal/deb/reader.go: what `ReadPackageFile` returns.
use mathlib.Core.Path.{subst}
use deb_s3_go.Base.{
  ◌+◌, true, List, none, some, Bytes, Result, ok, err, bind-eq-ok, ok-injective, wrap_error, length,
  ◌≡◌, refl, sym, ap, Bool-cases, inl, inr, String,
}
use deb_s3_go.Base.Int.{pos, itoa}
use deb_s3_go.Apt.Package.{Package, parse_package}
use deb_s3_go.Deb.Ar.{Member, scan, new_archive}
use deb_s3_go.Deb.Reader.{
  ReaderOptions, Limits, Tools, Progress, initial, walk, control_of, PackageInfo, read_limited,
  read_package, read_package_file, with_defaults, cleared, described,
}
use deb_s3_go.Deb.Reader.Members.{Holds, IsPackage, walk-IsPackage}

wrap_error-ok :
    {A : Type 0} (text : String) {a : A} (r : Result A) → wrap_error text r ≡ ok a → r ≡ ok a
wrap_error-ok text (ok b) h = h
wrap_error-ok text (err e) h = cc

control_of-seen :
    (tools : Tools) (limits : Limits) (p : Progress) {c : Bytes}
    → control_of tools limits p ≡ ok c
    → p.seen_data ≡ true
control_of-seen tools limits p h = elim (Bool-cases p.seen_debian_binary) [
  | inr e ↦ cc (rw e at h)
  | inl e ↦ elim (Bool-cases p.seen_control) [
    | inr e' ↦ cc (rw (e, e') at h)
    | inl e' ↦ elim (Bool-cases p.seen_data) [
      | inr e'' ↦ cc (rw (e, e', e'') at h)
      | inl seen ↦ seen
    ]
  ]
]

-- The package and the file that it was read from.
pub record IsRead (tools : Tools) (filename : Bytes) (info : PackageInfo) : Type 0 where
  pub content : Bytes
  pub opened : tools.open_file filename ≡ ok content
  pub members : List Member
  pub holds : Holds (scan (length content + 1) (new_archive content)) members
  pub is_package : IsPackage members
  pub from_file : info.pack.filename ≡ filename
  pub no_index_filename : info.pack.index_filename ≡ none
  pub sized : info.pack.size ≡ some (itoa (pos (length content)))
  pub with_md5 : info.pack.md5 ≡ some (tools.md5 content)
  pub with_sha1 : info.pack.sha1 ≡ some (tools.sha1 content)
  pub with_sha256 : info.pack.sha256 ≡ some (tools.sha256 content)

-- What `ReadPackage` makes of the bytes of a file.
record Parts (tools : Tools) (content : Bytes) (info : PackageInfo) : Type 0 where
  members : List Member
  holds : Holds (scan (length content + 1) (new_archive content)) members
  is_package : IsPackage members
  pack : Package
  returned : info ≡ record {
    pack = cleared pack;
    size = length content;
    md5 = tools.md5 content;
    sha1 = tools.sha1 content;
    sha256 = tools.sha256 content;
  }

read_limited-Parts :
    (tools : Tools) (limits : Limits) (content : Bytes) {info : PackageInfo}
    → read_limited tools limits content ≡ ok info
    → Parts tools content info
unfolding read_limited
read_limited-Parts tools limits content h =
    let s = scan (length content + 1) (new_archive content) in
    let (p, e, h1) = bind-eq-ok (walk tools limits initial s) _ h in
    let (control, e2, h2) = bind-eq-ok (control_of tools limits p) _ h1 in
    let (pack, e3, h3) =
      bind-eq-ok (wrap_error "parse package control metadata" (parse_package control)) _ h2 in
    let (members, holds, order) =
      walk-IsPackage tools limits s e (control_of-seen tools limits p e2) in
    record {
      members = members;
      holds = holds;
      is_package = order;
      pack = pack;
      returned = sym (ok-injective h3);
    }

described-IsRead :
    (tools : Tools) (filename content : Bytes) (read : PackageInfo)
    → tools.open_file filename ≡ ok content
    → Parts tools content read
    → IsRead tools filename (described filename read)
described-IsRead tools filename content read h p = record {
  content = content;
  opened = h;
  members = p.members;
  holds = p.holds;
  is_package = p.is_package;
  from_file = refl;
  no_index_filename = ap (λ (r : PackageInfo). r.pack.index_filename) p.returned;
  sized = ap (λ (r : PackageInfo). some (itoa (pos r.size))) p.returned;
  with_md5 = ap (λ (r : PackageInfo). some r.md5) p.returned;
  with_sha1 = ap (λ (r : PackageInfo). some r.sha1) p.returned;
  with_sha256 = ap (λ (r : PackageInfo). some r.sha256) p.returned;
}

-- When `ReadPackageFile` returns a package, the file is an archive whose members are, in this order,
-- `debian-binary`, the control archive, the data archive and any others, with nothing but members
-- whose names begin with an underscore before the data archive. The package has the name of the
-- file, the size and the digests of its bytes, whatever its control file says of them, and no path
-- in an index.
pub read_package_file-IsRead :
    (tools : Tools) (o : ReaderOptions) (filename : Bytes) {info : PackageInfo}
    → read_package_file tools o filename ≡ ok info
    → IsRead tools filename info
unfolding read_package_file read_package
read_package_file-IsRead tools o filename {info} h =
    let (content, e, h1) =
      bind-eq-ok (wrap_error "open Debian package" (tools.open_file filename)) _ h in
    let (read, e2, h2) =
      bind-eq-ok (wrap_error "read Debian package" (read_limited tools (with_defaults o) content)) _
        h1 in
    subst (IsRead tools filename) (ok-injective h2) (
      described-IsRead tools filename content read
        (wrap_error-ok "open Debian package" (tools.open_file filename) e)
        (read_limited-Parts tools (with_defaults o) content
          (wrap_error-ok "read Debian package" (read_limited tools (with_defaults o) content) e2)))
