-- ===== src/Deb/Reader.antt =====
-- internal/deb/reader.go and errors.go: a package file, from its members to the package. The archive
-- is the bytes of the file, and the context is not cancelled. Decompression and tar are parameters.
pub mod Members
pub mod Accepted
use deb_s3_go.Base.{
  ℕ, zero, suc, ◌+◌, ◌*◌, ◌^◌, Bool, true, false, not, ◌||◌, List, [], ◌∷◌, ◌++◌, Option, none,
  some, Bytes, Error, message, wrap, joined, eof, format, canceled, archive_too_large,
  missing_member, unsupported_compression, Result, ok, err, ◌>>=◌, wrap_error, if◌then◌else◌,
  length, take, ltb, String,
}
use deb_s3_go.Base.Strings.{codes, equal, has_prefix, trim_prefix, trim_space, index_byte}
use deb_s3_go.Base.Int.{ℤ, pos, negsuc, itoa}
use deb_s3_go.Base.Paths.{clean}
use deb_s3_go.Apt.Package.{Package, parse_package}
use deb_s3_go.Deb.Ar.{Archive, new_archive, Member, Body, Scan, ended, found, unfinished, scan}

-- `ReaderOptions`, and the same with its defaults, which are positive.
pub record ReaderOptions : Type 0 where
  pub max_control_archive_size : ℤ
  pub max_control_file_size : ℤ

pub record Limits : Type 0 where
  pub control_archive : ℕ
  pub control_file : ℕ

abbrev limit_or : ℕ → ℤ → ℕ
limit_or default (pos (suc n)) = suc n
limit_or default _ = default

-- `withDefaults`
unfoldable pub with_defaults : ReaderOptions → Limits
with_defaults o = record {
  control_archive = limit_or (64 * 2 ^ 20) o.max_control_archive_size;
  control_file = limit_or (8 * 2 ^ 20) o.max_control_file_size;
}

-- `PackageInfo`
pub record PackageInfo : Type 0 where
  pub pack : Package
  pub size : ℕ
  pub md5 : Bytes
  pub sha1 : Bytes
  pub sha256 : Bytes

-- What a tar reader gives: its headers, each with what reading at most so many bytes of its content
-- gives, and the error that ends them.
pub record TarHeader : Type 0 where
  pub name : Bytes
  pub regular : Bool
  pub size : ℕ

pub data Tar : Type 0 where
  stopped : Error → Tar
  entry : TarHeader → (ℕ → Result Bytes) → Tar → Tar

pub data Compression : Type 0 where
  plain gzip xz zstd bzip2 : Compression

-- From outside come the tar reader over a decompressor, which sees a body through `sizeLimitedReader`
-- with a limit and whose making may fail; the hexadecimal digests; and a file's content.
pub record Tools : Type 0 where
  pub untar : ℕ → Compression → Body → Result Tar
  pub md5 : Bytes → Bytes
  pub sha1 : Bytes → Bytes
  pub sha256 : Bytes → Bytes
  pub open_file : Bytes → Result Bytes

-- `validateDebianBinary`
abbrev major_of : Bytes → Option ℕ → Option Bytes
major_of version none = none
major_of version (some n) = some (take n version)

abbrev checked_major : Option Bytes → Result (Unit {0})
checked_major none = err (format "unsupported Debian package format version")
checked_major (some major) =
    if equal major (codes "2")
    then ok tt
    else err (format "unsupported Debian package format version")

unfoldable pub validate_debian_binary : Member → Body → Result (Unit {0})
unfolding index_byte
validate_debian_binary m b =
    if ltb 32 m.size
    then err (format "debian-binary member is unexpectedly large")
    else if not b.complete
    then err (format "truncated debian-binary member")
    else checked_major (major_of (trim_space b.content) (index_byte b'.' (trim_space b.content)))

-- `safeTarName`
abbrev is_abs : Bytes → Bool
is_abs name = has_prefix name (codes "/")

abbrev checked_name : Bytes → Result Bytes
checked_name cleaned =
    if is_abs cleaned || equal cleaned (codes "..") || has_prefix cleaned (codes "../")
    then err (format "unsafe control tar path")
    else ok cleaned

unfoldable pub safe_tar_name : Bytes → Result Bytes
unfolding clean
safe_tar_name name =
    if equal name [] || is_abs name
    then err (format "unsafe control tar path")
    else checked_name (clean (trim_prefix name (codes "./")))

-- `errors.Is(err, io.EOF)`, and the errors that are passed on: the size limit and a cancelled context.
abbrev pub is_eof : Error → Bool
is_eof eof = true
is_eof (wrap _ e) = is_eof e
is_eof (joined a b) = is_eof a || is_eof b
is_eof _ = false

abbrev passed_on : Error → Bool
passed_on archive_too_large = true
passed_on canceled = true
passed_on (wrap _ e) = passed_on e
passed_on (joined a b) = passed_on a || passed_on b
passed_on _ = false

abbrev tar_error : String → Error → Error
tar_error reason e = if passed_on e then e else format reason

-- `readControlTar`
abbrev control_or_missing : Option Bytes → Result Bytes
control_or_missing none = err (missing_member "control file")
control_or_missing (some control) = ok control

abbrev within : ℕ → Result Bytes → Result Bytes
within limit (err e) = err (tar_error "read control file" e)
within limit (ok value) = if ltb limit (length value) then err archive_too_large else ok value

control_value : ℕ → TarHeader → (ℕ → Result Bytes) → Result Bytes
control_value limit h limited =
    if not h.regular
    then err (format "control tar member is not a regular file")
    else if ltb limit h.size
    then err archive_too_large
    else within limit (limited (limit + 1))

-- The control file so far, after one entry.
unfoldable pub control_after :
    ℕ → Option Bytes → TarHeader → (ℕ → Result Bytes) → Bytes → Result (Option Bytes)
unfolding control_value
control_after limit control h limited name =
    if not (equal name (codes "control"))
    then ok control
    else control_value limit h limited >>= (λ value. ok (some value))

unfoldable pub read_control_tar : ℕ → Option Bytes → Tar → Result Bytes
unfolding control_after safe_tar_name
read_control_tar limit control (stopped e) =
    if is_eof e then control_or_missing control else err (tar_error "invalid control tar archive" e)
read_control_tar limit control (entry h limited rest) = do
  name ← safe_tar_name h.name
  control' ← control_after limit control h limited name
  read_control_tar limit control' rest

-- `decompressControl`, up to the reader that it makes
abbrev compression_of : Bytes → Result (Compression × String)
compression_of name =
    if equal name (codes "control.tar")
    then ok (plain, "")
    else if equal name (codes "control.tar.gz")
    then ok (gzip, "invalid gzip control archive")
    else if equal name (codes "control.tar.xz")
    then ok (xz, "invalid xz control archive")
    else if equal name (codes "control.tar.zst")
    then ok (zstd, "invalid zstd control archive")
    else if equal name (codes "control.tar.bz2")
    then ok (bzip2, "")
    else err (unsupported_compression name)

abbrev made : String → Result Tar → Result Tar
made reason (err e) = err (format reason)
made reason (ok tar) = ok tar

-- Where `ReadPackage` is in the archive.
pub record Progress : Type 0 where
  pub control : Bytes
  pub seen_debian_binary : Bool
  pub seen_control : Bool
  pub seen_data : Bool
  pub state : ℕ

abbrev pub initial : Progress
initial = record {
  control = [];
  seen_debian_binary = false;
  seen_control = false;
  seen_data = false;
  state = 0;
}

-- The fields that describe an entry of an index.
abbrev cleared : Package → Package
cleared p = record p { index_filename = none; size = none; md5 = none; sha1 = none; sha256 = none }

module _ (tools : Tools) (limits : Limits) where
  -- `readControlArchive`
  unfoldable pub read_control_archive : Member → Body → Result Bytes
  unfolding read_control_tar
  read_control_archive m b = do
    kind ← compression_of m.name
    tar ← made kind.1 (tools.untar limits.control_archive kind.0 b)
    read_control_tar limits.control_file none tar

  -- One turn of the loop, by the state.
  abbrev binary_step : Progress → Member → Body → Result Progress
  binary_step p m b =
      if not (equal m.name (codes "debian-binary"))
      then err (format "first member is not debian-binary")
      else validate_debian_binary m b
        >>= (λ _. ok (record p { seen_debian_binary = true; state = 1 }))

  abbrev control_step : Progress → Member → Body → Result Progress
  control_step p m b =
      if has_prefix m.name (codes "_")
      then ok p
      else if not (has_prefix m.name (codes "control.tar"))
      then err (format "unexpected member before control archive")
      else read_control_archive m b
        >>= (λ control. ok (record p { control = control; seen_control = true; state = 2 }))

  abbrev data_step : Progress → Member → Result Progress
  data_step p m =
      if has_prefix m.name (codes "_")
      then ok p
      else if not (has_prefix m.name (codes "data.tar"))
      then err (format "unexpected member before data archive")
      else ok (record p { seen_data = true; state = 3 })

  unfoldable pub step_at : ℕ → Progress → Member → Body → Result Progress
  unfolding validate_debian_binary read_control_archive
  step_at zero p m b = binary_step p m b
  step_at (suc zero) p m b = control_step p m b
  step_at (suc (suc zero)) p m b = data_step p m
  step_at _ p m b = ok p

  -- The loop
  unfoldable pub walk : Progress → Scan → Result Progress
  unfolding step_at
  walk p (ended e) = if is_eof e then ok p else err e
  walk p (found m b rest) = step_at p.state p m b >>= (λ p'. walk p' rest)
  walk p unfinished = err (message "archive without an end")

  abbrev control_of : Progress → Result Bytes
  control_of p =
      if not p.seen_debian_binary
      then err (format "missing debian-binary member")
      else if not p.seen_control
      then err (missing_member "control archive")
      else if not p.seen_data
      then err (missing_member "data archive")
      else ok p.control

  -- The file is read to its end, so that the digests and the size are those of all its bytes.
  unfoldable pub read_limited : Bytes → Result PackageInfo
  unfolding walk scan parse_package
  read_limited reader = do
    p ← walk initial (scan (length reader + 1) (new_archive reader))
    control ← control_of p
    pack ← wrap_error "parse package control metadata" (parse_package control)
    ok (record {
      pack = cleared pack;
      size = length reader;
      md5 = tools.md5 reader;
      sha1 = tools.sha1 reader;
      sha256 = tools.sha256 reader;
    })

-- `ReadPackage`
unfoldable pub read_package : Tools → ReaderOptions → Bytes → Result PackageInfo
unfolding read_limited with_defaults
read_package tools o reader = read_limited tools (with_defaults o) reader

-- `ReadPackageFile`
abbrev described : Bytes → PackageInfo → PackageInfo
described filename info = record info {
  pack = record info.pack {
    filename = filename;
    size = some (itoa (pos info.size));
    md5 = some info.md5;
    sha1 = some info.sha1;
    sha256 = some info.sha256;
  };
}

unfoldable pub read_package_file : Tools → ReaderOptions → Bytes → Result PackageInfo
unfolding read_package
read_package_file tools o filename = do
  content ← wrap_error "open Debian package" (tools.open_file filename)
  info ← wrap_error "read Debian package" (read_package tools o content)
  ok (described filename info)
