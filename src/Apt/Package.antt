-- ===== src/Apt/Package.antt =====
-- internal/apt/package.go: package records, their versions and pool paths.
pub mod Version
pub mod PoolPath
use deb_s3_go.Base.{
  ℕ, zero, suc, ◌+◌, ◌-◌, Bool, true, false, not, ◌||◌, ◌&&◌, List, [], ◌∷◌, ◌++◌, Option, none,
  some, Bytes, Error, message, Result, ok, err, ◌>>=◌, if◌then◌else◌, length, leb, ltb, ◌==◌, take,
  drop,
}
use deb_s3_go.Base.Strings.{
  codes, equal, join, trim_prefix, has_prefix, contains_byte, index_byte, span,
}
use deb_s3_go.Base.Paths.{clean, base}
use deb_s3_go.Apt.Control.{
  Field, Paragraph, parse_paragraph, require_field, take_field, is_digit, all_bytes,
}
use deb_s3_go.Apt.Dependency.{parse_dependencies, normalize_dependency}
use deb_s3_go.Apt.Fields.{
  write_field, write_optional_field, write_description, pointer_value, write_fields,
}

-- `Package`; a nil pointer is `none`.
pub record Package : Type 0 where
  pub name : Bytes
  pub version : Bytes
  pub epoch : Bytes
  pub iteration : Bytes
  pub iteration_present : Bool
  pub architecture : Bytes
  pub maintainer : Bytes
  pub category : Bytes
  pub license : Bytes
  pub vendor : Bytes
  pub homepage : Option Bytes
  pub origin : Option Bytes
  pub priority : Option Bytes
  pub installed_size : Option Bytes
  pub description : Option Bytes
  pub index_filename : Option Bytes
  pub size : Option Bytes
  pub sha1 : Option Bytes
  pub sha256 : Option Bytes
  pub md5 : Option Bytes
  pub dependencies : List Bytes
  pub pre_depends : Option Bytes
  pub recommends : Option Bytes
  pub suggests : Option Bytes
  pub enhances : Option Bytes
  pub breaks : Option Bytes
  pub conflicts : Option Bytes
  pub provides : Option Bytes
  pub replaces : Option Bytes
  pub extra_fields : List Field
  pub filename : Bytes
  pub no_depends : Bool
  pub ignore_iteration_in_dependencies : Bool

-- `versionPattern` without the epoch: the version is the shortest that leaves nothing or a dash.
cut_iteration : Bytes → Bytes × Bytes
cut_iteration [] = ([], [])
cut_iteration (c ∷ s) = let (v, i) = cut_iteration s in if c == b'-' then ([], s) else (c ∷ v, i)

match_body : Bytes → Option (Bytes × Bytes)
unfolding cut_iteration
match_body [] = none
match_body (c ∷ s) = let (v, i) = cut_iteration s in some (c ∷ v, i)

abbrev with_epoch : Bytes → Option (Bytes × Bytes) → Option (Bytes × Bytes × Bytes)
with_epoch epoch none = none
with_epoch epoch (some (v, i)) = some (epoch, v, i)

-- The epoch is digits before a colon that has something behind it.
match_epoch : Bytes → Bytes × Bytes → Option (Bytes × Bytes × Bytes)
unfolding match_body
match_epoch full (c ∷ epoch, d ∷ e ∷ rest) =
    if d == b':'
    then with_epoch (c ∷ epoch) (match_body (e ∷ rest))
    else with_epoch [] (match_body full)
match_epoch full _ = with_epoch [] (match_body full)

-- `versionPattern.FindStringSubmatch`: epoch, version and iteration; `.` matches no newline.
unfoldable pub match_version : Bytes → Option (Bytes × Bytes × Bytes)
unfolding match_epoch span
match_version full =
    if contains_byte b'\n' full then none else match_epoch full (span is_digit full)

-- `IterationPresent`
unfoldable pub has_iteration : Bytes → Bytes → Bool
has_iteration epoch full =
    contains_byte b'-' (if equal epoch [] then full else trim_prefix full (epoch ++ (b':' ∷ [])))

-- `FullVersion`
unfoldable pub full_version : Package → Bytes
full_version p =
    if equal p.epoch [] && equal p.version [] && equal p.iteration [] && not p.iteration_present
    then []
    else let version = if equal p.epoch [] then p.version else p.epoch ++ (b':' ∷ p.version) in
      if p.iteration_present || not (equal p.iteration [])
      then version ++ (b'-' ∷ p.iteration)
      else version

-- `NewPackage`; the maintainer comes from the environment.
abbrev pub new_package : Bytes → Package
new_package maintainer = record {
  name = [];
  version = [];
  epoch = [];
  iteration = [];
  iteration_present = false;
  architecture = codes "native";
  maintainer = maintainer;
  category = codes "default";
  license = codes "unknown";
  vendor = codes "none";
  homepage = none;
  origin = none;
  priority = none;
  installed_size = none;
  description = some (codes "no description given");
  index_filename = none;
  size = none;
  sha1 = none;
  sha256 = none;
  md5 = none;
  dependencies = [];
  pre_depends = none;
  recommends = none;
  suggests = none;
  enhances = none;
  breaks = none;
  conflicts = none;
  provides = none;
  replaces = none;
  extra_fields = [];
  filename = [];
  no_depends = false;
  ignore_iteration_in_dependencies = false;
}

-- `normalizeExtraFieldName`
abbrev is_dump_byte : ℕ → Bool
is_dump_byte c = c == b'B' || c == b'C' || c == b'S'

unprefixed_name : Bytes → Bytes → Option ℕ → Bytes
unprefixed_name name rest none = name
unprefixed_name name rest (some dash) =
    if ltb 3 dash
    then name
    else if all_bytes is_dump_byte (take dash rest)
    then drop (suc dash) rest
    else name

unfoldable pub normalize_extra_field_name : Bytes → Bytes
unfolding unprefixed_name
normalize_extra_field_name [] = []
normalize_extra_field_name (c ∷ rest) =
    if c == b'X' then unprefixed_name (c ∷ rest) rest (index_byte b'-' rest) else c ∷ rest

-- `setExtraField`
unfoldable pub set_extra_field : Field → List Field → List Field
set_extra_field field [] = field ∷ []
set_extra_field field (f ∷ fs) =
    if equal f.name field.name
    then record f { value = field.value } ∷ fs
    else f ∷ set_extra_field field fs

unfoldable pub set_extra_fields : List Field → List Field → List Field
unfolding set_extra_field normalize_extra_field_name
set_extra_fields extra [] = extra
set_extra_fields extra (f ∷ fs) =
    set_extra_fields (set_extra_field (record f { name = normalize_extra_field_name f.name }) extra)
      fs

abbrev pub value_or : Bytes → Option Bytes → Bytes
value_or d none = d
value_or d (some v) = v

abbrev parsed_depends : Option Bytes → List Bytes
parsed_depends none = []
parsed_depends (some value) = parse_dependencies value

-- The part of `ParsePackage` after the version: each `Take` removes its field, and what is left
-- becomes the extra fields. The maintainer of `NewPackage` is replaced here on every path.
fill_package : Bytes → Bytes × Bytes × Bytes → Paragraph → Package
unfolding has_iteration take_field set_extra_fields
fill_package full (epoch, version, iteration) p0 =
    let (architecture, p1) = take_field p0 (codes "Architecture") in
    let (section, p2) = take_field p1 (codes "Section") in
    let (license, p3) = take_field p2 (codes "License") in
    let (maintainer, p4) = take_field p3 (codes "Maintainer") in
    let (name, p5) = take_field p4 (codes "Package") in
    let (homepage, p6) = take_field p5 (codes "Homepage") in
    let (vendor, p7) = take_field p6 (codes "Vendor") in
    let (priority, p8) = take_field p7 (codes "Priority") in
    let (origin, p9) = take_field p8 (codes "Origin") in
    let (installed_size, p10) = take_field p9 (codes "Installed-Size") in
    let (index_filename, p11) = take_field p10 (codes "Filename") in
    let (sha1, p12) = take_field p11 (codes "SHA1") in
    let (sha256, p13) = take_field p12 (codes "SHA256") in
    let (md5, p14) = take_field p13 (codes "MD5sum") in
    let (size, p15) = take_field p14 (codes "Size") in
    let (description, p16) = take_field p15 (codes "Description") in
    let (depends, p17) = take_field p16 (codes "Depends") in
    let (recommends, p18) = take_field p17 (codes "Recommends") in
    let (suggests, p19) = take_field p18 (codes "Suggests") in
    let (enhances, p20) = take_field p19 (codes "Enhances") in
    let (pre_depends, p21) = take_field p20 (codes "Pre-Depends") in
    let (breaks, p22) = take_field p21 (codes "Breaks") in
    let (conflicts, p23) = take_field p22 (codes "Conflicts") in
    let (provides, p24) = take_field p23 (codes "Provides") in
    let (replaces, p25) = take_field p24 (codes "Replaces") in
    record (new_package []) {
      name = value_or [] name;
      version = version;
      epoch = epoch;
      iteration = iteration;
      iteration_present = has_iteration epoch full;
      architecture = value_or [] architecture;
      maintainer = value_or [] maintainer;
      category = value_or [] section;
      license = value_or (codes "unknown") license;
      vendor = value_or (codes "none") vendor;
      homepage = homepage;
      origin = origin;
      priority = priority;
      installed_size = installed_size;
      description = description;
      index_filename = index_filename;
      size = size;
      sha1 = sha1;
      sha256 = sha256;
      md5 = md5;
      dependencies = parsed_depends depends;
      pre_depends = pre_depends;
      recommends = recommends;
      suggests = suggests;
      enhances = enhances;
      breaks = breaks;
      conflicts = conflicts;
      provides = provides;
      replaces = replaces;
      extra_fields = set_extra_fields [] p25.fields;
    }

versioned_package : Paragraph → Bytes → Option (Bytes × Bytes × Bytes) → Result Package
unfolding fill_package
versioned_package p full none = err (message "unsupported version string")
versioned_package p full (some parts) = ok (fill_package full parts p)

required_version : Result Bytes × Paragraph → Result Package
unfolding versioned_package match_version
required_version (err e, p) = err (message "unsupported version string ''")
required_version (ok full, p) = versioned_package p full (match_version full)

-- `ParsePackage`
unfoldable pub parse_package : Bytes → Result Package
unfolding required_version require_field parse_paragraph
parse_package input = required_version (require_field (parse_paragraph input) (codes "Version"))

-- `pool/<codename>/<first byte>/<prefix>/<base>`
unfoldable pub derived_path : Bytes → Bytes → Bytes → Bytes
derived_path codename name filename =
    codes "pool/"
    ++ (codename ++ (b'/' ∷ (take 1 name ++ (b'/' ∷ (take 2 name ++ (b'/' ∷ base filename))))))

checked_path : Bytes → Result Bytes
checked_path derived =
    if not (equal derived (clean derived))
    then err (message "package does not map to a pool path")
    else ok derived

derive_filename : Bytes → Package → Result Bytes
unfolding checked_path derived_path
derive_filename codename p =
    if equal p.name []
    then err (message "cannot derive package path without a package name")
    else if equal p.filename []
    then err (message "cannot derive package path without a source filename")
    else checked_path (derived_path codename p.name p.filename)

abbrev indexed_or : Option Bytes → Result Bytes → Result Bytes
indexed_or (some filename) derived = ok filename
indexed_or none derived = derived

-- `RepositoryFilename`; `len(prefix) > 2` cuts the name to two bytes, as `take` does.
unfoldable pub repository_filename : Package → Bytes → Result Bytes
unfolding derive_filename
repository_filename p codename = indexed_or p.index_filename (derive_filename codename p)
