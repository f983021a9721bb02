-- ===== src/Apt/Manifest.antt =====
-- internal/apt/manifest.go: the package list of one component and architecture.
pub mod Adding
pub mod Others
pub mod Unique
pub mod Deleting
use deb_s3_go.Base.{
  ℕ, zero, suc, ◌+◌, Bool, true, false, not, ◌||◌, ◌&&◌, List, [], ◌∷◌, ◌++◌, Option, none, some,
  Bytes, Error, Result, ok, err, ◌>>=◌, wrap_error, package_conflict, if◌then◌else◌, ◌==◌, select,
}
use deb_s3_go.Base.Strings.{codes, equal, member, cons_head, trim_space}
use deb_s3_go.Base.Assoc.{Assoc}
use deb_s3_go.Base.Paths.{base, path_join}
use deb_s3_go.Apt.Package.{Package, full_version, repository_filename, parse_package}
use deb_s3_go.Apt.Rendering.{render}

-- `FileHashes`
pub record FileHashes : Type 0 where
  pub size : ℕ
  pub md5 : Bytes
  pub sha1 : Bytes
  pub sha256 : Bytes

-- `ManifestOptions`
pub record ManifestOptions : Type 0 where
  pub codename : Bytes
  pub component : Bytes
  pub architecture : Bytes
  pub cache_control : Bytes
  pub by_hash : Bool
  pub fail_if_exists : Bool
  pub skip_package_upload : Bool

-- `Manifest`, without its store: the operations on stored objects take that as a parameter.
pub record Manifest : Type 0 where
  pub codename : Bytes
  pub component : Bytes
  pub architecture : Bytes
  pub cache_control : Bytes
  pub by_hash : Bool
  pub fail_if_exists : Bool
  pub skip_package_upload : Bool
  pub packages : List Package
  pub pending_uploads : List Package
  pub files : Assoc FileHashes

-- `NewManifest`
abbrev pub new_manifest : ManifestOptions → Manifest
new_manifest o = record {
  codename = o.codename;
  component = o.component;
  architecture = o.architecture;
  cache_control = o.cache_control;
  by_hash = o.by_hash;
  fail_if_exists = o.fail_if_exists;
  skip_package_upload = o.skip_package_upload;
  packages = [];
  pending_uploads = [];
  files = [];
}

-- `paragraphSeparator`, `\r?\n[\t ]*\r?\n`: the length of a match at the start of a text.
abbrev plus : ℕ → Option ℕ → Option ℕ
plus n none = none
plus n (some m) = some (n + m)

second_break : Bytes → Option ℕ
second_break [] = none
second_break (c ∷ []) = if c == b'\n' then some 1 else none
second_break (c ∷ d ∷ s) =
    let later = plus 1 (second_break (d ∷ s)) in
    if c == b'\n'
    then some 1
    else if c == 13 && d == b'\n'
    then some 2
    else if c == 9 || c == 32
    then later
    else none

separator : Bytes → Option ℕ
unfolding second_break
separator [] = none
separator (c ∷ []) = none
separator (c ∷ d ∷ s) =
    if c == b'\n'
    then plus 1 (second_break (d ∷ s))
    else if c == 13 && d == b'\n'
    then plus 2 (second_break s)
    else none

-- `paragraphSeparator.Split`; the number is how many bytes of the last match are still to be skipped.
split_paragraphs_from : ℕ → Bytes → List Bytes
unfolding separator
split_paragraphs_from n [] = [] ∷ []
split_paragraphs_from (suc n) (c ∷ s) = split_paragraphs_from n s
split_paragraphs_from zero (c ∷ s) = elim (separator (c ∷ s)) [
  | some (suc n) ↦ [] ∷ split_paragraphs_from n s
  | _ ↦ cons_head c (split_paragraphs_from zero s)
]

unfoldable pub split_paragraphs : Bytes → List Bytes
unfolding split_paragraphs_from
split_paragraphs s = split_paragraphs_from zero s

-- `ParsePackages`
unfoldable pub parse_each : List Bytes → Result (List Package)
unfolding parse_package
parse_each [] = ok []
parse_each (p ∷ ps) =
    let rest = (do
      pack ← wrap_error "parse package paragraph" (parse_package p)
      packs ← parse_each ps
      ok (pack ∷ packs)) in
    let later = parse_each ps in if equal (trim_space p) [] then later else rest

unfoldable pub parse_packages : Bytes → Result (List Package)
unfolding parse_each split_paragraphs
parse_packages input =
    if equal (trim_space input) [] then ok [] else parse_each (split_paragraphs input)

-- `Manifest.Render`
render_rest : Bytes → List Package → Result Bytes
unfolding render
render_rest codename [] = ok []
render_rest codename (p ∷ ps) = do
  text ← wrap_error "render package" (render p codename)
  rest ← render_rest codename ps
  ok (b'\n' ∷ (text ++ rest))

render_packages : Bytes → List Package → Result Bytes
unfolding render_rest
render_packages codename [] = ok []
render_packages codename (p ∷ ps) = do
  text ← wrap_error "render package" (render p codename)
  rest ← render_rest codename ps
  ok (text ++ rest)

unfoldable pub render_manifest : Manifest → Result Bytes
unfolding render_packages
render_manifest m = render_packages m.codename m.packages

-- Two packages of one name and one version.
abbrev pub same_version : Package → Package → Bool
same_version a b = equal a.name b.name && equal (full_version a) (full_version b)

-- The loop of `Add` under `FailIfExists`.
unfoldable pub check_conflicts : Bytes → Package → Bytes → List Package → Result (Unit {0})
check_conflicts codename pack new_filename [] = ok tt
check_conflicts codename pack new_filename (e ∷ es) =
    let rest = check_conflicts codename pack new_filename es in
    let here = repository_filename e codename >>= (λ existing.
      if not (equal (base existing) (base new_filename))
      then err (package_conflict pack.name (full_version pack) existing new_filename)
      else rest) in
    if not (same_version e pack) then rest else here

unfoldable pub guard_conflicts : Package → Manifest → Result (Unit {0})
unfolding check_conflicts
guard_conflicts pack m =
    if m.fail_if_exists
    then (do
      new_filename ← repository_filename pack m.codename
      check_conflicts m.codename pack new_filename m.packages)
    else ok tt

-- What `Add` replaces.
abbrev pub replaced : Bool → Package → Package → Bool
replaced preserve_versions pack existing =
    if preserve_versions then same_version existing pack else equal existing.name pack.name

abbrev pending : Bool → Package → List Package → List Package
pending needs_uploading pack uploads = if needs_uploading then uploads ++ (pack ∷ []) else uploads

-- `Add` of a package that is not nil; on an error the manifest is unchanged.
added : Package → Bool → Bool → Manifest → Result (Unit {0}) → Result (Unit {0}) × Manifest
added pack preserve_versions needs_uploading m (err e) = (err e, m)
added pack preserve_versions needs_uploading m (ok _) = (
  ok tt,
  record m {
    packages = select (λ e. not (replaced preserve_versions pack e)) m.packages ++ (pack ∷ []);
    pending_uploads = pending needs_uploading pack m.pending_uploads;
  },
)

unfoldable pub add : Package → Bool → Bool → Manifest → Result (Unit {0}) × Manifest
unfolding added guard_conflicts
add pack preserve_versions needs_uploading m =
    added pack preserve_versions needs_uploading m (guard_conflicts pack m)

-- What `DeletePackage` removes; no versions given means every version.
abbrev version_listed : List Bytes → Package → Bool
version_listed versions p =
    member p.version versions
    || member (p.version ++ (b'-' ∷ p.iteration)) versions
    || member (full_version p) versions

abbrev pub removed : Bytes → Option (List Bytes) → Package → Bool
removed name none p = equal p.name name
removed name (some versions) p = equal p.name name && version_listed versions p

-- `DeletePackage`: the deleted packages, and the manifest without them.
unfoldable pub delete_package : Bytes → Option (List Bytes) → Manifest → List Package × Manifest
delete_package name versions m = (
  select (removed name versions) m.packages,
  record m { packages = select (λ p. not (removed name versions p)) m.packages },
)

-- `packagesPath` and `releasePackagesPath`
unfoldable pub packages_path : Manifest → Bytes
packages_path m = path_join (
    codes "dists"
    ∷ m.codename
    ∷ m.component
    ∷ (codes "binary-" ++ m.architecture)
    ∷ codes "Packages"
    ∷ [])

unfoldable pub release_packages_path : Manifest → Bytes
release_packages_path m =
    path_join (m.component ∷ (codes "binary-" ++ m.architecture) ∷ codes "Packages" ∷ [])

-- The first package of a name and a version, as `query.Show` looks it up.
unfoldable pub find_package : Bytes → Bytes → List Package → Option Package
find_package name version [] = none
find_package name version (p ∷ ps) =
    if equal p.name name && equal (full_version p) version
    then some p
    else find_package name version ps
