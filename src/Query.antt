-- ===== src/Query.antt =====
-- internal/query/query.go: listing, showing and finding packages.
pub mod Listed
pub mod Found
use deb_s3_go.Base.{
  Bool, true, false, not, ◌&&◌, ◌||◌, List, [], ◌∷◌, ◌++◌, Option, none, some, Bytes, Error, wrap,
  package_not_found, Result, ok, err, if◌then◌else◌, any, map,
}
use deb_s3_go.Base.Strings.{equal}
use deb_s3_go.Storage.Objects.{M, pure, raise, lift, ◌>>=◌, on_error, Store}
use deb_s3_go.Apt.Fields.{pointer_value}
use deb_s3_go.Apt.Package.{Package, full_version}
use deb_s3_go.Apt.Manifest.{Manifest, ManifestOptions, find_package}
use deb_s3_go.Apt.Publishing.{retrieve_manifest}
use deb_s3_go.Apt.Release.{Release, ReleaseOptions}
use deb_s3_go.Apt.Release.Publish.{retrieve_release}

-- `ListOptions`
pub record ListOptions : Type 0 where
  pub codename : Bytes
  pub component : Bytes
  pub architecture : Bytes

-- `Match`
pub record Match : Type 0 where
  pub name : Bytes
  pub version : Bytes
  pub found : Bool

-- `listIdentity`
pub record ListIdentity : Type 0 where
  pub name : Bytes
  pub version : Bytes
  pub architecture : Bytes
  pub filename : Bytes

abbrev pub identity : Package → ListIdentity
identity p = record {
  name = p.name;
  version = full_version p;
  architecture = p.architecture;
  filename = pointer_value p.index_filename;
}

abbrev pub same_identity : ListIdentity → ListIdentity → Bool
same_identity a b =
    equal a.name b.name
    && (equal a.version b.version
        && (equal a.architecture b.architecture && equal a.filename b.filename))

-- The packages so far, and the identities seen.
pub record Listing : Type 0 where
  pub packages : List Package
  pub seen : List ListIdentity

-- The loop over the packages of one manifest, past those whose identity was seen.
abbrev pub add_unless : Bool → Package → Listing → Listing
add_unless true p l = l
add_unless false p l = record {
  packages = l.packages ++ (p ∷ []);
  seen = l.seen ++ (identity p ∷ []);
}

unfoldable pub list_unseen : List Package → Listing → Listing
list_unseen [] l = l
list_unseen (p ∷ ps) l = list_unseen ps (add_unless (any (same_identity (identity p)) l.seen) p l)

-- Options of a retrieval that only reads.
abbrev reading : Bytes → Bytes → Bytes → ManifestOptions
reading codename component architecture = record {
  codename = codename;
  component = component;
  architecture = architecture;
  cache_control = [];
  by_hash = false;
  fail_if_exists = false;
  skip_package_upload = false;
}

abbrev release_of : Bytes → ReleaseOptions
release_of codename = record {
  codename = codename;
  origin = none;
  suite = none;
  cache_control = [];
  by_hash = none;
  signer = none;
  date = [];
}

abbrev skipped : ListOptions → Bytes → Bool
skipped o architecture = not (equal o.architecture []) && not (equal architecture o.architecture)

abbrev shown_or : Option Package → Result Package
shown_or none = err package_not_found
shown_or (some p) = ok p

abbrev is_found : Option Package → Bool
is_found none = false
is_found (some p) = true

-- The loop of `Exists` over the names; the loop inside is a look-up.
unfoldable pub matches_of : Bytes → List Package → List Bytes → List Match
matches_of version packages [] = []
matches_of version packages (name ∷ names) =
    record { name = name; version = version; found = is_found (find_package name version packages) }
    ∷ matches_of version packages names

module _ {S : Type 0} (store : Store S) where
  -- `manifest`
  abbrev manifest_at : Bytes → Bytes → Bytes → M S Manifest
  manifest_at codename component architecture =
      retrieve_manifest store (reading codename component architecture)

  -- The loop over the architectures.
  unfoldable pub list_each : ListOptions → List Bytes → Listing → M S Listing
  unfolding list_unseen
  list_each o [] l = pure l
  list_each o (architecture ∷ architectures) l =
      if skipped o architecture
      then list_each o architectures l
      else (on_error (wrap "retrieve Packages for list")
            (manifest_at o.codename o.component architecture)
          >>= λ m. list_each o architectures (list_unseen m.packages l))

  -- `List`
  unfoldable pub list_packages : ListOptions → M S (List Package)
  unfolding list_each
  list_packages o = do
    r ← on_error (wrap "retrieve Release for list") (retrieve_release store (release_of o.codename))
    l ← list_each o r.architectures (record { packages = []; seen = [] })
    pure l.packages

  -- `Show`
  unfoldable pub show : Bytes → Bytes → Bytes → Bytes → Bytes → M S Package
  show codename component architecture name version = do
    m ← on_error (wrap "retrieve Packages for show") (manifest_at codename component architecture)
    lift (shown_or (find_package name version m.packages))

  -- `Exists`
  unfoldable pub exists : Bytes → Bytes → Bytes → Bytes → List Bytes → M S (List Match)
  unfolding matches_of
  exists codename component architecture version names = do
    m ← on_error (wrap "retrieve Packages for exists") (manifest_at codename component architecture)
    pure (matches_of version m.packages names)
