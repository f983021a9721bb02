-- ===== src/Manage.antt =====
-- internal/manage/manage.go: copying packages between components, and deleting them, on any store.
-- The progress callbacks only report and are left out.
pub mod Copying
pub mod Deleting
use deb_s3_go.Base.{
  ℕ, ◌+◌, Bool, true, false, not, ◌&&◌, ◌||◌, ◌==◌, List, [], ◌∷◌, Option, none, some, Bytes, Error,
  no_packages_found, no_packages_deleted, wrap, Result, ok, err, if◌then◌else◌, length, select,
}
use deb_s3_go.Base.Strings.{codes, equal, member}
use deb_s3_go.Storage.Objects.{M, pure, raise, lift, ◌>>=◌, ◌>>◌, on_error, Store}
use deb_s3_go.Apt.Package.{Package, full_version}
use deb_s3_go.Apt.Manifest.{Manifest, ManifestOptions, add, delete_package}
use deb_s3_go.Apt.Publishing.{Tools, retrieve_manifest}
use deb_s3_go.Apt.Release.{Release, ReleaseOptions, SignatureArtifacts}
use deb_s3_go.Apt.Release.Publish.{retrieve_release, publish_metadata}

-- `CopyOptions`; the clock is read as the formatted date.
pub record CopyOptions : Type 0 where
  pub source_codename : Bytes
  pub source_component : Bytes
  pub destination_codename : Bytes
  pub destination_component : Bytes
  pub architecture : Bytes
  pub name : Bytes
  pub versions : List Bytes
  pub versions_set : Bool
  pub preserve_versions : Bool
  pub fail_if_exists : Bool
  pub cache_control : Bytes
  pub by_hash : Option Bool
  pub signer : Option (Bytes → Result SignatureArtifacts)
  pub date : Bytes

-- `DeleteOptions`
pub record DeleteOptions : Type 0 where
  pub codename : Bytes
  pub component : Bytes
  pub architecture : Bytes
  pub name : Bytes
  pub versions : List Bytes
  pub versions_set : Bool
  pub origin : Option Bytes
  pub suite : Option Bytes
  pub cache_control : Bytes
  pub by_hash : Option Bool
  pub signer : Option (Bytes → Result SignatureArtifacts)
  pub date : Bytes

abbrev pub source_options : CopyOptions → ManifestOptions
source_options o = record {
  codename = o.source_codename;
  component = o.source_component;
  architecture = o.architecture;
  cache_control = [];
  by_hash = false;
  fail_if_exists = false;
  skip_package_upload = false;
}

abbrev pub copy_release_options : CopyOptions → ReleaseOptions
copy_release_options o = record {
  codename = o.destination_codename;
  origin = none;
  suite = none;
  cache_control = o.cache_control;
  by_hash = o.by_hash;
  signer = o.signer;
  date = o.date;
}

abbrev pub destination_options : CopyOptions → Bool → ManifestOptions
destination_options o by_hash = record {
  codename = o.destination_codename;
  component = o.destination_component;
  architecture = o.architecture;
  cache_control = o.cache_control;
  by_hash = by_hash;
  fail_if_exists = o.fail_if_exists;
  skip_package_upload = true;
}

-- The packages to copy.
abbrev pub selects : CopyOptions → Package → Bool
selects o p =
    equal p.name o.name && not (o.versions_set && not (member (full_version p) o.versions))

abbrev pub selected : CopyOptions → Manifest → List Package
selected o source = select (selects o) source.packages

-- The loop that adds them to the destination.
abbrev next_added : Result (Unit {0}) → (Manifest → Result Manifest) → Manifest → Result Manifest
next_added (err e) f m = err (wrap "prepare destination manifest" e)
next_added (ok _) f m = f m

unfoldable pub add_all : Bool → List Package → Manifest → Result Manifest
unfolding add
add_all preserve [] m = ok m
add_all preserve (p ∷ ps) m =
    let (r, m') = add p preserve false m in next_added r (add_all preserve ps) m'

-- What is published, unless nothing is selected.
unfoldable pub copied : CopyOptions → List Package → Manifest → Result Manifest
unfolding add_all
copied o [] destination = err no_packages_found
copied o (p ∷ ps) destination = add_all o.preserve_versions (p ∷ ps) destination

abbrev pub delete_release_options : DeleteOptions → ReleaseOptions
delete_release_options o = record {
  codename = o.codename;
  origin = o.origin;
  suite = o.suite;
  cache_control = o.cache_control;
  by_hash = o.by_hash;
  signer = o.signer;
  date = o.date;
}

abbrev pub delete_manifest_options : DeleteOptions → Bool → Bytes → ManifestOptions
delete_manifest_options o by_hash architecture = record {
  codename = o.codename;
  component = o.component;
  architecture = architecture;
  cache_control = o.cache_control;
  by_hash = by_hash;
  fail_if_exists = false;
  skip_package_upload = true;
}

abbrev pub versions_to_delete : DeleteOptions → Option (List Bytes)
versions_to_delete o = if o.versions_set then some o.versions else none

abbrev pub architectures_of : DeleteOptions → Release → List Bytes
architectures_of o r =
    if equal o.architecture (codes "all") then r.architectures else o.architecture ∷ []

-- `changed` and `totalDeleted`, over one manifest and over all.
pub record Deletion : Type 0 where
  pub changed : List Manifest
  pub total_deleted : ℕ

abbrev pub deleted_from : List Package × Manifest → Deletion → Deletion
deleted_from ([], m) d = d
deleted_from (p ∷ ps, m) d = record {
  changed = m ∷ d.changed;
  total_deleted = length (p ∷ ps) + d.total_deleted;
}

abbrev none_deleted : Deletion
none_deleted = record { changed = []; total_deleted = 0 }

module _ {S : Type 0} (store : Store S) where
  pub delete_each : DeleteOptions → Bool → List Bytes → M S Deletion
  unfolding retrieve_manifest delete_package
  delete_each o by_hash [] = pure none_deleted
  delete_each o by_hash (a ∷ architectures) = do
    manifest ←
        on_error (wrap "retrieve manifest for delete")
          (retrieve_manifest store (delete_manifest_options o by_hash a))
    rest ← delete_each o by_hash architectures
    pure (deleted_from (delete_package o.name (versions_to_delete o) manifest) rest)

  module _ (tools : Tools) where
    -- The last step of `Copy`, and of `Delete`; the release is no longer used after it.
    abbrev pub publish_copy : Release × List Manifest → M S (Unit {0})
    publish_copy (release, manifests) = do
      published ← on_error (wrap "copy metadata") (publish_metadata tools store release manifests)
      pure tt

    abbrev pub publish_delete : Release × List Manifest → M S (Unit {0})
    publish_delete (release, manifests) = do
      published ← on_error (wrap "delete metadata") (publish_metadata tools store release manifests)
      pure tt

    -- `Repository.Copy`
    unfoldable pub copy : CopyOptions → M S (Unit {0})
    unfolding copied
    copy o = do
      source ←
          on_error (wrap "retrieve source manifest") (retrieve_manifest store (source_options o))
      release ←
          on_error (wrap "retrieve destination Release")
            (retrieve_release store (copy_release_options o))
      destination ←
          on_error (wrap "retrieve destination manifest")
            (retrieve_manifest store (destination_options o release.by_hash))
      manifest ← lift (copied o (selected o source) destination)
      publish_copy (release, manifest ∷ [])

    -- The end of `Repository.Delete`.
    publish_deleted : Release → Deletion → M S (Unit {0})
    publish_deleted release d =
        if d.total_deleted == 0
        then raise no_packages_deleted
        else publish_delete (release, d.changed)

    -- `Repository.Delete`
    unfoldable pub delete : DeleteOptions → M S (Unit {0})
    unfolding delete_each publish_deleted
    delete o = do
      release ←
          on_error (wrap "retrieve Release for delete")
            (retrieve_release store (delete_release_options o))
      d ← delete_each o release.by_hash (architectures_of o release)
      publish_deleted release d
