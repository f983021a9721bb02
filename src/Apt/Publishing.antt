-- ===== src/Apt/Publishing.antt =====
-- internal/apt/manifest_publish.go and manifest_retrieve.go: artifacts, and their way to the store.
-- The operations work on any store; digests, compression and local files are parameters. The
-- transfer callback only reports and is left out.
pub mod Events
pub mod Retrieved
use deb_s3_go.Base.{
  ℕ, Bool, true, false, not, List, [], ◌∷◌, ◌++◌, Option, none, some, Bytes, Error, message, wrap,
  is_not_found, Result, ok, err, if◌then◌else◌, length, String,
}
use deb_s3_go.Base.Strings.{codes, equal, has_prefix}
use deb_s3_go.Base.Assoc.{Assoc, insert}
use deb_s3_go.Base.Paths.{path_join, dir}
use deb_s3_go.Storage.Objects.{PutOptions, M, pure, raise, lift, ◌>>=◌, ◌>>◌, on_error, Store}
use deb_s3_go.Apt.Package.{Package, repository_filename}
use deb_s3_go.Apt.Manifest.{
  Manifest, ManifestOptions, new_manifest, FileHashes, parse_packages, render_manifest,
  packages_path, release_packages_path,
}

-- `ManifestArtifact`
pub record ManifestArtifact : Type 0 where
  pub path : Bytes
  pub content_type : Bytes
  pub content : Bytes
  pub hashes : FileHashes

-- `ManifestArtifacts`
pub record ManifestArtifacts : Type 0 where
  pub packages : ManifestArtifact
  pub packages_gzip : ManifestArtifact

-- What the artifacts and uploads take from outside: the hexadecimal digests, gzip with a fixed
-- header, and a local file: opening it, and then what reading it gives.
pub record Tools : Type 0 where
  pub md5 : Bytes → Bytes
  pub sha1 : Bytes → Bytes
  pub sha256 : Bytes → Bytes
  pub gzip : Bytes → Result Bytes
  pub open_file : Bytes → Result (Result Bytes)

-- `ByHashPath`
unfoldable pub by_hash_path : ManifestArtifact → Bytes
by_hash_path a = path_join (dir a.path ∷ codes "by-hash" ∷ codes "SHA256" ∷ a.hashes.sha256 ∷ [])

-- `artifactList`
abbrev pub artifact_list : ManifestArtifacts → List ManifestArtifact
artifact_list a = a.packages ∷ a.packages_gzip ∷ []

-- `RecordArtifacts`
unfoldable pub record_artifacts : ManifestArtifacts → Manifest → Manifest
record_artifacts a m = record m {
  files =
      insert (release_packages_path m ++ codes ".gz") a.packages_gzip.hashes
        (insert (release_packages_path m) a.packages.hashes m.files);
}

abbrev pub put_options : Bytes → Bytes → PutOptions
put_options content_type cache_control = record {
  content_type = content_type;
  cache_control = cache_control;
  metadata = none;
  fail_if_exists = false;
  create_only = false;
  server_side_encryption = false;
}

module _ (tools : Tools) where
  -- `hashManifest`
  unfoldable pub hash_manifest : Bytes → FileHashes
  hash_manifest content = record {
    size = length content;
    md5 = tools.md5 content;
    sha1 = tools.sha1 content;
    sha256 = tools.sha256 content;
  }

  unfoldable pub artifacts_of : Manifest → Bytes → Bytes → ManifestArtifacts
  unfolding hash_manifest
  artifacts_of m plain compressed = record {
    packages = record {
      path = packages_path m;
      content_type = codes "text/plain; charset=utf-8";
      content = plain;
      hashes = hash_manifest plain;
    };
    packages_gzip = record {
      path = packages_path m ++ codes ".gz";
      content_type = codes "application/x-gzip; charset=binary";
      content = compressed;
      hashes = hash_manifest compressed;
    };
  }

  -- `BuildArtifacts`
  abbrev compressed : Manifest → Bytes → Result Bytes → Result ManifestArtifacts
  compressed m plain (err e) = err (wrap "compress Packages manifest" e)
  compressed m plain (ok gz) = ok (artifacts_of m plain gz)

  abbrev rendered : Manifest → Result Bytes → Result ManifestArtifacts
  rendered m (err e) = err e
  rendered m (ok plain) = compressed m plain (tools.gzip plain)

  unfoldable pub build_artifacts : Manifest → Result ManifestArtifacts
  unfolding artifacts_of
  build_artifacts m = rendered m (render_manifest m)

  module _ {S : Type 0} (store : Store S) where
    -- One `Put` of an artifact.
    put_artifact : String → Bytes → PutOptions → Bytes → M S (Unit {0})
    put_artifact text key options content =
        on_error (wrap text) (store.put key (ok content) options)

    -- The loop of `PublishByHash`.
    publish_hashed : Manifest → List ManifestArtifact → M S (Unit {0})
    unfolding put_artifact
    publish_hashed m [] = pure tt
    publish_hashed m (a ∷ artifacts) = do
      put_artifact "store immutable manifest" (by_hash_path a)
          (record (put_options a.content_type m.cache_control) { create_only = true }) a.content
      publish_hashed m artifacts

    -- `PublishByHash`
    unfoldable pub publish_by_hash : Manifest → ManifestArtifacts → M S (Unit {0})
    unfolding publish_hashed
    publish_by_hash m artifacts =
        if not m.by_hash then pure tt else publish_hashed m (artifact_list artifacts)

    -- `PublishCanonical`
    publish_named : Manifest → List ManifestArtifact → M S (Unit {0})
    unfolding put_artifact
    publish_named m [] = pure tt
    publish_named m (a ∷ artifacts) = do
      put_artifact "store manifest" a.path (put_options a.content_type m.cache_control) a.content
      publish_named m artifacts

    unfoldable pub publish_canonical : Manifest → ManifestArtifacts → M S (Unit {0})
    unfolding publish_named
    publish_canonical m artifacts = publish_named m (artifact_list artifacts)

    -- `publishPackage`: only paths under `pool/` are written.
    put_body : Manifest → Bytes → Result (Result Bytes) → M S (Unit {0})
    put_body m filename (err e) = raise (wrap "open package" e)
    put_body m filename (ok body) = on_error (wrap "store package") (
        store.put filename body
          (record (put_options (codes "application/octet-stream; charset=binary") m.cache_control) {
            fail_if_exists = m.fail_if_exists;
          }))

    pooled : Manifest → Package → Bytes → M S (Unit {0})
    unfolding put_body
    pooled m p filename =
        if not (has_prefix filename (codes "pool/"))
        then raise (message "refusing to write package body outside pool/")
        else put_body m filename (tools.open_file p.filename)

    unfoldable pub publish_package : Manifest → Package → M S (Unit {0})
    unfolding pooled
    publish_package m p =
        if equal p.filename []
        then raise (message "package has no source filename")
        else lift (repository_filename p m.codename) >>= pooled m p

    -- `PublishPackages`
    publish_each : Manifest → List Package → M S (Unit {0})
    unfolding publish_package
    publish_each m [] = pure tt
    publish_each m (p ∷ ps) = do publish_package m p; publish_each m ps

    unfoldable pub publish_packages : Manifest → M S (Unit {0})
    unfolding publish_each
    publish_packages m = if m.skip_package_upload then pure tt else publish_each m m.pending_uploads

    -- `Manifest.Publish`, with the manifest that `RecordArtifacts` leaves
    unfoldable pub publish_manifest : Manifest → M S Manifest
    unfolding publish_packages build_artifacts publish_by_hash publish_canonical record_artifacts
    publish_manifest m = do
      publish_packages m
      artifacts ← lift (build_artifacts m)
      publish_by_hash m artifacts
      publish_canonical m artifacts
      pure (record_artifacts artifacts m)

-- `RetrieveManifest`
abbrev parsed_manifest : ManifestOptions → Result (List Package) → Result Manifest
parsed_manifest options (err e) = err e
parsed_manifest options (ok packages) = ok (record (new_manifest options) { packages = packages })

abbrev retrieved : ManifestOptions → Result Bytes → Result Manifest
retrieved options (ok content) = parsed_manifest options (parse_packages content)
retrieved options (err e) =
    if is_not_found e then ok (new_manifest options) else err (wrap "retrieve Packages manifest" e)

unfoldable pub retrieve_manifest : {S : Type 0} → Store S → ManifestOptions → M S Manifest
retrieve_manifest store options s =
    let (r, s') = store.get (packages_path (new_manifest options)) s in (retrieved options r, s')
