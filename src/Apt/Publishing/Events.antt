-- ===== src/Apt/Publishing/Events.antt =====
-- internal/apt/manifest_publish.go: the order in which a manifest's publication writes.
use deb_s3_go.Base.{
  true, false, none, not, List, [], ◌∷◌, ◌++◌, Bytes, Result, ok, err, if◌then◌else◌, Bool-cases,
  inl, inr, map, wrap, String,
}
use deb_s3_go.Base.Strings.{codes, equal, has_prefix}
use deb_s3_go.Storage.Objects.{PutOptions, lift, ◌>>=◌, Store}
use deb_s3_go.Storage.Events.{
  written, Log, traced, Emits, pure-Emits, raise-Emits, put-Emits, bind-Emits,
}
use deb_s3_go.Apt.Package.{Package, repository_filename}
use deb_s3_go.Base.Paths.{path_join, dir}
use deb_s3_go.Apt.Manifest.{Manifest, packages_path}
use deb_s3_go.Apt.Publishing.{
  ManifestArtifact, ManifestArtifacts, Tools, by_hash_path, artifact_list, put_artifact,
  publish_hashed, publish_by_hash, publish_named, publish_canonical, put_options, put_body, pooled,
  publish_package, publish_each, publish_packages,
}

-- The options of a write without conditions, and the path of a text under its digest.
abbrev pub options_of : Bytes → Bytes → PutOptions
options_of content_type cache_control = record {
  content_type = content_type;
  cache_control = cache_control;
  metadata = none;
  fail_if_exists = false;
  create_only = false;
  server_side_encryption = false;
}

abbrev digest_path : Bytes → Bytes → Bytes
digest_path path digest = path_join (dir path ∷ codes "by-hash" ∷ codes "SHA256" ∷ digest ∷ [])

-- The writes of artifacts under their digests, each only if nothing is there yet, and under their
-- names, with their contents.
abbrev pub hashed_writes : Bytes → List ManifestArtifact → Log
hashed_writes cache_control artifacts =
    map
      (λ a.
        written (digest_path a.path a.hashes.sha256) (ok a.content)
          (record (options_of a.content_type cache_control) { create_only = true }))
      artifacts

abbrev pub by_hash_writes : Manifest → ManifestArtifacts → Log
by_hash_writes m artifacts =
    if not m.by_hash then [] else hashed_writes m.cache_control (artifact_list artifacts)

abbrev pub canonical_writes : Manifest → ManifestArtifacts → Log
canonical_writes m artifacts =
    map
      (λ (a : ManifestArtifact).
        written a.path (ok a.content) (options_of a.content_type m.cache_control))
      (artifact_list artifacts)

abbrev package_options : Manifest → PutOptions
package_options m =
    record (options_of (codes "application/octet-stream; charset=binary") m.cache_control) {
      fail_if_exists = m.fail_if_exists;
    }

-- The write of the body of a package, the local file that it names, under the path that it has in the
-- repository.
abbrev body_at : Manifest → Bytes → Result (Result Bytes) → Log
body_at m filename (err e) = []
body_at m filename (ok body) = written filename body (package_options m) ∷ []

abbrev body_writes : Tools → Manifest → Package → Result Bytes → Log
body_writes tools m p (err e) = []
body_writes tools m p (ok filename) = body_at m filename (tools.open_file p.filename)

abbrev pub pool_writes : Tools → Manifest → List Package → Log
pool_writes tools m [] = []
pool_writes tools m (p ∷ ps) =
    body_writes tools m p (repository_filename p m.codename) ++ pool_writes tools m ps

abbrev pub package_writes : Tools → Manifest → Log
package_writes tools m = if m.skip_package_upload then [] else pool_writes tools m m.pending_uploads

-- The same for the index of a manifest, by its texts.
module _ (tools : Tools) (m : Manifest) (plain compressed : Bytes) where
  abbrev plain_options : PutOptions
  plain_options = options_of (codes "text/plain; charset=utf-8") m.cache_control

  abbrev gzip_options : PutOptions
  gzip_options = options_of (codes "application/x-gzip; charset=binary") m.cache_control

  abbrev pub text_by_hash_writes : Log
  text_by_hash_writes =
      if not m.by_hash
      then []
      else written (digest_path (packages_path m) (tools.sha256 plain)) (ok plain)
          (record plain_options { create_only = true })
        ∷ written (digest_path (packages_path m ++ codes ".gz") (tools.sha256 compressed))
            (ok compressed) (record gzip_options { create_only = true })
        ∷ []

  abbrev pub text_writes : Log
  text_writes =
      written (packages_path m) (ok plain) plain_options
      ∷ written (packages_path m ++ codes ".gz") (ok compressed) gzip_options
      ∷ []

module _ (tools : Tools) {S : Type 0} (store : Store S) where
  put_artifact-Emits :
      (text : String) (key : Bytes) (options : PutOptions) (content : Bytes)
      → Emits
          (put_artifact tools (traced store) text key options content)
          (written key (ok content) options ∷ [])
  unfolding put_artifact
  put_artifact-Emits text key options content = put-Emits store (wrap text) key (ok content) options

  publish_hashed-Emits :
      (m : Manifest) (artifacts : List ManifestArtifact)
      → Emits
          (publish_hashed tools (traced store) m artifacts)
          (hashed_writes m.cache_control artifacts)
  unfolding publish_hashed by_hash_path
  publish_hashed-Emits m [] = pure-Emits tt
  publish_hashed-Emits m (a ∷ artifacts) =
      bind-Emits _ _
        (put_artifact-Emits "store immutable manifest" (by_hash_path a)
          (record (put_options a.content_type m.cache_control) { create_only = true }) a.content)
        (λ _. publish_hashed-Emits m artifacts)

  pub publish_by_hash-Emits :
      (m : Manifest) (artifacts : ManifestArtifacts)
      → Emits (publish_by_hash tools (traced store) m artifacts) (by_hash_writes m artifacts)
  unfolding publish_by_hash
  publish_by_hash-Emits m artifacts = elim (Bool-cases m.by_hash) [
    | inl on ↦ rw on (publish_hashed-Emits m (artifact_list artifacts))
    | inr off ↦ rw off (pure-Emits tt)
  ]

  publish_named-Emits :
      (m : Manifest) (artifacts : List ManifestArtifact)
      → Emits (publish_named tools (traced store) m artifacts) (
          map
            (λ (a : ManifestArtifact).
              written a.path (ok a.content) (put_options a.content_type m.cache_control))
            artifacts)
  unfolding publish_named
  publish_named-Emits m [] = pure-Emits tt
  publish_named-Emits m (a ∷ artifacts) =
      bind-Emits _ _
        (put_artifact-Emits "store manifest" a.path (put_options a.content_type m.cache_control)
          a.content)
        (λ _. publish_named-Emits m artifacts)

  pub publish_canonical-Emits :
      (m : Manifest) (artifacts : ManifestArtifacts)
      → Emits (publish_canonical tools (traced store) m artifacts) (canonical_writes m artifacts)
  unfolding publish_canonical
  publish_canonical-Emits m artifacts = publish_named-Emits m (artifact_list artifacts)

  put_body-Emits :
      (m : Manifest) (filename : Bytes) (body : Result (Result Bytes))
      → Emits (put_body tools (traced store) m filename body) (body_at m filename body)
  unfolding put_body
  put_body-Emits m filename (err e) = raise-Emits _ _
  put_body-Emits m filename (ok body) =
      put-Emits store (wrap "store package") filename body (package_options m)

  pooled-Emits :
      (m : Manifest) (p : Package) (filename : Bytes)
      → Emits
          (pooled tools (traced store) m p filename)
          (body_at m filename (tools.open_file p.filename))
  unfolding pooled
  pooled-Emits m p filename = elim (Bool-cases (has_prefix filename (codes "pool/"))) [
    | inl inside ↦ rw inside (put_body-Emits m filename (tools.open_file p.filename))
    | inr outside ↦ rw outside (raise-Emits _ _)
  ]

  filed-Emits :
      (m : Manifest) (p : Package) (filename : Result Bytes)
      → Emits (lift filename >>= pooled tools (traced store) m p) (body_writes tools m p filename)
  filed-Emits m p (ok filename) = pooled-Emits m p filename
  filed-Emits m p (err e) = raise-Emits e []

  publish_package-Emits :
      (m : Manifest) (p : Package)
      → Emits
          (publish_package tools (traced store) m p)
          (body_writes tools m p (repository_filename p m.codename))
  unfolding publish_package
  publish_package-Emits m p = elim (Bool-cases (equal p.filename [])) [
    | inl unnamed ↦ rw unnamed (raise-Emits _ _)
    | inr some ↦ rw some (filed-Emits m p (repository_filename p m.codename))
  ]

  publish_each-Emits :
      (m : Manifest) (ps : List Package)
      → Emits (publish_each tools (traced store) m ps) (pool_writes tools m ps)
  unfolding publish_each
  publish_each-Emits m [] = pure-Emits tt
  publish_each-Emits m (p ∷ ps) =
      bind-Emits (publish_package tools (traced store) m p) _ (publish_package-Emits m p)
        (λ _. publish_each-Emits m ps)

  pub publish_packages-Emits :
      (m : Manifest) → Emits (publish_packages tools (traced store) m) (package_writes tools m)
  unfolding publish_packages
  publish_packages-Emits m = elim (Bool-cases m.skip_package_upload) [
    | inl skipped ↦ rw skipped (pure-Emits tt)
    | inr uploaded ↦ rw uploaded (publish_each-Emits m m.pending_uploads)
  ]
