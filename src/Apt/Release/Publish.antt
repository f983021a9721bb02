-- ===== src/Apt/Release/Publish.antt =====
-- internal/apt/release_publish.go, release_retrieve.go and metadata_publish.go: a release and its
-- manifests on their way to and from a store.
pub mod Built
pub mod Complete
pub mod Order
use deb_s3_go.Base.{
  ℕ, Bool, true, false, not, ◌||◌, List, [], ◌∷◌, ◌++◌, Option, none, some, Bytes, Error, message,
  wrap, is_not_found, Result, ok, err, if◌then◌else◌, length, String,
}
use deb_s3_go.Base.Strings.{codes, equal}
use deb_s3_go.Base.Paths.{path_join, dir}
use deb_s3_go.Storage.Objects.{M, pure, raise, lift, ◌>>=◌, ◌>>◌, on_error, Store, PutOptions}
use deb_s3_go.Apt.Manifest.{Manifest}
use deb_s3_go.Apt.Publishing.{
  ManifestArtifacts, Tools, build_artifacts, record_artifacts, publish_by_hash, publish_canonical,
  publish_manifest, put_options,
}
use deb_s3_go.Apt.Release.{
  Release, ReleaseOptions, SignatureArtifacts, new_release, parse_release, release_filename,
  render_release, update_manifest, missing_manifests,
}

-- `preparedMetadataManifest`, and `preparedManifest` of internal/upload
pub record Prepared : Type 0 where
  pub manifest : Manifest
  pub artifacts : ManifestArtifacts

-- The keys beside `Release`.
abbrev pub detached_filename : Release → Bytes
detached_filename r = release_filename r ++ codes ".gpg"

abbrev pub in_release_filename : Release → Bytes
in_release_filename r = path_join (dir (release_filename r) ∷ codes "InRelease" ∷ [])

abbrev pub signature_type : Bytes
signature_type = codes "application/pgp-signature; charset=us-ascii"

module _ (tools : Tools) where
  -- `prepare`: the manifest with its artifacts recorded, and the release that lists them.
  abbrev pub prepared_of : Manifest → ManifestArtifacts → Prepared
  prepared_of m artifacts = record {
    manifest = record_artifacts artifacts m;
    artifacts = artifacts;
  }

  -- The loop over the manifests to prepare.
  abbrev prepared_with :
      Prepared → Result (Release × List Prepared) → Result (Release × List Prepared)
  prepared_with p (err e) = err e
  prepared_with p (ok (r, ps)) = ok (r, p ∷ ps)

  abbrev failed_or :
      Result ManifestArtifacts
      → (ManifestArtifacts → Result (Release × List Prepared))
      → Result (Release × List Prepared)
  failed_or (err e) f = err e
  failed_or (ok a) f = f a

  unfoldable pub prepare_all : Release → List Manifest → Result (Release × List Prepared)
  unfolding build_artifacts record_artifacts update_manifest
  prepare_all r [] = ok (r, [])
  prepare_all r (m ∷ ms) = failed_or (build_artifacts tools m) (λ a.
      prepared_with (prepared_of m a) (prepare_all (update_manifest (record_artifacts a m) r) ms))

  -- `PublishMetadata` of a release that is not nil: first the changed manifests are prepared, then
  -- the missing ones.
  abbrev with_created :
      List Prepared → Result (Release × List Prepared) → Result (List Prepared × Release)
  with_created changed (err e) = err e
  with_created changed (ok (r, created)) = ok (changed ++ created, r)

  prepare_missing : List Prepared → Release → Result (List Prepared × Release)
  unfolding prepare_all missing_manifests
  prepare_missing changed r = with_created changed (prepare_all r (missing_manifests r))

  abbrev with_missing : Result (Release × List Prepared) → Result (List Prepared × Release)
  with_missing (err e) = err e
  with_missing (ok (r, changed)) = prepare_missing changed r

  unfoldable pub prepare_metadata : Release → List Manifest → Result (List Prepared × Release)
  unfolding prepare_missing prepare_all
  prepare_metadata r manifests = with_missing (prepare_all r manifests)

  module _ {S : Type 0} (store : Store S) where
    -- `ValidateOtherManifests`
    publish_created : List Manifest → M S (List Manifest)
    unfolding publish_manifest
    publish_created [] = pure []
    publish_created (m ∷ ms) = do
      published ← on_error (wrap "publish empty manifest") (publish_manifest tools store m)
      rest ← publish_created ms
      pure (published ∷ rest)

    update_all : List Manifest → Release → Release
    unfolding update_manifest
    update_all [] r = r
    update_all (m ∷ ms) r = update_all ms (update_manifest m r)

    unfoldable pub validate_other_manifests : Release → M S Release
    unfolding publish_created update_all missing_manifests
    validate_other_manifests r = do
      published ← publish_created (missing_manifests r)
      pure (update_all published r)

    put_text : String → Bytes → Bytes → Bytes → Bytes → M S (Unit {0})
    put_text text key content_type cache_control content =
        on_error (wrap text) (store.put key (ok content) (put_options content_type cache_control))

    remove_stale : Bytes → M S (Unit {0})
    remove_stale key = on_error (wrap "remove stale Release signature") (store.delete key)

    put_release : Release → Bytes → M S (Unit {0})
    unfolding put_text
    put_release r content =
        put_text "store Release" (release_filename r) (codes "text/plain; charset=utf-8")
          r.cache_control content

    -- Without a signer the old signatures are removed before the new `Release` is written.
    publish_unsigned : Release → Bytes → M S (Unit {0})
    unfolding put_release remove_stale
    publish_unsigned r content = do
      remove_stale (detached_filename r)
      remove_stale (in_release_filename r)
      put_release r content

    put_signed : Release → Bytes → SignatureArtifacts → M S (Unit {0})
    unfolding put_release put_text
    put_signed r content signatures = do
      put_release r content
      put_text "store detached Release signature" (detached_filename r) signature_type
          r.cache_control signatures.release_gpg
      put_text "store clear-signed Release" (in_release_filename r) signature_type r.cache_control
          signatures.in_release

    publish_signed : Release → Bytes → Result SignatureArtifacts → M S (Unit {0})
    unfolding put_signed
    publish_signed r content (err e) = raise (wrap "sign Release" e)
    publish_signed r content (ok signatures) =
        if equal signatures.in_release [] || equal signatures.release_gpg []
        then raise (message "signer returned an empty signature artifact")
        else put_signed r content signatures

    publish_with : Option (Bytes → Result SignatureArtifacts) → Release → Bytes → M S (Unit {0})
    unfolding publish_signed publish_unsigned
    publish_with none r content = publish_unsigned r content
    publish_with (some sign) r content = publish_signed r content (sign content)

    -- `Release.Publish`
    unfoldable pub publish_release : Release → M S Release
    unfolding validate_other_manifests publish_with render_release
    publish_release r = do
      validated ← validate_other_manifests r
      publish_with validated.signer validated (render_release validated)
      pure validated

    -- The two loops of `PublishMetadata` over what was prepared.
    unfoldable pub publish_all_by_hash : List Prepared → M S (Unit {0})
    unfolding publish_by_hash
    publish_all_by_hash [] = pure tt
    publish_all_by_hash (p ∷ ps) = do
      publish_by_hash tools store p.manifest p.artifacts
      publish_all_by_hash ps

    unfoldable pub publish_all_canonical : List Prepared → M S (Unit {0})
    unfolding publish_canonical
    publish_all_canonical [] = pure tt
    publish_all_canonical (p ∷ ps) = do
      publish_canonical tools store p.manifest p.artifacts
      publish_all_canonical ps

    unfoldable pub publish_metadata : Release → List Manifest → M S Release
    unfolding prepare_metadata publish_all_by_hash publish_all_canonical publish_release
    publish_metadata r manifests = do
      prepared ← lift (prepare_metadata r manifests)
      publish_all_by_hash prepared.0
      publish_all_canonical prepared.0
      publish_release prepared.1

-- `RetrieveRelease`; the release that was stored keeps its fields where the options give none.
abbrev given_or : Option Bytes → Option Bytes → Option Bytes
given_or none stored = stored
given_or (some value) stored = some value

abbrev flag_or : Option Bool → Bool → Bool
flag_or none stored = stored
flag_or (some value) stored = value

unfoldable pub configured : ReleaseOptions → Release → Release
configured o r = record r {
  date = o.date;
  codename = o.codename;
  origin = given_or o.origin r.origin;
  suite = given_or o.suite r.suite;
  by_hash = flag_or o.by_hash r.by_hash;
  cache_control = o.cache_control;
  signer = o.signer;
}

retrieved_release : ReleaseOptions → Result Bytes → Result Release
unfolding configured parse_release
retrieved_release o (ok content) = ok (configured o (parse_release content))
retrieved_release o (err e) =
    if is_not_found e then ok (new_release o) else err (wrap "retrieve Release" e)

unfoldable pub retrieve_release : {S : Type 0} → Store S → ReleaseOptions → M S Release
unfolding retrieved_release
retrieve_release store o s =
    let (r, s') = store.get (release_filename (new_release o)) s in (retrieved_release o r, s')
