-- ===== src/Examples/Publishing.antt =====
-- internal/apt: the theorems on publication, applied.
use deb_s3_go.Base.{
  true, List, [], ◌∷◌, none, some, Bytes, Result, ok, err, ◌≡◌, refl, All, length, map,
}
use deb_s3_go.Base.Strings.{codes, equal, split, join, member}
use deb_s3_go.Base.Assoc.{lookup, insert}
use deb_s3_go.Base.Paths.{clean, path_join}
use deb_s3_go.Base.Paths.Laws.{Lacks}
use deb_s3_go.Base.Paths.Elements.{IsPlain}
use deb_s3_go.Apt.Manifest.{
  FileHashes, Manifest, new_manifest, render_manifest, packages_path, release_packages_path,
}
use deb_s3_go.Apt.Publishing.{Tools, build_artifacts, record_artifacts, hash_manifest}
use deb_s3_go.Apt.Release.{append_unique, update_manifest, Release, new_release, missing_manifests}
use deb_s3_go.Apt.Release.Publish.{prepare_all, Prepared, prepare_metadata}
use deb_s3_go.Apt.Release.Publish.Complete.{prepare_metadata_complete}
use deb_s3_go.Examples.Apt.{manifest_options, package_b}

-- Tools that say what they were given.
abbrev pub tools : Tools
tools = record {
  md5 = λ d. codes "m";
  sha1 = λ d. codes "s";
  sha256 = λ d. codes "h";
  gzip = λ d. ok (b'z' ∷ d);
  open_file = λ name. ok (ok name);
}

abbrev pub manifest : Manifest
manifest = record (new_manifest manifest_options) { pending_uploads = package_b ∷ [] }

abbrev pub release : Release
release = new_release (record {
  codename = codes "stable";
  origin = none;
  suite = none;
  cache_control = [];
  by_hash = some true;
  signer = none;
  date = codes "now";
})

abbrev prepared_or : Result (List Prepared × Release) → List Prepared × Release
prepared_or (ok p) = p
prepared_or (err e) = ([], release)

abbrev pub prepared : List Prepared × Release
prepared = prepared_or (prepare_metadata tools release (manifest ∷ []))

pub prepared_at : prepare_metadata tools release (manifest ∷ []) ≡ ok prepared
unfolding prepare_metadata build_artifacts render_manifest prepare_all update_manifest
    record_artifacts missing_manifests release_packages_path packages_path lookup insert path_join
    clean split join equal append_unique member hash_manifest
prepared_at = refl

pub main_only : All IsPlain prepared.1.components
unfolding prepare_metadata build_artifacts render_manifest prepare_all update_manifest
    record_artifacts missing_manifests release_packages_path packages_path lookup insert path_join
    clean split join equal append_unique member hash_manifest
main_only = (
  record {
    ne_nil = refl;
    ne_dot = refl;
    ne_dot_dot = refl;
    no_slash = (refl, (refl, (refl, (refl, tt))));
  },
  tt,
)

pub amd64_only : All (Lacks b'/') prepared.1.architectures
unfolding prepare_metadata build_artifacts render_manifest prepare_all update_manifest
    record_artifacts missing_manifests release_packages_path packages_path lookup insert path_join
    clean split join equal append_unique member hash_manifest
amd64_only = ((refl, (refl, (refl, (refl, (refl, tt))))), tt)

prepare_metadata_complete_example : missing_manifests prepared.1 ≡ []
prepare_metadata_complete_example =
    prepare_metadata_complete tools release (manifest ∷ []) prepared_at main_only amd64_only

-- A component written with a slash at its end: its index is listed, and yet taken as missing.
abbrev slashed : Manifest
slashed = record manifest { component = codes "main/" }

abbrev slashed_release : Release
slashed_release = (prepared_or (prepare_metadata tools release (slashed ∷ []))).1

slash_stays_missing :
    (length (missing_manifests slashed_release) ≡ 1)
    × (map (λ (e : Bytes × FileHashes). e.0) slashed_release.files
        ≡ codes "main/binary-amd64/Packages" ∷ codes "main/binary-amd64/Packages.gz" ∷ [])
    × (map packages_path (missing_manifests slashed_release) ≡ packages_path slashed ∷ [])
unfolding prepare_metadata build_artifacts render_manifest prepare_all update_manifest
    record_artifacts missing_manifests release_packages_path packages_path lookup insert path_join
    clean split join equal append_unique member hash_manifest
slash_stays_missing = (refl, refl, refl)
