-- ===== src/Maintenance/Verify.antt =====
-- internal/maintenance/maintenance.go: `Verify`. What a command logs, and the counts beside an error,
-- are left out.
pub mod Sifted
use deb_s3_go.Base.{
  ℕ, ◌+◌, Bool, true, false, not, ◌&&◌, List, [], ◌∷◌, Option, none, some, Bytes, Error, wrap,
  wrap_error, is_not_found, Result, ok, err, if◌then◌else◌, length, ltb,
}
use deb_s3_go.Storage.Objects.{ObjectInfo, M, pure, lift, ◌>>=◌, ◌>>◌, on_error, Store}
use deb_s3_go.Apt.Package.{Package, repository_filename}
use deb_s3_go.Apt.Manifest.{Manifest, ManifestOptions}
use deb_s3_go.Apt.Publishing.{Tools, retrieve_manifest}
use deb_s3_go.Apt.Release.{Release, ReleaseOptions, SignatureArtifacts}
use deb_s3_go.Apt.Release.Publish.{retrieve_release, publish_metadata, publish_release}

-- `VerifyOptions`; the clock is read as the formatted date.
pub record VerifyOptions : Type 0 where
  pub codename : Bytes
  pub component : Bytes
  pub fix_manifests : Bool
  pub origin : Option Bytes
  pub suite : Option Bytes
  pub cache_control : Bytes
  pub by_hash : Option Bool
  pub signer : Option (Bytes → Result SignatureArtifacts)
  pub date : Bytes

-- `VerifyResult`
pub record VerifyResult : Type 0 where
  pub checked : ℕ
  pub missing : ℕ
  pub repaired : ℕ

abbrev pub release_options : VerifyOptions → ReleaseOptions
release_options o = record {
  codename = o.codename;
  origin = o.origin;
  suite = o.suite;
  cache_control = o.cache_control;
  by_hash = o.by_hash;
  signer = o.signer;
  date = o.date;
}

abbrev pub manifest_options : VerifyOptions → Bool → Bytes → ManifestOptions
manifest_options o by_hash architecture = record {
  codename = o.codename;
  component = o.component;
  architecture = architecture;
  cache_control = o.cache_control;
  by_hash = by_hash;
  fail_if_exists = false;
  skip_package_upload = true;
}

-- `retained` and `missingForManifest` over a list of packages.
pub record Retained : Type 0 where
  pub packages : List Package
  pub missing : ℕ

-- A package whose object is there, or not.
abbrev pub noted : Bool → Bool → Package → Retained → Retained
noted fix true p r = record r { packages = p ∷ r.packages }
noted true false p r = record r { missing = r.missing + 1 }
noted false false p r = record { packages = p ∷ r.packages; missing = r.missing + 1 }

abbrev pub is_there : Result ObjectInfo → Result Bool
is_there (ok info) = ok true
is_there (err e) = if is_not_found e then ok false else err (wrap "check package object" e)

-- The manifests to publish, and the result.
pub record Verified : Type 0 where
  pub changed : List Manifest
  pub result : VerifyResult

abbrev nothing_verified : Verified
nothing_verified = record {
  changed = [];
  result = record { checked = 0; missing = 0; repaired = 0 };
}

abbrev counted : ℕ → ℕ → ℕ → VerifyResult → VerifyResult
counted checked missing repaired r = record {
  checked = checked + r.checked;
  missing = missing + r.missing;
  repaired = repaired + r.repaired;
}

unfoldable pub with_manifest : Bool → Manifest → Retained → Verified → Verified
with_manifest fix m r v =
    if fix && ltb 0 r.missing
    then record {
      changed = record m { packages = r.packages } ∷ v.changed;
      result = counted (length m.packages) r.missing r.missing v.result;
    }
    else record v { result = counted (length m.packages) r.missing 0 v.result }

module _ {S : Type 0} (store : Store S) (o : VerifyOptions) where
  has_object : Bytes → M S Bool
  has_object filename s = let (r, s') = store.head filename s in (is_there r, s')

  unfoldable pub verify_packages : List Package → M S Retained
  unfolding has_object repository_filename
  verify_packages [] = pure (record { packages = []; missing = 0 })
  verify_packages (p ∷ ps) = do
    filename ← lift (wrap_error "resolve filename" (repository_filename p o.codename))
    there ← has_object filename
    rest ← verify_packages ps
    pure (noted o.fix_manifests there p rest)

  unfoldable pub verify_each : Bool → List Bytes → M S Verified
  unfolding verify_packages retrieve_manifest with_manifest
  verify_each by_hash [] = pure nothing_verified
  verify_each by_hash (a ∷ architectures) = do
    manifest ←
        on_error (wrap "retrieve manifest for verify")
          (retrieve_manifest store (manifest_options o by_hash a))
    retained ← verify_packages manifest.packages
    rest ← verify_each by_hash architectures
    pure (with_manifest o.fix_manifests manifest retained rest)

  module _ (tools : Tools) where
    -- The end of `Verify`: changed manifests are published, and a signer has the release signed
    -- anew even when there are none.
    abbrev sign_again : Option (Bytes → Result SignatureArtifacts) → Release → M S (Unit {0})
    sign_again none release = pure tt
    sign_again (some sign) release =
        on_error (wrap "publish signed Release") (publish_release tools store release)
        >>= λ published. pure tt

    abbrev publish_changed : Release → List Manifest → M S (Unit {0})
    publish_changed release [] = sign_again o.signer release
    publish_changed release (m ∷ ms) =
        on_error (wrap "publish repaired metadata") (publish_metadata tools store release (m ∷ ms))
        >>= λ published. pure tt

    abbrev pub publish_verified : Release × Verified → M S VerifyResult
    publish_verified (release, v) = do publish_changed release v.changed; pure v.result

    -- `Repository.Verify`
    unfoldable pub verify : M S VerifyResult
    unfolding retrieve_release verify_each
    verify = do
      release ←
          on_error (wrap "retrieve Release for verify") (retrieve_release store (release_options o))
      v ← verify_each release.by_hash release.architectures
      publish_verified (release, v)
