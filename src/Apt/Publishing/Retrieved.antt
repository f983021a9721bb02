-- ===== src/Apt/Publishing/Retrieved.antt =====
-- internal/apt/manifest_retrieve.go: what a retrieved manifest has beside its packages.
use deb_s3_go.Base.{
  Bool-cases, is_not_found, [], List, Bytes, Result, ok, err, ◌≡◌, refl, ap, sym, inl, inr,
  ok-injective, ◌∙◌,
}
use deb_s3_go.Storage.Objects.{Store}
use deb_s3_go.Apt.Package.{Package}
use deb_s3_go.Apt.Manifest.{Manifest, ManifestOptions, new_manifest, packages_path, parse_packages}
use deb_s3_go.Apt.Publishing.{parsed_manifest, retrieved, retrieve_manifest}

-- The manifest of these options, with nothing to upload yet.
pub record IsFresh (o : ManifestOptions) (m : Manifest) : Type 0 where
  pub of_architecture : m.architecture ≡ o.architecture
  pub nothing_pending : m.pending_uploads ≡ []

fresh : (o : ManifestOptions) {m m' : Manifest} → IsFresh o m' → ok m' ≡ ok m → IsFresh o m
fresh o f h = record {
  of_architecture =
      ap (λ (m : Manifest). m.architecture) (sym (ok-injective h)) ∙ f.of_architecture;
  nothing_pending =
      ap (λ (m : Manifest). m.pending_uploads) (sym (ok-injective h)) ∙ f.nothing_pending;
}

retrieved-IsFresh :
    (o : ManifestOptions) (r : Result Bytes) {m : Manifest} → retrieved o r ≡ ok m → IsFresh o m
retrieved-IsFresh o (ok content) {m} h = go (parse_packages content) h
  where
    go : (r : Result (List Package)) → parsed_manifest o r ≡ ok m → IsFresh o m
    go (err e) h = cc
    go (ok ps) h = fresh o (record { of_architecture = refl; nothing_pending = refl }) h
retrieved-IsFresh o (err e) h = elim (Bool-cases (is_not_found e)) [
  | inl missing ↦
      fresh o (record { of_architecture = refl; nothing_pending = refl }) (rw missing at h)
  | inr failed ↦ cc (rw failed at h)
]

pub retrieve_manifest-IsFresh :
    {S : Type 0} (store : Store S) (o : ManifestOptions) (x : S) {m : Manifest}
    → (retrieve_manifest store o x).0 ≡ ok m
    → IsFresh o m
unfolding retrieve_manifest
retrieve_manifest-IsFresh store o x h =
    retrieved-IsFresh o (store.get (packages_path (new_manifest o)) x).0 h
