-- ===== src/Apt/Release/Publish/Built.antt =====
-- internal/apt/metadata_publish.go: what a preparation holds of each manifest.
use mathlib.Core.Path.{subst}
use deb_s3_go.Base.{
  List, [], ◌∷◌, ◌++◌, Bytes, ok, map, All, All-append, ok-injective, Result-cases, Option-cases,
  inl, inr, ◌≡◌, refl, sym, ap,
}
use deb_s3_go.Base.Assoc.{lookup}
use deb_s3_go.Base.Strings.{codes}
use deb_s3_go.Apt.Manifest.{Manifest, render_manifest, packages_path}
use deb_s3_go.Apt.Publishing.{
  ManifestArtifacts, Tools, artifacts_of, hash_manifest, build_artifacts, record_artifacts,
}
use deb_s3_go.Apt.Release.{Release, missing_for, missing_in, missing_manifests, update_manifest}
use deb_s3_go.Apt.Release.Publish.{
  Prepared, prepare_all, prepared_of, prepare_missing, prepare_metadata,
}

abbrev pub tail_or : {A : Type 0} → List A → List A → List A
tail_or d [] = d
tail_or d (x ∷ xs) = xs

-- The artifacts are the texts of the manifest, as it renders and that compressed, with the names of its
-- index, their SHA-256 digests and their types.
pub record IsBuilt (tools : Tools) (p : Prepared) : Type 0 where
  pub plain : Bytes
  pub compressed : Bytes
  pub renders : render_manifest p.manifest ≡ ok plain
  pub zips : tools.gzip plain ≡ ok compressed
  pub plain_path : p.artifacts.packages.path ≡ packages_path p.manifest
  pub plain_content : p.artifacts.packages.content ≡ plain
  pub plain_digest : p.artifacts.packages.hashes.sha256 ≡ tools.sha256 plain
  pub plain_type : p.artifacts.packages.content_type ≡ codes "text/plain; charset=utf-8"
  pub compressed_path : p.artifacts.packages_gzip.path ≡ packages_path p.manifest ++ codes ".gz"
  pub compressed_content : p.artifacts.packages_gzip.content ≡ compressed
  pub compressed_digest : p.artifacts.packages_gzip.hashes.sha256 ≡ tools.sha256 compressed
  pub compressed_type :
      p.artifacts.packages_gzip.content_type ≡ codes "application/x-gzip; charset=binary"

-- A preparation of manifests, one by one: with the same architectures and the same uploads.
pub record IsPreparationOf (tools : Tools) (ms : List Manifest) (ps : List Prepared) : Type 0 where
  pub built : All (IsBuilt tools) ps
  pub architectures :
      map (λ (p : Prepared). p.manifest.architecture) ps ≡ map (λ (m : Manifest). m.architecture) ms
  pub uploads :
      map (λ (p : Prepared). p.manifest.pending_uploads) ps
      ≡ map (λ (m : Manifest). m.pending_uploads) ms

abbrev pub HasNoUploads : Manifest → Type 0
HasNoUploads m = m.pending_uploads ≡ []

missing_for-HasNoUploads :
    (r : Release) (component : Bytes) (architectures : List Bytes)
    → All HasNoUploads (missing_for r component architectures)
unfolding missing_for
missing_for-HasNoUploads r component [] = tt
missing_for-HasNoUploads r component (a ∷ architectures) =
    elim (Option-cases
      (lookup (component ++ (codes "/binary-" ++ (a ++ codes "/Packages"))) r.files)) [
        | inr (v, there) ↦
            rw (missing_for, there) (missing_for-HasNoUploads r component architectures)
        | inl absent ↦
            rw (missing_for, absent) (refl, missing_for-HasNoUploads r component architectures)
      ]

missing_in-HasNoUploads :
    (r : Release) (components : List Bytes) → All HasNoUploads (missing_in r components)
unfolding missing_in
missing_in-HasNoUploads r [] = tt
missing_in-HasNoUploads r (c ∷ components) =
    All-append HasNoUploads (missing_for r c r.architectures) (missing_in r components)
      (missing_for-HasNoUploads r c r.architectures) (missing_in-HasNoUploads r components)

module _ (tools : Tools) where
  build_artifacts-IsBuilt :
      (m : Manifest) (a : ManifestArtifacts)
      → build_artifacts tools m ≡ ok a
      → IsBuilt tools (prepared_of tools m a)
  unfolding build_artifacts record_artifacts render_manifest artifacts_of packages_path
      hash_manifest
  build_artifacts-IsBuilt m a h = elim (Result-cases (render_manifest m)) [
    | inr (e, failed) ↦ cc (rw failed at h)
    | inl (plain, renders) ↦ elim (Result-cases (tools.gzip plain)) [
      | inr (e, failed) ↦ cc (rw (renders, failed) at h)
      | inl (compressed, zips) ↦
          subst (λ b. IsBuilt tools (prepared_of tools m b))
            (ok-injective (rw (renders, zips) at h))
            (record {
              plain = plain;
              compressed = compressed;
              renders = renders;
              zips = zips;
              plain_path = refl;
              plain_content = refl;
              plain_digest = refl;
              plain_type = refl;
              compressed_path = refl;
              compressed_content = refl;
              compressed_digest = refl;
              compressed_type = refl;
            })
    ]
  ]

  prepare_all-IsPreparationOf :
      (r : Release) (ms : List Manifest) {r' : Release} {ps : List Prepared}
      → prepare_all tools r ms ≡ ok (r', ps)
      → IsPreparationOf tools ms ps
  unfolding prepare_all
  prepare_all-IsPreparationOf r [] h =
      subst (IsPreparationOf tools []) (ap (λ (x : Release × List Prepared). x.1) (ok-injective h))
        (record { built = tt; architectures = refl; uploads = refl })
  prepare_all-IsPreparationOf r (m ∷ ms) h = elim (Result-cases (build_artifacts tools m)) [
    | inr (e, failed) ↦ cc (rw failed at h)
    | inl (a, done) ↦
        elim (Result-cases (prepare_all tools (update_manifest (record_artifacts a m) r) ms)) [
          | inr (e, failed) ↦ cc (rw (done, failed) at h)
          | inl (x, later) ↦
              let rest =
                prepare_all-IsPreparationOf (update_manifest (record_artifacts a m) r) ms {r' = x.0}
                  {ps = x.1} later in
              subst (IsPreparationOf tools (m ∷ ms))
                (ap (λ (y : Release × List Prepared). y.1) (ok-injective (rw (done, later) at h)))
                (record {
                  built = (build_artifacts-IsBuilt m a done, rest.built);
                  architectures =
                      unfold record_artifacts in ap (λ l. m.architecture ∷ l) rest.architectures;
                  uploads = unfold record_artifacts in ap (λ l. m.pending_uploads ∷ l) rest.uploads;
                })
        ]
  ]

  All-HasNoUploads :
      (ms : List Manifest) (ps : List Prepared)
      → All HasNoUploads ms
      → map (λ (p : Prepared). p.manifest.pending_uploads) ps
        ≡ map (λ (m : Manifest). m.pending_uploads) ms
      → All (λ p. HasNoUploads p.manifest) ps
  All-HasNoUploads [] [] h e = tt
  All-HasNoUploads [] (p ∷ ps) h e = cc
  All-HasNoUploads (m ∷ ms) [] h e = cc
  All-HasNoUploads (m ∷ ms) (p ∷ ps) h e =
      (cc (e, h.0), All-HasNoUploads ms ps h.1 (ap (tail_or []) e))

  -- A preparation is that of the given manifests, and then of new ones that have nothing to upload.
  pub record IsPrepared (ms : List Manifest) (ps : List Prepared) : Type 0 where
    pub changed : List Prepared
    pub created : List Prepared
    pub in_order : ps ≡ changed ++ created
    pub given : IsPreparationOf tools ms changed
    pub built : All (IsBuilt tools) created
    pub nothing_to_upload : All (λ p. HasNoUploads p.manifest) created

  pub prepare_metadata-IsPrepared :
      (r : Release) (ms : List Manifest) {ps : List Prepared} {r' : Release}
      → prepare_metadata tools r ms ≡ ok (ps, r')
      → IsPrepared ms ps
  unfolding prepare_metadata prepare_missing missing_manifests
  prepare_metadata-IsPrepared r ms {ps} h = elim (Result-cases (prepare_all tools r ms)) [
    | inr (e, failed) ↦ cc (rw failed at h)
    | inl (x, first) ↦ elim (Result-cases (prepare_all tools x.0 (missing_in x.0 x.0.components))) [
      | inr (e, failed) ↦ cc (rw (first, failed) at h)
      | inl (y, later) ↦
          let created =
            prepare_all-IsPreparationOf x.0 (missing_in x.0 x.0.components) {r' = y.0} {ps = y.1}
              later in
          record {
            changed = x.1;
            created = y.1;
            in_order =
                sym (
                  ap (λ (z : List Prepared × Release). z.0)
                    (ok-injective (rw (first, later) at h)));
            given = prepare_all-IsPreparationOf r ms {r' = x.0} {ps = x.1} first;
            built = created.built;
            nothing_to_upload =
                All-HasNoUploads (missing_in x.0 x.0.components) y.1
                  (missing_in-HasNoUploads x.0 x.0.components) created.uploads;
          }
    ]
  ]

  pub IsPrepared-IsBuilt :
      (ms : List Manifest) (ps : List Prepared) → IsPrepared ms ps → All (IsBuilt tools) ps
  IsPrepared-IsBuilt ms ps p =
      rw p.in_order (All-append (IsBuilt tools) p.changed p.created p.given.built p.built)
