-- ===== src/Maintenance/Verify/Sifted.antt =====
-- internal/maintenance/maintenance.go: the packages that `Verify` drops.
use mathlib.Core.Path.{subst}
use deb_s3_go.Base.{
  Bool, true, false, List, [], ◌∷◌, Bytes, Error, wrap, wrap_error, is_not_found, Result, ok, err,
  ok-injective, All, ltb, ◌≡◌, refl, sym, ap, ◌∙◌, Bool-cases, inl, inr, String,
}
use deb_s3_go.Storage.Objects.{ObjectInfo, lift, on_error, Store}
use deb_s3_go.Storage.Events.{Log, traced, wrapped-eq-ok}
use deb_s3_go.Storage.Stages.{Quiet, Outcome, bind-Quiet, bind-ok, bind_outcome, stage_outcome}
use deb_s3_go.Apt.Package.{Package, repository_filename}
use deb_s3_go.Apt.Manifest.{Manifest}
use deb_s3_go.Apt.Publishing.{Tools, retrieve_manifest}
use deb_s3_go.Apt.Retrieval.{retrieve_manifest-Quiet, read_release_outcome}
use deb_s3_go.Apt.Release.{Release}
use deb_s3_go.Maintenance.Verify.{
  VerifyOptions, Retained, noted, is_there, Verified, release_options, manifest_options,
  with_manifest, has_object, verify_packages, verify_each, publish_verified, verify,
}

module _ {S : Type 0} (store : Store S) (codename : Bytes) where
  -- The packages that stay are those whose object was there when it was asked for; of the others the
  -- store said that it is not there.
  pub data Sifted : List Package → List Package → Type 0 where
    none : Sifted [] []
    kept :
        (p : Package) (ps rs : List Package) (filename : Bytes) (x : S) (info : ObjectInfo)
        → repository_filename p codename ≡ ok filename
        → (store.head filename x).0 ≡ ok info
        → Sifted ps rs
        → Sifted (p ∷ ps) (p ∷ rs)
    dropped :
        (p : Package) (ps rs : List Package) (filename : Bytes) (x : S) (e : Error)
        → repository_filename p codename ≡ ok filename
        → (store.head filename x).0 ≡ err e
        → is_not_found e ≡ true
        → Sifted ps rs
        → Sifted (p ∷ ps) rs

with_manifest-All :
    (P : Manifest → Type 0) (fix : Bool) (m : Manifest) (r : Retained) (v : Verified)
    → (fix ≡ true → P (record m { packages = r.packages }))
    → All P v.changed
    → All P (with_manifest fix m r v).changed
unfolding with_manifest
with_manifest-All P false m r v h k = k
with_manifest-All P true m r v h k = elim (Bool-cases (ltb 0 r.missing)) [
  | inr complete ↦ rw complete k
  | inl some ↦ rw some (h refl, k)
]

wrap_error-ok :
    {A : Type 0} (text : String) {a : A} (r : Result A) → wrap_error text r ≡ ok a → r ≡ ok a
wrap_error-ok text (ok b) h = h
wrap_error-ok text (err e) h = cc

module _ {S : Type 0} (store : Store S) (o : VerifyOptions) where
  sifted_by :
      (p : Package) (ps : List Package) (filename : Bytes) (x : S) (r : Retained)
      → repository_filename p o.codename ≡ ok filename
      → Sifted store o.codename ps r.packages
      → (answer : Result ObjectInfo) → (store.head filename x).0 ≡ answer
      → (there : Bool) → is_there answer ≡ ok there
      → Sifted store o.codename (p ∷ ps) (noted true there p r).packages
  sifted_by p ps filename x r named rest (ok info) e true h =
      Sifted.kept p ps r.packages filename x info named e rest
  sifted_by p ps filename x r named rest (ok info) e false h = cc (ok-injective h)
  sifted_by p ps filename x r named rest (err f) e there h = elim (Bool-cases (is_not_found f)) [
    | inl missing ↦
        subst (λ t. Sifted store o.codename (p ∷ ps) (noted true t p r).packages)
          (ok-injective (rw missing at h))
          (Sifted.dropped p ps r.packages filename x f named e missing rest)
    | inr failed ↦ cc (rw failed at h)
  ]

  verify_packages-Sifted :
      (ps : List Package) (x : S) {r : Retained}
      → o.fix_manifests ≡ true
      → (verify_packages store o ps x).0 ≡ ok r
      → Sifted store o.codename ps r.packages
  unfolding verify_packages has_object
  verify_packages-Sifted [] x fix h =
      subst (λ (r : Retained). Sifted store o.codename [] r.packages) (ok-injective h) Sifted.none
  verify_packages-Sifted (p ∷ ps) x fix h =
      let (filename, e, h1) =
        bind-ok (lift (wrap_error "resolve filename" (repository_filename p o.codename))) _ x h in
      let (there, e2, h2) = bind-ok (has_object store o filename) _ _ h1 in
      let (rest, e3, h3) = bind-ok (verify_packages store o ps) _ _ h2 in
      subst (λ (r : Retained). Sifted store o.codename (p ∷ ps) r.packages)
        (ap (λ f. noted f there p rest) (sym fix) ∙ ok-injective h3)
        (sifted_by p ps filename x rest
          (wrap_error-ok "resolve filename" (repository_filename p o.codename) e)
          (verify_packages-Sifted ps _ fix e3) (store.head filename x).0 refl there e2)

  -- A manifest that is published again: as it was read, without the packages whose object is missing.
  pub record IsRepaired (by_hash : Bool) (m : Manifest) : Type 0 where
    pub fixing : o.fix_manifests ≡ true
    pub architecture : Bytes
    pub at : S
    pub before : Manifest
    pub before_read :
        (retrieve_manifest store (manifest_options o by_hash architecture) at).0 ≡ ok before
    pub packages : List Package
    pub repaired : m ≡ record before { packages = packages }
    pub sifted : Sifted store o.codename before.packages packages

  verify_each-IsRepaired :
      (by_hash : Bool) (architectures : List Bytes) (x : S) {v : Verified}
      → (verify_each store o by_hash architectures x).0 ≡ ok v
      → All (IsRepaired by_hash) v.changed
  unfolding verify_each
  verify_each-IsRepaired by_hash [] x h =
      subst (λ (v : Verified). All (IsRepaired by_hash) v.changed) (ok-injective h) tt
  verify_each-IsRepaired by_hash (a ∷ architectures) x h =
      let (m, e, h1) =
        bind-ok
          (on_error (wrap "retrieve manifest for verify")
            (retrieve_manifest store (manifest_options o by_hash a)))
          _ x h in
      let (r, e2, h2) = bind-ok (verify_packages store o m.packages) _ _ h1 in
      let (rest, e3, h3) = bind-ok (verify_each store o by_hash architectures) _ _ h2 in
      subst (λ (v : Verified). All (IsRepaired by_hash) v.changed) (ok-injective h3)
        (with_manifest-All (IsRepaired by_hash) o.fix_manifests m r rest
          (λ fix. record {
            fixing = fix;
            architecture = a;
            at = x;
            before = m;
            before_read = wrapped-eq-ok _ _ e;
            packages = r.packages;
            repaired = refl;
            sifted = verify_packages-Sifted m.packages _ fix e2;
          })
          (verify_each-IsRepaired by_hash architectures _ e3))

module _ {S : Type 0} (store : Store S) (o : VerifyOptions) where
  verify_packages-Quiet : (ps : List Package) → Quiet (verify_packages (traced store) o ps)
  unfolding verify_packages has_object
  verify_packages-Quiet [] = λ x. refl
  verify_packages-Quiet (p ∷ ps) =
      bind-Quiet (lift (wrap_error "resolve filename" (repository_filename p o.codename))) _
        (λ x. refl)
        (λ filename.
          bind-Quiet (has_object (traced store) o filename) _ (λ x. refl)
            (λ there.
              bind-Quiet (verify_packages (traced store) o ps) _ (verify_packages-Quiet ps)
                (λ rest x. refl)))

  verify_each-Quiet :
      (by_hash : Bool) (architectures : List Bytes)
      → Quiet (verify_each (traced store) o by_hash architectures)
  unfolding verify_each
  verify_each-Quiet by_hash [] = λ x. refl
  verify_each-Quiet by_hash (a ∷ architectures) =
      bind-Quiet
        (on_error (wrap "retrieve manifest for verify")
          (retrieve_manifest (traced store) (manifest_options o by_hash a)))
        _
        (retrieve_manifest-Quiet store (wrap "retrieve manifest for verify")
          (manifest_options o by_hash a))
        (λ m.
          bind-Quiet (verify_packages (traced store) o m.packages) _
            (verify_packages-Quiet m.packages)
            (λ r.
              bind-Quiet (verify_each (traced store) o by_hash architectures) _
                (verify_each-Quiet by_hash architectures) (λ rest x. refl)))

  -- What `Verify` publishes.
  pub record IsVerified (content : Release × Verified) : Type 0 where
    pub repaired : All (IsRepaired (traced store) o content.0.by_hash) content.1.changed

  module _ (tools : Tools) where
    -- `Verify`, on any store: either it fails and has asked for no change of what is stored, or it
    -- ends with the publication of the manifests that it has changed, or, with none and a signer, of
    -- the release alone, before which it has asked for no change. It changes a manifest only to
    -- repair it, as the options ask: the manifest is as it was read, but for the packages of which
    -- the store said that their object is not there.
    pub verify_outcomes :
        (x : S × Log)
        → Outcome
            (publish_verified (traced store) o tools)
            IsVerified
            (verify (traced store) o tools x)
            x
    unfolding verify
    verify_outcomes x =
        read_release_outcome store (publish_verified (traced store) o tools) IsVerified
          "retrieve Release for verify" (release_options o) _ x
          λ release e.
            bind_outcome (publish_verified (traced store) o tools) IsVerified
              (verify_each (traced store) o release.by_hash release.architectures) _ _
              (verify_each-Quiet release.by_hash release.architectures)
              λ v e'.
                stage_outcome (publish_verified (traced store) o tools) IsVerified (release, v) _
                  (record {
                    repaired =
                        verify_each-IsRepaired (traced store) o release.by_hash
                          release.architectures _ e';
                  })
