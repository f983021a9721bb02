-- ===== src/Apt/Retrieval.antt =====
-- internal/apt/manifest_retrieve.go and release_retrieve.go: retrieval changes nothing.
use deb_s3_go.Base.{Error, ok, ◌≡◌, refl, wrap, String}
use deb_s3_go.Storage.Objects.{M, ◌>>=◌, on_error, Store}
use deb_s3_go.Storage.Events.{Log, traced, wrapped-eq-ok}
use deb_s3_go.Storage.Stages.{Quiet, Outcome, bind_outcome}
use deb_s3_go.Apt.Manifest.{Manifest, ManifestOptions}
use deb_s3_go.Apt.Publishing.{retrieve_manifest}
use deb_s3_go.Apt.Release.{Release, ReleaseOptions}
use deb_s3_go.Apt.Release.Publish.{retrieve_release}

module _ {S : Type 0} (store : Store S) where
  pub retrieve_manifest-Quiet :
      (f : Error → Error) (o : ManifestOptions)
      → Quiet (on_error f (retrieve_manifest (traced store) o))
  unfolding retrieve_manifest
  retrieve_manifest-Quiet f o x = refl

  pub retrieve_release-Quiet :
      (f : Error → Error) (o : ReleaseOptions)
      → Quiet (on_error f (retrieve_release (traced store) o))
  unfolding retrieve_release
  retrieve_release-Quiet f o x = refl

  module _ {C B : Type 0} (stage : C → M (S × Log) B) (Q : C → Type 0) where
    pub read_manifest_outcome :
        (prefix : String) (o : ManifestOptions) (f : Manifest → M (S × Log) B) (x : S × Log)
        → ((m : Manifest)
            → (retrieve_manifest (traced store) o x).0 ≡ ok m
            → let y = (retrieve_manifest (traced store) o x).1 in Outcome stage Q (f m y) y)
        → Outcome stage Q ((on_error (wrap prefix) (retrieve_manifest (traced store) o) >>= f) x) x
    read_manifest_outcome prefix o f x h =
        bind_outcome stage Q (on_error (wrap prefix) (retrieve_manifest (traced store) o)) f x
          (retrieve_manifest-Quiet (wrap prefix) o) (λ m e. h m (wrapped-eq-ok _ _ e))

    pub read_release_outcome :
        (prefix : String) (o : ReleaseOptions) (f : Release → M (S × Log) B) (x : S × Log)
        → ((r : Release)
            → (retrieve_release (traced store) o x).0 ≡ ok r
            → let y = (retrieve_release (traced store) o x).1 in Outcome stage Q (f r y) y)
        → Outcome stage Q ((on_error (wrap prefix) (retrieve_release (traced store) o) >>= f) x) x
    read_release_outcome prefix o f x h =
        bind_outcome stage Q (on_error (wrap prefix) (retrieve_release (traced store) o)) f x
          (retrieve_release-Quiet (wrap prefix) o) (λ r e. h r (wrapped-eq-ok _ _ e))
