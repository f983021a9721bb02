-- ===== src/Manage/Copying.antt =====
-- internal/manage/manage.go: what `Copy` publishes.
use deb_s3_go.Base.{
  Bool, true, false, List, [], ◌∷◌, Bytes, Result, ok, err, select, ◌≡◌, ◌≢◌, refl, ◌∙◌, arith,
  Bool-cases, inl, inr, All,
}
use deb_s3_go.Base.Strings.{equal}
use deb_s3_go.Storage.Objects.{lift, Store}
use deb_s3_go.Storage.Events.{Log, traced}
use deb_s3_go.Apt.Package.{Package}
use deb_s3_go.Apt.Manifest.{Manifest, add}
use deb_s3_go.Apt.Manifest.Others.{others, others-add}
use deb_s3_go.Apt.Publishing.{Tools, retrieve_manifest}
use deb_s3_go.Apt.Release.{Release}
use deb_s3_go.Manage.{
  CopyOptions, source_options, copy_release_options, destination_options, selects, selected,
  next_added, add_all, copied, copy, publish_copy,
}
use deb_s3_go.Storage.Stages.{Outcome, bind_outcome, stage_outcome}
use deb_s3_go.Apt.Retrieval.{read_manifest_outcome, read_release_outcome}

others-add_all :
    (preserve : Bool) (n : Bytes) (ps : List Package) (m : Manifest) {m' : Manifest}
    → All (λ (p : Package). equal p.name n ≡ true) ps
    → add_all preserve ps m ≡ ok m'
    → others n m'.packages ≡ others n m.packages
unfolding add_all
others-add_all preserve n [] m h k = cc
others-add_all preserve n (p ∷ ps) m {m'} h k =
    go (add p preserve false m).0 (others-add_all preserve n ps (add p preserve false m).1 h.1) k
    ∙ others-add preserve p n m h.0
  where
    go :
        (r : Result (Unit {0}))
        → (add_all preserve ps (add p preserve false m).1 ≡ ok m'
            → others n m'.packages ≡ others n (add p preserve false m).1.packages)
        → next_added r (add_all preserve ps) (add p preserve false m).1 ≡ ok m'
        → others n m'.packages ≡ others n (add p preserve false m).1.packages
    go (err e) rest k = cc
    go (ok _) rest k = rest k

selected-All-name :
    (o : CopyOptions) (ps : List Package)
    → All (λ (p : Package). equal p.name o.name ≡ true) (select (selects o) ps)
selected-All-name o [] = tt
selected-All-name o (p ∷ ps) = elim (Bool-cases (selects o p)) [
  | inl e ↦ rw e (ground (arith, e), selected-All-name o ps)
  | inr e ↦ rw e (selected-All-name o ps)
]

copied-parts :
    (o : CopyOptions) (ps : List Package) (m : Manifest) {m' : Manifest}
    → copied o ps m ≡ ok m'
    → (ps ≢ []) × (add_all o.preserve_versions ps m ≡ ok m')
unfolding copied
copied-parts o [] m h = cc
copied-parts o (p ∷ ps) m h = (λ e. cc, h)

module _ {S : Type 0} (store : Store S) (tools : Tools) (o : CopyOptions) where
  -- The manifest that is published is a stored one with the selected packages added, at least one.
  pub record Copies (published : Release × List Manifest) : Type 0 where
    pub at : S × Log
    pub source : Manifest
    pub source_read : (retrieve_manifest (traced store) (source_options o) at).0 ≡ ok source
    pub before : S × Log
    pub destination : Manifest
    pub destination_read :
        (retrieve_manifest (traced store) (destination_options o published.0.by_hash) before).0
        ≡ ok destination
    pub manifest : Manifest
    pub alone : published.1 ≡ manifest ∷ []
    pub selects_some : selected o source ≢ []
    pub adds : add_all o.preserve_versions (selected o source) destination ≡ ok manifest
    pub keeps_others : others o.name manifest.packages ≡ others o.name destination.packages

  copies :
      (r : Release) (x : S × Log) (source : Manifest)
      → (retrieve_manifest (traced store) (source_options o) x).0 ≡ ok source
      → (y : S × Log) (destination : Manifest)
      → (retrieve_manifest (traced store) (destination_options o r.by_hash) y).0 ≡ ok destination
      → (manifest : Manifest) → copied o (selected o source) destination ≡ ok manifest
      → Copies (r, manifest ∷ [])
  copies r x source h y destination k manifest e =
      let (some, adds) = copied-parts o (selected o source) destination e in
      record {
        at = x;
        source = source;
        source_read = h;
        before = y;
        destination = destination;
        destination_read = k;
        manifest = manifest;
        alone = refl;
        selects_some = some;
        adds = adds;
        keeps_others =
            others-add_all o.preserve_versions o.name (selected o source) destination
              (selected-All-name o source.packages) adds;
      }

  -- `Copy`, on any store: either it fails and has asked for no change of what is stored, or it ends
  -- with one publication of metadata, of one manifest, before which it has asked for no change. That
  -- manifest is the destination's as it was read, with at least one package added, all those
  -- that the options select from the source's, and its packages of other names are what they were.
  pub copy_outcomes :
      (x : S × Log)
      → Outcome (publish_copy (traced store) tools) Copies (copy (traced store) tools o x) x
  unfolding copy
  copy_outcomes x =
      read_manifest_outcome store (publish_copy (traced store) tools) Copies
        "retrieve source manifest" (source_options o) _ x
        λ source e1.
          read_release_outcome store (publish_copy (traced store) tools) Copies
            "retrieve destination Release" (copy_release_options o) _ _
            λ release e2.
              read_manifest_outcome store (publish_copy (traced store) tools) Copies
                "retrieve destination manifest" (destination_options o release.by_hash) _ _
                λ destination e3.
                  bind_outcome (publish_copy (traced store) tools) Copies
                    (lift (copied o (selected o source) destination)) _ _ (λ y. refl)
                    λ manifest e4.
                      stage_outcome (publish_copy (traced store) tools) Copies
                        (release, manifest ∷ []) _
                        (copies release x source e1 _ destination e3 manifest e4)
