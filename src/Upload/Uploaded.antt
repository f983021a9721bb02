-- ===== src/Upload/Uploaded.antt =====
-- internal/upload/upload.go: an upload up to the point where it begins to write.
use mathlib.Core.Path.{subst}
use mathlib.Core.List.{map-append}
use deb_s3_go.Base.{All, map, ap}
use deb_s3_go.Base.{
  Bool, false, List, [], ◌∷◌, ◌++◌, Bytes, wrap, wrap_error, Result, ok, err, All-append,
  ok-injective, String, ◌≡◌, refl, Bool-cases, inl, inr,
}
use deb_s3_go.Base.Strings.{codes, equal}
use deb_s3_go.Storage.Objects.{lift, on_error, Store}
use deb_s3_go.Storage.Events.{Log, traced, wrapped-eq-ok}
use deb_s3_go.Storage.Stages.{Quiet, Outcome, bind-Quiet, bind-ok, bind_outcome, stage_outcome}
use deb_s3_go.Apt.Manifest.{Manifest, ManifestOptions}
use deb_s3_go.Apt.Publishing.{Tools, retrieve_manifest}
use deb_s3_go.Apt.Publishing.Retrieved.{IsFresh, retrieve_manifest-IsFresh}
use deb_s3_go.Apt.Retrieval.{retrieve_manifest-Quiet, read_release_outcome}
use deb_s3_go.Apt.Release.{Release}
use deb_s3_go.Apt.Package.{Package}
use deb_s3_go.Apt.Release.Publish.{Prepared, prepare_metadata, retrieve_release}
use deb_s3_go.Apt.Release.Publish.Built.{tail_or, HasNoUploads, prepare_metadata-IsPrepared}
use deb_s3_go.Upload.{
  Options, Files, Work, architectures_in, has_manifest, manifest_options, release_options,
  seed_architectures, add_to, architecture_for, propagate, manifest_for, manifests_for, seeded,
  examine, examine_all, expand_files, upload_prepared, upload_existing, upload,
}
use deb_s3_go.Upload.Placed.{
  Distinct, PlacesUploads, WellPlaced, Distinct-append, architecture_for-placed, add_to-Keeps,
  propagate-Keeps, Keeps-WellPlaced,
}

wrap_error-ok :
    {A : Type 0} (text : String) {a : A} (r : Result A) → wrap_error text r ≡ ok a → r ≡ ok a
wrap_error-ok text (ok b) h = h
wrap_error-ok text (err e) h = cc

appended :
    (K : Package → Type 0) (ms : List Manifest) (m : Manifest) {o : ManifestOptions}
    → IsFresh o m
    → has_manifest o.architecture ms ≡ false
    → WellPlaced K ms
    → WellPlaced K (ms ++ (m ∷ []))
appended K ms m {o} f new w = record {
  distinct =
      rw (map-append (λ (m : Manifest). m.architecture) ms (m ∷ []), f.of_architecture)
        (Distinct-append o.architecture (architectures_in ms) w.distinct new);
  placed = All-append (PlacesUploads K) ms (m ∷ []) w.placed (rw (f.nothing_pending) tt, tt);
}

abbrev head_or : {A : Type 0} → A → List A → A
head_or d [] = d
head_or d (x ∷ xs) = x

module _ (K : Package → Type 0) {S : Type 0} (store : Store S) (o : Options) (by_hash : Bool) where
  manifest_for-WellPlaced :
      (a : Bytes) (ms : List Manifest) (x : S) {ms' : List Manifest}
      → (manifest_for store o by_hash a ms x).0 ≡ ok ms'
      → WellPlaced K ms
      → WellPlaced K ms'
  unfolding manifest_for
  manifest_for-WellPlaced a ms x h w = elim (Bool-cases (has_manifest a ms)) [
    | inl found ↦ subst (WellPlaced K) (ok-injective (rw found at h)) w
    | inr new ↦
        let (m, e, k) =
          bind-ok
            (on_error (wrap "retrieve manifest")
              (retrieve_manifest store (manifest_options o by_hash a)))
            _ x (rw new at h) in
        subst (WellPlaced K) (ok-injective k) (
          appended K ms m
            (retrieve_manifest-IsFresh store (manifest_options o by_hash a) x (wrapped-eq-ok _ _ e))
            new w)
  ]

  manifests_for-WellPlaced :
      (architectures : List Bytes) (ms : List Manifest) (x : S) {ms' : List Manifest}
      → (manifests_for store o by_hash architectures ms x).0 ≡ ok ms'
      → WellPlaced K ms
      → WellPlaced K ms'
  unfolding manifests_for
  manifests_for-WellPlaced [] ms x h w = subst (WellPlaced K) (ok-injective h) w
  manifests_for-WellPlaced (a ∷ architectures) ms x h w =
      let (next, e, k) = bind-ok (manifest_for store o by_hash a ms) _ x h in
      manifests_for-WellPlaced architectures next _ k (manifest_for-WellPlaced a ms x e w)

  seeded-WellPlaced :
      (declared : List Bytes) (a : Bytes) (ms : List Manifest) (x : S) {ms' : List Manifest}
      → (seeded store o by_hash declared a ms x).0 ≡ ok ms'
      → WellPlaced K ms
      → WellPlaced K ms'
  unfolding seeded
  seeded-WellPlaced declared a (m ∷ ms) x h w = subst (WellPlaced K) (ok-injective h) w
  seeded-WellPlaced declared a [] x h w = elim (Bool-cases (equal a (codes "all"))) [
    | inl all ↦ manifests_for-WellPlaced (seed_architectures declared) [] x (rw all at h) w
    | inr one ↦ subst (WellPlaced K) (ok-injective (rw one at h)) w
  ]

  module _ (files : Files) (declared : List Bytes)
      (known : (name : Bytes) (p : Package) → files.inspect name ≡ ok p → K p) where
    examine-WellPlaced :
        (filename : Bytes) (w : Work) (x : S) {w' : Work}
        → (examine store o by_hash files declared filename w x).0 ≡ ok w'
        → WellPlaced K w.ordered
        → WellPlaced K w'.ordered
    unfolding examine
    examine-WellPlaced filename w x {w'} h k =
        let (p, e1, h1) =
          bind-ok (lift (wrap_error "examine package" (files.inspect filename))) _ x h in
        let (a, e2, h2) = bind-ok (lift (architecture_for o p)) _ _ h1 in
        let (ms, e3, h3) = bind-ok (seeded store o by_hash declared a w.ordered) _ _ h2 in
        let (ms', e4, h4) = bind-ok (manifest_for store o by_hash a ms) _ _ h3 in
        let (ordered, e5, h5) = bind-ok (lift (add_to a p o.preserve_versions ms')) _ _ h4 in
        subst (λ (v : Work). WellPlaced K v.ordered) (ok-injective h5)
          (Keeps-WellPlaced K
            (add_to-Keeps K p o.preserve_versions a ms'
              (known filename p (wrap_error-ok _ _ e1), architecture_for-placed o p e2) e5)
            (manifest_for-WellPlaced a ms _ e4 (seeded-WellPlaced declared a w.ordered _ e3 k)))

    examine_all-WellPlaced :
        (filenames : List Bytes) (w : Work) (x : S) {w' : Work}
        → (examine_all store o by_hash files declared filenames w x).0 ≡ ok w'
        → WellPlaced K w.ordered
        → WellPlaced K w'.ordered
    unfolding examine_all
    examine_all-WellPlaced [] w x h k =
        subst (λ (v : Work). WellPlaced K v.ordered) (ok-injective h) k
    examine_all-WellPlaced (f ∷ filenames) w x h k =
        let (next, e, h') = bind-ok (examine store o by_hash files declared f w) _ x h in
        examine_all-WellPlaced filenames next _ h' (examine-WellPlaced f w x e k)

module _ {S : Type 0} (store : Store S) (o : Options) (by_hash : Bool) where
  manifest_for-Quiet :
      (a : Bytes) (ms : List Manifest) → Quiet (manifest_for (traced store) o by_hash a ms)
  unfolding manifest_for
  manifest_for-Quiet a ms = elim (Bool-cases (has_manifest a ms)) [
    | inl found ↦ rw found (λ x. refl)
    | inr new ↦ rw new (
        bind-Quiet
          (on_error (wrap "retrieve manifest")
            (retrieve_manifest (traced store) (manifest_options o by_hash a)))
          _
          (retrieve_manifest-Quiet store (wrap "retrieve manifest") (manifest_options o by_hash a))
          (λ m x. refl))
  ]

  manifests_for-Quiet :
      (architectures : List Bytes) (ms : List Manifest)
      → Quiet (manifests_for (traced store) o by_hash architectures ms)
  unfolding manifests_for
  manifests_for-Quiet [] ms = λ x. refl
  manifests_for-Quiet (a ∷ architectures) ms =
      bind-Quiet (manifest_for (traced store) o by_hash a ms) _ (manifest_for-Quiet a ms)
        (λ next. manifests_for-Quiet architectures next)

  seeded-Quiet :
      (declared : List Bytes) (a : Bytes) (ms : List Manifest)
      → Quiet (seeded (traced store) o by_hash declared a ms)
  unfolding seeded
  seeded-Quiet declared a (m ∷ ms) = λ x. refl
  seeded-Quiet declared a [] = elim (Bool-cases (equal a (codes "all"))) [
    | inl all ↦ rw all (manifests_for-Quiet (seed_architectures declared) [])
    | inr one ↦ rw one (λ x. refl)
  ]

  module _ (files : Files) (declared : List Bytes) where
    examine-Quiet :
        (filename : Bytes) (w : Work)
        → Quiet (examine (traced store) o by_hash files declared filename w)
    unfolding examine
    examine-Quiet filename w =
        bind-Quiet (lift (wrap_error "examine package" (files.inspect filename))) _ (λ x. refl)
          (λ p.
            bind-Quiet (lift (architecture_for o p)) _ (λ x. refl)
              (λ a.
                bind-Quiet (seeded (traced store) o by_hash declared a w.ordered) _
                  (seeded-Quiet declared a w.ordered)
                  (λ ms.
                    bind-Quiet (manifest_for (traced store) o by_hash a ms) _
                      (manifest_for-Quiet a ms)
                      (λ ms'.
                        bind-Quiet (lift (add_to a p o.preserve_versions ms')) _ (λ x. refl)
                          (λ ordered x. refl)))))

    examine_all-Quiet :
        (filenames : List Bytes) (w : Work)
        → Quiet (examine_all (traced store) o by_hash files declared filenames w)
    unfolding examine_all
    examine_all-Quiet [] w = λ x. refl
    examine_all-Quiet (f ∷ filenames) w =
        bind-Quiet (examine (traced store) o by_hash files declared f w) _ (examine-Quiet f w)
          (λ next. examine_all-Quiet filenames next)

-- A package that was read from a file.
abbrev pub Inspected : Files → Package → Type 0
Inspected files p = (name : Bytes) × (files.inspect name ≡ ok p)

All-PlacesUploads :
    (K : Package → Type 0) (ms : List Manifest) (ps : List Prepared)
    → All (PlacesUploads K) ms
    → map (λ (p : Prepared). p.manifest.architecture) ps ≡ map (λ (m : Manifest). m.architecture) ms
    → map (λ (p : Prepared). p.manifest.pending_uploads) ps
      ≡ map (λ (m : Manifest). m.pending_uploads) ms
    → All (λ (p : Prepared). PlacesUploads K p.manifest) ps
All-PlacesUploads K ms [] h a u = tt
All-PlacesUploads K [] (p ∷ ps) h a u = cc
All-PlacesUploads K (m ∷ ms) (p ∷ ps) h a u = (
  rw (ap (head_or []) a, ap (head_or []) u) h.0,
  All-PlacesUploads K ms ps h.1 (ap (tail_or []) a) (ap (tail_or []) u),
)

module _ (tools : Tools) {S : Type 0} (store : Store S) (o : Options) where
  -- What an upload begins to write, with the release as it was read: the manifests it works on, which
  -- come first and have an architecture each, and then new ones with nothing to upload.
  pub record IsUpload (files : Files) (read_at : S × Log) (content : List Prepared × Release)
      : Type 0 where
    pub release : Release
    pub read : (retrieve_release (traced store) (release_options o) read_at).0 ≡ ok release
    pub ordered : List Manifest
    pub prepared : prepare_metadata tools release ordered ≡ ok content
    pub changed : List Prepared
    pub created : List Prepared
    pub in_order : content.0 ≡ changed ++ created
    pub distinct : Distinct (map (λ (p : Prepared). p.manifest.architecture) changed)
    pub placed : All (λ (p : Prepared). PlacesUploads (Inspected files) p.manifest) changed
    pub nothing_to_upload : All (λ (p : Prepared). HasNoUploads p.manifest) created

  prepared-IsUpload :
      (files : Files) (release : Release) (read_at : S × Log) (ordered : List Manifest)
      (content : List Prepared × Release)
      → (retrieve_release (traced store) (release_options o) read_at).0 ≡ ok release
      → prepare_metadata tools release ordered ≡ ok content
      → WellPlaced (Inspected files) ordered
      → IsUpload files read_at content
  prepared-IsUpload files release read_at ordered content read prepared w =
      let p = prepare_metadata-IsPrepared tools release ordered prepared in
      record {
        release = release;
        read = read;
        ordered = ordered;
        prepared = prepared;
        changed = p.changed;
        created = p.created;
        in_order = p.in_order;
        distinct = rw (p.given.architectures) w.distinct;
        placed =
            All-PlacesUploads (Inspected files) ordered p.changed w.placed p.given.architectures
              p.given.uploads;
        nothing_to_upload = p.nothing_to_upload;
      }

  written_outcome :
      (files : Files) (release : Release) (read_at : S × Log) (filenames : List Bytes)
      (existing : List Manifest)
      → (retrieve_release (traced store) (release_options o) read_at).0 ≡ ok release
      → WellPlaced (Inspected files) existing
      → (x : S × Log)
      → Outcome
          (upload_prepared tools (traced store))
          (IsUpload files read_at)
          (upload_existing tools (traced store) files o release filenames existing x)
          x
  unfolding upload_existing
  written_outcome files release read_at filenames existing read w x =
      let first : Work = record { ordered = existing; all_packages = [] } in
      bind_outcome (upload_prepared tools (traced store)) (IsUpload files read_at)
        (examine_all (traced store) o release.by_hash files release.architectures filenames first) _
        x (examine_all-Quiet store o release.by_hash files release.architectures filenames first)
        λ work e.
          bind_outcome (upload_prepared tools (traced store)) (IsUpload files read_at)
            (lift (propagate work.all_packages o.preserve_versions work.ordered)) _ _ (λ y. refl)
            λ ordered e'.
              bind_outcome (upload_prepared tools (traced store)) (IsUpload files read_at)
                (lift (wrap_error "build manifest" (prepare_metadata tools release ordered))) _ _
                (λ y. refl)
                λ content e''.
                  stage_outcome (upload_prepared tools (traced store)) (IsUpload files read_at)
                    content _
                    (prepared-IsUpload files release read_at ordered content read
                      (wrap_error-ok _ _ e'')
                      (Keeps-WellPlaced (Inspected files)
                        (propagate-Keeps (Inspected files) work.all_packages o.preserve_versions
                          work.ordered e')
                        (examine_all-WellPlaced (Inspected files) (traced store) o release.by_hash
                          files release.architectures (λ name p e. (name, e)) filenames first x e
                          w)))

  -- `Upload`, on any store: either it fails and has asked for no change of what is stored, or it ends
  -- with the writes of what was prepared on the release that it has read, before which it has asked
  -- for no change. What was prepared are the manifests that the upload works on, of which no two have
  -- one architecture, and then new ones, which have nothing to upload. Each package that is to be
  -- uploaded with one of the first was read from a file and names its manifest's architecture, or
  -- none, or all.
  pub upload_outcomes :
      (files : Files) (patterns : List Bytes) (x : S × Log)
      → Outcome
          (upload_prepared tools (traced store))
          (IsUpload files x)
          (upload tools (traced store) files patterns o x)
          x
  unfolding upload
  upload_outcomes files patterns x =
      bind_outcome (upload_prepared tools (traced store)) (IsUpload files x)
        (lift (expand_files files patterns)) _ x (λ y. refl)
        λ filenames e1.
          read_release_outcome store (upload_prepared tools (traced store)) (IsUpload files x)
            "retrieve repository Release" (release_options o) _ _
            λ release e2.
              bind_outcome (upload_prepared tools (traced store)) (IsUpload files x)
                (manifests_for (traced store) o release.by_hash release.architectures []) _ _
                (manifests_for-Quiet store o release.by_hash release.architectures [])
                λ existing e3.
                  written_outcome files release x filenames existing e2
                    (manifests_for-WellPlaced (Inspected files) (traced store) o release.by_hash
                      release.architectures [] _ e3 (record { distinct = tt; placed = tt }))
                    _
