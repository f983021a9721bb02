-- ===== src/Upload.antt =====
-- internal/upload/upload.go: adding package files to a repository, on any store.
-- Globbing and reading a package file are parameters; the log only reports and is left out. The map
-- from architectures to manifests is the list `ordered`, which holds the same manifests; where the
-- code ranges over the map, in an order that Go leaves open, the model takes the order of the list.
pub mod Placed
pub mod Uploaded
pub mod Order
use deb_s3_go.Base.{
  Bool, true, false, not, ◌&&◌, ◌||◌, List, [], ◌∷◌, ◌++◌, Option, none, some, Bytes, message, wrap,
  wrap_error, Result, ok, err, if◌then◌else◌, map,
}
use deb_s3_go.Base.Strings.{codes, equal, member}
use deb_s3_go.Storage.Objects.{M, pure, raise, lift, ◌>>=◌, ◌>>◌, on_error, Store}
use deb_s3_go.Apt.Package.{Package}
use deb_s3_go.Apt.Manifest.{Manifest, ManifestOptions, add}
use deb_s3_go.Apt.Publishing.{
  Tools, retrieve_manifest, publish_packages, publish_by_hash, publish_canonical,
}
use deb_s3_go.Apt.Release.{Release, ReleaseOptions, SignatureArtifacts}
use deb_s3_go.Apt.Release.Publish.{Prepared, retrieve_release, prepare_metadata, publish_release}

-- `Options`; the clock is read as the formatted date.
pub record Options : Type 0 where
  pub codename : Bytes
  pub component : Bytes
  pub origin : Option Bytes
  pub suite : Option Bytes
  pub architecture : Bytes
  pub architecture_set : Bool
  pub preserve_versions : Bool
  pub fail_if_exists : Bool
  pub skip_package_upload : Bool
  pub cache_control : Bytes
  pub by_hash : Option Bool
  pub signer : Option (Bytes → Result SignatureArtifacts)
  pub date : Bytes

-- The files of the machine: `filepath.Glob`, and the `Inspector`.
pub record Files : Type 0 where
  pub glob : Bytes → Result (List Bytes)
  pub inspect : Bytes → Result Package

-- `DefaultArchitectures`
abbrev pub default_architectures : List Bytes
default_architectures = codes "amd64" ∷ codes "i386" ∷ codes "armhf" ∷ codes "arm64" ∷ []

-- `seedArchitectures`
abbrev pub seed_architectures : List Bytes → List Bytes
seed_architectures [] = default_architectures
seed_architectures (a ∷ declared) = a ∷ declared

abbrev pub release_options : Options → ReleaseOptions
release_options o = record {
  codename = o.codename;
  origin = o.origin;
  suite = o.suite;
  cache_control = o.cache_control;
  by_hash = o.by_hash;
  signer = o.signer;
  date = o.date;
}

abbrev pub manifest_options : Options → Bool → Bytes → ManifestOptions
manifest_options o by_hash architecture = record {
  codename = o.codename;
  component = o.component;
  architecture = architecture;
  cache_control = o.cache_control;
  by_hash = by_hash;
  fail_if_exists = o.fail_if_exists;
  skip_package_upload = o.skip_package_upload;
}

-- The matches of one pattern, before those of the others.
abbrev matches_with : Result (List Bytes) → Result (List Bytes) → Result (List Bytes)
matches_with (err e) rest = err (wrap "invalid file pattern" e)
matches_with (ok []) rest = err (message "file doesn't exist")
matches_with (ok (f ∷ fs)) (err e) = err e
matches_with (ok (f ∷ fs)) (ok rest) = ok ((f ∷ fs) ++ rest)

unfoldable pub expand_each : Files → List Bytes → Result (List Bytes)
expand_each files [] = ok []
expand_each files (p ∷ ps) = matches_with (files.glob p) (expand_each files ps)

-- `ExpandFiles`
unfoldable pub expand_files : Files → List Bytes → Result (List Bytes)
unfolding expand_each
expand_files files [] = err (message "you must specify at least one file to upload")
expand_files files (p ∷ ps) = expand_each files (p ∷ ps)

-- Whether `--arch` may move a package to the manifest of another architecture.
abbrev pub contradicts : Options → Package → Bool
contradicts o p =
    not (equal p.architecture [])
    && not (equal p.architecture (codes "all"))
    && not (equal p.architecture o.architecture)

abbrev known : Bytes → Result Bytes
known a = if equal a [] then err (message "no architecture given") else ok a

-- The architecture of the manifest that a package goes to.
unfoldable pub architecture_for : Options → Package → Result Bytes
architecture_for o p =
    if not o.architecture_set
    then known p.architecture
    else if contradicts o p
    then err (message "package cannot be uploaded with --arch")
    else known o.architecture

abbrev pub architectures_in : List Manifest → List Bytes
architectures_in ms = map (λ (m : Manifest). m.architecture) ms

abbrev pub has_manifest : Bytes → List Manifest → Bool
has_manifest a ms = member a (architectures_in ms)

-- `manifest.Add` on the manifest of an architecture, where the others stay.
abbrev with_first : Manifest → Result (List Manifest) → Result (List Manifest)
with_first m (ok ms) = ok (m ∷ ms)
with_first m (err e) = err e

abbrev added_first : Result (Unit {0}) × Manifest → List Manifest → Result (List Manifest)
added_first (ok _, m) ms = ok (m ∷ ms)
added_first (err e, m) ms = err (wrap "prepare manifest" e)

unfoldable pub add_to : Bytes → Package → Bool → List Manifest → Result (List Manifest)
unfolding add
add_to a p preserve [] = ok []
add_to a p preserve (m ∷ ms) =
    let rest = add_to a p preserve ms in
    if equal m.architecture a then added_first (add p preserve true m) ms else with_first m rest

-- The packages for all architectures go to every other manifest, and are uploaded only once.
abbrev next_propagated :
    Result (Unit {0}) × Manifest → (Manifest → Result Manifest) → Result Manifest
next_propagated (ok _, m) f = f m
next_propagated (err e, m) f = err (wrap "propagate architecture-all package" e)

unfoldable pub propagate_to : List Package → Bool → Manifest → Result Manifest
unfolding add
propagate_to [] preserve m = ok m
propagate_to (p ∷ ps) preserve m =
    next_propagated (add p preserve false m) (propagate_to ps preserve)

abbrev propagated_with : Result Manifest → Result (List Manifest) → Result (List Manifest)
propagated_with (err e) rest = err e
propagated_with (ok m) (err e) = err e
propagated_with (ok m) (ok ms) = ok (m ∷ ms)

unfoldable pub propagate : List Package → Bool → List Manifest → Result (List Manifest)
unfolding propagate_to
propagate ps preserve [] = ok []
propagate ps preserve (m ∷ ms) =
    propagated_with
      (if equal m.architecture (codes "all") then ok m else propagate_to ps preserve m)
      (propagate ps preserve ms)

-- The manifests in use, and `allPackages`.
pub record Work : Type 0 where
  pub ordered : List Manifest
  pub all_packages : List Package

abbrev noted : Bytes → Package → List Package → List Package
noted a p ps = if equal a (codes "all") then ps ++ (p ∷ []) else ps

module _ {S : Type 0} (store : Store S) (o : Options) (by_hash : Bool) where
  -- `manifestFor`: the manifests, with the one of this architecture among them.
  unfoldable pub manifest_for : Bytes → List Manifest → M S (List Manifest)
  unfolding retrieve_manifest
  manifest_for a ms =
      if has_manifest a ms
      then pure ms
      else on_error (wrap "retrieve manifest")
          (retrieve_manifest store (manifest_options o by_hash a))
        >>= (λ m. pure (ms ++ (m ∷ [])))

  unfoldable pub manifests_for : List Bytes → List Manifest → M S (List Manifest)
  unfolding manifest_for
  manifests_for [] ms = pure ms
  manifests_for (a ∷ architectures) ms = do ms' ← manifest_for a ms; manifests_for architectures ms'

  -- A first package for all architectures brings the manifests of the seeds in.
  unfoldable pub seeded : List Bytes → Bytes → List Manifest → M S (List Manifest)
  unfolding manifests_for
  seeded declared a [] =
      if equal a (codes "all") then manifests_for (seed_architectures declared) [] else pure []
  seeded declared a (m ∷ ms) = pure (m ∷ ms)

  module _ (files : Files) (declared : List Bytes) where
    -- One package file.
    unfoldable pub examine : Bytes → Work → M S Work
    unfolding seeded manifest_for add_to architecture_for
    examine filename w = do
      p ← lift (wrap_error "examine package" (files.inspect filename))
      a ← lift (architecture_for o p)
      ms ← seeded declared a w.ordered
      ms' ← manifest_for a ms
      ordered ← lift (add_to a p o.preserve_versions ms')
      pure (record { ordered = ordered; all_packages = noted a p w.all_packages })

    unfoldable pub examine_all : List Bytes → Work → M S Work
    unfolding examine
    examine_all [] w = pure w
    examine_all (f ∷ fs) w = do w' ← examine f w; examine_all fs w'

module _ (tools : Tools) {S : Type 0} (store : Store S) where
  -- The three loops over what was prepared.
  unfoldable pub upload_packages : List Prepared → M S (Unit {0})
  unfolding publish_packages
  upload_packages [] = pure tt
  upload_packages (p ∷ ps) = do
    on_error (wrap "upload packages") (publish_packages tools store p.manifest)
    upload_packages ps

  unfoldable pub upload_by_hash : List Prepared → M S (Unit {0})
  unfolding publish_by_hash
  upload_by_hash [] = pure tt
  upload_by_hash (p ∷ ps) = do
    on_error (wrap "upload by-hash index") (publish_by_hash tools store p.manifest p.artifacts)
    upload_by_hash ps

  unfoldable pub upload_canonical : List Prepared → M S (Unit {0})
  unfolding publish_canonical
  upload_canonical [] = pure tt
  upload_canonical (p ∷ ps) = do
    on_error (wrap "upload canonical index") (publish_canonical tools store p.manifest p.artifacts)
    upload_canonical ps

  -- The end of `Upload`, from "Uploading packages and new manifests to S3" on.
  unfoldable pub upload_prepared : List Prepared × Release → M S (Unit {0})
  unfolding upload_packages upload_by_hash upload_canonical publish_release
  upload_prepared (prepared, release) = do
    upload_packages prepared
    upload_by_hash prepared
    upload_canonical prepared
    published ← on_error (wrap "publish Release") (publish_release tools store release)
    pure tt

  -- `Upload`, from the loop over the files on.
  unfoldable pub upload_existing :
      Files → Options → Release → List Bytes → List Manifest → M S (Unit {0})
  unfolding examine_all propagate prepare_metadata upload_prepared
  upload_existing files o release filenames existing = do
    work ←
        examine_all store o release.by_hash files release.architectures filenames
          (record { ordered = existing; all_packages = [] })
    ordered ← lift (propagate work.all_packages o.preserve_versions work.ordered)
    prepared ← lift (wrap_error "build manifest" (prepare_metadata tools release ordered))
    upload_prepared prepared

  -- `Runner.Upload`
  unfoldable pub upload : Files → List Bytes → Options → M S (Unit {0})
  unfolding expand_files retrieve_release manifests_for upload_existing
  upload files patterns o = do
    filenames ← lift (expand_files files patterns)
    release ←
        on_error (wrap "retrieve repository Release") (retrieve_release store (release_options o))
    existing ← manifests_for store o release.by_hash release.architectures []
    upload_existing files o release filenames existing
