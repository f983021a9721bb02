-- ===== src/Apt/Release/Publish/Complete.antt =====
-- internal/apt/release.go and metadata_publish.go: the indexes that a prepared release lists.
use deb_s3_go.Base.{
  true, List, [], ◌∷◌, ◌++◌, some, Bytes, Result, ok, err, ◌≡◌, refl, sym, ap, ◌∙◌, Bool-cases,
  Option-cases, inl, inr, All, All-append, All-append_left, All-append_right, arith,
}
use deb_s3_go.Base.Strings.{codes, equal, equal_refl, member, join}
use deb_s3_go.Base.Assoc.{Assoc, lookup, insert, lookup-insert}
use deb_s3_go.Base.Paths.{path_join}
use deb_s3_go.Base.Paths.Laws.{Lacks}
use deb_s3_go.Base.Paths.Elements.{IsPlain}
use deb_s3_go.Base.Paths.Plain.{clean-join}
use deb_s3_go.Apt.Manifest.{Manifest, FileHashes, release_packages_path}
use deb_s3_go.Apt.Publishing.{Tools, ManifestArtifacts, build_artifacts, record_artifacts}
use deb_s3_go.Apt.Release.{
  Release, append_unique, insert_all, update_manifest, missing_for, missing_in, missing_manifests,
}
use deb_s3_go.Apt.Release.Publish.{
  Prepared, prepare_all, prepared_with, prepared_of, failed_or, prepare_missing, with_created,
  with_missing, prepare_metadata,
}

-- A file that a release lists.
abbrev Listed : Bytes → Release → Type 0
Listed path r = (h : FileHashes) × (lookup path r.files ≡ some h)

insert-Listed :
    (path k : Bytes) (v : FileHashes) (files : Assoc FileHashes) {h : FileHashes}
    → lookup path files ≡ some h
    → (h' : FileHashes) × (lookup path (insert k v files) ≡ some h')
insert-Listed path k v files {h} e =
    rw (lookup-insert k path v files) (elim (Bool-cases (equal k path)) [
      | inl same ↦ (v, rw same refl)
      | inr other ↦ (h, rw other e)
    ])

insert_all-Listed :
    (path : Bytes) (more files : Assoc FileHashes) {h : FileHashes}
    → lookup path files ≡ some h
    → (h' : FileHashes) × (lookup path (insert_all more files) ≡ some h')
unfolding insert_all
insert_all-Listed path [] files {h} e = (h, e)
insert_all-Listed path ((k, v) ∷ more) files {h} e =
    let (h', e') = insert-Listed path k v files e in
    insert_all-Listed path more (insert k v files) e'

insert_all-reads :
    (path : Bytes) (more files : Assoc FileHashes) {h : FileHashes}
    → lookup path more ≡ some h
    → (h' : FileHashes) × (lookup path (insert_all more files) ≡ some h')
unfolding insert_all lookup
insert_all-reads path [] files e = cc
insert_all-reads path ((k, v) ∷ more) files e = elim (Bool-cases (equal k path)) [
  | inl same ↦
      insert_all-Listed path more (insert k v files) {h = v}
        (lookup-insert k path v files ∙ rw same refl)
  | inr other ↦ insert_all-reads path more (insert k v files) (rw other at e)
]

record_artifacts-lists :
    (a : ManifestArtifacts) (m : Manifest)
    → (h : FileHashes) × (lookup (release_packages_path m) (record_artifacts a m).files ≡ some h)
unfolding record_artifacts
record_artifacts-lists a m =
    insert-Listed (release_packages_path m) (release_packages_path m ++ codes ".gz")
      a.packages_gzip.hashes (insert (release_packages_path m) a.packages.hashes m.files)
      {h = a.packages.hashes}
      (lookup-insert (release_packages_path m) (release_packages_path m) a.packages.hashes m.files
        ∙ rw (equal_refl (release_packages_path m)) refl)

abbrev KnownTo : Release → Manifest → Type 0
KnownTo r m =
    (member m.component r.components ≡ true) × (member m.architecture r.architectures ≡ true)

-- What a release that has taken in some manifests still has of the one before.
record Extends (r r' : Release) : Type 0 where
  components : r'.components ≡ r.components
  architectures : r'.architectures ≡ r.architectures
  keeps : (path : Bytes) → Listed path r → Listed path r'

update_manifest-Extends :
    (m : Manifest) (r : Release) → KnownTo r m → Extends r (update_manifest m r)
unfolding update_manifest append_unique
update_manifest-Extends m r k = record {
  components = rw k.0 refl;
  architectures = rw k.1 refl;
  keeps = λ path l. insert_all-Listed path m.files r.files l.1;
}

KnownTo-Extends :
    (r r' : Release) (ms : List Manifest) → Extends r r' → All (KnownTo r) ms → All (KnownTo r') ms
KnownTo-Extends r r' [] x k = tt
KnownTo-Extends r r' (m ∷ ms) x k =
    (rw (x.components, x.architectures) k.0, KnownTo-Extends r r' ms x k.1)

record Prepares (r : Release) (ms : List Manifest) (r' : Release) : Type 0 where
  extends : Extends r r'
  lists : All (λ m. Listed (release_packages_path m) r') ms

update_manifest-lists :
    (a : ManifestArtifacts) (m : Manifest) (r : Release)
    → Listed (release_packages_path m) (update_manifest (record_artifacts a m) r)
unfolding update_manifest
update_manifest-lists a m r =
    insert_all-reads (release_packages_path m) (record_artifacts a m).files r.files
      (record_artifacts-lists a m).1

abbrev first_ok : Release → Result (Release × List Prepared) → Release
first_ok r (ok (r', ps)) = r'
first_ok r (err e) = r

module _ (tools : Tools) where
  prepared_with-eq-ok :
      (p : Prepared) (x : Result (Release × List Prepared)) {r' : Release} {ps : List Prepared}
      → prepared_with tools p x ≡ ok (r', ps)
      → (qs : List Prepared) × (x ≡ ok (r', qs))
  prepared_with-eq-ok p (err e) h = cc
  prepared_with-eq-ok p (ok (r, qs)) {r'} h = (qs, ap (λ y. ok (y, qs)) (ap (first_ok r) h))

  failed_or-eq-ok :
      (x : Result ManifestArtifacts) (f : ManifestArtifacts → Result (Release × List Prepared))
      {y : Release × List Prepared}
      → failed_or tools x f ≡ ok y
      → (a : ManifestArtifacts) × (f a ≡ ok y)
  failed_or-eq-ok (err e) f h = cc
  failed_or-eq-ok (ok a) f h = (a, h)

  prepare_all-Prepares :
      (r : Release) (ms : List Manifest) {r' : Release} {ps : List Prepared}
      → All (KnownTo r) ms
      → prepare_all tools r ms ≡ ok (r', ps)
      → Prepares r ms r'
  unfolding prepare_all
  prepare_all-Prepares r [] {r'} k h = rw⁻¹ (ap (first_ok r) h) (record {
    extends = record { components = refl; architectures = refl; keeps = λ path l. l };
    lists = tt;
  })
  prepare_all-Prepares r (m ∷ ms) {r'} k h =
      let (a, h') = failed_or-eq-ok (build_artifacts tools m) _ h in
      let (qs, h'') = prepared_with-eq-ok (prepared_of tools m a) _ h' in
      let first =
        update_manifest-Extends (record_artifacts a m) r (unfold record_artifacts in k.0) in
      let later =
        prepare_all-Prepares (update_manifest (record_artifacts a m) r) ms
          (KnownTo-Extends r _ ms first k.1) h'' in
      let x = later.extends in
      record {
        extends = record {
          components = x.components ∙ first.components;
          architectures = x.architectures ∙ first.architectures;
          keeps = λ path l. x.keeps path (first.keeps path l);
        };
        lists = (x.keeps (release_packages_path m) (update_manifest-lists a m r), later.lists);
      }

-- For plain names the two ways to write the path of an index agree.
binary-IsPlain : (a : Bytes) → Lacks b'/' a → IsPlain (codes "binary-" ++ a)
unfolding equal
binary-IsPlain a h = record {
  ne_nil = refl;
  ne_dot = refl;
  ne_dot_dot = refl;
  no_slash = (refl, (refl, (refl, (refl, (refl, (refl, (refl, h)))))));
}

packages-IsPlain : IsPlain (codes "Packages")
unfolding equal
packages-IsPlain = record {
  ne_nil = refl;
  ne_dot = refl;
  ne_dot_dot = refl;
  no_slash = (refl, (refl, (refl, (refl, (refl, (refl, (refl, (refl, tt))))))));
}

path_join-index :
    (c a : Bytes)
    → IsPlain c
    → Lacks b'/' a
    → path_join (c ∷ (codes "binary-" ++ a) ∷ codes "Packages" ∷ [])
      ≡ c ++ (codes "/binary-" ++ (a ++ codes "/Packages"))
unfolding path_join equal join
path_join-index [] a h l = cc (h.ne_nil)
path_join-index (x ∷ c) a h l =
    clean-join (x ∷ c) ((codes "binary-" ++ a) ∷ codes "Packages" ∷ [])
      (h, (binary-IsPlain a l, (packages-IsPlain, tt)))

module _ (r r' : Release) (extends : Extends r r') where
  missing_for-Listed :
      (c : Bytes) (rest : List Bytes)
      → IsPlain c
      → All (Lacks b'/') rest
      → All (λ m. Listed (release_packages_path m) r') (missing_for r c rest)
      → missing_for r' c rest ≡ []
  unfolding missing_for release_packages_path
  missing_for-Listed c [] h l k = refl
  missing_for-Listed c (a ∷ rest) h l k =
      elim (Option-cases (lookup (c ++ (codes "/binary-" ++ (a ++ codes "/Packages"))) r.files)) [
        | inr (v, there) ↦
            rw (missing_for, (extends.keeps _ (v, there)).1)
              (missing_for-Listed c rest h l.1 (rw (missing_for, there) at k))
        | inl absent ↦
            let k' = rw (missing_for, absent) at k in
            let (v, now) = k'.0 in
            rw (missing_for, ap (λ p. lookup p r'.files) (sym (path_join-index c a h l.0)) ∙ now)
              (missing_for-Listed c rest h l.1 k'.1)
      ]

  missing_in-Listed :
      (cs : List Bytes)
      → All IsPlain cs
      → All (Lacks b'/') r.architectures
      → All (λ m. Listed (release_packages_path m) r') (missing_in r cs)
      → missing_in r' cs ≡ []
  unfolding missing_in
  missing_in-Listed [] h l k = refl
  missing_in-Listed (c ∷ cs) h l k =
      let first =
        All-append_left (λ m. Listed (release_packages_path m) r') (missing_for r c r.architectures)
          (missing_in r cs) k in
      let later =
        All-append_right (λ m. Listed (release_packages_path m) r')
          (missing_for r c r.architectures) (missing_in r cs) k in
      rw (extends.architectures, missing_for-Listed c r.architectures h.0 l first)
        (missing_in-Listed cs h.1 l later)

-- What is missing is an index of the release's own components and architectures.
members-cons :
    (y : Bytes) (xs zs : List Bytes)
    → All (λ x. member x zs ≡ true) xs
    → All (λ x. member x (y ∷ zs) ≡ true) xs
members-cons y [] zs h = tt
members-cons y (x ∷ xs) zs h = (unfold member in ground (arith, h.0), members-cons y xs zs h.1)

members_self : (xs : List Bytes) → All (λ x. member x xs ≡ true) xs
members_self [] = tt
members_self (x ∷ xs) =
    (unfold member in rw (equal_refl x) refl, members-cons x xs xs (members_self xs))

module _ (r : Release) where
  missing_for-KnownTo :
      (c : Bytes) (rest : List Bytes)
      → member c r.components ≡ true
      → All (λ a. member a r.architectures ≡ true) rest
      → All (KnownTo r) (missing_for r c rest)
  unfolding missing_for
  missing_for-KnownTo c [] h l = tt
  missing_for-KnownTo c (a ∷ rest) h l =
      elim (Option-cases (lookup (c ++ (codes "/binary-" ++ (a ++ codes "/Packages"))) r.files)) [
        | inr (v, there) ↦ rw (missing_for, there) (missing_for-KnownTo c rest h l.1)
        | inl absent ↦ rw (missing_for, absent) ((h, l.0), missing_for-KnownTo c rest h l.1)
      ]

  missing_in-KnownTo :
      (cs : List Bytes)
      → All (λ c. member c r.components ≡ true) cs
      → All (λ a. member a r.architectures ≡ true) r.architectures
      → All (KnownTo r) (missing_in r cs)
  unfolding missing_in
  missing_in-KnownTo [] h l = tt
  missing_in-KnownTo (c ∷ cs) h l =
      All-append (KnownTo r) (missing_for r c r.architectures) (missing_in r cs)
        (missing_for-KnownTo c r.architectures h.0 l) (missing_in-KnownTo cs h.1 l)

abbrev last_ok : Release → Result (List Prepared × Release) → Release
last_ok r (ok (ps, r')) = r'
last_ok r (err e) = r

module _ (tools : Tools) where
  with_created-Listed :
      (changed : List Prepared) (r : Release) (x : Result (Release × List Prepared))
      {ps : List Prepared} {r' : Release}
      → prepare_all tools r (missing_manifests r) ≡ x
      → with_created tools changed x ≡ ok (ps, r')
      → All IsPlain r'.components
      → All (Lacks b'/') r'.architectures
      → missing_manifests r' ≡ []
  unfolding missing_manifests
  with_created-Listed changed r (err e) q h c l = cc
  with_created-Listed changed r (ok (r₁, created)) {ps} {r'} q h c l =
      let same : r₁ ≡ r' = ap (last_ok r) h in
      let known =
        missing_in-KnownTo r r.components (members_self r.components)
          (members_self r.architectures) in
      let p = prepare_all-Prepares tools r (missing_in r r.components) known (rw same at q) in
      let x = p.extends in
      rw x.components (
        missing_in-Listed r r' x r.components (rw x.components at c) (rw x.architectures at l)
          p.lists)

  with_missing-Listed :
      (r : Release) (x : Result (Release × List Prepared)) {ps : List Prepared} {r' : Release}
      → with_missing tools x ≡ ok (ps, r')
      → All IsPlain r'.components
      → All (Lacks b'/') r'.architectures
      → missing_manifests r' ≡ []
  unfolding prepare_missing
  with_missing-Listed r (err e) h c l = cc
  with_missing-Listed r (ok (r₁, changed)) h c l =
      with_created-Listed changed r₁ (prepare_all tools r₁ (missing_manifests r₁)) refl h c l

  -- After a successful preparation no index of the release is missing, when its components are
  -- plain names (not empty, no dots, no slash) and its architectures have no slash: the preparation
  -- fills every gap that the changed manifests open.
  pub prepare_metadata_complete :
      (r : Release) (manifests : List Manifest) {ps : List Prepared} {r' : Release}
      → prepare_metadata tools r manifests ≡ ok (ps, r')
      → All IsPlain r'.components
      → All (Lacks b'/') r'.architectures
      → missing_manifests r' ≡ []
  unfolding prepare_metadata
  prepare_metadata_complete r manifests h c l =
      with_missing-Listed r (prepare_all tools r manifests) h c l
