-- ===== src/Apt/Manifest/Adding.antt =====
-- internal/apt/manifest.go: `Add`, seen by looking packages up.
use deb_s3_go.Base.{
  Bool, true, false, not, ◌&&◌, List, [], ◌∷◌, ◌++◌, Option, none, some, Bytes, Result, ok, err,
  if◌then◌else◌, select, ◌≡◌, refl, sym, append-nil, ◌∙◌, arith,
}
use deb_s3_go.Base.Strings.{equal, equal_iff}
use deb_s3_go.Apt.Package.{Package, full_version}
use deb_s3_go.Apt.Manifest.{Manifest, guard_conflicts, replaced, added, add, find_package}

abbrev or_found : Option Package → Option Package → Option Package
or_found none q = q
or_found (some p) q = some p

find_package-append :
    (n v : Bytes) (ps qs : List Package)
    → find_package n v (ps ++ qs) ≡ or_found (find_package n v ps) (find_package n v qs)
unfolding find_package
find_package-append n v [] qs = refl
find_package-append n v (p ∷ ps) qs = ground (arith, find_package-append n v ps qs)

-- Whether `Add` replaces the packages of a name and a version.
abbrev covers : Bool → Package → Bytes → Bytes → Bool
covers preserve pack n v =
    if preserve then equal n pack.name && equal v (full_version pack) else equal n pack.name

find_package-select :
    (preserve : Bool) (pack : Package) (n v : Bytes) (ps : List Package)
    → find_package n v (select (λ e. not (replaced preserve pack e)) ps)
      ≡ (if covers preserve pack n v then none else find_package n v ps)
unfolding find_package
find_package-select preserve pack n v [] = ground arith
find_package-select true pack n v (p ∷ ps) = ground (
  arith,
  find_package-select true pack n v ps,
  equal_iff p.name n,
  equal_iff (full_version p) v,
  equal_iff p.name pack.name,
  equal_iff (full_version p) (full_version pack),
  equal_iff n pack.name,
  equal_iff v (full_version pack),
)
find_package-select false pack n v (p ∷ ps) = ground (
  arith,
  find_package-select false pack n v ps,
  equal_iff p.name n,
  equal_iff p.name pack.name,
  equal_iff n pack.name,
)

-- What `Add` leaves, by what the guard of `FailIfExists` answers.
abbrev pub AddOutcome :
    Package
    → Bool
    → Bool
    → Manifest
    → Bytes
    → Bytes
    → Result (Unit {0})
    → Result (Unit {0}) × Manifest
    → Type 0
AddOutcome pack preserve upload m n v (err e) after = after ≡ (err e, m)
AddOutcome pack preserve upload m n v (ok _) after =
    (after.0 ≡ ok tt)
    × (find_package n v after.1.packages ≡ (
        if equal n pack.name && equal v (full_version pack)
        then some pack
        else if not preserve && equal n pack.name
        then none
        else find_package n v m.packages))
    × (after.1.pending_uploads ≡ m.pending_uploads ++ (if upload then pack ∷ [] else []))

-- `Add` fails exactly when the guard of `FailIfExists` does, with its error, and then leaves the whole
-- manifest as it is. Otherwise, looking up a name and a version finds the added package under its own,
-- nothing under the other versions of its name unless versions are preserved, and elsewhere what was
-- there; and the package is the last of the pending uploads when it is to be uploaded, and none of
-- them is lost.
pub find_package-add :
    (pack : Package) (preserve upload : Bool) (m : Manifest) (n v : Bytes)
    → AddOutcome pack preserve upload m n v (guard_conflicts pack m) (add pack preserve upload m)
unfolding add
find_package-add pack preserve upload m n v = go (guard_conflicts pack m)
  where
    pending_lem :
        (b : Bool)
        → (if b then m.pending_uploads ++ (pack ∷ []) else m.pending_uploads)
          ≡ m.pending_uploads ++ (if b then pack ∷ [] else [])
    pending_lem true = refl
    pending_lem false = sym (append-nil m.pending_uploads)

    go :
        (r : Result (Unit {0}))
        → AddOutcome pack preserve upload m n v r (added pack preserve upload m r)
    go (err e) = refl
    go (ok _) = (
      refl,
      find_package-append n v (select (λ e. not (replaced preserve pack e)) m.packages) (pack ∷ [])
          ∙ rw (find_package-select preserve pack n v m.packages) (
              unfold find_package in
              ground (
                arith,
                equal_iff pack.name n,
                equal_iff n pack.name,
                equal_iff (full_version pack) v,
                equal_iff v (full_version pack),
              )),
      pending_lem upload,
    )
