-- ===== src/Apt/Manifest/Others.antt =====
-- internal/apt/manifest.go: `Add` leaves the packages of other names alone.
use deb_s3_go.Base.{
  Bool, true, false, not, List, [], ◌∷◌, ◌++◌, Bytes, Result, ok, err, select, ◌≡◌, refl, arith,
  Bool-cases, inl, inr, All, All-append,
}
use deb_s3_go.Base.Strings.{equal, equal_iff}
use deb_s3_go.Apt.Package.{Package}
use deb_s3_go.Apt.Manifest.{Manifest, guard_conflicts, replaced, added, add}

-- The packages of other names.
abbrev pub others : Bytes → List Package → List Package
others n ps = select (λ p. not (equal p.name n)) ps

replaced-name :
    (preserve : Bool) (pack e : Package) (n : Bytes)
    → equal pack.name n ≡ true
    → equal e.name n ≡ false
    → replaced preserve pack e ≡ false
replaced-name true pack e n h k =
    ground (arith, equal_iff e.name pack.name, equal_iff pack.name n, equal_iff e.name n)
replaced-name false pack e n h k =
    ground (arith, equal_iff e.name pack.name, equal_iff pack.name n, equal_iff e.name n)

others-added :
    (preserve : Bool) (pack : Package) (n : Bytes) (ps : List Package)
    → equal pack.name n ≡ true
    → others n (select (λ e. not (replaced preserve pack e)) ps ++ (pack ∷ [])) ≡ others n ps
others-added preserve pack n [] h = rw h refl
others-added preserve pack n (e ∷ ps) h = elim (Bool-cases (equal e.name n)) [
  | inr other ↦
      rw (replaced-name preserve pack e n h other, other, others-added preserve pack n ps h) refl
  | inl same ↦ elim (Bool-cases (replaced preserve pack e)) [
    | inl gone ↦ rw (gone, same) (others-added preserve pack n ps h)
    | inr kept ↦ rw (kept, same) (others-added preserve pack n ps h)
  ]
]

pub others-add :
    (preserve : Bool) (pack : Package) (n : Bytes) (m : Manifest)
    → equal pack.name n ≡ true
    → others n (add pack preserve false m).1.packages ≡ others n m.packages
unfolding add
others-add preserve pack n m h = go (guard_conflicts pack m)
  where
    go :
        (r : Result (Unit {0}))
        → others n (added pack preserve false m r).1.packages ≡ others n m.packages
    go (err e) = refl
    go (ok _) = others-added preserve pack n m.packages h

pub add-architecture :
    (preserve upload : Bool) (pack : Package) (m : Manifest)
    → (add pack preserve upload m).1.architecture ≡ m.architecture
unfolding add
add-architecture preserve upload pack m = go (guard_conflicts pack m)
  where
    go : (r : Result (Unit {0})) → (added pack preserve upload m r).1.architecture ≡ m.architecture
    go (err e) = refl
    go (ok _) = refl

-- What holds of the pending uploads, and of the package if it is to be uploaded, goes on to hold.
pub add-All-pending :
    (P : Package → Type 0) (preserve upload : Bool) (pack : Package) (m : Manifest)
    → (upload ≡ true → P pack)
    → All P m.pending_uploads
    → All P (add pack preserve upload m).1.pending_uploads
unfolding add
add-All-pending P preserve upload pack m h k = go upload h (guard_conflicts pack m)
  where
    go :
        (upload : Bool)
        → (upload ≡ true → P pack)
        → (r : Result (Unit {0})) → All P (added pack preserve upload m r).1.pending_uploads
    go upload h (err e) = k
    go true h (ok _) = All-append P m.pending_uploads (pack ∷ []) k (h refl, tt)
    go false h (ok _) = k
