-- ===== src/Apt/Manifest/Deleting.antt =====
-- internal/apt/manifest.go: `DeletePackage` and the package list.
use mathlib.Core.List.{Perm, perm_middle}
use mathlib.Core.List.Perm
use deb_s3_go.Base.{
  Bool, true, false, not, List, [], ◌∷◌, ◌++◌, Option, Bytes, select, All, ◌≡◌, none, some, ◌↔◌,
  ◌⊎◌, arith, Bytes, Bool-cases, inl, inr,
}
use deb_s3_go.Base.Strings.{member, equal_iff}
use deb_s3_go.Apt.Package.{Package, full_version}
use deb_s3_go.Apt.Manifest.{Manifest, removed, delete_package}

select-All : (f : Package → Bool) (ps : List Package) → All (λ p. f p ≡ true) (select f ps)
select-All f [] = tt
select-All f (p ∷ ps) = elim (Bool-cases (f p)) [
  | inl e ↦ rw e (e, select-All f ps)
  | inr e ↦ rw e (select-All f ps)
]

select_perm :
    (f : Package → Bool) (ps : List Package) → Perm (select f ps ++ select (λ p. not (f p)) ps) ps
select_perm f [] = Perm.refl []
select_perm f (p ∷ ps) = elim (Bool-cases (f p)) [
  | inl e ↦ rw e (Perm.cons p (select_perm f ps))
  | inr e ↦ rw e (
      Perm.trans (perm_middle (select f ps) (select (λ p. not (f p)) ps))
        (Perm.cons p (select_perm f ps)))
]

select-All-not :
    (f : Package → Bool) (ps : List Package) → All (λ p. f p ≡ false) (select (λ p. not (f p)) ps)
select-All-not f [] = tt
select-All-not f (p ∷ ps) = elim (Bool-cases (f p)) [
  | inl e ↦ rw e (select-All-not f ps)
  | inr e ↦ rw e (e, select-All-not f ps)
]

-- A package to be deleted: of the name, and of one of the versions, if any are given, as it is written
-- with the version alone, with the iteration behind it, or in full.
abbrev Among : Bytes → List Bytes → Type 0
Among v [] = ⊥
Among v (w ∷ ws) = (w ≡ v) ⊎ Among v ws

abbrev OfVersion : Option (List Bytes) → Package → Type 0
OfVersion none p = Unit
OfVersion (some versions) p =
    Among p.version versions
    ⊎ (Among (p.version ++ (b'-' ∷ p.iteration)) versions ⊎ Among (full_version p) versions)

abbrev pub IsMeant : Bytes → Option (List Bytes) → Package → Type 0
IsMeant name versions p = (p.name ≡ name) × OfVersion versions p

member-Among : (v : Bytes) (ws : List Bytes) → (member v ws ≡ true) ↔ Among v ws
unfolding member
member-Among v [] = (λ h. cc, λ h. absurd h)
member-Among v (w ∷ ws) = ground (arith, member-Among v ws, equal_iff w v, equal_iff v w)

removed_iff :
    (name : Bytes) (versions : Option (List Bytes)) (p : Package)
    → (removed name versions p ≡ true) ↔ IsMeant name versions p
removed_iff name none p = ground (arith, equal_iff p.name name)
removed_iff name (some versions) p = ground (
  arith,
  equal_iff p.name name,
  member-Among p.version versions,
  member-Among (p.version ++ (b'-' ∷ p.iteration)) versions,
  member-Among (full_version p) versions,
)

All-IsMeant :
    (name : Bytes) (versions : Option (List Bytes)) (ps : List Package)
    → All (λ p. removed name versions p ≡ true) ps
    → All (IsMeant name versions) ps
All-IsMeant name versions [] h = tt
All-IsMeant name versions (p ∷ ps) h =
    ((removed_iff name versions p).0 h.0, All-IsMeant name versions ps h.1)

All-not-IsMeant :
    (name : Bytes) (versions : Option (List Bytes)) (ps : List Package)
    → All (λ p. removed name versions p ≡ false) ps
    → All (λ p. ¬ IsMeant name versions p) ps
All-not-IsMeant name versions [] h = tt
All-not-IsMeant name versions (p ∷ ps) h =
    (λ k. cc (h.0, (removed_iff name versions p).1 k), All-not-IsMeant name versions ps h.1)

-- `DeletePackage` splits the list: what it returns and what it leaves are together the packages
-- from before, each as often as before. It returns only packages of the name and of a version that was
-- given, as the version alone, with the iteration or in full, or of any where none was given; and it
-- leaves no such package.
pub delete_package_split :
    (name : Bytes) (versions : Option (List Bytes)) (m : Manifest)
    → Perm
        ((delete_package name versions m).0 ++ (delete_package name versions m).1.packages)
        m.packages
      × All (IsMeant name versions) (delete_package name versions m).0
      × All (λ p. ¬ IsMeant name versions p) (delete_package name versions m).1.packages
unfolding delete_package
delete_package_split name versions m = (
  select_perm (removed name versions) m.packages,
  All-IsMeant name versions _ (select-All (removed name versions) m.packages),
  All-not-IsMeant name versions _ (select-All-not (removed name versions) m.packages),
)
