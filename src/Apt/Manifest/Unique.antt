-- ===== src/Apt/Manifest/Unique.antt =====
-- internal/apt/manifest.go: packages of one name in a list, and `FailIfExists`.
use deb_s3_go.Base.{
  Bool, true, false, not, List, [], ◌∷◌, ◌++◌, Bytes, Result, ok, err, bind-eq-ok, select, any, All,
  ◌≡◌, refl, arith, ◌↔◌, Bool-cases, inl, inr,
}
use deb_s3_go.Base.Strings.{equal, equal_iff}
use deb_s3_go.Base.Paths.{base}
use deb_s3_go.Apt.Package.{Package, full_version, repository_filename}
use deb_s3_go.Apt.Manifest.{
  Manifest, same_version, check_conflicts, guard_conflicts, replaced, added, add,
}

-- No two packages of the list are replaced by one another.
abbrev Unreplaced : Bool → List Package → Type 0
Unreplaced preserve [] = Unit
Unreplaced preserve (p ∷ ps) =
    (any (λ q. replaced preserve p q) ps ≡ false) × Unreplaced preserve ps

any-select :
    (f g : Package → Bool) (ps : List Package) → any f ps ≡ false → any f (select g ps) ≡ false
any-select f g [] h = refl
any-select f g (p ∷ ps) h = ground (arith, any-select f g ps)

any-concat :
    (f : Package → Bool) (ps : List Package) (p : Package)
    → any f ps ≡ false
    → f p ≡ false
    → any f (ps ++ (p ∷ [])) ≡ false
any-concat f [] p h k = ground arith
any-concat f (q ∷ ps) p h k = ground (arith, any-concat f ps p)

replaced_symm :
    (preserve : Bool) (p q : Package)
    → replaced preserve p q ≡ false
    → replaced preserve q p ≡ false
replaced_symm true p q h = ground (
  arith,
  equal_iff p.name q.name,
  equal_iff q.name p.name,
  equal_iff (full_version p) (full_version q),
  equal_iff (full_version q) (full_version p),
)
replaced_symm false p q h = ground (arith, equal_iff p.name q.name, equal_iff q.name p.name)

Unreplaced-select :
    (preserve : Bool) (g : Package → Bool) (ps : List Package)
    → Unreplaced preserve ps
    → Unreplaced preserve (select g ps)
Unreplaced-select preserve g [] h = tt
Unreplaced-select preserve g (p ∷ ps) h = elim (Bool-cases (g p)) [
  | inl e ↦
      rw e (any-select (λ q. replaced preserve p q) g ps h.0, Unreplaced-select preserve g ps h.1)
  | inr e ↦ rw e (Unreplaced-select preserve g ps h.1)
]

-- What is kept is not replaced by the added package.
Unreplaced-concat :
    (preserve : Bool) (pack : Package) (ps : List Package)
    → Unreplaced preserve ps
    → Unreplaced preserve (select (λ e. not (replaced preserve pack e)) ps ++ (pack ∷ []))
Unreplaced-concat preserve pack [] h = (refl, tt)
Unreplaced-concat preserve pack (p ∷ ps) h = elim (Bool-cases (replaced preserve pack p)) [
  | inl e ↦ rw e (Unreplaced-concat preserve pack ps h.1)
  | inr e ↦ rw e (
    any-concat (λ q. replaced preserve p q) (select (λ e. not (replaced preserve pack e)) ps) pack
        (any-select (λ q. replaced preserve p q) (λ e. not (replaced preserve pack e)) ps h.0)
        (replaced_symm preserve pack p e),
    Unreplaced-concat preserve pack ps h.1,
  )
]

-- Two packages that may not be in one list: of one name, and of one version too where versions are
-- preserved.
abbrev pub Clash : Bool → Package → Package → Type 0
Clash true p q = (p.name ≡ q.name) × (full_version p ≡ full_version q)
Clash false p q = p.name ≡ q.name

abbrev pub Separate : Bool → List Package → Type 0
Separate preserve [] = Unit
Separate preserve (p ∷ ps) = All (λ q. ¬ Clash preserve p q) ps × Separate preserve ps

replaced_iff :
    (preserve : Bool) (p q : Package) → (replaced preserve p q ≡ true) ↔ Clash preserve p q
replaced_iff true p q = ground (
  arith,
  equal_iff p.name q.name,
  equal_iff q.name p.name,
  equal_iff (full_version p) (full_version q),
  equal_iff (full_version q) (full_version p),
)
replaced_iff false p q = ground (arith, equal_iff p.name q.name, equal_iff q.name p.name)

any_iff :
    (preserve : Bool) (p : Package) (ps : List Package)
    → (any (λ q. replaced preserve p q) ps ≡ false) ↔ All (λ q. ¬ Clash preserve p q) ps
any_iff preserve p [] = (λ _. tt, λ _. refl)
any_iff preserve p (q ∷ ps) = elim (Bool-cases (replaced preserve p q)) [
  | inl e ↦ (λ h. cc (rw e at h), λ h. absurd (h.0 ((replaced_iff preserve p q).0 e)))
  | inr e ↦
      let rest = any_iff preserve p ps in
      (
        λ h. (λ c. cc (e, (replaced_iff preserve p q).1 c), rest.0 (rw e at h)),
        λ h. rw e (rest.1 h.1),
      )
]

Unreplaced-Separate :
    (preserve : Bool) (ps : List Package) → Unreplaced preserve ps ↔ Separate preserve ps
Unreplaced-Separate preserve [] = (λ _. tt, λ _. tt)
Unreplaced-Separate preserve (p ∷ ps) =
    let first = any_iff preserve p ps in
    let rest = Unreplaced-Separate preserve ps in
    (λ h. (first.0 h.0, rest.0 h.1), λ h. (first.1 h.0, rest.1 h.1))

-- `Add` keeps a list in which no two packages have one name, and with `preserveVersions` a list in
-- which no two have one name and one version, also when it fails.
pub add-Separate :
    (pack : Package) (preserve upload : Bool) (m : Manifest)
    → Separate preserve m.packages
    → Separate preserve (add pack preserve upload m).1.packages
unfolding add
add-Separate pack preserve upload m h = go (guard_conflicts pack m)
  where
    go : (r : Result (Unit {0})) → Separate preserve (added pack preserve upload m r).1.packages
    go (err e) = h
    go (ok _) =
        (Unreplaced-Separate preserve _).0 (
          Unreplaced-concat preserve pack m.packages
            ((Unreplaced-Separate preserve m.packages).1 h))

-- The name and version are taken by an object of another base name.
abbrev Clashes : Bytes → Package → Bytes → Package → Type 0
Clashes codename pack new_filename e =
    same_version e pack ≡ true
    → (f : Bytes) × (repository_filename e codename ≡ ok f)
      × (equal (base f) (base new_filename) ≡ true)

check_conflicts-ok :
    (codename : Bytes) (pack : Package) (new_filename : Bytes) (ps : List Package)
    → check_conflicts codename pack new_filename ps ≡ ok tt
    → All (Clashes codename pack new_filename) ps
unfolding check_conflicts
check_conflicts-ok codename pack new_filename [] h = tt
check_conflicts-ok codename pack new_filename (e ∷ es) h = elim (Bool-cases (same_version e pack)) [
  | inr other ↦
      (λ same. cc (other, same), check_conflicts-ok codename pack new_filename es (rw other at h))
  | inl same ↦
      let (f, located, rest) = bind-eq-ok (repository_filename e codename) _ (rw same at h) in
      elim (Bool-cases (equal (base f) (base new_filename))) [
        | inl equal_base ↦ (
          λ _. (f, located, equal_base),
          check_conflicts-ok codename pack new_filename es (rw equal_base at rest),
        )
        | inr other_base ↦ cc (rw other_base at rest)
      ]
]
