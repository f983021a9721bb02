-- ===== src/Query/Found.antt =====
-- internal/query/query.go: `Exists` and `Show`.
use deb_s3_go.Base.{
  Error, Bool, true, false, List, [], ◌∷◌, Option, none, some, Bytes, Result, ok, err, ok-injective,
  map, All, ◌≡◌, refl, ap, Result-cases, inl, inr,
}
use deb_s3_go.Storage.Objects.{Store}
use deb_s3_go.Apt.Package.{Package}
use deb_s3_go.Apt.Manifest.{find_package}
use deb_s3_go.Query.{Match, is_found, shown_or, matches_of, manifest_at, show, exists}

abbrev pub succeeded : {A : Type 0} → Result A → Bool
succeeded (ok a) = true
succeeded (err e) = false

shown_or-succeeds : (p : Option Package) → is_found p ≡ succeeded (shown_or p)
shown_or-succeeds none = refl
shown_or-succeeds (some p) = refl

abbrev Agrees : Bytes → List Package → Match → Type 0
Agrees version packages m = m.found ≡ succeeded (shown_or (find_package m.name version packages))

matches_of-Agrees :
    (version : Bytes) (packages : List Package) (names : List Bytes)
    → All (Agrees version packages) (matches_of version packages names)
      × (map (λ (m : Match). m.name) (matches_of version packages names) ≡ names)
unfolding matches_of
matches_of-Agrees version packages [] = (tt, refl)
matches_of-Agrees version packages (name ∷ names) =
    let rest = matches_of-Agrees version packages names in
    ((shown_or-succeeds (find_package name version packages), rest.0), ap (λ t. name ∷ t) rest.1)

module _ {S : Type 0} (store : Store S) (codename component architecture version : Bytes) where
  -- `Exists` answers for the names it was given, in their order, and finds a name exactly when
  -- `Show` of that name and version succeeds on the same store.
  pub exists-show :
      (names : List Bytes) (s : S) {matches : List Match}
      → (exists store codename component architecture version names s).0 ≡ ok matches
      → All
          (λ m. m.found ≡ succeeded (show store codename component architecture m.name version s).0)
          matches
        × (map (λ (m : Match). m.name) matches ≡ names)
  unfolding exists show
  exists-show names s h =
      elim (Result-cases (manifest_at store codename component architecture s).0) [
        | inr (e, failed) ↦ cc (rw failed at h)
        | inl (m, read) ↦
            let agrees = matches_of-Agrees version m.packages names in
            rw (← ok-injective (rw read at h), read) agrees
      ]

  -- Without a manifest there is nothing to show.
  pub exists-err :
      (name : Bytes) (names : List Bytes) (s : S) {e : Error}
      → (exists store codename component architecture version names s).0 ≡ err e
      → succeeded (show store codename component architecture name version s).0 ≡ false
  unfolding exists show
  exists-err name names s h =
      elim (Result-cases (manifest_at store codename component architecture s).0) [
        | inr (e, failed) ↦ rw failed refl
        | inl (m, read) ↦ cc (rw read at h)
      ]
