-- ===== src/Query/Listed.antt =====
-- internal/query/query.go: the packages that `List` reports.
use deb_s3_go.Base.{
  Bool, true, false, ◌||◌, List, [], ◌∷◌, ◌++◌, Bytes, Result, ok, err, ok-injective, wrap, any,
  map, All, ◌≡◌, refl, sym, ap, ◌∙◌, arith, Bool-cases, inl, inr,
}
use deb_s3_go.Base.Strings.{equal_iff}
use deb_s3_go.Storage.Objects.{M, pure, ◌>>=◌, continue, wrapped, Store}
use deb_s3_go.Apt.Package.{Package}
use deb_s3_go.Apt.Manifest.{Manifest}
use deb_s3_go.Apt.Release.{Release}
use deb_s3_go.Apt.Release.Publish.{retrieve_release}
use deb_s3_go.Query.{
  release_of, add_unless, manifest_at, ListOptions, ListIdentity, identity, same_identity, Listing,
  list_unseen, skipped, list_each, list_packages,
}

-- No two of the identities are the same.
abbrev pub Apart : List ListIdentity → Type 0
Apart [] = Unit
Apart (i ∷ is) = (any (same_identity i) is ≡ false) × Apart is

-- The set of what was seen is that of the packages listed.
pub record IsListing (l : Listing) : Type 0 where
  pub tracked : l.seen ≡ map identity l.packages
  pub apart : Apart l.seen

same_identity_symm : (i j : ListIdentity) → same_identity i j ≡ same_identity j i
same_identity_symm i j = ground (
  arith,
  equal_iff i.name j.name,
  equal_iff j.name i.name,
  equal_iff i.version j.version,
  equal_iff j.version i.version,
  equal_iff i.architecture j.architecture,
  equal_iff j.architecture i.architecture,
  equal_iff i.filename j.filename,
  equal_iff j.filename i.filename,
)

any-append :
    (i : ListIdentity) (is js : List ListIdentity)
    → any (same_identity i) (is ++ js) ≡ any (same_identity i) is || any (same_identity i) js
any-append i [] js = refl
any-append i (k ∷ is) js = ground (arith, any-append i is js)

Apart-append :
    (is : List ListIdentity) (j : ListIdentity)
    → any (same_identity j) is ≡ false
    → Apart is
    → Apart (is ++ (j ∷ []))
Apart-append [] j h a = (refl, tt)
Apart-append (i ∷ is) j h a = (
  ground (arith, any-append i is (j ∷ []), a.0, same_identity_symm i j, h),
  Apart-append is j (ground (arith, h)) a.1,
)

map-append :
    (ps : List Package) (p : Package)
    → map identity (ps ++ (p ∷ [])) ≡ map identity ps ++ (identity p ∷ [])
map-append [] p = refl
map-append (q ∷ ps) p = ap (λ t. identity q ∷ t) (map-append ps p)

add_unless-IsListing :
    (known : Bool) (p : Package) (l : Listing)
    → any (same_identity (identity p)) l.seen ≡ known
    → IsListing l
    → IsListing (add_unless known p l)
add_unless-IsListing true p l e h = h
add_unless-IsListing false p l e h = record {
  tracked = ap (λ t. t ++ (identity p ∷ [])) h.tracked ∙ sym (map-append l.packages p);
  apart = Apart-append l.seen (identity p) e h.apart;
}

list_unseen-IsListing :
    (ps : List Package) (l : Listing) → IsListing l → IsListing (list_unseen ps l)
unfolding list_unseen
list_unseen-IsListing [] l h = h
list_unseen-IsListing (p ∷ ps) l h =
    list_unseen-IsListing ps _
      (add_unless-IsListing (any (same_identity (identity p)) l.seen) p l refl h)

-- What is seen stays seen, and every package of the manifest is seen in the end.
add_unless-keeps :
    (i : ListIdentity) (known : Bool) (p : Package) (l : Listing)
    → any (same_identity i) l.seen ≡ true
    → any (same_identity i) (add_unless known p l).seen ≡ true
add_unless-keeps i true p l h = h
add_unless-keeps i false p l h = ground (arith, any-append i l.seen (identity p ∷ []), h)

list_unseen-keeps :
    (i : ListIdentity) (ps : List Package) (l : Listing)
    → any (same_identity i) l.seen ≡ true
    → any (same_identity i) (list_unseen ps l).seen ≡ true
unfolding list_unseen
list_unseen-keeps i [] l h = h
list_unseen-keeps i (p ∷ ps) l h =
    list_unseen-keeps i ps _ (add_unless-keeps i (any (same_identity (identity p)) l.seen) p l h)

same_identity_refl : (i : ListIdentity) → same_identity i i ≡ true
same_identity_refl i = ground (
  arith,
  equal_iff i.name i.name,
  equal_iff i.version i.version,
  equal_iff i.architecture i.architecture,
  equal_iff i.filename i.filename,
)

any-append_last :
    (i : ListIdentity) (is : List ListIdentity) → any (same_identity i) (is ++ (i ∷ [])) ≡ true
any-append_last i [] = rw (same_identity_refl i) refl
any-append_last i (j ∷ is) = ground (arith, any-append_last i is)

add_unless-adds :
    (known : Bool) (p : Package) (l : Listing)
    → any (same_identity (identity p)) l.seen ≡ known
    → any (same_identity (identity p)) (add_unless known p l).seen ≡ true
add_unless-adds true p l e = e
add_unless-adds false p l e = any-append_last (identity p) l.seen

list_unseen-adds :
    (ps : List Package) (l : Listing)
    → All (λ p. any (same_identity (identity p)) (list_unseen ps l).seen ≡ true) ps
unfolding list_unseen
list_unseen-adds [] l = tt
list_unseen-adds (p ∷ ps) l = (
  list_unseen-keeps (identity p) ps _
      (add_unless-adds (any (same_identity (identity p)) l.seen) p l refl),
  list_unseen-adds ps _,
)

-- The loop of `List` over one manifest keeps what was listed, lists every package of the manifest,
-- itself or one of the same name, version, architecture and file name, and lists none twice.
pub list_unseen_lem :
    (ps : List Package) (l : Listing)
    → IsListing l
    → IsListing (list_unseen ps l)
      × All (λ p. any (same_identity (identity p)) (list_unseen ps l).seen ≡ true) ps
      × ((i : ListIdentity)
          → any (same_identity i) l.seen ≡ true
          → any (same_identity i) (list_unseen ps l).seen ≡ true)
list_unseen_lem ps l h =
    (list_unseen-IsListing ps l h, list_unseen-adds ps l, λ i k. list_unseen-keeps i ps l k)

module _ {S : Type 0} (store : Store S) (o : ListOptions) where
  list_more-IsListing :
      (x : Result Manifest × S) (l : Listing) (next : Listing → M S Listing) {l' : Listing}
      → ((l₁ : Listing) (s : S) (l' : Listing)
          → IsListing l₁
          → (next l₁ s).0 ≡ ok l'
          → IsListing l')
      → IsListing l
      → (continue
          (wrapped (wrap "retrieve Packages for list") x.0)
          (λ m. next (list_unseen m.packages l))
          x.1).0
        ≡ ok l'
      → IsListing l'
  list_more-IsListing (ok m, s) l next {l'} keeps h e =
      keeps (list_unseen m.packages l) s l' (list_unseen-IsListing m.packages l h) e
  list_more-IsListing (err f, s) l next keeps h e = cc

  list_each-IsListing :
      (architectures : List Bytes) (l : Listing) (s : S) {l' : Listing}
      → IsListing l
      → (list_each store o architectures l s).0 ≡ ok l'
      → IsListing l'
  unfolding list_each
  list_each-IsListing [] l s h e = rw⁻¹ (ok-injective e) h
  list_each-IsListing (architecture ∷ architectures) l s h e =
      elim (Bool-cases (skipped o architecture)) [
        | inl other ↦ list_each-IsListing architectures l s h (rw other at e)
        | inr asked ↦
            list_more-IsListing (manifest_at store o.codename o.component architecture s) l
              (list_each store o architectures)
              (λ l₁ s₁ l₂ k e₁. list_each-IsListing architectures l₁ s₁ k e₁) h (rw asked at e)
      ]

  packages-Apart :
      (y : Result Listing × S) {packages : List Package}
      → ((l : Listing) → y.0 ≡ ok l → IsListing l)
      → (continue y.0 (λ l. pure l.packages) y.1).0 ≡ ok packages
      → Apart (map identity packages)
  packages-Apart (ok l, s) keeps h =
      let k = keeps l refl in rw⁻¹ (ok-injective h) (rw k.tracked at k.apart)
  packages-Apart (err e, s) keeps h = cc

  released-Apart :
      (x : Result Release × S) {packages : List Package}
      → (continue
          (wrapped (wrap "retrieve Release for list") x.0)
          (λ r.
            list_each store o r.architectures (record { packages = []; seen = [] })
            >>= (λ l. pure l.packages))
          x.1).0
        ≡ ok packages
      → Apart (map identity packages)
  released-Apart (err e, s) h = cc
  released-Apart (ok r, s) h =
      packages-Apart (list_each store o r.architectures (record { packages = []; seen = [] }) s)
        (λ l e. list_each-IsListing r.architectures _ s (record { tracked = refl; apart = tt }) e) h

  -- Whatever the store answers, a `List` that succeeds reports no two packages that agree in name,
  -- version, architecture and file name.
  pub list_packages-Apart :
      (s : S) {packages : List Package}
      → (list_packages store o s).0 ≡ ok packages
      → Apart (map identity packages)
  unfolding list_packages
  list_packages-Apart s h = released-Apart (retrieve_release store (release_of o.codename) s) h
