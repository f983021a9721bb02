-- ===== src/Upload/Placed.antt =====
-- internal/upload/upload.go: the manifests that packages are placed in.
use mathlib.Core.Path.{subst}
use deb_s3_go.Base.{
  Bool, true, false, ◌||◌, List, [], ◌∷◌, ◌++◌, Bytes, Result, ok, err, All, ok-injective, ◌≡◌,
  refl, ap, ◌∙◌, arith, Bool-cases, inl, inr,
}
use deb_s3_go.Base.Strings.{codes, equal, equal_iff, equal_refl, member}
use deb_s3_go.Apt.Package.{Package}
use deb_s3_go.Apt.Manifest.{Manifest, add}
use deb_s3_go.Apt.Manifest.Others.{add-architecture, add-All-pending}
use deb_s3_go.Upload.{
  Options, architecture_for, architectures_in, add_to, added_first, with_first, propagate_to,
  next_propagated, propagate, propagated_with,
}

-- A package may stand in the manifest of its own architecture, and in any if it names none or all.
abbrev pub IsPlacedIn : Bytes → Package → Type 0
IsPlacedIn a p =
    (equal p.architecture [] || equal p.architecture (codes "all") || equal p.architecture a) ≡ true

abbrev pub Distinct : List Bytes → Type 0
Distinct [] = Unit
Distinct (a ∷ architectures) = (member a architectures ≡ false) × Distinct architectures

pub architecture_for-placed :
    (o : Options) (p : Package) {a : Bytes} → architecture_for o p ≡ ok a → IsPlacedIn a p
unfolding architecture_for
architecture_for-placed o p {a} h = ground (arith, h, equal_refl p.architecture)

member-append :
    (a b : Bytes) (xs : List Bytes) → member a (xs ++ (b ∷ [])) ≡ (member a xs || equal b a)
unfolding member
member-append a b [] = ground arith
member-append a b (x ∷ xs) = ground (arith, member-append a b xs)

pub Distinct-append :
    (a : Bytes) (xs : List Bytes) → Distinct xs → member a xs ≡ false → Distinct (xs ++ (a ∷ []))
unfolding member
Distinct-append a [] d h = (refl, tt)
Distinct-append a (x ∷ xs) d h = (
  member-append x a xs ∙ ground (arith, d.0, equal_iff x a, equal_iff a x),
  Distinct-append a xs d.1 (ground arith),
)

-- `K` is what is known of the packages that are to be uploaded.
module _ (K : Package → Type 0) where
  abbrev pub PlacesUploads : Manifest → Type 0
  PlacesUploads m = All (λ p. K p × IsPlacedIn m.architecture p) m.pending_uploads

  -- Every manifest has an architecture of its own, and only packages to upload that may stand there.
  pub record WellPlaced (ms : List Manifest) : Type 0 where
    pub distinct : Distinct (architectures_in ms)
    pub placed : All PlacesUploads ms

  -- The manifests that result have the architectures from before, and place their uploads.
  pub record Keeps (ms ms' : List Manifest) : Type 0 where
    pub architectures : architectures_in ms' ≡ architectures_in ms
    pub placed : All PlacesUploads ms → All PlacesUploads ms'

  module _ (p : Package) (preserve : Bool) where
    add-PlacesUploads :
        (upload : Bool) (m : Manifest)
        → (upload ≡ true → K p × IsPlacedIn m.architecture p)
        → PlacesUploads m
        → PlacesUploads (add p preserve upload m).1
    add-PlacesUploads upload m h k =
        rw (add-architecture preserve upload p m)
          (add-All-pending (λ p. K p × IsPlacedIn m.architecture p) preserve upload p m h k)

    added_first-Keeps :
        (r : Result (Unit {0}) × Manifest) (m : Manifest) (ms : List Manifest) {ms' : List Manifest}
        → added_first r ms ≡ ok ms'
        → r.1.architecture ≡ m.architecture
        → (PlacesUploads m → PlacesUploads r.1)
        → Keeps (m ∷ ms) ms'
    added_first-Keeps (err e, m') m ms h a k = cc
    added_first-Keeps (ok _, m') m ms h a k =
        subst (Keeps (m ∷ ms)) (ok-injective h) (record {
          architectures = ap (λ b. b ∷ architectures_in ms) a;
          placed = λ w. (k w.0, w.1);
        })

    with_first-Keeps :
        (r : Result (List Manifest)) (m : Manifest) (ms : List Manifest) {ms' : List Manifest}
        → with_first m r ≡ ok ms'
        → ((ms'' : List Manifest) → r ≡ ok ms'' → Keeps ms ms'')
        → Keeps (m ∷ ms) ms'
    with_first-Keeps (err e) m ms h k = cc
    with_first-Keeps (ok ms'') m ms h k =
        let rest = k ms'' refl in
        subst (Keeps (m ∷ ms)) (ok-injective h) (record {
          architectures = ap (λ as'. m.architecture ∷ as') rest.architectures;
          placed = λ w. (w.0, rest.placed w.1);
        })

    pub add_to-Keeps :
        (a : Bytes) (ms : List Manifest) {ms' : List Manifest}
        → K p × IsPlacedIn a p
        → add_to a p preserve ms ≡ ok ms'
        → Keeps ms ms'
    unfolding add_to
    add_to-Keeps a [] h e =
        subst (Keeps []) (ok-injective e) (record { architectures = refl; placed = λ w. w })
    add_to-Keeps a (m ∷ ms) h e = elim (Bool-cases (equal m.architecture a)) [
      | inl here ↦
          added_first-Keeps (add p preserve true m) m ms (rw here at e)
            (add-architecture preserve true p m)
            (add-PlacesUploads true m (λ _. (h.0, rw ((equal_iff m.architecture a).0 here) h.1)))
      | inr there ↦
          with_first-Keeps (add_to a p preserve ms) m ms (rw there at e)
            (λ _ k. add_to-Keeps a ms h k)
    ]

  propagate_to-Keeps :
      (ps : List Package) (preserve : Bool) (m : Manifest) {m' : Manifest}
      → propagate_to ps preserve m ≡ ok m'
      → (m'.architecture ≡ m.architecture) × (PlacesUploads m → PlacesUploads m')
  unfolding propagate_to
  propagate_to-Keeps [] preserve m {m'} e =
      subst (λ k. (k.architecture ≡ m.architecture) × (PlacesUploads m → PlacesUploads k))
        (ok-injective e) (refl, λ w. w)
  propagate_to-Keeps (p ∷ ps) preserve m {m'} e =
      go (add p preserve false m) e (λ k. propagate_to-Keeps ps preserve _ k)
        (add-architecture preserve false p m) (add-PlacesUploads p preserve false m (λ f. cc))
    where
      go :
          (r : Result (Unit {0}) × Manifest)
          → next_propagated r (propagate_to ps preserve) ≡ ok m'
          → (propagate_to ps preserve r.1 ≡ ok m'
              → (m'.architecture ≡ r.1.architecture) × (PlacesUploads r.1 → PlacesUploads m'))
          → r.1.architecture ≡ m.architecture
          → (PlacesUploads m → PlacesUploads r.1)
          → (m'.architecture ≡ m.architecture) × (PlacesUploads m → PlacesUploads m')
      go (err _, m'') e k a h = cc
      go (ok _, m'') e k a h = let (b, w) = k e in (b ∙ a, λ q. w (h q))

  pub propagate-Keeps :
      (ps : List Package) (preserve : Bool) (ms : List Manifest) {ms' : List Manifest}
      → propagate ps preserve ms ≡ ok ms'
      → Keeps ms ms'
  unfolding propagate
  propagate-Keeps ps preserve [] e =
      subst (Keeps []) (ok-injective e) (record { architectures = refl; placed = λ w. w })
  propagate-Keeps ps preserve (m ∷ ms) {ms'} e =
      elim (Bool-cases (equal m.architecture (codes "all"))) [
        | inl skipped ↦
            go (ok m) (propagate ps preserve ms) (rw skipped at e)
              (λ _ k. rw⁻¹ (ok-injective k) (refl, λ w. w))
              (λ _ k. propagate-Keeps ps preserve ms k)
        | inr other ↦
            go (propagate_to ps preserve m) (propagate ps preserve ms) (rw other at e)
              (λ _ k. propagate_to-Keeps ps preserve m k) (λ _ k. propagate-Keeps ps preserve ms k)
      ]
    where
      go :
          (r : Result Manifest) (rest : Result (List Manifest))
          → propagated_with r rest ≡ ok ms'
          → ((m' : Manifest)
              → r ≡ ok m'
              → (m'.architecture ≡ m.architecture) × (PlacesUploads m → PlacesUploads m'))
          → ((ms'' : List Manifest) → rest ≡ ok ms'' → Keeps ms ms'')
          → Keeps (m ∷ ms) ms'
      go (err _) rest e h k = cc
      go (ok m') (err _) e h k = cc
      go (ok m') (ok ms'') e h k =
          let (a, w) = h m' refl in
          let later = k ms'' refl in
          subst (Keeps (m ∷ ms)) (ok-injective e) (record {
            architectures = simp (a, later.architectures);
            placed = λ q. (w q.0, later.placed q.1);
          })

  pub Keeps-WellPlaced : {ms ms' : List Manifest} → Keeps ms ms' → WellPlaced ms → WellPlaced ms'
  Keeps-WellPlaced k w = record {
    distinct = rw (k.architectures) (w.distinct);
    placed = k.placed w.placed;
  }
