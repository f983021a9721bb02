-- ===== src/Maintenance/References/Complete.antt =====
-- internal/maintenance/maintenance.go: the references that are collected.
use deb_s3_go.Base.{
  true, List, [], ◌∷◌, ◌++◌, Bytes, Result, ok, err, wrap_error, bind-eq-ok, ok-injective, ◌≡◌,
  refl, arith, Bool-cases, inl, inr, String,
}
use deb_s3_go.Base.Strings.{equal_refl, member}
use deb_s3_go.Storage.Keys.{join_key}
use deb_s3_go.Apt.Package.{Package, repository_filename}
use deb_s3_go.Apt.Manifest.{parse_packages}
use deb_s3_go.Apt.Release.{append_unique}
use deb_s3_go.Maintenance.References.{reference_packages, reference_index}

member-append_left :
    (n : Bytes) (xs ys : List Bytes) → member n xs ≡ true → member n (xs ++ ys) ≡ true
unfolding member
member-append_left n [] ys h = cc
member-append_left n (x ∷ xs) ys h = ground (arith, h, member-append_left n xs ys)

member-append_last : (n : Bytes) (xs : List Bytes) → member n (xs ++ (n ∷ [])) ≡ true
unfolding member
member-append_last n [] = rw (equal_refl n) refl
member-append_last n (x ∷ xs) = ground (arith, member-append_last n xs)

append_unique-keeps :
    (n v : Bytes) (xs : List Bytes) → member n xs ≡ true → member n (append_unique xs v) ≡ true
unfolding append_unique
append_unique-keeps n v xs h = elim (Bool-cases (member v xs)) [
  | inl e ↦ rw e h
  | inr e ↦ rw e (member-append_left n xs (v ∷ []) h)
]

append_unique-adds : (n : Bytes) (xs : List Bytes) → member n (append_unique xs n) ≡ true
unfolding append_unique
append_unique-adds n xs = elim (Bool-cases (member n xs)) [
  | inl e ↦ rw e e
  | inr e ↦ rw e (member-append_last n xs)
]

wrap_error-ok :
    {A : Type 0} (text : String) (r : Result A) {a : A} → wrap_error text r ≡ ok a → r ≡ ok a
wrap_error-ok text (ok a) h = h
wrap_error-ok text (err e) h = cc

-- A reference stays, and the reference of each package is taken in.
reference_packages-keeps :
    (n : Bytes) (ps : List Package) (references : List Bytes) {after : List Bytes}
    → reference_packages ps references ≡ ok after
    → member n references ≡ true
    → member n after ≡ true
unfolding reference_packages
reference_packages-keeps n [] references {after} h k = rw⁻¹ (ok-injective h) k
reference_packages-keeps n (p ∷ ps) references h k =
    let (filename, f, h') =
      bind-eq-ok (wrap_error "resolve package" (repository_filename p [])) _ h in
    let (v, g, h'') =
      bind-eq-ok (wrap_error "unsafe referenced package path" (join_key [] filename)) _ h' in
    reference_packages-keeps n ps (append_unique references v) h''
      (append_unique-keeps n v references k)

reference_packages-adds :
    (n : Bytes) (ps : List Package) (p : Package) (qs : List Package) (references : List Bytes)
    {filename : Bytes} {after : List Bytes}
    → reference_packages (ps ++ (p ∷ qs)) references ≡ ok after
    → repository_filename p [] ≡ ok filename
    → join_key [] filename ≡ ok n
    → member n after ≡ true
unfolding reference_packages
reference_packages-adds n [] p qs references h f g =
    reference_packages-keeps n qs (append_unique references n) (rw (f, g) at h)
      (append_unique-adds n references)
reference_packages-adds n (q ∷ ps) p qs references h f g =
    let (filename, f', h') =
      bind-eq-ok (wrap_error "resolve package" (repository_filename q [])) _ h in
    let (v, g', h'') =
      bind-eq-ok (wrap_error "unsafe referenced package path" (join_key [] filename)) _ h' in
    reference_packages-adds n ps p qs (append_unique references v) h'' f g

pub reference_index-keeps :
    (n content : Bytes) (references : List Bytes) {after : List Bytes}
    → reference_index content references ≡ ok after
    → member n references ≡ true
    → member n after ≡ true
unfolding reference_index
reference_index-keeps n content references h k =
    let (packages, e, h') =
      bind-eq-ok (wrap_error "parse manifest for clean" (parse_packages content)) _ h in
    reference_packages-keeps n packages references h' k

pub reference_index-adds :
    (n content : Bytes) (ps : List Package) (p : Package) (qs : List Package)
    (references : List Bytes) {filename : Bytes} {after : List Bytes}
    → reference_index content references ≡ ok after
    → parse_packages content ≡ ok (ps ++ (p ∷ qs))
    → repository_filename p [] ≡ ok filename
    → join_key [] filename ≡ ok n
    → member n after ≡ true
unfolding reference_index
reference_index-adds n content ps p qs references h e f g =
    reference_packages-adds n ps p qs references (rw e at h) f g
