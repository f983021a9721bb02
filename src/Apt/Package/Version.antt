-- ===== src/Apt/Package/Version.antt =====
-- internal/apt/package.go: versions, taken apart and put together.
use mathlib.Core.Path.{subst}
use mathlib.Core.Option.{some-injective}
use deb_s3_go.Base.{
  ℕ, Bool, false, not, ◌||◌, [], ◌∷◌, ◌++◌, Option, some, Bytes, if◌then◌else◌, ◌==◌, ==_iff, ◌≡◌,
  refl, sym, ap, ◌∙◌, arith, Bool-cases, inl, inr, append_assoc,
}
use deb_s3_go.Base.Strings.{equal, trim_prefix, trim_prefix-append, contains_byte, span}
use deb_s3_go.Apt.Control.{is_digit}
use deb_s3_go.Apt.Package.{
  Package, new_package, cut_iteration, match_body, with_epoch, match_epoch, match_version,
  has_iteration, full_version,
}

span-append : (p : ℕ → Bool) (s : Bytes) → (span p s).0 ++ (span p s).1 ≡ s
unfolding span
span-append p [] = refl
span-append p (c ∷ s) = elim (Bool-cases (p c)) [
  | inl e ↦ rw e (ap (λ t. c ∷ t) (span-append p s))
  | inr e ↦ rw e refl
]

-- A dash splits a text in two, and is there exactly if the text is longer than its first part.
cut_iteration-append :
    (s : Bytes)
    → s ≡ (
        if contains_byte b'-' s
        then (cut_iteration s).0 ++ (b'-' ∷ (cut_iteration s).1)
        else (cut_iteration s).0)
unfolding cut_iteration contains_byte
cut_iteration-append [] = refl
cut_iteration-append (c ∷ s) = ground (arith, cut_iteration-append s)

cut_iteration-nil : (s : Bytes) → contains_byte b'-' s ≡ false → (cut_iteration s).1 ≡ []
unfolding cut_iteration contains_byte
cut_iteration-nil [] h = refl
cut_iteration-nil (c ∷ s) h = ground (arith, cut_iteration-nil s)

-- The parts of a version as `ParsePackage` stores them.
abbrev pub package_of : Bytes → Bytes × Bytes × Bytes → Package
package_of full (epoch, version, iteration) = record (new_package []) {
  version = version;
  epoch = epoch;
  iteration = iteration;
  iteration_present = has_iteration epoch full;
}

-- What `FullVersion` writes behind the epoch.
abbrev joined : Bytes → Bytes → Bool → Bytes
joined version iteration present =
    if present || not (equal iteration []) then version ++ (b'-' ∷ iteration) else version

joined-cut_iteration :
    (c : ℕ) (s : Bytes)
    → (c == b'-') ≡ false
    → joined (c ∷ (cut_iteration s).0) (cut_iteration s).1 (contains_byte b'-' (c ∷ s)) ≡ c ∷ s
unfolding contains_byte
joined-cut_iteration c s h = elim (Bool-cases (contains_byte b'-' s)) [
  | inl e ↦ rw (h, e) (ap (λ t. c ∷ t) (sym (rw e at (cut_iteration-append s))))
  | inr e ↦
      rw (h, e, cut_iteration-nil s e)
        (unfold equal in ap (λ t. c ∷ t) (sym (rw e at (cut_iteration-append s))))
]

full_version-plain :
    (c : ℕ) (v i : Bytes) (present : Bool) (full : Bytes)
    → full_version (record (new_package []) {
      version = c ∷ v;
      epoch = [];
      iteration = i;
      iteration_present = present;
    })
      ≡ joined (c ∷ v) i present
unfolding full_version equal
full_version-plain c v i present full = refl

full_version-epoch :
    (d : ℕ) (epoch v i : Bytes) (present : Bool)
    → full_version (record (new_package []) {
      version = v;
      epoch = d ∷ epoch;
      iteration = i;
      iteration_present = present;
    })
      ≡ joined (d ∷ (epoch ++ (b':' ∷ v))) i present
unfolding full_version equal
full_version-epoch d epoch v i present = refl

joined-epoch :
    (d : ℕ) (epoch v i : Bytes) (present : Bool)
    → joined (d ∷ (epoch ++ (b':' ∷ v))) i present ≡ d ∷ (epoch ++ (b':' ∷ joined v i present))
joined-epoch d epoch v i present = elim (Bool-cases (present || not (equal i []))) [
  | inl e ↦ rw e (ap (λ t. d ∷ t) (append_assoc epoch (b':' ∷ v) (b'-' ∷ i)))
  | inr e ↦ rw e refl
]

-- The version proper does not begin with a dash.
abbrev pub NoLeadingDash : Bytes × Bytes × Bytes → Type 0
NoLeadingDash (epoch, [], iteration) = Unit
NoLeadingDash (epoch, c ∷ version, iteration) = (c == b'-') ≡ false

body_at :
    (c : ℕ) (s : Bytes)
    → (c == b'-') ≡ false
    → full_version (package_of (c ∷ s) ([], c ∷ (cut_iteration s).0, (cut_iteration s).1)) ≡ c ∷ s
unfolding has_iteration equal
body_at c s h =
    full_version-plain c (cut_iteration s).0 (cut_iteration s).1 (contains_byte b'-' (c ∷ s)) []
    ∙ joined-cut_iteration c s h

trim_epoch :
    (epoch rest : Bytes) → trim_prefix (epoch ++ (b':' ∷ rest)) (epoch ++ (b':' ∷ [])) ≡ rest
trim_epoch epoch rest =
    ap (λ t. trim_prefix t (epoch ++ (b':' ∷ []))) (sym (append_assoc epoch (b':' ∷ []) rest))
    ∙ trim_prefix-append (epoch ++ (b':' ∷ [])) rest

epoch_at :
    (d : ℕ) (epoch : Bytes) (c : ℕ) (s : Bytes)
    → (c == b'-') ≡ false
    → full_version (
        package_of
          (d ∷ (epoch ++ (b':' ∷ c ∷ s)))
          (d ∷ epoch, c ∷ (cut_iteration s).0, (cut_iteration s).1))
      ≡ d ∷ (epoch ++ (b':' ∷ c ∷ s))
unfolding has_iteration equal
epoch_at d epoch c s h =
    full_version-epoch d epoch (c ∷ (cut_iteration s).0) (cut_iteration s).1 _
    ∙ ap (λ b. joined (d ∷ (epoch ++ (b':' ∷ c ∷ (cut_iteration s).0))) (cut_iteration s).1 b)
        (ap (contains_byte b'-') (trim_epoch (d ∷ epoch) (c ∷ s)))
    ∙ joined-epoch d epoch (c ∷ (cut_iteration s).0) (cut_iteration s).1
        (contains_byte b'-' (c ∷ s))
    ∙ ap (λ t. d ∷ (epoch ++ (b':' ∷ t))) (joined-cut_iteration c s h)

abbrev Writes : Bytes → Bytes × Bytes × Bytes → Type 0
Writes full parts = NoLeadingDash parts → full_version (package_of full parts) ≡ full

body_lem :
    (full : Bytes) {parts : Bytes × Bytes × Bytes}
    → with_epoch [] (match_body full) ≡ some parts
    → Writes full parts
unfolding match_body
body_lem [] h = cc
body_lem (c ∷ s) h = subst (Writes (c ∷ s)) (some-injective _ _ h) (body_at c s)

with_epoch-Writes :
    (d : ℕ) (epoch : Bytes) (c : ℕ) (s : Bytes) {parts : Bytes × Bytes × Bytes}
    → with_epoch (d ∷ epoch) (match_body (c ∷ s)) ≡ some parts
    → Writes (d ∷ (epoch ++ (b':' ∷ c ∷ s))) parts
unfolding match_body
with_epoch-Writes d epoch c s h =
    subst (Writes (d ∷ (epoch ++ (b':' ∷ c ∷ s)))) (some-injective _ _ h) (epoch_at d epoch c s)

match_epoch-Writes :
    (full : Bytes) (ab : Bytes × Bytes) {parts : Bytes × Bytes × Bytes}
    → ab.0 ++ ab.1 ≡ full
    → match_epoch full ab ≡ some parts
    → Writes full parts
unfolding match_epoch
match_epoch-Writes full ([], b) e h = body_lem full h
match_epoch-Writes full (c ∷ epoch, []) e h = body_lem full h
match_epoch-Writes full (c ∷ epoch, d ∷ []) e h = body_lem full h
match_epoch-Writes full (c ∷ epoch, d ∷ x ∷ rest) {parts} e h = elim (Bool-cases (d == b':')) [
  | inl colon ↦
      let same = (==_iff d b':').0 colon in
      subst (λ t. Writes t parts) (rw same at e) (with_epoch-Writes c epoch x rest (rw colon at h))
  | inr other ↦ body_lem full (rw other at h)
]

-- `FullVersion` of the epoch, version and iteration that `versionPattern` finds in a text is that
-- text, unless the version found begins with a dash.
pub full_version-match_version :
    (full : Bytes) {parts : Bytes × Bytes × Bytes}
    → match_version full ≡ some parts
    → NoLeadingDash parts
    → full_version (package_of full parts) ≡ full
unfolding match_version
full_version-match_version full h = elim (Bool-cases (contains_byte b'\n' full)) [
  | inl e ↦ cc (rw e at h)
  | inr e ↦ match_epoch-Writes full (span is_digit full) (span-append is_digit full) (rw e at h)
]

-- A version that begins with a dash and has no other gains a dash at its end.
pub leading_dash_grows :
    (full : Bytes)
    → contains_byte b'\n' full ≡ false
    → contains_byte b'-' full ≡ false
    → (parts : Bytes × Bytes × Bytes) × (match_version (b'-' ∷ full) ≡ some parts)
      × (full_version (package_of (b'-' ∷ full) parts) ≡ b'-' ∷ (full ++ (b'-' ∷ [])))
unfolding match_version full_version has_iteration equal contains_byte
leading_dash_grows full n d = (([], b'-' ∷ full, []), rw n (ap found cut), refl)
  where
    found : Bytes × Bytes → Option (Bytes × Bytes × Bytes)
    found (v, i) = some ([], b'-' ∷ v, i)

    cut : cut_iteration full ≡ (full, [])
    cut = λ i. (sym (rw d at (cut_iteration-append full)) i, cut_iteration-nil full d i)
