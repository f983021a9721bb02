-- ===== src/Deb/Reader/Members.antt =====
-- internal/deb/reader.go: the members of a package file that `ReadPackage` accepts.
use mathlib.Core.Path.{subst}
use deb_s3_go.Base.{
  ℕ, suc, true, false, List, [], ◌∷◌, ◌++◌, Error, ok, ◌>>=◌, bind-eq-ok, ok-injective, All, ◌≡◌,
  refl, sym, ap, ◌∙◌, Bool-cases, inl, inr, ◌⊎◌,
}
use deb_s3_go.Base.Strings.{codes, equal, equal_iff, has_prefix}
use deb_s3_go.Deb.Ar.{Member, Body, Scan, ended, found, unfinished}
use deb_s3_go.Deb.Reader.{
  Limits, Tools, is_eof, Progress, initial, validate_debian_binary, read_control_archive, step_at,
  walk,
}

-- The members of an archive that comes to its end.
pub data Holds : Scan → List Member → Type 0 where
  end : (e : Error) → is_eof e ≡ true → Holds (ended e) []
  member :
      (m : Member) (b : Body) (rest : Scan) (ms : List Member)
      → Holds rest ms
      → Holds (found m b rest) (m ∷ ms)

abbrev pub IsSkipped : Member → Type 0
IsSkipped m = has_prefix m.name (codes "_") ≡ true

-- `debian-binary`, the control archive and the data archive in their order, with nothing between
-- them but members whose names begin with an underscore.
pub record IsPackage (ms : List Member) : Type 0 where
  pub binary : Member
  pub before_control : List Member
  pub control : Member
  pub before_data : List Member
  pub data_archive : Member
  pub trailing : List Member
  pub in_order :
      ms ≡ binary ∷ (before_control ++ (control ∷ (before_data ++ (data_archive ∷ trailing))))
  pub binary_named : binary.name ≡ codes "debian-binary"
  pub control_named : has_prefix control.name (codes "control.tar") ≡ true
  pub data_named : has_prefix data_archive.name (codes "data.tar") ≡ true
  pub skipped_before_control : All IsSkipped before_control
  pub skipped_before_data : All IsSkipped before_data

-- The members of what is left, from each state on.
pub record FromData (ms : List Member) : Type 0 where
  pub skipped : List Member
  pub data_archive : Member
  pub trailing : List Member
  pub in_order : ms ≡ skipped ++ (data_archive ∷ trailing)
  pub all_skipped : All IsSkipped skipped
  pub named : has_prefix data_archive.name (codes "data.tar") ≡ true

pub record FromControl (ms : List Member) : Type 0 where
  pub skipped : List Member
  pub control : Member
  pub rest : List Member
  pub from_data : FromData rest
  pub in_order : ms ≡ skipped ++ (control ∷ rest)
  pub all_skipped : All IsSkipped skipped
  pub named : has_prefix control.name (codes "control.tar") ≡ true

module _ (tools : Tools) (limits : Limits) where
  -- One turn, by the state that the progress is in.
  turn :
      {k : ℕ} (p : Progress) (m : Member) (b : Body) (rest : Scan) {q : Progress}
      → p.state ≡ k
      → walk tools limits p (found m b rest) ≡ ok q
      → (p' : Progress) × (step_at tools limits k p m b ≡ ok p')
        × (walk tools limits p' rest ≡ ok q)
  unfolding walk
  turn p m b rest {q} e h =
      bind-eq-ok _ (λ p'. walk tools limits p' rest)
        (subst (λ k. step_at tools limits k p m b >>= (λ p'. walk tools limits p' rest) ≡ ok q) e h)

  walk-trailing :
      (n : ℕ) (p : Progress) (s : Scan) {q : Progress}
      → p.state ≡ suc (suc (suc n))
      → walk tools limits p s ≡ ok q
      → (ms : List Member) × Holds s ms
  unfolding walk step_at
  walk-trailing n p (ended e) k h = elim (Bool-cases (is_eof e)) [
    | inl done ↦ ([], Holds.end e done)
    | inr failed ↦ cc (rw failed at h)
  ]
  walk-trailing n p unfinished k h = cc
  walk-trailing n p (found m b rest) k h =
      let (p', e, h') = turn p m b rest k h in
      let (ms, held) =
        walk-trailing n p' rest (ap (λ (r : Progress). r.state) (sym (ok-injective e)) ∙ k) h' in
      (m ∷ ms, Holds.member m b rest ms held)

  stopped :
      (e : Error) (p : Progress) {q : Progress}
      → walk tools limits p (ended e) ≡ ok q
      → (is_eof e ≡ true) × (p ≡ q)
  unfolding walk
  stopped e p h = elim (Bool-cases (is_eof e)) [
    | inl done ↦ (done, ok-injective (rw done at h))
    | inr failed ↦ cc (rw failed at h)
  ]

  data_turn :
      (p : Progress) (m : Member) (b : Body) {p' : Progress}
      → step_at tools limits 2 p m b ≡ ok p'
      → (IsSkipped m × (p' ≡ p)) ⊎ ((has_prefix m.name (codes "data.tar") ≡ true) × (p'.state ≡ 3))
  unfolding step_at
  data_turn p m b e = elim (Bool-cases (has_prefix m.name (codes "_"))) [
    | inl under ↦ inl (under, sym (ok-injective (rw under at e)))
    | inr plain ↦ elim (Bool-cases (has_prefix m.name (codes "data.tar"))) [
      | inr different ↦ cc (rw (plain, different) at e)
      | inl named ↦
          inr (named, ap (λ (r : Progress). r.state) (sym (ok-injective (rw (plain, named) at e))))
    ]
  ]

  walk-data :
      (p : Progress) (s : Scan) {q : Progress}
      → p.state ≡ 2
      → p.seen_data ≡ false
      → walk tools limits p s ≡ ok q
      → q.seen_data ≡ true
      → (ms : List Member) × Holds s ms × FromData ms
  walk-data p (ended e) k f h t = cc (ap (λ (r : Progress). r.seen_data) (stopped e p h).1, f, t)
  walk-data p unfinished k f h t = unfold walk in cc
  walk-data p (found m b rest) k f h t =
      let (p', e, h') = turn p m b rest k h in
      elim (data_turn p m b e) [
        | inl (under, same) ↦
            let (ms, held, from) =
              walk-data p' rest (ap (λ (r : Progress). r.state) same ∙ k)
                (ap (λ (r : Progress). r.seen_data) same ∙ f) h' t in
            (
              m ∷ ms,
              Holds.member m b rest ms held,
              record {
                skipped = m ∷ from.skipped;
                data_archive = from.data_archive;
                trailing = from.trailing;
                in_order = ap (λ r. m ∷ r) from.in_order;
                all_skipped = (under, from.all_skipped);
                named = from.named;
              },
            )
        | inr (named, three) ↦
            let (ms, held) = walk-trailing 0 p' rest three h' in
            (
              m ∷ ms,
              Holds.member m b rest ms held,
              record {
                skipped = [];
                data_archive = m;
                trailing = ms;
                in_order = refl;
                all_skipped = tt;
                named = named;
              },
            )
      ]

  control_turn :
      (p : Progress) (m : Member) (b : Body) {p' : Progress}
      → step_at tools limits 1 p m b ≡ ok p'
      → (IsSkipped m × (p' ≡ p))
        ⊎ ((has_prefix m.name (codes "control.tar") ≡ true)
            × (p'.state ≡ 2)
            × (p'.seen_data ≡ p.seen_data))
  unfolding step_at
  control_turn p m b e = elim (Bool-cases (has_prefix m.name (codes "_"))) [
    | inl under ↦ inl (under, sym (ok-injective (rw under at e)))
    | inr plain ↦ elim (Bool-cases (has_prefix m.name (codes "control.tar"))) [
      | inr different ↦ cc (rw (plain, different) at e)
      | inl named ↦
          let (control, read, done) =
            bind-eq-ok (read_control_archive tools limits m b) _ (rw (plain, named) at e) in
          inr (
            named,
            ap (λ (r : Progress). r.state) (sym (ok-injective done)),
            ap (λ (r : Progress). r.seen_data) (sym (ok-injective done)),
          )
    ]
  ]

  walk-control :
      (p : Progress) (s : Scan) {q : Progress}
      → p.state ≡ 1
      → p.seen_data ≡ false
      → walk tools limits p s ≡ ok q
      → q.seen_data ≡ true
      → (ms : List Member) × Holds s ms × FromControl ms
  walk-control p (ended e) k f h t = cc (ap (λ (r : Progress). r.seen_data) (stopped e p h).1, f, t)
  walk-control p unfinished k f h t = unfold walk in cc
  walk-control p (found m b rest) k f h t =
      let (p', e, h') = turn p m b rest k h in
      elim (control_turn p m b e) [
        | inl (under, same) ↦
            let (ms, held, from) =
              walk-control p' rest (ap (λ (r : Progress). r.state) same ∙ k)
                (ap (λ (r : Progress). r.seen_data) same ∙ f) h' t in
            (
              m ∷ ms,
              Holds.member m b rest ms held,
              record {
                skipped = m ∷ from.skipped;
                control = from.control;
                rest = from.rest;
                from_data = from.from_data;
                in_order = ap (λ r. m ∷ r) from.in_order;
                all_skipped = (under, from.all_skipped);
                named = from.named;
              },
            )
        | inr (named, two, unseen) ↦
            let (ms, held, from) = walk-data p' rest two (unseen ∙ f) h' t in
            (
              m ∷ ms,
              Holds.member m b rest ms held,
              record {
                skipped = [];
                control = m;
                rest = ms;
                from_data = from;
                in_order = refl;
                all_skipped = tt;
                named = named;
              },
            )
      ]

  binary_turn :
      (m : Member) (b : Body) {p' : Progress}
      → step_at tools limits 0 initial m b ≡ ok p'
      → (m.name ≡ codes "debian-binary") × (p'.state ≡ 1) × (p'.seen_data ≡ false)
  unfolding step_at
  binary_turn m b e = elim (Bool-cases (equal m.name (codes "debian-binary"))) [
    | inr different ↦ cc (rw different at e)
    | inl named ↦
        let (valid, read, done) = bind-eq-ok (validate_debian_binary m b) _ (rw named at e) in
        (
          (equal_iff m.name (codes "debian-binary")).0 named,
          ap (λ (r : Progress). r.state) (sym (ok-injective done)),
          ap (λ (r : Progress). r.seen_data) (sym (ok-injective done)),
        )
  ]

  package_of :
      (m : Member) {ms : List Member}
      → m.name ≡ codes "debian-binary"
      → FromControl ms
      → IsPackage (m ∷ ms)
  package_of m named from = record {
    binary = m;
    before_control = from.skipped;
    control = from.control;
    before_data = from.from_data.skipped;
    data_archive = from.from_data.data_archive;
    trailing = from.from_data.trailing;
    in_order =
        ap (λ r. m ∷ r) from.in_order
        ∙ ap (λ r. m ∷ (from.skipped ++ (from.control ∷ r))) from.from_data.in_order;
    binary_named = named;
    control_named = from.named;
    data_named = from.from_data.named;
    skipped_before_control = from.all_skipped;
    skipped_before_data = from.from_data.all_skipped;
  }

  pub walk-IsPackage :
      (s : Scan) {q : Progress}
      → walk tools limits initial s ≡ ok q
      → q.seen_data ≡ true
      → (ms : List Member) × Holds s ms × IsPackage ms
  walk-IsPackage (ended e) h t = cc (ap (λ (r : Progress). r.seen_data) (stopped e initial h).1, t)
  walk-IsPackage unfinished h t = unfold walk in cc
  walk-IsPackage (found m b rest) h t =
      let (p', e, h') = turn initial m b rest refl h in
      let (named, one, unseen) = binary_turn m b e in
      let (ms, held, from) = walk-control p' rest one unseen h' t in
      (m ∷ ms, Holds.member m b rest ms held, package_of m named from)
