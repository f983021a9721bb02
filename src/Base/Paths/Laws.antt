-- ===== src/Base/Paths/Laws.antt =====
-- Splitting, joining and cleaning of paths whose elements are plain.
use deb_s3_go.Base.Strings.{split, join, cons_head}
use deb_s3_go.Base.Tests.{◌==◌, Bool-cases}
use deb_s3_go.Base.Lists.{All}
use deb_s3_go.Base.Errors.{Bytes}
use Prim.Native.Nat.{ℕ}
use mathlib.Core.Bool.{false}
use mathlib.Core.Logic.{inl, inr}
use mathlib.Core.Path.{◌≡◌, refl, ap, ◌∙◌}
use mathlib.Core.List.{List, [], ◌∷◌, ◌++◌}
use native.Mathlib.Omega.{arith}

-- `s` does not hold the byte `c`.
abbrev pub Lacks : ℕ → Bytes → Type 0
Lacks c [] = Unit
Lacks c (x ∷ s) = ((x == c) ≡ false) × Lacks c s

pub split-Lacks : (c : ℕ) (s : Bytes) → Lacks c s → split c s ≡ s ∷ []
unfolding split
split-Lacks c [] h = refl
split-Lacks c (x ∷ s) h = ground (arith, split-Lacks c s h.1)

split-append : (c : ℕ) (s rest : Bytes) → Lacks c s → split c (s ++ (c ∷ rest)) ≡ s ∷ split c rest
unfolding split
split-append c [] rest h = ground arith
split-append c (x ∷ s) rest h = ground (arith, split-append c s rest h.1)

-- Splitting undoes joining, for elements without the separator.
pub split-join :
    (c : ℕ) (p : Bytes) (ps : List Bytes)
    → All (Lacks c) (p ∷ ps)
    → split c (join (c ∷ []) (p ∷ ps)) ≡ p ∷ ps
unfolding join
split-join c p [] h = split-Lacks c p h.0
split-join c p (q ∷ ps) h =
    split-append c p (join (c ∷ []) (q ∷ ps)) h.0 ∙ ap (◌∷◌ p) (split-join c q ps h.1)

cons_head-Lacks :
    (c x : ℕ) (ps : List Bytes)
    → (x == c) ≡ false
    → All (Lacks c) ps
    → All (Lacks c) (cons_head x ps)
cons_head-Lacks c x [] h k = ((h, tt), tt)
cons_head-Lacks c x (p ∷ ps) h k = ((h, k.0), k.1)

pub split-All-Lacks : (c : ℕ) (s : Bytes) → All (Lacks c) (split c s)
unfolding split
split-All-Lacks c [] = (tt, tt)
split-All-Lacks c (x ∷ s) = elim (Bool-cases (x == c)) [
  | inl e ↦ rw e (tt, split-All-Lacks c s)
  | inr e ↦ rw e (cons_head-Lacks c x (split c s) e (split-All-Lacks c s))
]

split-ne-nil : (c : ℕ) (s : Bytes) → (p : Bytes) × (ps : List Bytes) × (split c s ≡ p ∷ ps)
unfolding split
split-ne-nil c [] = ([], [], refl)
split-ne-nil c (x ∷ s) =
    let (p, ps, e) = split-ne-nil c s in
    elim (Bool-cases (x == c)) [
      | inl t ↦ ([], split c s, rw t refl)
      | inr t ↦ (x ∷ p, ps, rw (t, e) refl)
    ]

-- Splitting a text at a separator in it, whatever stands on both sides.
pub split-append_sep :
    (c : ℕ) (s rest : Bytes) → split c (s ++ (c ∷ rest)) ≡ split c s ++ split c rest
unfolding split
split-append_sep c [] rest = ground arith
split-append_sep c (x ∷ s) rest =
    let (p, ps, e) = split-ne-nil c s in
    elim (Bool-cases (x == c)) [
      | inl t ↦ rw (t, split-append_sep c s rest) refl
      | inr t ↦ rw (t, split-append_sep c s rest, e) refl
    ]
