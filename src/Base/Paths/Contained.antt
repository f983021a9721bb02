-- ===== src/Base/Paths/Contained.antt =====
-- Go's `path.Clean`: where a cleaned path can lead.
use deb_s3_go.Base.Strings.{equal, equal_iff, split, join, has_prefix}
use deb_s3_go.Base.Tests.{Bool-cases}
use deb_s3_go.Base.Lists.{All, All-append}
use deb_s3_go.Base.Errors.{Bytes}
use deb_s3_go.Base.Paths.{
  dot, dot_dot, slash, is_abs, back_up, clean_step, clean_parts, rebuild, clean,
}
use deb_s3_go.Base.Paths.Laws.{Lacks, split-join, split-All-Lacks, split-append_sep}
use deb_s3_go.Base.Paths.Elements.{
  IsPlain, NotUp, kept, elements, kept-IsPlain, clean_parts-NotUp, kept-All-IsPlain,
}
use mathlib.Core.Bool.{Bool, true, false, ◌||◌}
use mathlib.Core.Logic.{◌⊎◌, inl, inr}
use mathlib.Core.Path.{◌≡◌, refl, ap, ◌∙◌}
use mathlib.Core.List.{
  List, [], ◌∷◌, ◌++◌, reverse, append-nil, append_assoc, reverse-cons, reverse-append,
}

abbrev Up : Bytes → Type 0
Up s = equal s dot_dot ≡ true

-- The elements so far, last first: plain ones stand on leading `..`s.
abbrev Climbs : List Bytes → Type 0
Climbs [] = Unit
Climbs (p ∷ ps) = (IsPlain p × Climbs ps) ⊎ (Up p × All Up ps)

All-Up-Climbs : (ps : List Bytes) → All Up ps → Climbs ps
All-Up-Climbs [] h = tt
All-Up-Climbs (p ∷ ps) h = inr (h.0, h.1)

back_up-Climbs : (r : Bool) (st : List Bytes) → Climbs st → Climbs (back_up r st)
back_up-Climbs true [] h = tt
back_up-Climbs false [] h = inr ((equal_iff _ _).1 refl, tt)
back_up-Climbs r (p ∷ ps) (inl h) = rw h.0.ne_dot_dot h.1
back_up-Climbs r (p ∷ ps) (inr h) = rw h.0 (inr ((equal_iff _ _).1 refl, (h.0, h.1)))

clean_step-Climbs :
    (r : Bool) (st : List Bytes) (p : Bytes) → Lacks b'/' p → Climbs st → Climbs (clean_step r st p)
unfolding clean_step
clean_step-Climbs r st p l h = elim (Bool-cases (equal p [])) [
  | inl e ↦ rw e h
  | inr e ↦ elim (Bool-cases (equal p dot)) [
    | inl d ↦ rw (e, d) h
    | inr d ↦ elim (Bool-cases (equal p dot_dot)) [
      | inl u ↦ rw (e, d, u) (back_up-Climbs r st h)
      | inr u ↦
          rw (e, d, u) (inl (record { ne_nil = e; ne_dot = d; ne_dot_dot = u; no_slash = l }, h))
    ]
  ]
]

clean_parts-Climbs :
    (r : Bool) (st ps : List Bytes) → All (Lacks b'/') ps → Climbs st → Climbs (clean_parts r st ps)
unfolding clean_parts
clean_parts-Climbs r st [] l h = h
clean_parts-Climbs r st (p ∷ ps) l h =
    clean_parts-Climbs r (clean_step r st p) ps l.1 (clean_step-Climbs r st p l.0 h)

-- At the root there is no `..` at all.
abbrev AllPlain : List Bytes → Type 0
AllPlain = All IsPlain

clean_step-rooted :
    (st : List Bytes) (p : Bytes) → Lacks b'/' p → AllPlain st → AllPlain (clean_step true st p)
unfolding clean_step
clean_step-rooted [] p l h = elim (Bool-cases (equal p [])) [
  | inl e ↦ rw e tt
  | inr e ↦ elim (Bool-cases (equal p dot)) [
    | inl d ↦ rw (e, d) tt
    | inr d ↦ elim (Bool-cases (equal p dot_dot)) [
      | inl u ↦ rw (e, d, u) tt
      | inr u ↦ rw (e, d, u) (record { ne_nil = e; ne_dot = d; ne_dot_dot = u; no_slash = l }, tt)
    ]
  ]
]
clean_step-rooted (t ∷ st) p l h = elim (Bool-cases (equal p [])) [
  | inl e ↦ rw e h
  | inr e ↦ elim (Bool-cases (equal p dot)) [
    | inl d ↦ rw (e, d) h
    | inr d ↦ elim (Bool-cases (equal p dot_dot)) [
      | inl u ↦ rw (e, d, u, h.0.ne_dot_dot) h.1
      | inr u ↦ rw (e, d, u) (record { ne_nil = e; ne_dot = d; ne_dot_dot = u; no_slash = l }, h)
    ]
  ]
]

clean_parts-rooted :
    (st ps : List Bytes) → All (Lacks b'/') ps → AllPlain st → AllPlain (clean_parts true st ps)
unfolding clean_parts
clean_parts-rooted st [] l h = h
clean_parts-rooted st (p ∷ ps) l h =
    clean_parts-rooted (clean_step true st p) ps l.1 (clean_step-rooted st p l.0 h)

All-reverse : (P : Bytes → Type 0) (ps : List Bytes) → All P ps → All P (reverse ps)
All-reverse P [] h = tt
All-reverse P (p ∷ ps) h =
    rw reverse-cons (All-append P (reverse ps) (p ∷ []) (All-reverse P ps h.1) (h.0, tt))

reverse-All-Up :
    (p : Bytes) (ps : List Bytes)
    → Up p
    → All Up ps
    → (rest : List Bytes) × (reverse (p ∷ ps) ≡ dot_dot ∷ rest)
reverse-All-Up p [] u h = ([], ap (λ x. x ∷ []) ((equal_iff p dot_dot).0 u))
reverse-All-Up p (q ∷ ps) u h =
    let (rest, e) = reverse-All-Up q ps h.0 h.1 in
    (rest ++ (p ∷ []), rw (reverse-cons p (q ∷ ps), e) refl)

Climbs-cases :
    (st : List Bytes)
    → Climbs st
    → (AllPlain st) ⊎ ((rest : List Bytes) × (reverse st ≡ dot_dot ∷ rest))
Climbs-cases [] h = inl tt
Climbs-cases (p ∷ ps) (inr h) = inr (reverse-All-Up p ps h.0 h.1)
Climbs-cases (p ∷ ps) (inl h) = elim (Climbs-cases ps h.1) [
  | inl a ↦ inl (h.0, a)
  | inr (rest, e) ↦ inr (rest ++ (p ∷ []), rw (reverse-cons p ps, e) refl)
]

-- What the program tests after cleaning: the path is `..` or begins with `../`.
abbrev pub leaves_root : Bytes → Bool
leaves_root p = equal p dot_dot || has_prefix p (b'.' ∷ b'.' ∷ b'/' ∷ [])

rebuild-dot_dot : (rest : List Bytes) → leaves_root (rebuild false (dot_dot ∷ rest)) ≡ true
unfolding join has_prefix equal
rebuild-dot_dot [] = refl
rebuild-dot_dot (q ∷ rest) = refl

-- The text of plain elements, taken apart again.
pub All-NotUp : (ps : List Bytes) → AllPlain ps → All NotUp ps
All-NotUp [] h = tt
All-NotUp (p ∷ ps) h = (h.0.ne_dot_dot, All-NotUp ps h.1)

pub All-Lacks : (ps : List Bytes) → AllPlain ps → All (Lacks b'/') ps
All-Lacks [] h = tt
All-Lacks (p ∷ ps) h = (h.0.no_slash, All-Lacks ps h.1)

pub split-rebuild-NotUp :
    (r : Bool) (ps : List Bytes) → AllPlain ps → All NotUp (split b'/' (rebuild r ps))
split-rebuild-NotUp false [] h = unfold split equal in (refl, tt)
split-rebuild-NotUp false (p ∷ ps) h =
    rw (split-join b'/' p ps (All-Lacks (p ∷ ps) h)) (All-NotUp (p ∷ ps) h)
split-rebuild-NotUp true [] h = unfold split equal join in (refl, (refl, tt))
split-rebuild-NotUp true (p ∷ ps) h =
    rw (split-append_sep b'/' [] (join slash (p ∷ ps)), split-join b'/' p ps (All-Lacks (p ∷ ps) h))
      (unfold split equal in (refl, All-NotUp (p ∷ ps) h))

pub elements-rebuild : (r : Bool) (ps : List Bytes) → AllPlain ps → elements (rebuild r ps) ≡ ps
unfolding elements
elements-rebuild false [] h = unfold split equal in refl
elements-rebuild false (p ∷ ps) h =
    rw (split-join b'/' p ps (All-Lacks (p ∷ ps) h)) (kept-IsPlain (p ∷ ps) h)
elements-rebuild true [] h = unfold split equal join in refl
elements-rebuild true (p ∷ ps) h =
    rw (split-append_sep b'/' [] (join slash (p ∷ ps)), split-join b'/' p ps (All-Lacks (p ∷ ps) h))
      (unfold split equal in kept-IsPlain (p ∷ ps) h)

-- A path inside its root: it is cleaned, and splits into plain elements.
pub record IsContained (p : Bytes) : Type 0 where
  pub plain : All IsPlain (elements p)
  pub not_up : All NotUp (split b'/' p)

rebuild-IsContained : (r : Bool) (ps : List Bytes) → AllPlain ps → IsContained (rebuild r ps)
rebuild-IsContained r ps h = record {
  plain = rw (elements-rebuild r ps h) h;
  not_up = split-rebuild-NotUp r ps h;
}

clean-IsContained_at :
    (r : Bool) (ps : List Bytes)
    → All (Lacks b'/') ps
    → leaves_root (rebuild r (reverse (clean_parts r [] ps))) ≡ false
    → IsContained (rebuild r (reverse (clean_parts r [] ps)))
clean-IsContained_at true ps l h =
    rebuild-IsContained true _ (All-reverse IsPlain _ (clean_parts-rooted [] ps l tt))
clean-IsContained_at false ps l h =
    elim (Climbs-cases (clean_parts false [] ps) (clean_parts-Climbs false [] ps l tt)) [
      | inl a ↦ rebuild-IsContained false _ (All-reverse IsPlain _ a)
      | inr (rest, e) ↦ cc (ap (λ x. leaves_root (rebuild false x)) e, rebuild-dot_dot rest, h)
    ]

-- A cleaned path that passes the program's test is contained.
pub clean-IsContained : (p : Bytes) → leaves_root (clean p) ≡ false → IsContained (clean p)
unfolding clean
clean-IsContained p h = clean-IsContained_at (is_abs p) (split b'/' p) (split-All-Lacks b'/' p) h

-- Cleaning a path without `..` keeps its elements.
pub elements-clean : (p : Bytes) → All NotUp (split b'/' p) → elements (clean p) ≡ elements p
unfolding clean
elements-clean p h =
    rw (clean_parts-NotUp (is_abs p) [] (split b'/' p) h, append-nil)
      (rw mathlib.Core.List.reverse-reverse (
        elements-rebuild (is_abs p) (kept (split b'/' p))
          (kept-All-IsPlain (split b'/' p) (split-All-Lacks b'/' p) h)
        ∙ unfold elements in refl))
