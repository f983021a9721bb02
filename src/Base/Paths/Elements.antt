-- ===== src/Base/Paths/Elements.antt =====
-- The elements of a path, and what `path.Clean` makes of them.
use deb_s3_go.Base.Strings.{equal, split}
use deb_s3_go.Base.Tests.{if◌then◌else◌, Bool-cases}
use deb_s3_go.Base.Lists.{All}
use deb_s3_go.Base.Errors.{Bytes}
use deb_s3_go.Base.Paths.{dot, dot_dot, clean_step, clean_parts}
use deb_s3_go.Base.Paths.Laws.{Lacks}
use mathlib.Core.Bool.{Bool, false, ◌||◌}
use mathlib.Core.Logic.{inl, inr}
use mathlib.Core.Path.{◌≡◌, refl, sym, ◌∙◌}
use mathlib.Core.List.{List, [], ◌∷◌, ◌++◌, reverse, append_assoc, reverse-cons}
use native.Mathlib.Omega.{arith}

-- An element that `path.Clean` leaves as it is.
pub record IsPlain (s : Bytes) : Type 0 where
  pub ne_nil : equal s [] ≡ false
  pub ne_dot : equal s dot ≡ false
  pub ne_dot_dot : equal s dot_dot ≡ false
  pub no_slash : Lacks b'/' s

abbrev pub NotUp : Bytes → Type 0
NotUp s = equal s dot_dot ≡ false

-- The elements of a split path without the empty ones and the dots.
abbrev pub kept : List Bytes → List Bytes
kept [] = []
kept (p ∷ ps) = if equal p [] || equal p dot then kept ps else p ∷ kept ps

unfoldable pub elements : Bytes → List Bytes
elements p = kept (split b'/' p)

pub kept-append : (ps qs : List Bytes) → kept (ps ++ qs) ≡ kept ps ++ kept qs
kept-append [] qs = refl
kept-append (p ∷ ps) qs = ground (arith, kept-append ps qs)

pub kept-IsPlain : (ps : List Bytes) → All IsPlain ps → kept ps ≡ ps
kept-IsPlain [] h = refl
kept-IsPlain (p ∷ ps) h = ground (arith, h.0.ne_nil, h.0.ne_dot, kept-IsPlain ps h.1)

pub kept-All-IsPlain :
    (ps : List Bytes) → All (Lacks b'/') ps → All NotUp ps → All IsPlain (kept ps)
kept-All-IsPlain [] l u = tt
kept-All-IsPlain (p ∷ ps) l u = elim (Bool-cases (equal p [])) [
  | inl e ↦ rw e (kept-All-IsPlain ps l.1 u.1)
  | inr e ↦ elim (Bool-cases (equal p dot)) [
    | inl d ↦ rw (e, d) (kept-All-IsPlain ps l.1 u.1)
    | inr d ↦
        rw (e, d)
          (
            record { ne_nil = e; ne_dot = d; ne_dot_dot = u.0; no_slash = l.0 },
            kept-All-IsPlain ps l.1 u.1,
          )
  ]
]

-- Without `..`, cleaning keeps the elements in order.
pub clean_parts-NotUp :
    (r : Bool) (st ps : List Bytes) → All NotUp ps → clean_parts r st ps ≡ reverse (kept ps) ++ st
unfolding clean_parts clean_step
clean_parts-NotUp r st [] h = refl
clean_parts-NotUp r st (p ∷ ps) h = elim (Bool-cases (equal p [])) [
  | inl e ↦ rw e (clean_parts-NotUp r st ps h.1)
  | inr e ↦ elim (Bool-cases (equal p dot)) [
    | inl d ↦ rw (e, d) (clean_parts-NotUp r st ps h.1)
    | inr d ↦
        rw (e, d, h.0)
          (clean_parts-NotUp r (p ∷ st) ps h.1
            ∙ sym (rw reverse-cons (append_assoc (reverse (kept ps)) (p ∷ []) st)))
  ]
]
