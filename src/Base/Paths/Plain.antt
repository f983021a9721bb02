-- ===== src/Base/Paths/Plain.antt =====
-- Go's `path` package on paths of plain elements.
use deb_s3_go.Base.Strings.{
  equal, equal_iff, split, join, append-trim_prefix, trim_byte, trim_func, drop_while, trim_prefix,
}
use deb_s3_go.Base.Tests.{◌==◌, Bool-cases}
use deb_s3_go.Base.Lists.{All}
use deb_s3_go.Base.Errors.{Bytes}
use deb_s3_go.Base.Paths.{dot_dot, slash, is_abs, clean}
use deb_s3_go.Base.Paths.Laws.{Lacks, split-join, split-append_sep}
use deb_s3_go.Base.Paths.Elements.{IsPlain, kept-IsPlain, clean_parts-NotUp}
use deb_s3_go.Base.Paths.Contained.{leaves_root, All-NotUp, All-Lacks}
use mathlib.Core.Bool.{true, false}
use mathlib.Core.Logic.{inl, inr}
use mathlib.Core.Path.{◌≡◌, refl, sym, ap, ◌∙◌}
use mathlib.Core.List.{
  List, [], ◌∷◌, ◌++◌, reverse, append-nil, reverse-cons, reverse-append, reverse-reverse,
}
use native.Mathlib.Omega.{arith}

-- A text that begins with some other byte than a slash.
abbrev pub StartsInside : Bytes → Type 0
StartsInside [] = ⊥
StartsInside (x ∷ s) = (x == b'/') ≡ false

StartsInside-append : (s t : Bytes) → StartsInside s → StartsInside (s ++ t)
StartsInside-append [] t h = absurd h
StartsInside-append (x ∷ s) t h = h

StartsInside-plain : (p : Bytes) → IsPlain p → StartsInside p
unfolding equal
StartsInside-plain [] h = cc (h.ne_nil)
StartsInside-plain (x ∷ p) h = h.no_slash.0

pub StartsInside-join :
    (p : Bytes) (ps : List Bytes) → All IsPlain (p ∷ ps) → StartsInside (join slash (p ∷ ps))
unfolding join
StartsInside-join p [] h = StartsInside-plain p h.0
StartsInside-join p (q ∷ ps) h = StartsInside-append p _ (StartsInside-plain p h.0)

Lacks-reverse : (s : Bytes) → Lacks b'/' s → Lacks b'/' (reverse s)
Lacks-reverse [] h = tt
Lacks-reverse (x ∷ s) h = rw reverse-cons (go (reverse s) (Lacks-reverse s h.1))
  where
    go : (t : Bytes) → Lacks b'/' t → Lacks b'/' (t ++ x ∷ [])
    go [] k = (h.0, tt)
    go (y ∷ t) k = (k.0, go t k.1)

reverse-plain : (p : Bytes) → IsPlain p → StartsInside (reverse p)
reverse-plain p h = go (reverse p) (reverse-reverse p) (Lacks-reverse p h.no_slash)
  where
    go : (t : Bytes) → reverse t ≡ p → Lacks b'/' t → StartsInside t
    go [] e l = cc ((equal_iff p []).1 (sym e), h.ne_nil)
    go (y ∷ t) e l = l.0

pub StartsInside-reverse-join :
    (p : Bytes) (ps : List Bytes)
    → All IsPlain (p ∷ ps)
    → StartsInside (reverse (join slash (p ∷ ps)))
unfolding join
StartsInside-reverse-join p [] h = reverse-plain p h.0
StartsInside-reverse-join p (q ∷ ps) h =
    rw (reverse-append p (b'/' ∷ join slash (q ∷ ps)), reverse-cons b'/' (join slash (q ∷ ps)))
      (StartsInside-append _ _ (StartsInside-append _ _ (StartsInside-reverse-join q ps h.1)))

drop_while-StartsInside : (s : Bytes) → StartsInside s → drop_while (λ x. x == b'/') s ≡ s
unfolding drop_while
drop_while-StartsInside [] h = refl
drop_while-StartsInside (x ∷ s) h = rw h refl

pub trim_byte-join :
    (p : Bytes) (ps : List Bytes)
    → All IsPlain (p ∷ ps)
    → trim_byte b'/' (join slash (p ∷ ps)) ≡ join slash (p ∷ ps)
unfolding trim_func
trim_byte-join p ps h =
    ap (λ s. reverse (drop_while (λ x. x == b'/') (reverse s)))
      (drop_while-StartsInside _ (StartsInside-join p ps h))
    ∙ ap reverse (drop_while-StartsInside _ (StartsInside-reverse-join p ps h))
    ∙ reverse-reverse _

pub trim_prefix-StartsInside : (s : Bytes) → StartsInside s → trim_prefix s slash ≡ s
unfolding trim_prefix
trim_prefix-StartsInside [] h = refl
trim_prefix-StartsInside (x ∷ s) h = ground arith

is_abs-StartsInside : (s : Bytes) → StartsInside s → is_abs s ≡ false
is_abs-StartsInside [] h = refl
is_abs-StartsInside (x ∷ s) h = h

pub split-join-IsPlain :
    (p : Bytes) (ps : List Bytes) → All IsPlain (p ∷ ps) → split b'/' (join slash (p ∷ ps)) ≡ p ∷ ps
split-join-IsPlain p ps h = split-join b'/' p ps (All-Lacks (p ∷ ps) h)

-- `path.Clean` leaves such a path as it is.
pub clean-join :
    (p : Bytes) (ps : List Bytes)
    → All IsPlain (p ∷ ps)
    → clean (join slash (p ∷ ps)) ≡ join slash (p ∷ ps)
unfolding clean
clean-join p ps h =
    rw (is_abs-StartsInside _ (StartsInside-join p ps h), split-join-IsPlain p ps h)
      (rw (clean_parts-NotUp false [] (p ∷ ps) (All-NotUp (p ∷ ps) h), kept-IsPlain (p ∷ ps) h)
        (rw (append-nil (reverse (p ∷ ps)), reverse-reverse (p ∷ ps)) refl))

leaves_root-split :
    (s : Bytes) → leaves_root s ≡ true → (rest : List Bytes) × (split b'/' s ≡ dot_dot ∷ rest)
leaves_root-split s h = elim (Bool-cases (equal s dot_dot)) [
  | inl e ↦ ([], rw ((equal_iff s dot_dot).0 e) (unfold split in refl))
  | inr e ↦
      let same = append-trim_prefix (b'.' ∷ b'.' ∷ b'/' ∷ []) s (rw e at h) in
      let tail = trim_prefix s (b'.' ∷ b'.' ∷ b'/' ∷ []) in
      (
        split b'/' tail,
        ap (split b'/') same ∙ split-append_sep b'/' dot_dot tail ∙ unfold split in refl,
      )
]

pub leaves_root-join :
    (p : Bytes) (ps : List Bytes) → All IsPlain (p ∷ ps) → leaves_root (join slash (p ∷ ps)) ≡ false
leaves_root-join p ps h = elim (Bool-cases (leaves_root (join slash (p ∷ ps)))) [
  | inr e ↦ e
  | inl e ↦
      let (rest, s) = leaves_root-split _ e in
      ground (arith, split-join-IsPlain p ps h, s, h.0.ne_dot_dot, equal_iff p dot_dot)
]
