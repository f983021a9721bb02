-- ===== src/Apt/Fields/Lines.antt =====
-- internal/apt/package_render.go: texts as lines, and the lines of a written field.
use deb_s3_go.Base.{
  ℕ, Bool, false, List, [], ◌∷◌, ◌++◌, Bytes, ◌≡◌, refl, ap, ◌∙◌, arith, Bool-cases, inl, inr, ◌⊎◌,
  All, map, append_assoc,
}
use deb_s3_go.Base.Strings.{
  codes, equal, split, replace_crlf, trim_suffix, trim_prefix, trim_space, trim_func, drop_while,
  is_space,
}
use deb_s3_go.Base.Paths.Laws.{Lacks, split-Lacks, split-append_sep}
use mathlib.Core.List.{reverse, reverse-reverse, reverse-cons}
use deb_s3_go.Apt.Control.{is_space_byte}
use deb_s3_go.Apt.Fields.{folded_line, folded_lines}

-- A text without line breaks.
pub record IsLine (s : Bytes) : Type 0 where
  pub no_newline : Lacks b'\n' s
  pub no_return : Lacks 13 s

abbrev pub unlines : List Bytes → Bytes
unlines [] = []
unlines (l ∷ ls) = l ++ (b'\n' ∷ unlines ls)

pub Lacks-append : (c : ℕ) (s t : Bytes) → Lacks c s → Lacks c t → Lacks c (s ++ t)
Lacks-append c [] t h k = k
Lacks-append c (x ∷ s) t h k = (h.0, Lacks-append c s t h.1 k)

pub split-unlines : (ls : List Bytes) → All IsLine ls → split b'\n' (unlines ls) ≡ ls ++ ([] ∷ [])
split-unlines [] h = unfold split in refl
split-unlines (l ∷ ls) h =
    split-append_sep b'\n' l (unlines ls)
    ∙ rw (split-Lacks b'\n' l h.0.no_newline) (ap (λ t. l ∷ t) (split-unlines ls h.1))

pub Lacks-unlines : (ls : List Bytes) → All IsLine ls → Lacks 13 (unlines ls)
Lacks-unlines [] h = tt
Lacks-unlines (l ∷ ls) h =
    Lacks-append 13 l (b'\n' ∷ unlines ls) h.0.no_return (refl, Lacks-unlines ls h.1)

pub replace_crlf-Lacks : (s : Bytes) → Lacks 13 s → replace_crlf s ≡ s
unfolding replace_crlf
replace_crlf-Lacks [] h = refl
replace_crlf-Lacks (c ∷ []) h = refl
replace_crlf-Lacks (c ∷ d ∷ s) h = ground (arith, replace_crlf-Lacks (d ∷ s) h.1, h.0)

pub Lacks-reverse : (c : ℕ) (s : Bytes) → Lacks c s → Lacks c (reverse s)
Lacks-reverse c [] h = tt
Lacks-reverse c (x ∷ s) h =
    rw reverse-cons (Lacks-append c (reverse s) (x ∷ []) (Lacks-reverse c s h.1) (h.0, tt))

-- A line without `\r` is left as it is by `TrimSuffix(line, "\r")`.
pub trim_suffix-Lacks : (s : Bytes) → Lacks 13 s → trim_suffix s (13 ∷ []) ≡ s
unfolding trim_suffix
trim_suffix-Lacks s h =
    ap reverse (unprefixed (reverse s) (Lacks-reverse 13 s h)) ∙ reverse-reverse s
  where
    unprefixed : (t : Bytes) → Lacks 13 t → trim_prefix t (13 ∷ []) ≡ t
    unprefixed [] k = unfold trim_prefix in refl
    unprefixed (x ∷ t) k = unfold trim_prefix in ground (arith, k.0)

-- A value line after the first that a reader gets back: a blank line, or text that neither begins
-- with white space nor is a single dot.
abbrev pub StartsWithText : Bytes → Type 0
StartsWithText [] = ⊥
StartsWithText (c ∷ l) = is_space_byte c ≡ false

pub record IsContinued (l : Bytes) : Type 0 where
  pub line : IsLine l
  pub starts : (l ≡ []) ⊎ StartsWithText l
  pub not_dot : equal l (codes ".") ≡ false

-- The line that `writeField` writes for it, without the line break.
abbrev pub shown : Bytes → Bytes
shown [] = codes " ."
shown (c ∷ l) = b' ' ∷ c ∷ l

drop_while-append :
    (p : ℕ → Bool) (s : Bytes) (c : ℕ) (t : Bytes)
    → p c ≡ false
    → (r : Bytes) × (d : ℕ) × (drop_while p (s ++ (c ∷ t)) ≡ d ∷ r)
unfolding drop_while
drop_while-append p [] c t h = (t, c, rw h refl)
drop_while-append p (x ∷ s) c t h = elim (Bool-cases (p x)) [
  | inl e ↦ rw e (drop_while-append p s c t h)
  | inr e ↦ (s ++ (c ∷ t), x, rw e refl)
]

-- Text that does not begin with white space is not blank.
trim_space-StartsWithText :
    (c : ℕ) (l : Bytes) → is_space_byte c ≡ false → equal (trim_space (c ∷ l)) [] ≡ false
unfolding trim_func
trim_space-StartsWithText c l h =
    let plain : is_space c ≡ false = ground (arith, h) in
    let (r, d, e) = drop_while-append is_space (reverse l) c [] plain in
    let kept : drop_while is_space (c ∷ l) ≡ c ∷ l = unfold drop_while in rw plain refl in
    let last = ap (drop_while is_space) (ap reverse kept ∙ reverse-cons c l) ∙ e in
    ap (λ t. equal (reverse t) []) last ∙ rw (reverse-cons d r) (not_nil (reverse r) d)
  where
    not_nil : (t : Bytes) (d : ℕ) → equal (t ++ (d ∷ [])) [] ≡ false
    not_nil [] d = unfold equal in refl
    not_nil (x ∷ t) d = unfold equal in refl

folded_line-shown : (l : Bytes) → IsContinued l → folded_line l ≡ shown l ++ (b'\n' ∷ [])
unfolding folded_line
folded_line-shown [] h = unfold trim_func drop_while equal in refl
folded_line-shown (c ∷ l) h = elim h.starts [
  | inl e ↦ cc
  | inr e ↦ rw (trim_space-StartsWithText c l e) refl
]

pub folded_lines-unlines :
    (ls : List Bytes) → All IsContinued ls → folded_lines ls ≡ unlines (map shown ls)
unfolding folded_lines
folded_lines-unlines [] h = refl
folded_lines-unlines (l ∷ ls) h =
    rw (folded_line-shown l h.0, folded_lines-unlines ls h.1)
      (append_assoc (shown l) (b'\n' ∷ []) _)
