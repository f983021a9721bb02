-- ===== src/Base/Strings.antt =====
-- Go's `strings` functions on byte strings, as far as the program uses them.
use Prim.Native.Nat.{ℕ, suc, ◌+◌}
use Prim.Native.Char.{code}
use Prim.Native.String.{String}
use mathlib.Core.Path.{◌≡◌, refl}
use mathlib.Core.Logic.{◌↔◌}
use mathlib.Core.Bool.{Bool, true, false, ◌&&◌, ◌||◌}
use mathlib.Core.List.{List, [], ◌∷◌, ◌++◌, reverse}
use mathlib.Core.Option.{Option, none, some}
use native.Mathlib.Omega.{arith}
use deb_s3_go.Base.Tests.{◌==◌, leb, ltb, if◌then◌else◌}
use deb_s3_go.Base.Errors.{Bytes}

-- The bytes of an ASCII literal.
abbrev pub codes : String → Bytes
codes String.[] = []
codes (String.◌∷◌ c s) = code c ∷ codes s

-- `a == b` on strings
unfoldable pub equal : Bytes → Bytes → Bool
equal [] [] = true
equal (x ∷ xs) (y ∷ ys) = x == y && equal xs ys
equal _ _ = false

pub equal_iff : (s t : Bytes) → (equal s t ≡ true) ↔ (s ≡ t)
unfolding equal
equal_iff [] [] = ground arith
equal_iff [] (y ∷ t) = ground arith
equal_iff (x ∷ s) [] = ground arith
equal_iff (x ∷ s) (y ∷ t) = ground (arith, equal_iff s t)

pub equal_refl : (a : Bytes) → equal a a ≡ true
equal_refl a = (equal_iff a a).1 refl

-- `a < b` on strings, bytewise
unfoldable pub less : Bytes → Bytes → Bool
less [] [] = false
less [] (y ∷ ys) = true
less (x ∷ xs) [] = false
less (x ∷ xs) (y ∷ ys) = ltb x y || (x == y && less xs ys)

-- `strings.HasPrefix(s, p)`
unfoldable pub has_prefix : Bytes → Bytes → Bool
has_prefix s [] = true
has_prefix [] (y ∷ p) = false
has_prefix (x ∷ s) (y ∷ p) = x == y && has_prefix s p

-- `strings.TrimPrefix(s, p)`
abbrev strip : Bytes → Bytes → Bytes
strip s [] = s
strip [] (y ∷ p) = []
strip (x ∷ s) (y ∷ p) = strip s p

unfoldable pub trim_prefix : Bytes → Bytes → Bytes
unfolding has_prefix
trim_prefix s p = if has_prefix s p then strip s p else s

unfoldable pub has_suffix : Bytes → Bytes → Bool
unfolding has_prefix
has_suffix s p = has_prefix (reverse s) (reverse p)

unfoldable pub trim_suffix : Bytes → Bytes → Bytes
unfolding trim_prefix
trim_suffix s p = reverse (trim_prefix (reverse s) (reverse p))

-- `strings.IndexByte(s, c)`, with `none` for -1
unfoldable pub index_byte : ℕ → Bytes → Option ℕ
index_byte c [] = none
index_byte c (x ∷ s) =
    if x == c then some 0 else elim (index_byte c s) [ none ↦ none | some n ↦ some (suc n) ]

-- `strings.Contains(s, string(c))`
unfoldable pub contains_byte : ℕ → Bytes → Bool
contains_byte c [] = false
contains_byte c (x ∷ s) = x == c || contains_byte c s

unfoldable pub drop_while : (ℕ → Bool) → Bytes → Bytes
drop_while p [] = []
drop_while p (x ∷ s) = if p x then drop_while p s else x ∷ s

-- `strings.TrimFunc(s, p)`
unfoldable pub trim_func : (ℕ → Bool) → Bytes → Bytes
unfolding drop_while
trim_func p s = reverse (drop_while p (reverse (drop_while p s)))

-- The ASCII white space of `strings.TrimSpace` and `strings.Fields`.
abbrev pub is_space : ℕ → Bool
is_space c = c == 32 || (leb 9 c && leb c 13)

abbrev pub trim_space : Bytes → Bytes
trim_space s = trim_func is_space s

-- `strings.Trim(s, string(c))`
abbrev pub trim_byte : ℕ → Bytes → Bytes
trim_byte c s = trim_func (λ x. x == c) s

-- `strings.Split(s, string(c))`
abbrev pub cons_head : ℕ → List Bytes → List Bytes
cons_head x [] = (x ∷ []) ∷ []
cons_head x (p ∷ ps) = (x ∷ p) ∷ ps

unfoldable pub split : ℕ → Bytes → List Bytes
split c [] = [] ∷ []
split c (x ∷ s) = let rest = split c s in if x == c then [] ∷ rest else cons_head x rest

-- `strings.Join(parts, sep)`
unfoldable pub join : Bytes → List Bytes → Bytes
join sep [] = []
join sep (p ∷ []) = p
join sep (p ∷ q ∷ ps) = p ++ (sep ++ join sep (q ∷ ps))

abbrev to_lower_byte : ℕ → ℕ
to_lower_byte c = if leb b'A' c && leb c b'Z' then c + 32 else c

-- `strings.ToLower`, on ASCII
unfoldable pub to_lower : Bytes → Bytes
to_lower [] = []
to_lower (c ∷ s) = to_lower_byte c ∷ to_lower s

-- `strings.Contains` of a text in a list of texts (`slices.Contains`)
unfoldable pub member : Bytes → List Bytes → Bool
unfolding equal
member a [] = false
member a (x ∷ xs) = equal x a || member a xs

pub has_prefix-append : (p s : Bytes) → has_prefix (p ++ s) p ≡ true
unfolding has_prefix
has_prefix-append [] s = refl
has_prefix-append (x ∷ p) s = ground (arith, has_prefix-append p s)

pub trim_prefix-append : (p s : Bytes) → trim_prefix (p ++ s) p ≡ s
unfolding trim_prefix
trim_prefix-append p s = rw (has_prefix-append p s) (go p)
  where
    go : (p : Bytes) → strip (p ++ s) p ≡ s
    go [] = refl
    go (x ∷ p) = go p

-- A text with a prefix is the prefix and what `TrimPrefix` leaves.
pub append-trim_prefix : (p s : Bytes) → has_prefix s p ≡ true → s ≡ p ++ trim_prefix s p
unfolding trim_prefix
append-trim_prefix p s h = rw h (go p s h)
  where
    go : (p s : Bytes) → has_prefix s p ≡ true → s ≡ p ++ strip s p
    go [] s h = refl
    go (y ∷ p) [] h = cc
    go (y ∷ p) (x ∷ s) h = ground (arith, go p s)

pub less_asymm : (a b : Bytes) → less a b ≡ true → less b a ≡ false
unfolding less
less_asymm [] [] h = refl
less_asymm [] (y ∷ b) h = refl
less_asymm (x ∷ a) [] h = cc
less_asymm (x ∷ a) (y ∷ b) h = ground (arith, less_asymm a b)

-- `strings.ReplaceAll(s, "\r\n", "\n")`
unfoldable pub replace_crlf : Bytes → Bytes
replace_crlf [] = []
replace_crlf (c ∷ []) = c ∷ []
replace_crlf (c ∷ d ∷ s) =
    let skipped = b'\n' ∷ replace_crlf s in
    let kept = c ∷ replace_crlf (d ∷ s) in if c == 13 && d == b'\n' then skipped else kept

-- Splitting at each byte that passes a test.
unfoldable pub split_func : (ℕ → Bool) → Bytes → List Bytes
split_func p [] = [] ∷ []
split_func p (x ∷ s) = let rest = split_func p s in if p x then [] ∷ rest else cons_head x rest

abbrev pub without_empty : List Bytes → List Bytes
without_empty [] = []
without_empty ([] ∷ ps) = without_empty ps
without_empty ((c ∷ p) ∷ ps) = (c ∷ p) ∷ without_empty ps

-- `strings.FieldsFunc`, and `strings.Fields` on ASCII
unfoldable pub fields_func : (ℕ → Bool) → Bytes → List Bytes
unfolding split_func
fields_func p s = without_empty (split_func p s)

abbrev pub fields : Bytes → List Bytes
fields s = fields_func is_space s

-- The longest prefix of bytes that pass a test, and the rest.
unfoldable pub span : (ℕ → Bool) → Bytes → Bytes × Bytes
span p [] = ([], [])
span p (c ∷ s) = let (a, b) = span p s in if p c then (c ∷ a, b) else ([], c ∷ s)

-- `strings.Contains(s, p)`
unfoldable pub contains : Bytes → Bytes → Bool
unfolding has_prefix
contains [] p = has_prefix [] p
contains (x ∷ s) p = has_prefix (x ∷ s) p || contains s p
