-- ===== src/Deb/Ar/Written.antt =====
-- internal/deb/ar.go: archives as the ar format lays them out, read back.
use mathlib.Core.List.{reverse, reverse-append, reverse-reverse, reverse-cons}
use deb_s3_go.Base.{
  ℕ, zero, suc, ◌-◌, ◌%◌, ◌≤◌, true, false, ◌||◌, List, [], ◌∷◌, ◌++◌, some, Bytes, eof, length,
  length-append, ◌≡◌, refl, ap, ◌∙◌, arith,
}
use deb_s3_go.Base.Strings.{
  codes, equal, has_prefix, drop_while, is_space, trim_func, trim_space, trim_suffix,
}
use deb_s3_go.Base.Int.{pos, parse_int}
use deb_s3_go.Deb.Ar.{Scan, ended, found}

-- A text that `TrimSpace` keeps: neither its first nor its last byte is a space.
pub record IsTrimmed (s : Bytes) : Type 0 where
  pub first : ℕ
  pub more : Bytes
  pub starts : s ≡ first ∷ more
  pub first_kept : is_space first ≡ false
  pub last : ℕ
  pub init : Bytes
  pub ends : reverse s ≡ last ∷ init
  pub last_kept : is_space last ≡ false

abbrev pub repeated : ℕ → ℕ → Bytes
repeated c zero = []
repeated c (suc n) = c ∷ repeated c n

-- A text in a field of so many bytes.
abbrev pub padded : ℕ → Bytes → Bytes
padded n s = s ++ repeated b' ' (n - length s)

-- A member as it is written: the name, with the slash that some writers put behind it, the four
-- fields that the reader leaves out, the size in decimal, and the body.
pub record Entry : Type 0 where
  pub name_text : Bytes
  pub details : Bytes
  pub size_text : Bytes
  pub body : Bytes

abbrev pub name_of : Entry → Bytes
name_of e = trim_suffix e.name_text (codes "/")

abbrev pub header_of : Entry → Bytes
header_of e = padded 16 e.name_text ++ (e.details ++ (padded 10 e.size_text ++ codes "`\n"))

abbrev pub written : Entry → Bytes
written e = header_of e ++ (e.body ++ repeated b'\n' (length e.body % 2))

abbrev pub written_all : List Entry → Bytes
written_all [] = []
written_all (e ∷ es) = written e ++ written_all es

pub record IsEntry (e : Entry) : Type 0 where
  pub name_trimmed : IsTrimmed e.name_text
  pub name_fits : length e.name_text ≤ 16
  pub name_given : equal (name_of e) [] ≡ false
  pub name_plain :
      (equal (name_of e) (codes "/")
        || equal (name_of e) (codes "//")
        || has_prefix (name_of e) (codes "#1/"))
      ≡ false
  pub details_fit : length e.details ≡ 32
  pub size_trimmed : IsTrimmed e.size_text
  pub size_fits : length e.size_text ≤ 10
  pub size_says : parse_int e.size_text ≡ some (pos (length e.body), true)

-- What reading gives.
abbrev pub read_back : List Entry → Scan
read_back [] = ended eof
read_back (e ∷ es) =
    found (record { name = name_of e; size = length e.body })
      (record { content = e.body; complete = true }) (read_back es)

pub length-repeated : (c n : ℕ) → length (repeated c n) ≡ n
length-repeated c zero = refl
length-repeated c (suc n) = omega (arith, length-repeated c n)

pub length-padded : (n : ℕ) (s : Bytes) → length s ≤ n → length (padded n s) ≡ n
length-padded n s h =
    omega
      (arith, length-append s (repeated b' ' (n - length s)), length-repeated b' ' (n - length s))

repeated-concat : (c n : ℕ) → repeated c n ++ (c ∷ []) ≡ c ∷ repeated c n
repeated-concat c zero = refl
repeated-concat c (suc n) = ap (λ r. c ∷ r) (repeated-concat c n)

reverse-repeated : (c n : ℕ) → reverse (repeated c n) ≡ repeated c n
reverse-repeated c zero = refl
reverse-repeated c (suc n) =
    reverse-cons c (repeated c n) ∙ rw (reverse-repeated c n) (repeated-concat c n)

drop_while-repeated :
    (n : ℕ) (s : Bytes) → drop_while is_space (repeated b' ' n ++ s) ≡ drop_while is_space s
unfolding drop_while
drop_while-repeated zero s = refl
drop_while-repeated (suc n) s = drop_while-repeated n s

drop_while-kept : (c : ℕ) (s : Bytes) → is_space c ≡ false → drop_while is_space (c ∷ s) ≡ c ∷ s
unfolding drop_while
drop_while-kept c s h = rw h refl

pub trim_space-padded : (n : ℕ) (s : Bytes) → IsTrimmed s → trim_space (padded n s) ≡ s
unfolding trim_func
trim_space-padded n s t =
    let k = n - length s in
    ap (λ r. reverse (drop_while is_space (reverse r))) (front k)
    ∙ ap (λ r. reverse (drop_while is_space r))
        (reverse-append s (repeated b' ' k) ∙ ap (λ r. r ++ reverse s) (reverse-repeated b' ' k))
    ∙ ap reverse (drop_while-repeated k (reverse s) ∙ back)
    ∙ reverse-reverse s
  where
    front : (k : ℕ) → drop_while is_space (s ++ repeated b' ' k) ≡ s ++ repeated b' ' k
    front k = rw (t.starts) (drop_while-kept t.first (t.more ++ repeated b' ' k) t.first_kept)

    back : drop_while is_space (reverse s) ≡ reverse s
    back = rw (t.ends) (drop_while-kept t.last t.init t.last_kept)
