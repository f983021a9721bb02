-- ===== src/Base/Int.antt =====
-- Go's 64-bit `int`, its `strconv.Atoi` and `strconv.Itoa`.
use deb_s3_go.Base.{
  ℕ, zero, suc, ◌+◌, ◌-◌, ◌*◌, ◌/◌, ◌%◌, ◌^◌, Bool, true, false, ◌&&◌, [], ◌∷◌, ◌++◌, Option, none,
  some, Bytes, if◌then◌else◌, leb, ltb, ◌==◌,
}

-- `negsuc n` is -(n + 1).
pub data ℤ : Type 0 where
  pos : ℕ → ℤ
  negsuc : ℕ → ℤ

abbrev pub max_int : ℕ
max_int = 2 ^ 63 - 1

-- `x++`, which wraps round.
unfoldable pub increment : ℤ → ℤ
increment (pos n) = if n == max_int then negsuc max_int else pos (n + 1)
increment (negsuc zero) = pos 0
increment (negsuc (suc n)) = negsuc n

-- The value of decimal digits after `n`; `none` at a byte that is no digit.
unfoldable pub digits_from : ℕ → Bytes → Option ℕ
digits_from n [] = some n
digits_from n (c ∷ s) =
    let rest = digits_from (n * 10 + (c - b'0')) s in
    if leb b'0' c && leb c b'9' then rest else none

unfoldable pub parse_digits : Bytes → Option ℕ
unfolding digits_from
parse_digits [] = none
parse_digits (c ∷ s) = digits_from 0 (c ∷ s)

-- `strconv.ParseInt(s, 10, 64)`; `none` for a syntax error, and the flag for a range error, which
-- comes with the nearest value.
abbrev clamp_pos : ℕ → ℤ × Bool
clamp_pos n = if leb n max_int then (pos n, true) else (pos max_int, false)

abbrev clamp_neg : ℕ → ℤ × Bool
clamp_neg zero = (pos 0, true)
clamp_neg (suc n) = if leb n max_int then (negsuc n, true) else (negsuc max_int, false)

abbrev signed : (ℕ → ℤ × Bool) → Option ℕ → Option (ℤ × Bool)
signed f none = none
signed f (some n) = some (f n)

unfoldable pub parse_int : Bytes → Option (ℤ × Bool)
unfolding parse_digits
parse_int [] = none
parse_int (c ∷ s) =
    if c == b'-'
    then signed clamp_neg (parse_digits s)
    else if c == b'+'
    then signed clamp_pos (parse_digits s)
    else signed clamp_pos (parse_digits (c ∷ s))

-- The first result of `strconv.Atoi`, whatever its error.
abbrev int_or_zero : Option (ℤ × Bool) → ℤ
int_or_zero none = pos 0
int_or_zero (some (n, in_range)) = n

unfoldable pub atoi : Bytes → ℤ
unfolding parse_int
atoi s = int_or_zero (parse_int s)

-- Decimal digits; twenty of them hold every 64-bit number.
unfoldable pub decimal : ℕ → ℕ → Bytes
decimal zero n = []
decimal (suc fuel) n =
    let rest = decimal fuel (n / 10) ++ ((b'0' + n % 10) ∷ []) in
    if ltb n 10 then (b'0' + n) ∷ [] else rest

-- `strconv.Itoa`
unfoldable pub itoa : ℤ → Bytes
unfolding decimal
itoa (pos n) = decimal 20 n
itoa (negsuc n) = b'-' ∷ decimal 20 (n + 1)
