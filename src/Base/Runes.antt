-- ===== src/Base/Runes.antt =====
-- Go's strings as runes: what `range` reads from a string, and what `WriteRune` writes.
use Prim.Native.Nat.{ℕ, zero, suc, ◌+◌, ◌-◌, ◌*◌, ◌/◌, ◌%◌, ◌≤◌, ◌<◌}
use native.Mathlib.Omega.{arith}
use mathlib.Core.Bool.{Bool, true, false, ◌&&◌, ◌||◌}
use mathlib.Core.Logic.{inl, inr, ◌⊎◌}
use mathlib.Core.Path.{◌≡◌, refl, sym, ap, ◌∙◌}
use mathlib.Core.List.{List, [], ◌∷◌, ◌++◌}
use deb_s3_go.Base.Tests.{if◌then◌else◌, lt→ltb, ltb→lt, ==_iff, ltb, leb, ◌==◌, Bool-cases}
use deb_s3_go.Base.Lists.{All}
use deb_s3_go.Base.Errors.{Bytes}

-- U+FFFD, which stands for a byte that begins no rune.
abbrev pub rune_error : ℕ
rune_error = 65533

abbrev within : ℕ → ℕ → ℕ → Bool
within low high b = leb low b && leb b high

-- `utf8.DecodeRuneInString` behind the first byte: the rune, and how many bytes more it has.
abbrev second : ℕ → Bytes → ℕ × ℕ
second a (b ∷ s) = if within 128 191 b then ((a - 192) * 64 + (b - 128), 1) else (rune_error, 0)
second a [] = (rune_error, 0)

abbrev third : ℕ → ℕ → ℕ → Bytes → ℕ × ℕ
third low high a (b ∷ c ∷ s) =
    if within low high b && within 128 191 c
    then ((a - 224) * 4096 + (b - 128) * 64 + (c - 128), 2)
    else (rune_error, 0)
third low high a _ = (rune_error, 0)

abbrev fourth : ℕ → ℕ → ℕ → Bytes → ℕ × ℕ
fourth low high a (b ∷ c ∷ d ∷ s) =
    if within low high b && (within 128 191 c && within 128 191 d)
    then ((a - 240) * 262144 + (b - 128) * 4096 + (c - 128) * 64 + (d - 128), 3)
    else (rune_error, 0)
fourth low high a _ = (rune_error, 0)

abbrev decode_rune : ℕ → Bytes → ℕ × ℕ
decode_rune a s =
    if ltb a 128
    then (a, 0)
    else if within 194 223 a
    then second a s
    else if within 224 239 a
    then third (if a == 224 then 160 else 128) (if a == 237 then 159 else 191) a s
    else if within 240 244 a
    then fourth (if a == 240 then 144 else 128) (if a == 244 then 143 else 191) a s
    else (rune_error, 0)

-- `range` over a string, with the number of bytes that the last rune still has.
unfoldable pub runes_from : ℕ → Bytes → List ℕ
runes_from n [] = []
runes_from (suc n) (a ∷ s) = runes_from n s
runes_from zero (a ∷ s) = let (rune, more) = decode_rune a s in rune ∷ runes_from more s

abbrev pub runes : Bytes → List ℕ
runes s = runes_from 0 s

-- `utf8.AppendRune`
unfoldable pub encode_rune : ℕ → Bytes
encode_rune c =
    if ltb c 128
    then c ∷ []
    else if ltb c 2048
    then (192 + c / 64) ∷ (128 + c % 64) ∷ []
    else if within 55296 57343 c || ltb 1114111 c
    then 239 ∷ 191 ∷ 189 ∷ []
    else if ltb c 65536
    then (224 + c / 4096) ∷ (128 + c / 64 % 64) ∷ (128 + c % 64) ∷ []
    else (240 + c / 262144) ∷ (128 + c / 4096 % 64) ∷ (128 + c / 64 % 64) ∷ (128 + c % 64) ∷ []

abbrev pub encoded : List ℕ → Bytes
encoded [] = []
encoded (c ∷ cs) = encode_rune c ++ encoded cs

-- A Unicode scalar value.
abbrev pub IsRune : ℕ → Type 0
IsRune c = (c < 55296) ⊎ ((57343 < c) × (c ≤ 1114111))

ltb-false : (a b : ℕ) → b ≤ a → ltb a b ≡ false
ltb-false a b h = ground arith

ltb-ge : (a b : ℕ) → ltb a b ≡ false → b ≤ a
ltb-ge a b h = ground arith

within-true : (low high b : ℕ) → low ≤ b → b ≤ high → within low high b ≡ true
within-true low high b h k = ground arith

within-false : (low high b : ℕ) → (b < low) ⊎ (high < b) → within low high b ≡ false
within-false low high b h = ground arith

one-rune : (c : ℕ) (s : Bytes) → c < 128 → runes (c ∷ s) ≡ c ∷ runes s
unfolding runes_from
one-rune c s h = rw (lt→ltb c 128 h) refl

two-runes :
    (c x y : ℕ) (s : Bytes)
    → 2 ≤ x
    → x < 32
    → y < 64
    → x * 64 + y ≡ c
    → runes ((192 + x) ∷ (128 + y) ∷ s) ≡ c ∷ runes s
unfolding runes_from
two-runes c x y s h1 h2 h3 e =
    rw
      (
        ltb-false (192 + x) 128 (omega arith),
        within-true 194 223 (192 + x) (omega arith) (omega arith),
        within-true 128 191 (128 + y) (omega arith) (omega arith),
      )
      (ap (λ (n : ℕ). n ∷ runes_from 0 s) (omega (arith, e)))

three-bounds :
    (x y z : ℕ)
    → y < 64
    → z < 64
    → 2048 ≤ x * 4096 + y * 64 + z
    → (x * 4096 + y * 64 + z < 55296) ⊎ (57343 < x * 4096 + y * 64 + z)
    → within (if 224 + x == 224 then 160 else 128) (if 224 + x == 237 then 159 else 191) (128 + y)
      ≡ true
three-bounds x y z h1 h2 h3 h4 = elim (Bool-cases (224 + x == 224)) [
  | inl e ↦
      let zero_x = (==_iff (224 + x) 224).0 e in
      let other : (224 + x == 237) ≡ false = ground (arith, zero_x) in
      rw (e, other) (within-true 160 191 (128 + y) (omega arith) (omega arith))
  | inr e ↦ elim (Bool-cases (224 + x == 237)) [
    | inr k ↦ rw (e, k) (within-true 128 191 (128 + y) (omega arith) (omega arith))
    | inl k ↦
        let at = (==_iff (224 + x) 237).0 k in
        rw (e, k) (within-true 128 159 (128 + y) (omega arith) (omega arith))
  ]
]

three-runes :
    (c x y z : ℕ) (s : Bytes)
    → x < 16
    → y < 64
    → z < 64
    → 2048 ≤ c
    → (c < 55296) ⊎ (57343 < c)
    → x * 4096 + y * 64 + z ≡ c
    → runes ((224 + x) ∷ (128 + y) ∷ (128 + z) ∷ s) ≡ c ∷ runes s
unfolding runes_from
three-runes c x y z s h1 h2 h3 h4 h5 e =
    rw
      (
        ltb-false (224 + x) 128 (omega arith),
        within-false 194 223 (224 + x) (inr (omega arith)),
        within-true 224 239 (224 + x) (omega arith) (omega arith),
        three-bounds x y z h2 h3 (rw (sym e) at h4) (rw (sym e) at h5),
        within-true 128 191 (128 + z) (omega arith) (omega arith),
      )
      (ap (λ (n : ℕ). n ∷ runes_from 0 s) (omega (arith, e)))

four-bounds :
    (x y r : ℕ)
    → y < 64
    → r < 4096
    → 65536 ≤ x * 262144 + y * 4096 + r
    → x * 262144 + y * 4096 + r ≤ 1114111
    → within (if 240 + x == 240 then 144 else 128) (if 240 + x == 244 then 143 else 191) (128 + y)
      ≡ true
four-bounds x y r h1 h2 h3 h4 = elim (Bool-cases (240 + x == 240)) [
  | inl e ↦
      let zero_x = (==_iff (240 + x) 240).0 e in
      let other : (240 + x == 244) ≡ false = ground (arith, zero_x) in
      rw (e, other) (within-true 144 191 (128 + y) (omega arith) (omega arith))
  | inr e ↦ elim (Bool-cases (240 + x == 244)) [
    | inr k ↦ rw (e, k) (within-true 128 191 (128 + y) (omega arith) (omega arith))
    | inl k ↦
        let at = (==_iff (240 + x) 244).0 k in
        rw (e, k) (within-true 128 143 (128 + y) (omega arith) (omega arith))
  ]
]

four-runes :
    (c x y z w : ℕ) (s : Bytes)
    → x < 5
    → y < 64
    → z < 64
    → w < 64
    → 65536 ≤ c
    → c ≤ 1114111
    → x * 262144 + y * 4096 + (z * 64 + w) ≡ c
    → runes ((240 + x) ∷ (128 + y) ∷ (128 + z) ∷ (128 + w) ∷ s) ≡ c ∷ runes s
unfolding runes_from
four-runes c x y z w s h1 h2 h3 h4 h5 h6 e =
    rw
      (
        ltb-false (240 + x) 128 (omega arith),
        within-false 194 223 (240 + x) (inr (omega arith)),
        within-false 224 239 (240 + x) (inr (omega arith)),
        within-true 240 244 (240 + x) (omega arith) (omega arith),
        four-bounds x y (z * 64 + w) h2 (omega arith) (rw (sym e) at h5) (rw (sym e) at h6),
        within-true 128 191 (128 + z) (omega arith) (omega arith),
        within-true 128 191 (128 + w) (omega arith) (omega arith),
      )
      (ap (λ (n : ℕ). n ∷ runes_from 0 s) (omega (arith, e)))

-- A rune is read back as it was written.
pub runes-encode_rune : (c : ℕ) (s : Bytes) → IsRune c → runes (encode_rune c ++ s) ≡ c ∷ runes s
unfolding encode_rune
runes-encode_rune c s h = elim (Bool-cases (ltb c 128)) [
  | inl small ↦ rw small (one-rune c s (ltb→lt c 128 small))
  | inr e1 ↦ elim (Bool-cases (ltb c 2048)) [
    | inl two ↦
        let above = ltb-ge c 128 e1 in
        let below = ltb→lt c 2048 two in
        rw (e1, two)
          (two-runes c (c / 64) (c % 64) s (omega arith) (omega arith) (omega arith) (omega arith))
    | inr e2 ↦
        let above = ltb-ge c 2048 e2 in
        let scalar : (within 55296 57343 c || ltb 1114111 c) ≡ false =
          rw (within-false 55296 57343 c (omega (arith, h)), ltb-false 1114111 c (omega (arith, h)))
            refl in
        elim (Bool-cases (ltb c 65536)) [
          | inl three ↦
              let below = ltb→lt c 65536 three in
              rw (e1, e2, scalar, three)
                (three-runes c (c / 4096) (c / 64 % 64) (c % 64) s (omega arith) (omega arith)
                  (omega arith) above (omega (arith, h)) (omega arith))
          | inr e3 ↦
              let large = ltb-ge c 65536 e3 in
              rw (e1, e2, scalar, e3)
                (four-runes c (c / 262144) (c / 4096 % 64) (c / 64 % 64) (c % 64) s
                  (omega (arith, h)) (omega arith) (omega arith) (omega arith) large
                  (omega (arith, h)) (omega arith))
        ]
  ]
]

pub runes-encoded : (cs : List ℕ) → All IsRune cs → runes (encoded cs) ≡ cs
unfolding runes_from
runes-encoded [] h = refl
runes-encoded (c ∷ cs) h =
    runes-encode_rune c (encoded cs) h.0 ∙ ap (λ s. c ∷ s) (runes-encoded cs h.1)
