-- ===== src/Deb/Ar/Finite.antt =====
-- internal/deb/ar.go: `Next` gets on in the file, so that its calls come to an end.
use deb_s3_go.Base.{
  ℕ, zero, suc, ◌+◌, ◌-◌, ◌≤◌, ◌<◌, [], ◌∷◌, Bytes, ok, err, bind-eq-ok, ok-injective, length, drop,
  ltb, Result, ◌≡◌, refl, sym, ap, arith, Bool-cases, inl, inr, String,
}
use deb_s3_go.Base.Strings.{equal}
use deb_s3_go.Deb.Ar.{
  Archive, Member, read_full, checked_magic, start, skip, parse_header, read_header, next, Scan,
  ended, found, unfinished, scanned, scan, ar_magic,
}

length-drop : (n : ℕ) (s : Bytes) → length (drop n s) ≡ length s - n
length-drop zero s = omega arith
length-drop (suc n) [] = omega arith
length-drop (suc n) (c ∷ s) = omega (arith, length-drop n s)

length-read_full :
    (n : ℕ) (reason : String) (s : Bytes) {r : Bytes × Bytes}
    → read_full n reason s ≡ ok r
    → length r.1 + n ≡ length s
unfolding read_full
length-read_full n reason s h = elim (Bool-cases (ltb (length s) n)) [
  | inl short ↦ cc (rw short at h)
  | inr long ↦
      rw⁻¹ (ap (λ (p : Bytes × Bytes). p.1) (ok-injective (rw long at h)))
        (ground (arith, length-drop n s, long))
]

checked_magic-reader :
    (ar : Archive) (r : Bytes × Bytes) {later : Archive}
    → checked_magic ar r ≡ ok later
    → later.reader ≡ r.1
checked_magic-reader ar r h = elim (Bool-cases (equal r.0 ar_magic)) [
  | inl right ↦ ap (λ (later : Archive). later.reader) (sym (ok-injective (rw right at h)))
  | inr wrong ↦ cc (rw wrong at h)
]

start-le :
    (ar : Archive) {later : Archive} → start ar ≡ ok later → length later.reader ≤ length ar.reader
unfolding start
start-le ar h = elim (Bool-cases ar.started) [
  | inl begun ↦
      omega (arith, ap (λ (later : Archive). length later.reader) (ok-injective (rw begun at h)))
  | inr new ↦
      let (r, e, h1) =
        bind-eq-ok (read_full 8 "missing ar magic" ar.reader) (checked_magic ar) (rw new at h) in
      omega (
        arith,
        length-read_full 8 "missing ar magic" ar.reader e,
        ap length (checked_magic-reader ar r h1),
      )
]

skip-le :
    (ar : Archive) {later : Archive} → skip ar ≡ ok later → length later.reader ≤ length ar.reader
unfolding skip
skip-le ar h =
    let (body, e, h1) = bind-eq-ok (read_full ar.remaining "truncated ar member" ar.reader) _ h in
    let (pad, e2, h2) =
      bind-eq-ok (read_full ar.padding "truncated ar member padding" body.1) _ h1 in
    omega (
      arith,
      length-read_full ar.remaining "truncated ar member" ar.reader e,
      length-read_full ar.padding "truncated ar member padding" body.1 e2,
      ap (λ (later : Archive). length later.reader) (ok-injective h2),
    )

read_header-lt :
    (ar : Archive) {r : Member × Archive}
    → read_header ar ≡ ok r
    → length r.1.reader < length ar.reader
unfolding read_header
read_header-lt ar h = elim (Bool-cases (equal ar.reader [])) [
  | inl none ↦ cc (rw none at h)
  | inr some ↦
      let (header, e, h1) =
        bind-eq-ok (read_full 60 "truncated ar member header" ar.reader) _ (rw some at h) in
      let (member, e2, h2) = bind-eq-ok (parse_header header.0) _ h1 in
      omega (
        arith,
        length-read_full 60 "truncated ar member header" ar.reader e,
        ap (λ (r : Member × Archive). length r.1.reader) (ok-injective h2),
      )
]

next-lt :
    (ar : Archive) {r : Member × Archive} → next ar ≡ ok r → length r.1.reader < length ar.reader
unfolding next
next-lt ar h =
    let (begun, e, h1) = bind-eq-ok (start ar) _ h in
    let (skipped, e2, h2) = bind-eq-ok (skip begun) _ h1 in
    omega (arith, start-le ar e, skip-le begun e2, read_header-lt skipped h2)

-- The members come to an end.
abbrev pub Finishes : Scan → Type 0
Finishes (ended e) = Unit
Finishes (found m b rest) = Finishes rest
Finishes unfinished = ⊥

-- The calls of `Next` on an archive come to an end, an error included, when the fuel is more than the
-- length of what is left of the file.
pub scan-Finishes : (fuel : ℕ) (ar : Archive) → length ar.reader < fuel → Finishes (scan fuel ar)
unfolding scan
scan-Finishes zero ar h = absurd (omega (arith, h))
scan-Finishes (suc fuel) ar h =
    go (next ar) (λ r e. next-lt ar e) (λ later k. scan-Finishes fuel later k)
  where
    go :
        (n : Result (Member × Archive))
        → ((r : Member × Archive) → n ≡ ok r → length r.1.reader < length ar.reader)
        → ((later : Archive) → length later.reader < fuel → Finishes (scan fuel later))
        → Finishes (scanned (λ later. scan fuel later) n)
    go (err e) shorter rest = tt
    go (ok (m, later)) shorter rest = rest later (omega (arith, shorter (m, later) refl, h))
