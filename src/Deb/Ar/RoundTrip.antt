-- ===== src/Deb/Ar/RoundTrip.antt =====
-- internal/deb/ar.go: the members of a written archive are those that `Next` gives.
use deb_s3_go.Base.{
  ℕ, zero, suc, ◌+◌, ◌%◌, ◌<◌, true, false, List, [], ◌∷◌, ◌++◌, append_assoc, Bytes, eof, ok, err,
  ◌>>=◌, length, length-append, take, drop, take-append, drop-append, drop_past, leb, ltb, ◌≡◌,
  refl, ap, sym, ◌∙◌, arith, String, All,
}
use deb_s3_go.Base.Strings.{codes, equal, trim_space, trim_suffix}
use deb_s3_go.Deb.Ar.{
  ar_magic, Archive, new_archive, Member, read_full, start, skip, checked_fields, parse_header,
  read_header, next, body_of, found, scanned, scan,
}
use deb_s3_go.Deb.Ar.Written.{
  Entry, IsEntry, name_of, padded, repeated, header_of, written, written_all, read_back,
  length-padded, length-repeated, trim_space-padded,
}

read_full-append :
    (n : ℕ) (reason : String) (a s : Bytes) → length a ≡ n → read_full n reason (a ++ s) ≡ ok (a, s)
unfolding read_full
read_full-append n reason a s h = rw (enough, take-append n a s h, drop-append n a s h) refl
  where
    enough : ltb (length (a ++ s)) n ≡ false
    enough = ground (arith, length-append a s, h)

equal-nil : (s : Bytes) → 0 < length s → equal s [] ≡ false
unfolding equal
equal-nil [] h = absurd (omega (arith, h))
equal-nil (c ∷ s) h = refl

-- The archive behind the header of an entry.
abbrev after : Entry → Bytes → Archive
after e rest = record {
  reader = e.body ++ (repeated b'\n' (length e.body % 2) ++ rest);
  started = true;
  remaining = length e.body;
  padding = length e.body % 2;
}

abbrev between : Bytes → Archive
between rest = record { reader = rest; started = true; remaining = 0; padding = 0 }

abbrev member_of : Entry → Member
member_of e = record { name = name_of e; size = length e.body }

skip-after : (e : Entry) (rest : Bytes) → skip (after e rest) ≡ ok (between rest)
unfolding skip
skip-after e rest =
    rw
      (
        read_full-append (length e.body) "truncated ar member" e.body
            (repeated b'\n' (length e.body % 2) ++ rest) refl,
        read_full-append (length e.body % 2) "truncated ar member padding"
            (repeated b'\n' (length e.body % 2)) rest (length-repeated b'\n' (length e.body % 2)),
      )
      refl

skip-between : (rest : Bytes) → skip (between rest) ≡ ok (between rest)
unfolding skip
skip-between rest =
    rw
      (
        read_full-append 0 "truncated ar member" [] rest refl,
        read_full-append 0 "truncated ar member padding" [] rest refl,
      )
      refl

parse_header-parts :
    (h t n s : Bytes)
    → drop 58 h ≡ t
    → trim_space (take 16 h) ≡ n
    → trim_space (take 10 (drop 48 h)) ≡ s
    → parse_header h ≡ checked_fields t (trim_suffix n (codes "/")) s
unfolding parse_header
parse_header-parts h t n s e1 e2 e3 = rw (e1, e2, e3) refl

read_header-parsed :
    (h rest : Bytes) (m : Member)
    → length h ≡ 60
    → parse_header h ≡ ok m
    → read_header (between (h ++ rest))
      ≡ ok (m, record { reader = rest; started = true; remaining = m.size; padding = m.size % 2 })
unfolding read_header
read_header-parsed h rest m l e =
    rw
      (
        equal-nil (h ++ rest) (omega (arith, length-append h rest, l)),
        read_full-append 60 "truncated ar member header" h rest l,
        e,
      )
      refl

module _ (e : Entry) (w : IsEntry e) where
  name_length : length (padded 16 e.name_text) ≡ 16
  name_length = length-padded 16 e.name_text w.name_fits

  size_length : length (padded 10 e.size_text) ≡ 10
  size_length = length-padded 10 e.size_text w.size_fits

  length-header_of : length (header_of e) ≡ 60
  length-header_of = omega (
    arith,
    length-append (padded 16 e.name_text) (e.details ++ (padded 10 e.size_text ++ codes "`\n")),
    length-append e.details (padded 10 e.size_text ++ codes "`\n"),
    length-append (padded 10 e.size_text) (codes "`\n"),
    name_length,
    size_length,
    w.details_fit,
  )

  past_details :
      (n : ℕ) → drop (16 + (32 + n)) (header_of e) ≡ drop n (padded 10 e.size_text ++ codes "`\n")
  past_details n =
      drop_past 16 (32 + n) (padded 16 e.name_text) _ name_length
      ∙ drop_past 32 n e.details _ w.details_fit

  checked_fields-written : checked_fields (codes "`\n") (name_of e) e.size_text ≡ ok (member_of e)
  unfolding checked_fields equal
  checked_fields-written = rw (w.name_given, w.name_plain, w.size_says) refl

  parse_header-written : parse_header (header_of e) ≡ ok (member_of e)
  parse_header-written =
      parse_header-parts (header_of e) (codes "`\n") e.name_text e.size_text
        (past_details 10 ∙ drop_past 10 0 (padded 10 e.size_text) (codes "`\n") size_length)
        (ap trim_space (take-append 16 (padded 16 e.name_text) _ name_length)
          ∙ trim_space-padded 16 e.name_text w.name_trimmed)
        (ap (λ s. trim_space (take 10 s)) (past_details 0)
          ∙ ap trim_space (take-append 10 (padded 10 e.size_text) (codes "`\n") size_length)
          ∙ trim_space-padded 10 e.size_text w.size_trimmed)
      ∙ checked_fields-written

  read_header-written :
      (rest : Bytes) → read_header (between (written e ++ rest)) ≡ ok (member_of e, after e rest)
  read_header-written rest =
      ap (λ s. read_header (between s)) regrouped
      ∙ read_header-parsed (header_of e) _ (member_of e) length-header_of parse_header-written
    where
      regrouped :
          written e ++ rest
          ≡ header_of e ++ (e.body ++ (repeated b'\n' (length e.body % 2) ++ rest))
      regrouped =
          append_assoc (header_of e) (e.body ++ repeated b'\n' (length e.body % 2)) rest
          ∙ ap (λ s. header_of e ++ s)
              (append_assoc e.body (repeated b'\n' (length e.body % 2)) rest)

next-skipped :
    (ar later : Archive) → start ar ≡ ok ar → skip ar ≡ ok later → next ar ≡ read_header later
unfolding next
next-skipped ar later h k = rw (h, k) refl

start-begun : (ar : Archive) → ar.started ≡ true → start ar ≡ ok ar
unfolding start
start-begun ar h = rw h refl

body_of-after :
    (e : Entry) (rest : Bytes)
    → body_of (after e rest) ≡ record { content = e.body; complete = true }
unfolding body_of
body_of-after e rest =
    rw
      (take-append (length e.body) e.body (repeated b'\n' (length e.body % 2) ++ rest) refl, enough)
      refl
  where
    enough :
        leb (length e.body) (length (e.body ++ (repeated b'\n' (length e.body % 2) ++ rest))) ≡ true
    enough = ground (arith, length-append e.body (repeated b'\n' (length e.body % 2) ++ rest))

nothing_left : read_header (between []) ≡ err eof
unfolding read_header equal
nothing_left = refl

start-magic : (rest : Bytes) → start (new_archive (ar_magic ++ rest)) ≡ ok (between rest)
unfolding start equal
start-magic rest = rw (read_full-append 8 "missing ar magic" ar_magic rest refl) refl

next-magic : (rest : Bytes) → next (new_archive (ar_magic ++ rest)) ≡ next (between rest)
unfolding next
next-magic rest =
    ap (λ r. r >>= (λ begun. skip begun >>= (λ skipped. read_header skipped)))
      (start-magic rest ∙ sym (start-begun (between rest) refl))

scan-between :
    (fuel : ℕ) (es : List Entry) (ar : Archive)
    → All IsEntry es
    → length es < fuel
    → start ar ≡ ok ar
    → skip ar ≡ ok (between (written_all es))
    → scan fuel ar ≡ read_back es
unfolding scan
scan-between zero es ar w h s k = absurd (omega (arith, h))
scan-between (suc fuel) [] ar w h s k =
    ap (scanned (λ later. scan fuel later)) (next-skipped ar _ s k ∙ nothing_left)
scan-between (suc fuel) (e ∷ es) ar w h s k =
    ap (scanned (λ later. scan fuel later))
      (next-skipped ar _ s k ∙ read_header-written e w.0 (written_all es))
    ∙ ap (λ b. found (member_of e) b (scan fuel (after e (written_all es))))
        (body_of-after e (written_all es))
    ∙ ap (λ r. found (member_of e) (record { content = e.body; complete = true }) r)
        (scan-between fuel es (after e (written_all es)) w.1 (omega (arith, h))
          (start-begun (after e (written_all es)) refl) (skip-after e (written_all es)))

-- Reading an archive that is laid out in the ar format gives its members in their order, each with
-- its name without a trailing slash, its size and its whole body, and then the end of the file; the
-- fuel allows for each member and the end. The names are plain, and names and sizes fit their
-- fields.
pub scan-written :
    (es : List Entry) (fuel : ℕ)
    → All IsEntry es
    → length es < fuel
    → scan fuel (new_archive (ar_magic ++ written_all es)) ≡ read_back es
unfolding scan
scan-written es (suc fuel) w h =
    ap (scanned (λ later. scan fuel later)) (next-magic (written_all es))
    ∙ scan-between (suc fuel) es (between (written_all es)) w h
        (start-begun (between (written_all es)) refl) (skip-between (written_all es))
scan-written es zero w h = absurd (omega (arith, h))
