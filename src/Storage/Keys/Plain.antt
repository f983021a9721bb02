-- ===== src/Storage/Keys/Plain.antt =====
-- internal/storage/store.go: keys and prefixes of plain elements.
use deb_s3_go.Base.{
  ℕ, ◌⊎◌, append_assoc, false, List, [], ◌∷◌, ◌++◌, some, ◌≡◌, refl, sym, ap, ◌∙◌, arith, Bytes, ok,
  Bool-cases, inl, inr, All, All-append,
}
use deb_s3_go.Base.Strings.{
  equal, equal_iff, split, join, contains_byte, trim_byte, trim_func, drop_while, trim_prefix,
  has_prefix-append, trim_prefix-append,
}
use deb_s3_go.Base.Paths.{clean, path_join, slash, dot}
use deb_s3_go.Base.Paths.Contained.{leaves_root}
use deb_s3_go.Base.Paths.Elements.{IsPlain}
use deb_s3_go.Base.Paths.Plain.{
  StartsInside, StartsInside-join, trim_byte-join, trim_prefix-StartsInside, clean-join,
  leaves_root-join, split-join-IsPlain,
}
use deb_s3_go.Storage.Keys.{normalize_prefix, join_key, logical_key}

-- A nonempty path of plain elements without a backslash.
pub record IsKey (k : Bytes) : Type 0 where
  pub first : Bytes
  pub rest : List Bytes
  pub plain : All IsPlain (first ∷ rest)
  pub text : k ≡ join slash (first ∷ rest)
  pub no_backslash : contains_byte b'\\' k ≡ false

split-dot : split b'/' dot ≡ dot ∷ []
unfolding split
split-dot = refl

normalize_prefix_nil : normalize_prefix [] ≡ ok []
unfolding normalize_prefix trim_func drop_while equal
normalize_prefix_nil = refl

module _ (k : Bytes) (h : IsKey k) where
  IsKey-inside : StartsInside k
  IsKey-inside = rw h.text (StartsInside-join h.first h.rest h.plain)

  IsKey-not_nil : equal k [] ≡ false
  unfolding equal
  IsKey-not_nil = go k IsKey-inside
    where
      go : (s : Bytes) → StartsInside s → equal s [] ≡ false
      go [] i = absurd i
      go (x ∷ s) i = refl

  IsKey-clean : clean k ≡ k
  IsKey-clean = rw h.text (clean-join h.first h.rest h.plain)

  IsKey-stays : leaves_root k ≡ false
  IsKey-stays = rw h.text (leaves_root-join h.first h.rest h.plain)

  IsKey-trim : trim_byte b'/' k ≡ k
  IsKey-trim = rw h.text (trim_byte-join h.first h.rest h.plain)

  IsKey-trim_prefix : trim_prefix k slash ≡ k
  IsKey-trim_prefix = trim_prefix-StartsInside k IsKey-inside

  IsKey-not_dot : equal k dot ≡ false
  IsKey-not_dot = elim (Bool-cases (equal k dot)) [
    | inr e ↦ e
    | inl e ↦
        let dotted = sym h.text ∙ (equal_iff k dot).0 e in
        ground (
          arith,
          sym (split-join-IsPlain h.first h.rest h.plain) ∙ ap (split b'/') dotted,
          h.plain.0.ne_dot,
          equal_iff h.first dot,
          split-dot,
        )
  ]

  normalize_prefix-IsKey : normalize_prefix k ≡ ok k
  unfolding normalize_prefix
  normalize_prefix-IsKey =
      rw (IsKey-trim, IsKey-not_nil, h.no_backslash, IsKey-clean, IsKey-stays) refl

join-append :
    (p : Bytes) (ps : List Bytes) (q : Bytes) (qs : List Bytes)
    → join slash (p ∷ ps) ++ (b'/' ∷ join slash (q ∷ qs)) ≡ join slash (p ∷ (ps ++ (q ∷ qs)))
unfolding join
join-append p [] q qs = refl
join-append p (r ∷ ps) q qs =
    append_assoc p (b'/' ∷ join slash (r ∷ ps)) (b'/' ∷ join slash (q ∷ qs))
    ∙ ap (λ t. p ++ (b'/' ∷ t)) (join-append r ps q qs)

contains_byte-append :
    (c : ℕ) (s t : Bytes)
    → contains_byte c s ≡ false
    → contains_byte c t ≡ false
    → contains_byte c (s ++ t) ≡ false
unfolding contains_byte
contains_byte-append c [] t h k = k
contains_byte-append c (x ∷ s) t h k = ground (arith, contains_byte-append c s t)

-- Two keys with a slash between them are a key.
pub IsKey-append : (p k : Bytes) → IsKey p → IsKey k → IsKey (p ++ (b'/' ∷ k))
IsKey-append p k hp hk = record {
  first = hp.first;
  rest = hp.rest ++ (hk.first ∷ hk.rest);
  plain = All-append IsPlain (hp.first ∷ hp.rest) (hk.first ∷ hk.rest) hp.plain hk.plain;
  text = rw (hp.text, hk.text) (join-append hp.first hp.rest hk.first hk.rest);
  no_backslash =
      contains_byte-append b'\\' p (b'/' ∷ k) hp.no_backslash
        (unfold contains_byte in hk.no_backslash);
}

path_join-IsKey : (p k : Bytes) → IsKey p → IsKey k → path_join (p ∷ k ∷ []) ≡ p ++ (b'/' ∷ k)
path_join-IsKey p k hp hk =
    go p k (IsKey-inside p hp) (IsKey-inside k hk) ∙ IsKey-clean _ (IsKey-append p k hp hk)
  where
    go :
        (p k : Bytes)
        → StartsInside p
        → StartsInside k
        → path_join (p ∷ k ∷ []) ≡ clean (p ++ (b'/' ∷ k))
    go [] k i j = absurd i
    go (x ∷ p) [] i j = absurd j
    go (x ∷ p) (y ∷ k) i j = unfold path_join join in refl

pub join_key_nil : (k : Bytes) → IsKey k → join_key [] k ≡ ok k
unfolding join_key
join_key_nil k hk =
    rw (normalize_prefix_nil, IsKey-trim_prefix k hk)
      (rw
        (
          IsKey-not_nil k hk,
          IsKey-not_dot k hk,
          hk.no_backslash,
          IsKey-clean k hk,
          IsKey-stays k hk,
        )
        (unfold equal in refl))

-- A plain key under a plain prefix is put below it.
pub join_key-IsKey : (p k : Bytes) → IsKey p → IsKey k → join_key p k ≡ ok (p ++ (b'/' ∷ k))
unfolding join_key
join_key-IsKey p k hp hk =
    rw (normalize_prefix-IsKey p hp, IsKey-trim_prefix k hk)
      (rw
        (
          IsKey-not_nil k hk,
          IsKey-not_dot k hk,
          hk.no_backslash,
          IsKey-clean k hk,
          IsKey-stays k hk,
          IsKey-not_nil p hp,
          path_join-IsKey p k hp hk,
        )
        refl)

logical_key-append : (p k : Bytes) → IsKey p → logical_key p (p ++ (b'/' ∷ k)) ≡ some k
unfolding logical_key
logical_key-append p k hp =
    let same = append_assoc p slash k in
    rw
      (
        IsKey-trim p hp,
        IsKey-not_nil p hp,
        ← same,
        has_prefix-append (p ++ slash) k,
        trim_prefix-append (p ++ slash) k,
      )
      refl

logical_key_nil : (k : Bytes) → logical_key [] k ≡ some k
unfolding logical_key trim_func drop_while equal
logical_key_nil k = refl

-- `logicalKey` undoes `JoinKey` on plain keys, under a plain prefix and under none.
pub logical_key-join_key :
    (p k : Bytes) {physical : Bytes}
    → IsKey p ⊎ (p ≡ [])
    → IsKey k
    → join_key p k ≡ ok physical
    → logical_key p physical ≡ some k
logical_key-join_key p k {physical} (inl hp) hk h =
    let e : physical ≡ p ++ (b'/' ∷ k) = ground (arith, h, join_key-IsKey p k hp hk) in
    rw e (logical_key-append p k hp)
logical_key-join_key p k {physical} (inr e) hk h =
    let e' : physical ≡ k = ground (arith, rw e at h, join_key_nil k hk) in
    rw (e, e') (logical_key_nil k)
