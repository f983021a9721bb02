-- ===== src/Storage/Keys/Contained.antt =====
-- internal/storage/store.go: where physical keys stand below the configured prefix.
use deb_s3_go.Base.{
  true, List, [], ◌∷◌, ◌++◌, ◌≡◌, refl, sym, ◌∙◌, arith, Bytes, ok, bind-eq-ok, All, All-append,
  append-nil,
}
use deb_s3_go.Base.Strings.{equal, equal_iff, trim_byte, trim_prefix, split, join}
use deb_s3_go.Base.Paths.{clean, path_join, slash}
use deb_s3_go.Base.Paths.Laws.{split-append_sep}
use deb_s3_go.Base.Paths.Elements.{IsPlain, NotUp, elements, kept-append}
use deb_s3_go.Base.Paths.Contained.{IsContained, clean-IsContained, elements-clean}
use deb_s3_go.Storage.Keys.{checked_prefix, normalize_prefix, checked_key, join_key}

IsContained-nil : IsContained []
unfolding elements split equal
IsContained-nil = record { plain = tt; not_up = (refl, tt) }

checked_prefix-IsContained :
    (prefix : Bytes) {p : Bytes} → checked_prefix prefix ≡ ok p → IsContained p
unfolding checked_prefix
checked_prefix-IsContained prefix h = ground (arith, IsContained-nil, clean-IsContained prefix)

joined-NotUp :
    (p c : Bytes) → IsContained p → IsContained c → All NotUp (split b'/' (p ++ (b'/' ∷ c)))
joined-NotUp p c hp hc =
    rw (split-append_sep b'/' p c)
      (All-append NotUp (split b'/' p) (split b'/' c) hp.not_up hc.not_up)

elements-append_slash : (p c : Bytes) → elements (p ++ (b'/' ∷ c)) ≡ elements p ++ elements c
unfolding elements
elements-append_slash p c =
    rw (split-append_sep b'/' p c) (kept-append (split b'/' p) (split b'/' c))

-- `path.Join` of two contained paths puts the elements of the second under those of the first.
pub elements-path_join :
    (p c : Bytes)
    → IsContained p
    → IsContained c
    → elements (path_join (p ∷ c ∷ [])) ≡ elements p ++ elements c
unfolding path_join join
elements-path_join [] [] hp hc = unfold elements split equal in refl
elements-path_join [] (y ∷ c) hp hc =
    elements-clean (y ∷ c) hc.not_up ∙ unfold elements split equal in refl
elements-path_join (x ∷ p) [] hp hc =
    elements-clean (x ∷ p) hp.not_up ∙ sym (unfold elements split equal in append-nil _)
elements-path_join (x ∷ p) (y ∷ c) hp hc =
    elements-clean _ (joined-NotUp (x ∷ p) (y ∷ c) hp hc) ∙ elements-append_slash (x ∷ p) (y ∷ c)

-- The elements of `key` are those of `prefix`, then plain ones.
pub record IsBelow (prefix key : Bytes) : Type 0 where
  pub relative : List Bytes
  pub splits : elements key ≡ elements prefix ++ relative
  pub prefix_plain : All IsPlain (elements prefix)
  pub relative_plain : All IsPlain relative

IsBelow-join : (p c : Bytes) → IsContained p → IsContained c → IsBelow p (path_join (p ∷ c ∷ []))
IsBelow-join p c hp hc = record {
  relative = elements c;
  splits = elements-path_join p c hp hc;
  prefix_plain = hp.plain;
  relative_plain = hc.plain;
}

IsBelow-root : (p c : Bytes) → equal p [] ≡ true → IsContained c → IsBelow p c
IsBelow-root p c e hc = record {
  relative = elements c;
  splits = rw ((equal_iff p []).0 e) (unfold elements split equal in refl);
  prefix_plain = rw ((equal_iff p []).0 e) IsContained-nil.plain;
  relative_plain = hc.plain;
}

checked_key-IsBelow :
    (p key : Bytes) {k : Bytes} → IsContained p → checked_key p key ≡ ok k → IsBelow p k
unfolding checked_key
checked_key-IsBelow p key hp h =
    ground (arith, clean-IsContained key, IsBelow-root p (clean key), IsBelow-join p (clean key) hp)

-- Whatever prefix and key a caller passes: when `JoinKey` accepts them, so does `normalizePrefix` the
-- prefix, and the physical key leads to a place below it or to the prefix itself: passing over empty
-- elements and dots, its elements are those of the normalized prefix and then others, and `..` is
-- nowhere among them.
pub join_key-IsBelow :
    (prefix key : Bytes) {k : Bytes}
    → join_key prefix key ≡ ok k
    → (p : Bytes) × (normalize_prefix prefix ≡ ok p) × IsBelow p k
unfolding join_key
join_key-IsBelow prefix key h =
    let (p, e, rest) = bind-eq-ok (normalize_prefix prefix) _ h in
    (
      p,
      e,
      checked_key-IsBelow p (trim_prefix key slash)
          (unfold normalize_prefix in checked_prefix-IsContained (trim_byte b'/' prefix) e) rest,
    )
