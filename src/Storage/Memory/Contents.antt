-- ===== src/Storage/Memory/Contents.antt =====
-- internal/storage/memory.go: the store as a partial map from physical keys to contents.
use mathlib.Core.Option
use mathlib.Core.Option.{some-injective}
use deb_s3_go.Base.{
  Bool, true, ◌||◌, [], Option, none, some, Bytes, not_found, conflict, Result, ok, err,
  if◌then◌else◌, ◌≡◌, refl, sym, ◌∙◌, arith, Bool-cases, inl, inr, Option-cases,
}
use deb_s3_go.Base.Strings.{equal, equal_iff, equal_refl}
use deb_s3_go.Base.Assoc.{lookup, insert, without, lookup-insert, lookup-without}
use deb_s3_go.Storage.Objects.{PutOptions, CopyOptions}
use deb_s3_go.Storage.Keys.{join_key}
use deb_s3_go.Storage.Memory.{
  MemoryObject, MemoryStore, Env, trim_etag, new_object, cloned, located, get, put, put_over,
  put_located, delete_if_match, delete_if_match_at, delete_matching, copy, copy_at, copy_from,
  copy_over,
}
use deb_s3_go.Storage.Memory.Consistent.{IsConsistent}

abbrev pub Contents : Type 0
Contents = Bytes → Option Bytes

abbrev pub contents : MemoryStore → Contents
contents s k = Option.map (λ (o : MemoryObject). o.content) (lookup k s.objects)

-- The map with one key set, or removed.
abbrev pub with_key : Bytes → Bytes → Contents → Contents
with_key k d m j = if equal k j then some d else m j

abbrev pub without_key : Bytes → Contents → Contents
without_key k m j = if equal k j then none else m j

-- Writing on the abstract map: content of equal digest is left alone, other content is replaced
-- unless `guarded`, when the write is a conflict.
abbrev spec_over :
    (Bytes → Bytes)
    → Bool
    → Bytes
    → Bytes
    → Bytes
    → Option Bytes
    → Contents
    → Result (Unit {0}) × Contents
spec_over digest guarded key k d none m = (ok tt, with_key k d m)
spec_over digest guarded key k d (some old) m =
    if equal (digest old) (digest d)
    then (ok tt, m)
    else if guarded
    then (err (conflict key), m)
    else (ok tt, with_key k d m)

abbrev pub spec_write :
    (Bytes → Bytes) → Bool → Bytes → Bytes → Bytes → Contents → Result (Unit {0}) × Contents
spec_write digest guarded key k d m = spec_over digest guarded key k d (m k) m

-- An outcome of the store agrees with an outcome on the map.
pub record Refines (r : Result (Unit {0}) × MemoryStore) (a : Result (Unit {0}) × Contents)
    : Type 0 where
  pub result : r.0 ≡ a.0
  pub state : (j : Bytes) → contents r.1 j ≡ a.1 j

contents-insert :
    (s : MemoryStore) (k : Bytes) (o : MemoryObject) (j : Bytes)
    → contents (record s { objects = insert k o s.objects }) j ≡ with_key k o.content (contents s) j
contents-insert s k o j = rw lookup-insert (ground arith)

contents-without :
    (s : MemoryStore) (k j : Bytes)
    → contents (record s { objects = without k s.objects }) j ≡ without_key k (contents s) j
contents-without s k j = rw lookup-without (ground arith)

spec_over-reads :
    (digest : Bytes → Bytes) (guarded : Bool) (key k d : Bytes) (old : Option Bytes) (m : Contents)
    → m k ≡ old
    → (spec_over digest guarded key k d old m).0 ≡ ok tt
    → (d' : Bytes) × ((spec_over digest guarded key k d old m).1 k ≡ some d')
      × (digest d' ≡ digest d)
spec_over-reads digest guarded key k d none m e h = (d, rw (equal_refl k) refl, refl)
spec_over-reads digest guarded key k d (some old) m e h =
    elim (Bool-cases (equal (digest old) (digest d))) [
      | inl same ↦ (old, rw same e, (equal_iff _ _).0 same)
      | inr other ↦ elim (Bool-cases guarded) [
        | inl g ↦ cc (rw (other, g) at h)
        | inr g ↦ (d, rw (other, g, equal_refl k) refl, refl)
      ]
    ]

module _ (env : Env) (s : MemoryStore) (consistent : IsConsistent env.digest s) where
  put_over-Refines :
      (key k d : Bytes) (options : PutOptions) (old : Option MemoryObject)
      → lookup k s.objects ≡ old
      → Refines (put_over env key k d options old s) (
          spec_over env.digest
            (options.fail_if_exists || options.create_only)
            key
            k
            d
            (Option.map (λ (o : MemoryObject). o.content) old)
            (contents s))
  unfolding put_over new_object
  put_over-Refines key k d options none e = record {
    result = refl;
    state = λ j. contents-insert s k (new_object env k d options) j;
  }
  put_over-Refines key k d options (some o) e =
      rw (consistent.at_key k o e).digest
        (elim (Bool-cases (equal (env.digest o.content) (env.digest d))) [
          | inl same ↦ rw same (record { result = refl; state = λ j. refl })
          | inr other ↦ elim (Bool-cases (options.fail_if_exists || options.create_only)) [
            | inl kept ↦ rw (other, kept) (record { result = refl; state = λ j. refl })
            | inr written ↦
                rw (other, written)
                  (record {
                    result = refl;
                    state = λ j. contents-insert s k (new_object env k d options) j;
                  })
          ]
        ])

  -- `Put` of a body that can be read, under a key that has a physical key, is a write on the map:
  -- guarded when `FailIfExists` or `CreateOnly` is set. It has the same outcome, and leaves the
  -- same contents at every key.
  pub put-Refines :
      (key d : Bytes) (options : PutOptions) {k : Bytes}
      → located env s.prefix key ≡ ok k
      → Refines (put env key (ok d) options s) (
          spec_write env.digest
            (options.fail_if_exists || options.create_only)
            key
            k
            d
            (contents s))
  unfolding put
  put-Refines key d options {k} e =
      rw (e, put_located) (put_over-Refines key k d options (lookup k s.objects) refl)

  -- `Get` reads the map.
  pub get-contents :
      (key : Bytes) {k : Bytes}
      → located env s.prefix key ≡ ok k
      → get env key s ≡ (elim (contents s k) [ none ↦ err (not_found key) | some d ↦ ok d ], s)
  unfolding get
  get-contents key {k} e = rw e (ground arith)

  -- `DeleteIfMatch` on the map: the ETag is the digest of the content.
  delete_matching-Refines :
      (key etag k : Bytes) (old : Option MemoryObject)
      → lookup k s.objects ≡ old
      → Refines
          (delete_matching env key etag k old s)
          (elim (Option.map (λ (o : MemoryObject). o.content) old) [
            | none ↦ (err (not_found key), contents s)
            | some d ↦
                if equal (trim_etag (env.digest d)) (trim_etag etag)
                then (ok tt, without_key k (contents s))
                else (err (conflict key), contents s)
          ])
  unfolding delete_matching
  delete_matching-Refines key etag k none e = record { result = refl; state = λ j. refl }
  delete_matching-Refines key etag k (some o) e =
      rw (consistent.at_key k o e).etag
        (elim (Bool-cases (equal (trim_etag (env.digest o.content)) (trim_etag etag))) [
          | inl same ↦ rw same (record { result = refl; state = contents-without s k })
          | inr other ↦ rw other (record { result = refl; state = λ j. refl })
        ])

  -- `DeleteIfMatch` removes the key exactly when it holds content whose digest is the given ETag,
  -- both read without white space and quotes. It reports a missing key and another ETag as
  -- different errors, and then changes nothing.
  pub delete_if_match-Refines :
      (key etag : Bytes) {k : Bytes}
      → located env s.prefix key ≡ ok k
      → Refines (delete_if_match env key etag s) (elim (contents s k) [
        | none ↦ (err (not_found key), contents s)
        | some d ↦
            if equal (trim_etag (env.digest d)) (trim_etag etag)
            then (ok tt, without_key k (contents s))
            else (err (conflict key), contents s)
      ])
  unfolding delete_if_match
  delete_if_match-Refines key etag {k} e =
      rw (e, delete_if_match_at) (delete_matching-Refines key etag k (lookup k s.objects) refl)

  copy_over-Refines :
      (destination from to : Bytes) (options : CopyOptions) (o : MemoryObject)
      (old : Option MemoryObject)
      → lookup from s.objects ≡ some o
      → lookup to s.objects ≡ old
      → Refines (copy_over env destination to options o old s) (
          spec_over env.digest
            (options.create_only || options.fail_if_exists)
            destination
            to
            o.content
            (Option.map (λ (x : MemoryObject). x.content) old)
            (contents s))
  unfolding copy_over cloned
  copy_over-Refines destination from to options o none f e = record {
    result = refl;
    state = λ j. contents-insert s to (cloned env to o) j;
  }
  copy_over-Refines destination from to options o (some x) f e =
      rw ((consistent.at_key to x e).digest, (consistent.at_key from o f).digest)
        (elim (Bool-cases (equal (env.digest x.content) (env.digest o.content))) [
          | inl same ↦ rw same (record { result = refl; state = λ j. refl })
          | inr other ↦ elim (Bool-cases (options.create_only || options.fail_if_exists)) [
            | inl kept ↦ rw (other, kept) (record { result = refl; state = λ j. refl })
            | inr written ↦
                rw (other, written)
                  (record { result = refl; state = λ j. contents-insert s to (cloned env to o) j })
          ]
        ])

  -- `Copy` without a required source ETag, of a key that is there, is a write of its content at
  -- the destination, guarded when `CreateOnly` or `FailIfExists` is set.
  pub copy-Refines :
      (source destination d : Bytes) (options : CopyOptions) {from to : Bytes}
      → located env s.prefix source ≡ ok from
      → join_key s.prefix destination ≡ ok to
      → contents s from ≡ some d
      → equal options.source_etag [] ≡ true
      → Refines (copy env source destination options s) (
          spec_write env.digest
            (options.create_only || options.fail_if_exists)
            destination
            to
            d
            (contents s))
  unfolding copy
  copy-Refines source destination d options {from} {to} e e' held free =
      elim (Option-cases (lookup from s.objects)) [
        | inl absent ↦ cc (rw absent at held)
        | inr (o, present) ↦
            let same : o.content ≡ d = some-injective o.content d (rw present at held) in
            rw (e, e', copy_at, present, copy_from, free, ← same)
              (copy_over-Refines destination from to options o (lookup to s.objects) present refl)
      ]

  -- After a `Put` that reports success, `Get` of the same key returns content of the same digest.
  get-put :
      (key d : Bytes) (options : PutOptions) {k : Bytes}
      → located env s.prefix key ≡ ok k
      → (put env key (ok d) options s).0 ≡ ok tt
      → (d' : Bytes) × (contents (put env key (ok d) options s).1 k ≡ some d')
        × (env.digest d' ≡ env.digest d)
  get-put key d options {k} e h =
      let r = put-Refines key d options e in
      let (d', reads, same) =
        spec_over-reads env.digest (options.fail_if_exists || options.create_only) key k d
          (contents s k) (contents s) refl (sym r.result ∙ h) in
      (d', r.state k ∙ reads, same)
