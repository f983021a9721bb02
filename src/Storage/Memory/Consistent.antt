-- ===== src/Storage/Memory/Consistent.antt =====
-- internal/storage/memory.go: the objects of the store, through every operation.
use mathlib.Core.Path.{subst}
use mathlib.Core.Option.{some-injective}
use deb_s3_go.Base.{
  false, ◌||◌, [], Option, none, some, Bytes, Result, ok, err, length, ◌≡◌, refl, sym, Bool-cases,
  inl, inr,
}
use deb_s3_go.Base.Strings.{codes, equal, equal_iff, equal_refl, to_lower}
use deb_s3_go.Base.Assoc.{lookup, insert, without, lookup-insert, lookup-without}
use deb_s3_go.Storage.Keys.{join_key}
use deb_s3_go.Storage.Objects.{PutOptions, CopyOptions}
use deb_s3_go.Storage.Memory.{
  MemoryObject, MemoryStore, Env, new_memory_store, object_md5, new_object, cloned, located, put,
  put_over, put_located, trim_etag, stale_etag, delete, delete_at, delete_if_match,
  delete_if_match_at, delete_matching, copy, copy_at, copy_from, copy_over,
}

-- The digest is lower-case and never empty, as hexadecimal text is.
pub record IsHex (digest : Bytes → Bytes) : Type 0 where
  pub lower : (d : Bytes) → to_lower (digest d) ≡ digest d
  pub ne_nil : (d : Bytes) → equal (digest d) [] ≡ false

-- An object under its physical key: its key, its size and its digest are those of its content.
pub record IsFaithful (digest_of : Bytes → Bytes) (physical : Bytes) (object : MemoryObject)
    : Type 0 where
  pub key : object.info.key ≡ physical
  pub size : object.info.size ≡ length object.content
  pub digest : object_md5 object.info ≡ digest_of object.content
  pub etag : object.info.etag ≡ digest_of object.content

pub record IsConsistent (digest_of : Bytes → Bytes) (s : MemoryStore) : Type 0 where
  pub at_key :
      (k : Bytes) (o : MemoryObject) → lookup k s.objects ≡ some o → IsFaithful digest_of k o

module _ (env : Env) (hex : IsHex env.digest) where
  object_md5-new_object :
      (physical content : Bytes) (options : PutOptions)
      → object_md5 (new_object env physical content options).info ≡ env.digest content
  unfolding object_md5 new_object
  object_md5-new_object physical content options =
      rw (lookup-insert, equal_refl (codes "md5"), hex.ne_nil content, hex.lower content) refl

  new_object-IsFaithful :
      (physical content : Bytes) (options : PutOptions)
      → IsFaithful env.digest physical (new_object env physical content options)
  unfolding new_object
  new_object-IsFaithful physical content options = record {
    key = refl;
    size = refl;
    digest = object_md5-new_object physical content options;
    etag = refl;
  }

  cloned-IsFaithful :
      (k physical : Bytes) (o : MemoryObject)
      → IsFaithful env.digest k o
      → IsFaithful env.digest physical (cloned env physical o)
  unfolding cloned object_md5
  cloned-IsFaithful k physical o h = record {
    key = refl;
    size = h.size;
    digest = h.digest;
    etag = h.etag;
  }

  insert-IsConsistent :
      (s : MemoryStore) (k : Bytes) (o : MemoryObject)
      → IsFaithful env.digest k o
      → IsConsistent env.digest s
      → IsConsistent env.digest (record s { objects = insert k o s.objects })
  insert-IsConsistent s k o f h = record {
    at_key = λ j x e. elim (Bool-cases (equal k j)) [
      | inl same ↦
          subst (λ y. IsFaithful env.digest j y)
            (some-injective o x (rw (lookup-insert, same) at e))
            (subst (λ i. IsFaithful env.digest i o) ((equal_iff k j).0 same) f)
      | inr other ↦ h.at_key j x (rw (lookup-insert, other) at e)
    ];
  }

  without-IsConsistent :
      (s : MemoryStore) (k : Bytes)
      → IsConsistent env.digest s
      → IsConsistent env.digest (record s { objects = without k s.objects })
  without-IsConsistent s k h = record {
    at_key = λ j x e. elim (Bool-cases (equal k j)) [
      | inl same ↦ cc (rw (lookup-without, same) at e)
      | inr other ↦ h.at_key j x (rw (lookup-without, other) at e)
    ];
  }

  put_over-IsConsistent :
      (key physical content : Bytes) (options : PutOptions) (old : Option MemoryObject)
      (s : MemoryStore)
      → IsConsistent env.digest s
      → IsConsistent env.digest (put_over env key physical content options old s).1
  unfolding put_over
  put_over-IsConsistent key physical content options none s h =
      insert-IsConsistent s physical _ (new_object-IsFaithful physical content options) h
  put_over-IsConsistent key physical content options (some o) s h =
      elim (Bool-cases (equal (object_md5 o.info) (env.digest content))) [
        | inl same ↦ rw same h
        | inr other ↦ elim (Bool-cases (options.fail_if_exists || options.create_only)) [
          | inl kept ↦ rw (other, kept) h
          | inr written ↦
              rw (other, written)
                (insert-IsConsistent s physical _ (new_object-IsFaithful physical content options)
                  h)
        ]
      ]

  pub put-IsConsistent :
      (key : Bytes) (body : Result Bytes) (options : PutOptions) (s : MemoryStore)
      → IsConsistent env.digest s
      → IsConsistent env.digest (put env key body options s).1
  unfolding put
  put-IsConsistent key body options s h = go body (located env s.prefix key)
    where
      go :
          (body physical : Result Bytes)
          → IsConsistent env.digest (put_located env key body options physical s).1
      go body (err e) = h
      go (err e) (ok physical) = h
      go (ok content) (ok physical) =
          put_over-IsConsistent key physical content options (lookup physical s.objects) s h

  pub delete-IsConsistent :
      (key : Bytes) (s : MemoryStore)
      → IsConsistent env.digest s
      → IsConsistent env.digest (delete env key s).1
  unfolding delete
  delete-IsConsistent key s h = go (located env s.prefix key)
    where
      go : (physical : Result Bytes) → IsConsistent env.digest (delete_at env physical s).1
      go (err e) = h
      go (ok physical) = without-IsConsistent s physical h

  pub delete_if_match-IsConsistent :
      (key etag : Bytes) (s : MemoryStore)
      → IsConsistent env.digest s
      → IsConsistent env.digest (delete_if_match env key etag s).1
  unfolding delete_if_match
  delete_if_match-IsConsistent key etag s h = go (located env s.prefix key)
    where
      over :
          (physical : Bytes) (old : Option MemoryObject)
          → IsConsistent env.digest (delete_matching env key etag physical old s).1
      over physical none = h
      over physical (some o) = elim (Bool-cases (equal (trim_etag o.info.etag) (trim_etag etag))) [
        | inl same ↦ rw same (without-IsConsistent s physical h)
        | inr other ↦ rw other h
      ]

      go :
          (physical : Result Bytes)
          → IsConsistent env.digest (delete_if_match_at env key etag physical s).1
      go (err e) = h
      go (ok physical) = over physical (lookup physical s.objects)

  copy_over-IsConsistent :
      (destination from physical : Bytes) (options : CopyOptions) (o : MemoryObject)
      (old : Option MemoryObject) (s : MemoryStore)
      → IsFaithful env.digest from o
      → IsConsistent env.digest s
      → IsConsistent env.digest (copy_over env destination physical options o old s).1
  unfolding copy_over
  copy_over-IsConsistent destination from physical options o none s f h =
      insert-IsConsistent s physical _ (cloned-IsFaithful from physical o f) h
  copy_over-IsConsistent destination from physical options o (some x) s f h =
      elim (Bool-cases (equal (object_md5 x.info) (object_md5 o.info))) [
        | inl same ↦ rw same h
        | inr other ↦ elim (Bool-cases (options.create_only || options.fail_if_exists)) [
          | inl kept ↦ rw (other, kept) h
          | inr written ↦
              rw (other, written)
                (insert-IsConsistent s physical _ (cloned-IsFaithful from physical o f) h)
        ]
      ]

  copy_from-IsConsistent :
      (source destination from physical : Bytes) (options : CopyOptions) (old : Option MemoryObject)
      (s : MemoryStore)
      → lookup from s.objects ≡ old
      → IsConsistent env.digest s
      → IsConsistent env.digest (copy_from env source destination physical options old s).1
  unfolding copy_from
  copy_from-IsConsistent source destination from physical options none s e h = h
  copy_from-IsConsistent source destination from physical options (some o) s e h =
      elim (Bool-cases (stale_etag options o)) [
        | inl stale ↦ rw stale h
        | inr fresh ↦ rw fresh (
            copy_over-IsConsistent destination from physical options o (lookup physical s.objects) s
              (h.at_key from o e) h)
      ]

  pub copy-IsConsistent :
      (source destination : Bytes) (options : CopyOptions) (s : MemoryStore)
      → IsConsistent env.digest s
      → IsConsistent env.digest (copy env source destination options s).1
  unfolding copy
  copy-IsConsistent source destination options s h =
      go (located env s.prefix source) (join_key s.prefix destination)
    where
      go :
          (from to : Result Bytes)
          → IsConsistent env.digest (copy_at env source destination options from to s).1
      go (err e) to = h
      go (ok from) (err e) = h
      go (ok from) (ok to) =
          copy_from-IsConsistent source destination from to options (lookup from s.objects) s refl h

-- A call that changes a store, with the clock and the context that it is made under.
pub data Change : Type 0 where
  put_call : Bytes → Result Bytes → PutOptions → Change
  delete_call : Bytes → Change
  delete_if_match_call : Bytes → Bytes → Change
  copy_call : Bytes → Bytes → CopyOptions → Change

abbrev pub perform : Env → Change → MemoryStore → MemoryStore
perform env (put_call key body options) s = (put env key body options s).1
perform env (delete_call key) s = (delete env key s).1
perform env (delete_if_match_call key etag) s = (delete_if_match env key etag s).1
perform env (copy_call source destination options) s = (copy env source destination options s).1

-- The states that a new store can reach; each call may see another clock and another context.
pub data Reachable (digest_of : Bytes → Bytes) (prefix : Bytes) : MemoryStore → Type 0 where
  fresh : Reachable digest_of prefix (new_memory_store prefix)
  after :
      {s : MemoryStore} (env : Env) (change : Change)
      → env.digest ≡ digest_of
      → Reachable digest_of prefix s
      → Reachable digest_of prefix (perform env change s)

perform-IsConsistent :
    (env : Env) (change : Change) (s : MemoryStore)
    → IsHex env.digest
    → IsConsistent env.digest s
    → IsConsistent env.digest (perform env change s)
perform-IsConsistent env (put_call key body options) s hex h =
    put-IsConsistent env hex key body options s h
perform-IsConsistent env (delete_call key) s hex h = delete-IsConsistent env hex key s h
perform-IsConsistent env (delete_if_match_call key etag) s hex h =
    delete_if_match-IsConsistent env hex key etag s h
perform-IsConsistent env (copy_call source destination options) s hex h =
    copy-IsConsistent env hex source destination options s h

new_memory_store-IsConsistent :
    (digest_of : Bytes → Bytes) (prefix : Bytes) → IsConsistent digest_of (new_memory_store prefix)
unfolding new_memory_store lookup
new_memory_store-IsConsistent digest_of prefix = record { at_key = λ k o e. cc }

-- After any calls on a new store, failed ones included, every object carries the key it is stored
-- under, the size of its content, and the digest of its content both as `md5` metadata and as
-- ETag. The digest is assumed to be lower-case and not empty, as a hexadecimal MD5 is.
pub Reachable-IsConsistent :
    {digest_of : Bytes → Bytes} {prefix : Bytes} {s : MemoryStore}
    → IsHex digest_of
    → Reachable digest_of prefix s
    → IsConsistent digest_of s
Reachable-IsConsistent {digest_of} {prefix} hex fresh =
    new_memory_store-IsConsistent digest_of prefix
Reachable-IsConsistent {digest_of} hex (after {s} env change e r) =
    subst (λ d. IsConsistent d (perform env change s)) e
      (perform-IsConsistent env change s (subst IsHex (sym e) hex)
        (subst (λ d. IsConsistent d s) (sym e) (Reachable-IsConsistent hex r)))
