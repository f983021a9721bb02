-- ===== src/Storage/Memory/Guarded.antt =====
-- internal/storage/memory.go: a guarded `Put` over another object.
use deb_s3_go.Base.{none, arith, true, false, ◌||◌, some, Bytes, ok, err, conflict, ◌≡◌, refl}
use deb_s3_go.Base.Strings.{equal, equal_refl}
use deb_s3_go.Base.Assoc.{lookup, insert, lookup-insert}
use deb_s3_go.Storage.Objects.{PutOptions, ObjectInfo}
use deb_s3_go.Storage.Memory.{
  MemoryObject, MemoryStore, Env, located, put, put_located, put_over, object_md5, new_object, head,
}
use deb_s3_go.Storage.Memory.Contents.{contents, with_key}

pub put-conflict :
    (env : Env) (s : MemoryStore) (key d : Bytes) (options : PutOptions) (place : Bytes)
    (o : MemoryObject)
    → located env s.prefix key ≡ ok place
    → lookup place s.objects ≡ some o
    → equal (object_md5 o.info) (env.digest d) ≡ false
    → options.fail_if_exists || options.create_only ≡ true
    → put env key (ok d) options s ≡ (err (conflict key), s)
unfolding put put_located put_over
put-conflict env s key d options place o at there other guarded =
    rw (at, there, other, guarded) refl

-- A `Put` at a free key, and the `Head` that follows it.
pub put_head-free :
    (env : Env) (s : MemoryStore) (key d : Bytes) (options : PutOptions) (place : Bytes)
    → located env s.prefix key ≡ ok place
    → lookup place s.objects ≡ none
    → (s' : MemoryStore) × (info : ObjectInfo) × (put env key (ok d) options s ≡ (ok tt, s'))
      × (head env key s' ≡ (ok info, s'))
      × (info.etag ≡ env.digest d)
      × ((j : Bytes) → contents s' j ≡ with_key place d (contents s) j)
      × (s'.prefix ≡ s.prefix)
unfolding put put_located put_over new_object head located
put_head-free env s key d options place at free =
    let object = new_object env place d options in
    (
      record s { objects = insert place object s.objects },
      record (object.info) { key = key },
      rw (at, free) refl,
      rw (at, lookup-insert, equal_refl place) refl,
      refl,
      λ j. rw lookup-insert (ground arith),
      refl,
    )
