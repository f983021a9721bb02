-- ===== src/Storage/Memory.antt =====
-- internal/storage/memory.go: the in-memory store. Each operation holds the mutex, so it is one step.
pub mod Consistent
pub mod Contents
pub mod Guarded
pub mod Listing
use deb_s3_go.Base.{
  ℕ, Bool, true, false, not, ◌||◌, ◌&&◌, List, [], ◌∷◌, ◌++◌, Option, none, some, Bytes, Error,
  not_found, conflict, Result, ok, err, ◌>>=◌, wrap_error, if◌then◌else◌, length, String,
}
use deb_s3_go.Base.Strings.{
  codes, equal, less, has_prefix, has_suffix, to_lower, trim_space, trim_byte,
}
use deb_s3_go.Base.Assoc.{Assoc, lookup, insert, without}
use deb_s3_go.Base.Paths.{slash}
use deb_s3_go.Storage.Keys.{normalize_prefix, join_key, logical_key}
use deb_s3_go.Storage.Objects.{ObjectInfo, PutOptions, CopyOptions, M, Store}

pub record MemoryObject : Type 0 where
  pub content : Bytes
  pub info : ObjectInfo

pub record MemoryStore : Type 0 where
  pub prefix : Bytes
  pub objects : Assoc MemoryObject

-- What the process supplies: the hexadecimal MD5 digest, the clock, and `ctx.Err()`.
pub record Env : Type 0 where
  pub digest : Bytes → Bytes
  pub now : ℕ
  pub ctx : Option Error

abbrev or_else : Bytes → Result Bytes → Bytes
or_else d (ok a) = a
or_else d (err _) = d

-- `NewMemoryStore`
unfoldable pub new_memory_store : Bytes → MemoryStore
new_memory_store prefix = record { prefix = or_else prefix (normalize_prefix prefix); objects = [] }

-- `trimETag`
unfoldable pub trim_etag : Bytes → Bytes
trim_etag etag = trim_byte b'"' (trim_space etag)

-- `objectMD5`; a missing key of a Go map reads as the empty string.
abbrev value_or_nil : Option Bytes → Bytes
value_or_nil none = []
value_or_nil (some v) = v

unfoldable pub object_md5 : ObjectInfo → Bytes
unfolding trim_etag
object_md5 info =
    let digest = value_or_nil (lookup (codes "md5") info.metadata) in
    if equal digest [] then to_lower (trim_etag info.etag) else to_lower digest

-- The test of `options.SourceETag`.
abbrev stale_etag : CopyOptions → MemoryObject → Bool
stale_etag options object =
    not (equal options.source_etag [])
    && not (equal (trim_etag options.source_etag) (trim_etag object.info.etag))

module _ (env : Env) where
  check_ctx : Result (Unit {0})
  check_ctx = elim env.ctx [ none ↦ ok tt | some e ↦ err e ]

  -- `ctx.Err()`, then the physical key
  unfoldable pub located : Bytes → Bytes → Result Bytes
  unfolding check_ctx
  located prefix key = check_ctx >>= λ _. join_key prefix key

  found : Bytes → Option MemoryObject → Result MemoryObject
  found key none = err (not_found key)
  found key (some object) = ok object

  -- `Get`
  unfoldable pub get : Bytes → M MemoryStore Bytes
  unfolding located found
  get key s = (
    do
      physical ← located s.prefix key
      object ← found key (lookup physical s.objects)
      ok object.content,
    s,
  )

  -- `Head`; the copy of the metadata is the value itself.
  unfoldable pub head : Bytes → M MemoryStore ObjectInfo
  unfolding located found
  head key s = (
    do
      physical ← located s.prefix key
      object ← found key (lookup physical s.objects)
      ok (record object.info { key = key }),
    s,
  )

  abbrev metadata_or_empty : Option (Assoc Bytes) → Assoc Bytes
  metadata_or_empty none = []
  metadata_or_empty (some m) = m

  -- The object that `Put` stores.
  pub new_object : Bytes → Bytes → PutOptions → MemoryObject
  new_object physical content options = record {
    content = content;
    info = record {
      key = physical;
      size = length content;
      etag = env.digest content;
      metadata = insert (codes "md5") (env.digest content) (metadata_or_empty options.metadata);
      content_type = options.content_type;
      cache_control = options.cache_control;
      acl = [];
      server_side_encryption = options.server_side_encryption;
      last_modified = env.now;
    };
  }

  abbrev store_at : Bytes → MemoryObject → MemoryStore → MemoryStore
  store_at physical object s = record s { objects = insert physical object s.objects }

  put_over :
      Bytes
      → Bytes
      → Bytes
      → PutOptions
      → Option MemoryObject
      → MemoryStore
      → Result (Unit {0}) × MemoryStore
  unfolding new_object
  put_over key physical content options none s =
      (ok tt, store_at physical (new_object physical content options) s)
  put_over key physical content options (some existing) s =
      if equal (object_md5 existing.info) (env.digest content)
      then (ok tt, s)
      else if options.fail_if_exists || options.create_only
      then (err (conflict key), s)
      else (ok tt, store_at physical (new_object physical content options) s)

  -- `Put`
  put_located : Bytes → Result Bytes → PutOptions → Result Bytes → M MemoryStore (Unit {0})
  unfolding put_over
  put_located key body options (err e) s = (err e, s)
  put_located key (err e) options (ok physical) s = (err (Error.wrap "read object" e), s)
  put_located key (ok content) options (ok physical) s =
      put_over key physical content options (lookup physical s.objects) s

  unfoldable pub put : Bytes → Result Bytes → PutOptions → M MemoryStore (Unit {0})
  unfolding located put_located
  put key body options s = put_located key body options (located s.prefix key) s

  delete_at : Result Bytes → M MemoryStore (Unit {0})
  delete_at (err e) s = (err e, s)
  delete_at (ok physical) s = (ok tt, record s { objects = without physical s.objects })

  -- `Delete`
  unfoldable pub delete : Bytes → M MemoryStore (Unit {0})
  unfolding located delete_at
  delete key s = delete_at (located s.prefix key) s

  delete_matching : Bytes → Bytes → Bytes → Option MemoryObject → M MemoryStore (Unit {0})
  delete_matching key etag physical none s = (err (not_found key), s)
  delete_matching key etag physical (some object) s =
      if not (equal (trim_etag object.info.etag) (trim_etag etag))
      then (err (conflict key), s)
      else (ok tt, record s { objects = without physical s.objects })

  delete_if_match_at : Bytes → Bytes → Result Bytes → M MemoryStore (Unit {0})
  unfolding delete_matching
  delete_if_match_at key etag (err e) s = (err e, s)
  delete_if_match_at key etag (ok physical) s =
      delete_matching key etag physical (lookup physical s.objects) s

  -- `DeleteIfMatch`
  unfoldable pub delete_if_match : Bytes → Bytes → M MemoryStore (Unit {0})
  unfolding located delete_if_match_at
  delete_if_match key etag s = delete_if_match_at key etag (located s.prefix key) s

  -- The object that `Copy` stores.
  pub cloned : Bytes → MemoryObject → MemoryObject
  cloned destination object = record object {
    info = record object.info { key = destination; last_modified = env.now };
  }

  copy_over :
      Bytes → Bytes → CopyOptions → MemoryObject → Option MemoryObject → M MemoryStore (Unit {0})
  unfolding cloned
  copy_over destination physical options object none s =
      (ok tt, store_at physical (cloned physical object) s)
  copy_over destination physical options object (some existing) s =
      if equal (object_md5 existing.info) (object_md5 object.info)
      then (ok tt, s)
      else if options.create_only || options.fail_if_exists
      then (err (conflict destination), s)
      else (ok tt, store_at physical (cloned physical object) s)

  copy_from : Bytes → Bytes → Bytes → CopyOptions → Option MemoryObject → M MemoryStore (Unit {0})
  unfolding copy_over
  copy_from source destination physical options none s = (err (not_found source), s)
  copy_from source destination physical options (some object) s =
      if stale_etag options object
      then (err (conflict source), s)
      else copy_over destination physical options object (lookup physical s.objects) s

  copy_at : Bytes → Bytes → CopyOptions → Result Bytes → Result Bytes → M MemoryStore (Unit {0})
  unfolding copy_from
  copy_at source destination options (err e) to s = (err e, s)
  copy_at source destination options (ok from) (err e) s = (err e, s)
  copy_at source destination options (ok from) (ok to) s =
      copy_from source destination to options (lookup from s.objects) s

  -- `Copy`
  unfoldable pub copy : Bytes → Bytes → CopyOptions → M MemoryStore (Unit {0})
  unfolding located copy_at
  copy source destination options s =
      copy_at source destination options (located s.prefix source) (join_key s.prefix destination) s

  -- `List`: the physical prefix that it compares with.
  pub list_prefix : Bytes → Bytes → Result Bytes
  list_prefix store_prefix prefix = if equal prefix [] then normalize_prefix store_prefix else do
    joined ← join_key store_prefix prefix
    ok (if has_suffix prefix slash then joined ++ slash else joined)

  pub listed_info : Bytes → MemoryObject → ObjectInfo
  listed_info logical object = record object.info { key = logical }

  -- The loop over the objects.
  pub matching : Bytes → Bytes → Assoc MemoryObject → List ObjectInfo
  unfolding listed_info
  matching store_prefix physical_prefix [] = []
  matching store_prefix physical_prefix ((physical, object) ∷ rest) =
      let later = matching store_prefix physical_prefix rest in
      if not (has_prefix physical physical_prefix)
      then later
      else elim (logical_key store_prefix physical) [
        | none ↦ later
        | some logical ↦ listed_info logical object ∷ later
      ]

  -- `sort.Slice` by key.
  insert_sorted : ObjectInfo → List ObjectInfo → List ObjectInfo
  insert_sorted a [] = a ∷ []
  insert_sorted a (b ∷ bs) = if less b.key a.key then b ∷ insert_sorted a bs else a ∷ b ∷ bs

  sort_infos : List ObjectInfo → List ObjectInfo
  unfolding insert_sorted
  sort_infos [] = []
  sort_infos (a ∷ infos) = insert_sorted a (sort_infos infos)

  -- `List`
  unfoldable pub list : Bytes → M MemoryStore (List ObjectInfo)
  unfolding check_ctx list_prefix matching sort_infos
  list prefix s = (
    check_ctx >>= (λ _.
        list_prefix s.prefix prefix >>= λ p. ok (sort_infos (matching s.prefix p s.objects))),
    s,
  )

-- The store as an implementation of `Store` and `ConditionalDeleter`.
abbrev pub memory_store : Env → Store MemoryStore
memory_store env = record {
  get = get env;
  head = head env;
  put = put env;
  delete = delete env;
  copy = copy env;
  list = list env;
  delete_if_match = some (delete_if_match env);
}
