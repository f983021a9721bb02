-- ===== src/Storage/S3.antt =====
-- internal/storage/s3.go: the store on an S3 service. The service is a parameter, as are the digest and
-- the escaping of a copy source; what else others change between two requests is not part of them.
pub mod Guarded
pub mod Pages
use deb_s3_go.Base.{
  ℕ, zero, suc, Bool, true, false, not, ◌||◌, ◌&&◌, List, [], ◌∷◌, ◌++◌, Option, none, some, Bytes,
  Error, not_found, conflict, message, wrap, is_not_found, Result, ok, err, ◌>>=◌, wrap_error,
  if◌then◌else◌, length,
}
use deb_s3_go.Base.Strings.{codes, equal, trim_byte, has_suffix, member}
use deb_s3_go.Base.Assoc.{Assoc, insert}
use deb_s3_go.Base.Paths.{slash}
use deb_s3_go.Storage.Keys.{normalize_prefix, join_key, logical_key}
use deb_s3_go.Storage.Objects.{ObjectInfo, PutOptions, CopyOptions}
use deb_s3_go.Storage.Memory.{trim_etag, object_md5}
use deb_s3_go.Storage.Service.{
  Failure, api, other, Answer, done, failed, PutObjectInput, DeleteObjectInput, CopyObjectInput,
  ListObjectsInput, HeadObjectOutput, ListedObject, ListObjectsOutput, Client,
}

-- `S3Store`, without its client
pub record S3Store : Type 0 where
  pub bucket : Bytes
  pub prefix : Bytes
  pub acl : Bytes
  pub encryption : Bool

-- `newS3Store`
abbrev pub new_s3_store : Bytes → Bytes → Bytes → Bool → S3Store
new_s3_store bucket prefix acl encryption = record {
  bucket = bucket;
  prefix = trim_byte b'/' prefix;
  acl = acl;
  encryption = encryption;
}

-- `visibilityACL`
unfoldable pub visibility_acl : Bytes → Result Bytes
visibility_acl visibility =
    if equal visibility (codes "public")
    then ok (codes "public-read")
    else if equal visibility (codes "private")
    then ok (codes "private")
    else if equal visibility (codes "authenticated")
    then ok (codes "authenticated-read")
    else if equal visibility (codes "bucket_owner")
    then ok (codes "bucket-owner-full-control")
    else if equal visibility (codes "nil")
    then ok []
    else err (message "invalid visibility")

-- `mapS3Error`
abbrev pub missing_codes : List Bytes
missing_codes = codes "NoSuchKey" ∷ codes "NotFound" ∷ codes "404" ∷ []

abbrev pub conflict_codes : List Bytes
conflict_codes =
    codes "PreconditionFailed" ∷ codes "ConditionalRequestConflict" ∷ codes "412" ∷ codes "409" ∷ []

unfoldable pub map_s3_error : Bytes → Failure → Error
unfolding member
map_s3_error key (other e) = wrap "S3 object" e
map_s3_error key (api code) =
    if member code missing_codes
    then not_found key
    else if member code conflict_codes
    then conflict key
    else wrap "S3 object" (message "API error")

abbrev pub answered {ℓ} : {A : Type ℓ} → A → Option A → A
answered d none = d
answered d (some a) = a

abbrev unless_empty : Bytes → Option Bytes
unless_empty s = if equal s [] then none else some s

-- `*`, which no stored object meets
abbrev pub absent : Option Bytes
absent = some (codes "*")

abbrev pub settled : Bytes → Answer (Unit {0}) → Result (Unit {0})
settled key (done _) = ok tt
settled key (failed f) = err (map_s3_error key f)

abbrev pub given : {A : Type 0} → Option A → Bool
given none = false
given (some _) = true

module _ {W : Type 0} (client : Client W) (digest : Bytes → Bytes) (escape : Bytes → Bytes) where
  -- `Get`
  abbrev read_body : Bytes → Answer (Result Bytes) → Result Bytes
  read_body key (failed f) = err (map_s3_error key f)
  read_body key (done body) = wrap_error "read object" body

  unfoldable pub get : S3Store → Bytes → W → Result Bytes
  unfolding join_key map_s3_error
  get s key w = do
    physical ← join_key s.prefix key
    read_body key (client.get_object s.bucket physical w)

  -- `Head`
  abbrev pub info_of : Bytes → HeadObjectOutput → ObjectInfo
  info_of key o = record {
    key = key;
    size = answered 0 o.content_length;
    etag = trim_etag (answered [] o.etag);
    metadata = o.metadata;
    content_type = answered [] o.content_type;
    cache_control = answered [] o.cache_control;
    acl = [];
    server_side_encryption = o.server_side_encryption;
    last_modified = answered 0 o.last_modified;
  }

  abbrev pub headed : Bytes → Answer HeadObjectOutput → Result ObjectInfo
  headed key (failed f) = err (map_s3_error key f)
  headed key (done o) = ok (info_of key o)

  unfoldable pub head : S3Store → Bytes → W → Result ObjectInfo
  unfolding join_key map_s3_error
  head s key w = do
    physical ← join_key s.prefix key
    headed key (client.head_object s.bucket physical w)

  -- The request of `Put`; `missing` says whether `Head` found nothing.
  abbrev metadata_or_empty : Option (Assoc Bytes) → Assoc Bytes
  metadata_or_empty none = []
  metadata_or_empty (some m) = m

  abbrev pub put_input : S3Store → Bytes → Bytes → PutOptions → Bool → PutObjectInput
  put_input s physical content options missing = record {
    bucket = s.bucket;
    key = physical;
    body = content;
    content_length = length content;
    metadata = insert (codes "md5") (digest content) (metadata_or_empty options.metadata);
    acl = unless_empty s.acl;
    content_type = unless_empty options.content_type;
    cache_control = unless_empty options.cache_control;
    server_side_encryption = s.encryption || options.server_side_encryption;
    if_none_match =
        if options.create_only || (options.fail_if_exists && missing) then absent else none;
  }

  send_put : S3Store → Bytes → Bytes → Bytes → PutOptions → Bool → W → Result (Unit {0}) × W
  send_put s key physical content options missing w =
      let (answer, w') = client.put_object (put_input s physical content options missing) w in
      (settled key answer, w')

  -- `Put` from the answer of `Head` on: what it asks for, if anything.
  unfoldable pub put_after :
      S3Store → Bytes → Bytes → Bytes → PutOptions → Result ObjectInfo → W → Result (Unit {0}) × W
  unfolding send_put object_md5
  put_after s key physical content options (ok existing) w =
      if equal (object_md5 existing) (digest content)
      then (ok tt, w)
      else if options.fail_if_exists || options.create_only
      then (err (conflict key), w)
      else send_put s key physical content options false w
  put_after s key physical content options (err e) w =
      if not (is_not_found e) then (err e, w) else send_put s key physical content options true w

  -- `Put`
  abbrev put_content :
      S3Store → Bytes → PutOptions → Bytes → Result Bytes → W → Result (Unit {0}) × W
  put_content s key options physical (err e) w = (err (wrap "hash object" e), w)
  put_content s key options physical (ok content) w =
      put_after s key physical content options (head s key w) w

  abbrev put_at :
      S3Store → Bytes → Result Bytes → PutOptions → Result Bytes → W → Result (Unit {0}) × W
  put_at s key body options (err e) w = (err e, w)
  put_at s key body options (ok physical) w = put_content s key options physical body w

  unfoldable pub put : S3Store → Bytes → Result Bytes → PutOptions → W → Result (Unit {0}) × W
  unfolding put_after head join_key
  put s key body options w = put_at s key body options (join_key s.prefix key) w

  -- `Delete` and `DeleteIfMatch`
  send_delete : S3Store → Bytes → Option Bytes → Result Bytes → W → Result (Unit {0}) × W
  send_delete s key if_match (err e) w = (err e, w)
  send_delete s key if_match (ok physical) w =
      let (answer, w') =
        client.delete_object (record { bucket = s.bucket; key = physical; if_match = if_match })
          w in
      (settled key answer, w')

  unfoldable pub delete : S3Store → Bytes → W → Result (Unit {0}) × W
  unfolding send_delete join_key
  delete s key w = send_delete s key none (join_key s.prefix key) w

  unfoldable pub delete_if_match : S3Store → Bytes → Bytes → W → Result (Unit {0}) × W
  unfolding send_delete join_key trim_etag
  delete_if_match s key etag w = send_delete s key (some (trim_etag etag)) (join_key s.prefix key) w

  -- The request of `Copy`
  abbrev pub copy_input : S3Store → Bytes → Bytes → CopyOptions → Bool → CopyObjectInput
  copy_input s from to options missing = record {
    bucket = s.bucket;
    key = to;
    copy_source = escape (s.bucket ++ (slash ++ from));
    acl = unless_empty s.acl;
    server_side_encryption = s.encryption;
    copy_source_if_match =
        if equal options.source_etag [] then none else some (trim_etag options.source_etag);
    if_none_match =
        if (options.create_only || options.fail_if_exists) && missing then absent else none;
  }

  send_copy : S3Store → Bytes → Bytes → Bytes → CopyOptions → Bool → W → Result (Unit {0}) × W
  send_copy s key from to options missing w =
      let (answer, w') = client.copy_object (copy_input s from to options missing) w in
      (settled key answer, w')

  -- `Copy` from the answers of both calls of `Head` on.
  copy_onto :
      S3Store
      → Bytes
      → Bytes
      → Bytes
      → CopyOptions
      → ObjectInfo
      → Result ObjectInfo
      → W
      → Result (Unit {0}) × W
  unfolding send_copy object_md5
  copy_onto s key from to options source (ok existing) w =
      if not (equal (object_md5 source) []) && equal (object_md5 source) (object_md5 existing)
      then (ok tt, w)
      else if options.create_only || options.fail_if_exists
      then (err (conflict key), w)
      else send_copy s key from to options false w
  copy_onto s key from to options source (err e) w =
      if not (is_not_found e) then (err e, w) else send_copy s key from to options true w

  unfoldable pub copy_after :
      S3Store
      → Bytes
      → Bytes
      → Bytes
      → Bytes
      → CopyOptions
      → Result ObjectInfo
      → Result ObjectInfo
      → W
      → Result (Unit {0}) × W
  unfolding copy_onto trim_etag
  copy_after s source key from to options (err e) existing w = (err e, w)
  copy_after s source key from to options (ok info) existing w =
      if not (equal options.source_etag [])
        && not (equal (trim_etag options.source_etag) (trim_etag info.etag))
      then (err (conflict source), w)
      else copy_onto s key from to options info existing w

  abbrev copy_at :
      S3Store
      → Bytes
      → Bytes
      → CopyOptions
      → Result Bytes
      → Result Bytes
      → W
      → Result (Unit {0}) × W
  copy_at s source key options (err e) to w = (err e, w)
  copy_at s source key options (ok from) (err e) w = (err e, w)
  copy_at s source key options (ok from) (ok to) w =
      copy_after s source key from to options (head s source w) (head s key w) w

  -- `Copy`
  unfoldable pub copy : S3Store → Bytes → Bytes → CopyOptions → W → Result (Unit {0}) × W
  unfolding copy_after head join_key
  copy s source key options w =
      copy_at s source key options (join_key s.prefix source) (join_key s.prefix key) w

  -- `List`: the prefix that is asked for
  abbrev slashed : Bytes → Bytes → Bytes
  slashed prefix physical = if has_suffix prefix slash then physical ++ slash else physical

  listed_prefix : S3Store → Bytes → Bytes → Result Bytes
  unfolding join_key has_suffix
  listed_prefix s prefix normalized =
      if not (equal prefix [])
      then join_key s.prefix prefix >>= (λ physical. ok (slashed prefix physical))
      else if not (equal normalized [])
      then ok (normalized ++ slash)
      else ok normalized

  unfoldable pub list_prefix : S3Store → Bytes → Result Bytes
  unfolding normalize_prefix listed_prefix
  list_prefix s prefix = normalize_prefix s.prefix >>= listed_prefix s prefix

  -- What one page lists below the store's prefix.
  listed_at : ListedObject → Option Bytes → List ObjectInfo
  listed_at o none = []
  listed_at o (some logical) =
      (record {
        key = logical;
        size = answered 0 o.size;
        etag = trim_etag (answered [] o.etag);
        metadata = [];
        content_type = [];
        cache_control = [];
        acl = [];
        server_side_encryption = false;
        last_modified = answered 0 o.last_modified;
      })
      ∷ []

  unfoldable pub page_objects : S3Store → List ListedObject → List ObjectInfo
  unfolding listed_at logical_key
  page_objects s [] = []
  page_objects s (o ∷ os) =
      listed_at o (logical_key s.prefix (answered [] o.key)) ++ page_objects s os

  -- The loop over the pages; `none` means that the fuel ran out.
  after_page :
      (Bytes → List ObjectInfo → Option (Result (List ObjectInfo)))
      → List ObjectInfo
      → Bool
      → Option Bytes
      → Option (Result (List ObjectInfo))
  after_page next objects false token = some (ok objects)
  after_page next objects true none =
      some (err (message "S3 returned a truncated object listing without a continuation token"))
  after_page next objects true (some []) =
      some (err (message "S3 returned a truncated object listing without a continuation token"))
  after_page next objects true (some (c ∷ token)) = next (c ∷ token) objects

  on_page :
      S3Store
      → (Bytes → List ObjectInfo → Option (Result (List ObjectInfo)))
      → List ObjectInfo
      → Answer ListObjectsOutput
      → Option (Result (List ObjectInfo))
  unfolding after_page page_objects
  on_page s next objects (failed (other e)) = some (err (wrap "list objects" e))
  on_page s next objects (failed (api code)) =
      some (err (wrap "list objects" (message "API error")))
  on_page s next objects (done o) =
      after_page next (objects ++ page_objects s o.contents) (answered false o.is_truncated)
        o.next_continuation_token

  unfoldable pub list_pages :
      ℕ → S3Store → Bytes → Option Bytes → List ObjectInfo → W → Option (Result (List ObjectInfo))
  unfolding on_page
  list_pages zero s prefix token objects w = none
  list_pages (suc fuel) s prefix token objects w =
      on_page s (λ next found. list_pages fuel s prefix (some next) found w) objects
        (client.list_objects
          (record { bucket = s.bucket; prefix = prefix; continuation_token = token }) w)

  abbrev listed : ℕ → S3Store → Result Bytes → W → Option (Result (List ObjectInfo))
  listed fuel s (err e) w = some (err e)
  listed fuel s (ok prefix) w = list_pages fuel s prefix none [] w

  -- `List`
  unfoldable pub list : ℕ → S3Store → Bytes → W → Option (Result (List ObjectInfo))
  unfolding list_pages list_prefix
  list fuel s prefix w = listed fuel s (list_prefix s prefix) w
