-- ===== src/Examples/Service.antt =====
-- internal/storage/s3.go: the theorems on the store over a service, applied to a small service.
use deb_s3_go.Base.{
  true, false, [], ◌∷◌, Option, none, some, Bytes, ok, if◌then◌else◌, length, ◌≡◌, refl, Bool-cases,
  inl, inr, arith, String,
}
use deb_s3_go.Base.Strings.{
  codes, equal, equal_iff, member, has_prefix, trim_prefix, trim_func, drop_while, split, join,
  contains_byte,
}
use deb_s3_go.Base.Assoc.{Assoc, lookup, insert, without}
use deb_s3_go.Base.Paths.{clean, path_join}
use deb_s3_go.Storage.Keys.{normalize_prefix}
use deb_s3_go.Storage.Service.{
  Answer, api, done, failed, PutObjectInput, DeleteObjectInput, HeadObjectOutput, ListObjectsOutput,
  ListedObject, Client,
}
use deb_s3_go.Storage.S3.{S3Store, new_s3_store, put_after, list, list_prefix, page_objects, head}
use deb_s3_go.Storage.S3.Guarded.{IsConditional, Keeps, put_after-Keeps}
use deb_s3_go.Storage.S3.Pages.{Pages, list-Pages}
use deb_s3_go.Examples.Storage.{options, first_digest}

-- A bucket: the contents of its keys. A content is its own ETag.
abbrev Bucket : Type 0
Bucket = Assoc Bytes

abbrev put_if : Option Bytes → Option Bytes → PutObjectInput → Bucket → Answer (Unit {0}) × Bucket
put_if (some star) (some held) input w = (failed (api (codes "PreconditionFailed")), w)
put_if (some star) none input w = (done tt, insert input.key input.body w)
put_if none held input w = (done tt, insert input.key input.body w)

abbrev delete_if :
    Option Bytes → Option Bytes → DeleteObjectInput → Bucket → Answer (Unit {0}) × Bucket
delete_if none held input w = (done tt, without input.key w)
delete_if (some e) none input w = (failed (api (codes "NoSuchKey")), w)
delete_if (some e) (some held) input w =
    if equal e held then (done tt, without input.key w) else (failed (api (codes "412")), w)

abbrev head_of : Option Bytes → Answer HeadObjectOutput
head_of none = failed (api (codes "NotFound"))
head_of (some content) = done (record {
  content_length = some (length content);
  etag = some content;
  metadata = [];
  content_type = none;
  cache_control = none;
  server_side_encryption = false;
  last_modified = none;
})

abbrev listed : String → ListedObject
listed name = record { key = some (codes name); size = some 1; etag = none; last_modified = none }

-- Two pages, by the token.
abbrev page_at : Option Bytes → ListObjectsOutput
page_at none = record {
  contents = listed "repo/a" ∷ [];
  is_truncated = some true;
  next_continuation_token = some (codes "t");
}
page_at (some token) = record {
  contents = listed "other/b" ∷ listed "repo/c" ∷ [];
  is_truncated = some false;
  next_continuation_token = none;
}

abbrev client : Client Bucket
client = record {
  get_object = λ bucket key w. failed (api (codes "404"));
  head_object = λ bucket key w. head_of (lookup key w);
  put_object = λ input w. put_if input.if_none_match (lookup input.key w) input w;
  delete_object = λ input w. delete_if input.if_match (lookup input.key w) input w;
  copy_object = λ input w. (failed (api (codes "404")), w);
  list_objects = λ input w. done (page_at input.continuation_token);
}

abbrev etag : Bucket → Bytes → Bytes → Option Bytes
etag w bucket key = lookup key w

client-IsConditional : IsConditional client etag
unfolding equal member
client-IsConditional = record {
  none_match = λ input w e star h. (codes "PreconditionFailed", rw (star, h) refl, refl);
  match = λ input w e e' m h n. (
    codes "412",
    rw (m, h)
        (elim (Bool-cases (equal e e')) [
          | inl same ↦ absurd (n ((equal_iff e e').0 same))
          | inr different ↦ rw different refl
        ]),
    refl,
  );
}

abbrev s : S3Store
s = new_s3_store (codes "b") (codes "repo") [] false

abbrev bucket : Bucket
bucket = insert (codes "repo/k") (codes "held") []

held_at : etag bucket (codes "b") (codes "repo/k") ≡ some (codes "held")
unfolding lookup insert equal
held_at = refl

-- `Head` saw the bucket before the key was there.
put_after-Keeps_example :
    Keeps client first_digest
      (λ c. c)
      client-IsConditional
      s
      (head client first_digest (λ c. c) s (codes "k") [])
      (codes "x")
      bucket
      (put_after client first_digest
        (λ c. c)
        s
        (codes "k")
        (codes "repo/k")
        (codes "x")
        options
        (head client first_digest (λ c. c) s (codes "k") [])
        bucket)
put_after-Keeps_example =
    put_after-Keeps client first_digest (λ c. c) client-IsConditional s (codes "k") (codes "repo/k")
      (codes "x") (codes "held") options (head client first_digest (λ c. c) s (codes "k") []) bucket
      refl held_at

prefix_at : list_prefix client first_digest (λ c. c) s [] ≡ ok (codes "repo/")
unfolding list_prefix trim_func drop_while equal contains_byte clean path_join split join has_prefix
    trim_prefix normalize_prefix
prefix_at = refl

bucket-Pages :
    Pages client s
      (codes "repo/")
      bucket
      none
      (listed "repo/a" ∷ listed "other/b" ∷ listed "repo/c" ∷ [])
      2
bucket-Pages =
    Pages.more none (page_at none) b't' [] (page_at (some (codes "t"))).contents 1 refl refl refl
      (Pages.last (some (codes "t")) (page_at (some (codes "t"))) refl refl)

list-Pages_example :
    list client first_digest (λ c. c) 2 s [] bucket
    ≡ some (
        ok (
          page_objects client first_digest
            (λ c. c)
            s
            (listed "repo/a" ∷ listed "other/b" ∷ listed "repo/c" ∷ [])))
list-Pages_example =
    list-Pages client first_digest (λ c. c) s [] (codes "repo/") bucket _ 2 2 prefix_at bucket-Pages
      (omega arith)
