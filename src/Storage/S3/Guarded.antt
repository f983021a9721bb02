-- ===== src/Storage/S3/Guarded.antt =====
-- internal/storage/s3.go: conditional requests, under interference.
use mathlib.Core.Path.{subst}
use deb_s3_go.Base.{
  Bool, true, List, [], ◌∷◌, Option, some, Bytes, conflict, is_not_found, Result, ok, err, ◌≡◌, ◌≢◌,
  refl, Bool-cases, inl, inr, All,
}
use deb_s3_go.Base.Strings.{equal, equal_iff, member}
use deb_s3_go.Storage.Keys.{join_key}
use deb_s3_go.Storage.Objects.{ObjectInfo, PutOptions}
use deb_s3_go.Storage.Memory.{object_md5, trim_etag}
use deb_s3_go.Storage.Service.{api, failed, PutObjectInput, DeleteObjectInput, Client}
use deb_s3_go.Storage.S3.{
  S3Store, conflict_codes, map_s3_error, absent, put_input, send_put, put_after, send_delete,
  delete_if_match,
}

-- Conditional requests as the service documents them, where `etag` tells what a key holds.
pub record IsConditional {W : Type 0} (client : Client W) (etag : W → Bytes → Bytes → Option Bytes)
    : Type 0 where
  -- `If-None-Match: *` on a key that is there: the request fails, and changes nothing.
  pub none_match :
      (input : PutObjectInput) (w : W) (e : Bytes)
      → input.if_none_match ≡ absent
      → etag w input.bucket input.key ≡ some e
      → (code : Bytes) × (client.put_object input w ≡ (failed (api code), w))
        × (member code conflict_codes ≡ true)
  -- `If-Match` with another ETag than that of the key.
  pub match :
      (input : DeleteObjectInput) (w : W) (e e' : Bytes)
      → input.if_match ≡ some e
      → etag w input.bucket input.key ≡ some e'
      → e ≢ e'
      → (code : Bytes) × (client.delete_object input w ≡ (failed (api code), w))
        × (member code conflict_codes ≡ true)

member-All :
    (P : Bytes → Type 0) (xs : List Bytes) → All P xs → (x : Bytes) → member x xs ≡ true → P x
unfolding member
member-All P [] ps x h = cc
member-All P (y ∷ xs) ps x h = elim (Bool-cases (equal y x)) [
  | inl same ↦ subst P ((equal_iff y x).0 same) ps.0
  | inr different ↦ member-All P xs ps.1 x (rw different at h)
]

map_s3_error-conflict :
    (key code : Bytes)
    → member code conflict_codes ≡ true
    → map_s3_error key (api code) ≡ conflict key
unfolding map_s3_error equal
map_s3_error-conflict key code h =
    member-All (λ c. map_s3_error key (api c) ≡ conflict key) conflict_codes
      (refl, (refl, (refl, (refl, tt)))) code h

module _ {W : Type 0} (client : Client W) (digest escape : Bytes → Bytes)
    {etag : W → Bytes → Bytes → Option Bytes} (conditional : IsConditional client etag)
    (s : S3Store) where
  -- The request of a create-only `Put` that was made while the key is there.
  send_put-Kept :
      (key physical content e : Bytes) (options : PutOptions) (missing : Bool) (w : W)
      → options.create_only ≡ true
      → etag w s.bucket physical ≡ some e
      → send_put client digest escape s key physical content options missing w
        ≡ (err (conflict key), w)
  unfolding send_put
  send_put-Kept key physical content e options missing w c h =
      let input = put_input client digest escape s physical content options missing in
      let (code, sent, known) = conditional.none_match input w e (rw c refl) h in
      rw (sent, map_s3_error-conflict key code known) refl

  -- What a run returns and leaves when it makes no change of what is stored.
  pub record Keeps (answer : Result ObjectInfo) (content : Bytes) (w : W)
      (run : Result (Unit {0}) × W) : Type 0 where
    pub unchanged : run.1 ≡ w
    pub same_content :
        run.0 ≡ ok tt
        → (info : ObjectInfo) × (answer ≡ ok info)
          × (equal (object_md5 info) (digest content) ≡ true)

  -- A create-only `Put` never replaces what a key holds, whatever `Head` answered before the request
  -- arrives, an answer that is out of date included; and it reports success only when `Head`
  -- answered with the digest of the content. The service is one that refuses `If-None-Match: *` on
  -- a key that is there.
  pub put_after-Keeps :
      (key physical content e : Bytes) (options : PutOptions) (answer : Result ObjectInfo) (w : W)
      → options.create_only ≡ true
      → etag w s.bucket physical ≡ some e
      → Keeps answer content w
          (put_after client digest escape s key physical content options answer w)
  unfolding put_after
  put_after-Keeps key physical content e options (ok info) w c h =
      elim (Bool-cases (equal (object_md5 info) (digest content))) [
        | inl same ↦ rw same (record { unchanged = refl; same_content = λ k. (info, refl, same) })
        | inr changed ↦ elim (Bool-cases options.fail_if_exists) [
          | inl fails ↦ rw (changed, fails) (record { unchanged = refl; same_content = λ k. cc })
          | inr free ↦ rw (changed, free, c) (record { unchanged = refl; same_content = λ k. cc })
        ]
      ]
  put_after-Keeps key physical content e options (err f) w c h =
      elim (Bool-cases (is_not_found f)) [
        | inl missing ↦ rw missing (
            rw (send_put-Kept key physical content e options true w c h)
              (record { unchanged = refl; same_content = λ k. cc }))
        | inr failure ↦ rw failure (record { unchanged = refl; same_content = λ k. cc })
      ]

  -- `DeleteIfMatch` with another ETag than that of the key fails with a conflict and changes nothing.
  -- The service is one that refuses `If-Match` with another ETag.
  pub delete_if_match-conflict :
      (key physical given held : Bytes) (w : W)
      → join_key s.prefix key ≡ ok physical
      → etag w s.bucket physical ≡ some held
      → trim_etag given ≢ held
      → delete_if_match client digest escape s key given w ≡ (err (conflict key), w)
  unfolding delete_if_match send_delete
  delete_if_match-conflict key physical given held w j h n =
      let input : DeleteObjectInput = record {
        bucket = s.bucket;
        key = physical;
        if_match = some (trim_etag given);
      } in
      let (code, sent, known) = conditional.match input w (trim_etag given) held refl h n in
      rw (j, sent, map_s3_error-conflict key code known) refl
