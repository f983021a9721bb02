-- ===== src/Apt/Release/Publish/Order.antt =====
-- internal/apt/release_publish.go and metadata_publish.go: the order in which metadata is written.
use deb_s3_go.Base.{
  ◌||◌, List, [], ◌∷◌, ◌++◌, append-nil, Option, none, some, Bytes, wrap, Result, ok, err, ◌≡◌,
  if◌then◌else◌, Bool-cases, inl, inr, String,
}
use deb_s3_go.Base.Strings.{codes, equal}
use deb_s3_go.Storage.Objects.{Store}
use deb_s3_go.Storage.Events.{
  Event, written, deleted, Log, traced, Emits, pure-Emits, raise-Emits, put-Emits, delete-Emits,
  bind-Emits,
}
use deb_s3_go.Apt.Manifest.{Manifest}
use deb_s3_go.Apt.Publishing.{Tools, put_options}
use deb_s3_go.Apt.Publishing.Events.{options_of, by_hash_writes, canonical_writes}
use deb_s3_go.Apt.Release.{
  Release, SignatureArtifacts, release_filename, render_release, missing_manifests,
}
use deb_s3_go.Apt.Release.Publish.{
  Prepared, detached_filename, in_release_filename, signature_type, validate_other_manifests,
  publish_created, update_all, put_text, remove_stale, put_release, publish_unsigned, put_signed,
  publish_signed, publish_with, publish_release,
}

-- What each stage of a publication writes.
abbrev pub all_by_hash_writes : List Prepared → Log
all_by_hash_writes [] = []
all_by_hash_writes (p ∷ ps) = by_hash_writes p.manifest p.artifacts ++ all_by_hash_writes ps

abbrev pub all_canonical_writes : List Prepared → Log
all_canonical_writes [] = []
all_canonical_writes (p ∷ ps) = canonical_writes p.manifest p.artifacts ++ all_canonical_writes ps

-- Unsigned, the old signatures go before the new `Release`; signed, they are replaced after it. A text
-- is written with its type and the release's cache control.
abbrev text_at : Release → Bytes → Bytes → Bytes → Event
text_at r key content_type content =
    written key (ok content) (options_of content_type r.cache_control)

abbrev release_at : Release → Bytes → Event
release_at r content = text_at r (release_filename r) (codes "text/plain; charset=utf-8") content

abbrev unsigned_writes : Release → Bytes → Log
unsigned_writes r content =
    deleted (detached_filename r) ∷ deleted (in_release_filename r) ∷ release_at r content ∷ []

abbrev signed_writes : Release → Bytes → Result SignatureArtifacts → Log
signed_writes r content (err e) = []
signed_writes r content (ok signatures) =
    if equal signatures.in_release [] || equal signatures.release_gpg []
    then []
    else release_at r content
      ∷ text_at r (detached_filename r) signature_type signatures.release_gpg
      ∷ text_at r (in_release_filename r) signature_type signatures.in_release
      ∷ []

abbrev signing_writes : Option (Bytes → Result SignatureArtifacts) → Release → Bytes → Log
signing_writes none r content = unsigned_writes r content
signing_writes (some sign) r content = signed_writes r content (sign content)

abbrev pub release_writes : Release → Log
release_writes r = signing_writes r.signer r (render_release r)

module _ (tools : Tools) {S : Type 0} (store : Store S) where
  put_text-Emits :
      (text : String) (key content_type cache_control content : Bytes)
      → Emits
          (put_text tools (traced store) text key content_type cache_control content)
          (written key (ok content) (put_options content_type cache_control) ∷ [])
  unfolding put_text
  put_text-Emits text key content_type cache_control content =
      put-Emits store (wrap text) key (ok content) (put_options content_type cache_control)

  put_release-Emits :
      (r : Release) (content : Bytes)
      → Emits (put_release tools (traced store) r content) (release_at r content ∷ [])
  unfolding put_release
  put_release-Emits r content =
      put_text-Emits "store Release" (release_filename r) (codes "text/plain; charset=utf-8")
        r.cache_control content

  remove_stale-Emits :
      (key : Bytes) → Emits (remove_stale tools (traced store) key) (deleted key ∷ [])
  unfolding remove_stale
  remove_stale-Emits key = delete-Emits store (wrap "remove stale Release signature") key

  publish_unsigned-Emits :
      (r : Release) (content : Bytes)
      → Emits (publish_unsigned tools (traced store) r content) (unsigned_writes r content)
  unfolding publish_unsigned
  publish_unsigned-Emits r content =
      bind-Emits (remove_stale tools (traced store) (detached_filename r)) _ (remove_stale-Emits _)
        (λ _.
          bind-Emits (remove_stale tools (traced store) (in_release_filename r)) _
            (remove_stale-Emits _) (λ _. put_release-Emits r content))

  put_signed-Emits :
      (r : Release) (content : Bytes) (signatures : SignatureArtifacts)
      → Emits (put_signed tools (traced store) r content signatures) (
          release_at r content
          ∷ text_at r (detached_filename r) signature_type signatures.release_gpg
          ∷ text_at r (in_release_filename r) signature_type signatures.in_release
          ∷ [])
  unfolding put_signed
  put_signed-Emits r content signatures =
      bind-Emits (put_release tools (traced store) r content) _ (put_release-Emits r content) (λ _.
        bind-Emits
          (put_text tools (traced store) "store detached Release signature" (detached_filename r)
            signature_type r.cache_control signatures.release_gpg)
          _ (put_text-Emits _ _ _ _ _)
          (λ _.
            put_text-Emits "store clear-signed Release" (in_release_filename r) signature_type
              r.cache_control signatures.in_release))

  publish_signed-Emits :
      (r : Release) (content : Bytes) (signatures : Result SignatureArtifacts)
      → Emits
          (publish_signed tools (traced store) r content signatures)
          (signed_writes r content signatures)
  unfolding publish_signed
  publish_signed-Emits r content (err e) = raise-Emits _ _
  publish_signed-Emits r content (ok signatures) =
      elim (Bool-cases (equal signatures.in_release [] || equal signatures.release_gpg [])) [
        | inl empty ↦ rw empty (raise-Emits _ _)
        | inr full ↦ rw full (put_signed-Emits r content signatures)
      ]

  publish_with-Emits :
      (signer : Option (Bytes → Result SignatureArtifacts)) (r : Release) (content : Bytes)
      → Emits (publish_with tools (traced store) signer r content) (signing_writes signer r content)
  unfolding publish_with
  publish_with-Emits none r content = publish_unsigned-Emits r content
  publish_with-Emits (some sign) r content = publish_signed-Emits r content (sign content)

  -- With nothing missing, validation asks for nothing and keeps the release.
  pub publish_complete-Emits :
      (r : Release)
      → missing_manifests r ≡ []
      → Emits (publish_release tools (traced store) r) (release_writes r)
  unfolding publish_release validate_other_manifests publish_created update_all
  publish_complete-Emits r complete = rw complete (
      rw⁻¹ (append-nil (release_writes r)) (
        bind-Emits (publish_with tools (traced store) r.signer r (render_release r)) _
          (publish_with-Emits r.signer r (render_release r)) (λ _. pure-Emits r)))
