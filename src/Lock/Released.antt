-- ===== src/Lock/Released.antt =====
-- internal/lock/lock.go on the in-memory store: `Release` of a lock that is still held.
use mathlib.Core.Path.{subst}
use deb_s3_go.Storage.Contexts.{Process, under, carried, uncancelled}
use deb_s3_go.Base.{
  true, false, none, some, Option, Error, Bytes, Result, ok, err, ◌≡◌, refl, sym, ◌∙◌,
}
use deb_s3_go.Base.Strings.{equal, equal_refl}
use deb_s3_go.Storage.Memory.{MemoryStore, Env, located, get, trim_etag, delete_if_match}
use deb_s3_go.Storage.Memory.Consistent.{IsConsistent}
use deb_s3_go.Storage.Memory.Contents.{contents, without_key, get-contents, delete_if_match-Refines}
use deb_s3_go.Lock.{
  Owner, Handle, Coder, settled, delete_owned, release_read, release, decode_owner,
}

-- The lock is gone, and the rest of the store is as it was.
pub record Freed (place : Bytes) (s : MemoryStore) (run : Result (Unit {0}) × Process × Handle)
    : Type 0 where
  pub succeeds : run.0 ≡ ok tt
  pub gone : (j : Bytes) → contents run.1.0 j ≡ without_key place (contents s) j

module _ (env : Env) (coder : Coder) (h : Handle) (place body : Bytes) (owner : Owner)
    (c : Option Error) where
  abbrev alive : Env
  alive = under env none

  settled-Freed :
      (s : MemoryStore) (x : Result (Unit {0}) × MemoryStore)
      → x.0 ≡ ok tt
      → ((j : Bytes) → contents x.1 j ≡ without_key place (contents s) j)
      → Freed place s (settled h (carried c x))
  settled-Freed s (ok _, s') e k = record { succeeds = refl; gone = k }
  settled-Freed s (err f, s') e k = cc

  delete_if_match-Freed :
      (s : MemoryStore)
      → IsConsistent env.digest s
      → located alive s.prefix h.path ≡ ok place
      → contents s place ≡ some body
      → equal (trim_etag (env.digest body)) (trim_etag h.etag) ≡ true
      → Freed place s (settled h (carried c (delete_if_match alive h.path h.etag s)))
  delete_if_match-Freed s k at held e =
      let r = delete_if_match-Refines alive s k h.path h.etag at in
      settled-Freed s (delete_if_match alive h.path h.etag s) (r.result ∙ rw (held, e) refl)
        (λ j. r.state j ∙ rw (held, e) refl)

  read-Freed :
      (s : MemoryStore)
      → IsConsistent env.digest s
      → located alive s.prefix h.path ≡ ok place
      → contents s place ≡ some body
      → h.etag ≡ env.digest body
      → decode_owner coder body ≡ ok owner
      → equal owner.token h.owner.token ≡ true
      → Freed place s (
          release_read coder
            (uncancelled env)
            h
            (λ x. x)
            (get alive h.path s).0
            ((get alive h.path s).1, c))
  unfolding release_read delete_owned
  read-Freed s k at held tagged decoded same =
      rw (get-contents alive s k h.path at, held, decoded, same)
        (delete_if_match-Freed s k at held (
          subst (λ t. equal (trim_etag (env.digest body)) (trim_etag t) ≡ true) (sym tagged)
            (equal_refl (trim_etag (env.digest body)))))

  -- A lock that holds the owner's body, with its digest as the ETag of the handle, is removed when
  -- nobody moves in between, in a context that is not cancelled with that of the process.
  pub release-Freed :
      (s : MemoryStore)
      → IsConsistent env.digest s
      → located (under env none) s.prefix h.path ≡ ok place
      → contents s place ≡ some body
      → h.released ≡ false
      → h.etag ≡ env.digest body
      → decode_owner coder body ≡ ok owner
      → equal owner.token h.owner.token ≡ true
      → Freed place s (release coder (uncancelled env) h (λ x. x) (s, c))
  unfolding release
  release-Freed s k at held unreleased tagged decoded same =
      simp unreleased (read-Freed s k at held tagged decoded same)
