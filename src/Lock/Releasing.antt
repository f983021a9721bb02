-- ===== src/Lock/Releasing.antt =====
-- internal/lock/lock.go on the in-memory store: what `Release` deletes.
use deb_s3_go.Base.{
  true, some, Bytes, Result, ok, err, ◌≡◌, refl, ◌∙◌, ◌⊎◌, Bool-cases, inl, inr, is_conflict,
  is_not_found, Option-cases,
}
use deb_s3_go.Base.Strings.{equal}
use deb_s3_go.Storage.Memory.{
  MemoryStore, Env, located, get, memory_store, trim_etag, delete_if_match,
}
use deb_s3_go.Storage.Memory.Consistent.{IsConsistent}
use deb_s3_go.Storage.Memory.Contents.{Contents, contents, without_key, delete_if_match-Refines}
use deb_s3_go.Lock.{
  Owner, Handle, Coder, settled, delete_owned, release_read, release, decode_owner,
}

-- What became of the contents: they are as they were, or `place` was removed, where content with the
-- digest `etag` was.
pub data Removal (digest : Bytes → Bytes) (place etag : Bytes) (before after : Contents)
    : Type 0 where
  untouched : ((j : Bytes) → after j ≡ before j) → Removal digest place etag before after
  removed :
      (d : Bytes)
      → before place ≡ some d
      → equal (trim_etag (digest d)) (trim_etag etag) ≡ true
      → ((j : Bytes) → after j ≡ without_key place before j)
      → Removal digest place etag before after

settled-state : {S : Type 0} (h : Handle) (x : Result (Unit {0}) × S) → (settled h x).1 ≡ x.1
settled-state h (ok done, s) = refl
settled-state h (err e, s) = elim (Bool-cases (is_conflict e)) [
  | inl c ↦ rw c refl
  | inr c ↦ elim (Bool-cases (is_not_found e)) [ inl n ↦ rw (c, n) refl | inr n ↦ rw (c, n) refl ]
]

module _ (env : Env) (coder : Coder) (h : Handle) (place : Bytes) where
  abbrev LeavesOthers : MemoryStore → MemoryStore → Type 0
  LeavesOthers s s' = Removal env.digest place h.etag (contents s) (contents s')

  delete_if_match-Removal :
      (s : MemoryStore)
      → IsConsistent env.digest s
      → located env s.prefix h.path ≡ ok place
      → LeavesOthers s (delete_if_match env h.path h.etag s).1
  delete_if_match-Removal s c at =
      let r = delete_if_match-Refines env s c h.path h.etag at in
      elim (Option-cases (contents s place)) [
        | inl absent ↦ untouched (λ j. r.state j ∙ rw absent refl)
        | inr (d, there) ↦ elim (Bool-cases (equal (trim_etag (env.digest d)) (trim_etag h.etag))) [
          | inl same ↦ removed d there same (λ j. r.state j ∙ rw (there, same) refl)
          | inr other ↦ untouched (λ j. r.state j ∙ rw (there, other) refl)
        ]
      ]

  delete_owned-Removal :
      (owner : Result Owner) (s : MemoryStore)
      → IsConsistent env.digest s
      → located env s.prefix h.path ≡ ok place
      → LeavesOthers s (delete_owned h (some (delete_if_match env)) owner s).1
  unfolding delete_owned
  delete_owned-Removal (err e) s c at = untouched (λ j. refl)
  delete_owned-Removal (ok owner) s c at = elim (Bool-cases (equal owner.token h.owner.token)) [
    | inr other ↦ rw other (untouched (λ j. refl))
    | inl same ↦
        rw (same, settled-state h (delete_if_match env h.path h.etag s))
          (delete_if_match-Removal s c at)
  ]

  release_read-Removal :
      (meanwhile : MemoryStore → MemoryStore) (body : Result Bytes) (s : MemoryStore)
      → IsConsistent env.digest (meanwhile s)
      → located env (meanwhile s).prefix h.path ≡ ok place
      → (LeavesOthers s (release_read coder (memory_store env) h meanwhile body s).1)
        ⊎ (LeavesOthers (meanwhile s) (release_read coder (memory_store env) h meanwhile body s).1)
  unfolding release_read
  release_read-Removal meanwhile (err e) s c at = elim (Bool-cases (is_not_found e)) [
    | inl gone ↦ rw gone (inl (untouched (λ j. refl)))
    | inr other ↦ rw other (inl (untouched (λ j. refl)))
  ]
  release_read-Removal meanwhile (ok body) s c at =
      inr (delete_owned-Removal (decode_owner coder body) (meanwhile s) c at)

  -- `Release` changes nothing but the lock, and removes that only where it holds content with the
  -- digest that the handle was acquired with: a lock that another owner has taken in the meantime,
  -- even between the two requests of `Release`, is left. What it leaves is compared with the store
  -- as it found it, or as others had made it before the deletion.
  pub release-Removal :
      (meanwhile : MemoryStore → MemoryStore) (s : MemoryStore)
      → IsConsistent env.digest (meanwhile s)
      → located env (meanwhile s).prefix h.path ≡ ok place
      → (LeavesOthers s (release coder (memory_store env) h meanwhile s).1)
        ⊎ (LeavesOthers (meanwhile s) (release coder (memory_store env) h meanwhile s).1)
  unfolding release get
  release-Removal meanwhile s c at = elim (Bool-cases h.released) [
    | inl done ↦ simp done (inl (untouched (λ j. refl)))
    | inr held ↦ simp held (release_read-Removal meanwhile (get env h.path s).0 s c at)
  ]
