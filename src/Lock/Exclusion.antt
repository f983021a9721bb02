-- ===== src/Lock/Exclusion.antt =====
-- internal/lock/lock.go on the in-memory store: `Acquire` while the lock is held.
use deb_s3_go.Base.{
  ℕ, zero, suc, false, not, ◌||◌, Option, none, some, Bytes, Error, Result, ok, err, ◌≡◌, refl,
  Bool-cases, inl, inr, is_not_found, ◌==◌, Option-cases, Result-cases,
}
use deb_s3_go.Base.Strings.{equal}
use deb_s3_go.Base.Assoc.{lookup}
use deb_s3_go.Storage.Memory.{
  MemoryObject, MemoryStore, Env, located, get, object_md5, memory_store,
}
use deb_s3_go.Storage.Memory.Guarded.{put-conflict}
use deb_s3_go.Lock.{
  Owner, Options, Turn, Outcome, Coder, signed_less, checked_lock_path, current, retry,
  lock_options, after_write, started, attempt_once, attempts, acquire, acquiring_owner,
  options_with_defaults,
}

-- A store in which some object other than `body`, told by its digest, has the key of the lock.
pub record Taken (env : Env) (path body : Bytes) (s : MemoryStore) : Type 0 where
  pub place : Bytes
  pub at_place : located env s.prefix path ≡ ok place
  pub object : MemoryObject
  pub there : lookup place s.objects ≡ some object
  pub other : equal (object_md5 object.info) (env.digest body) ≡ false

-- An outcome that is not a handle, and leaves the lock to its holder.
abbrev pub Refused : Env → Bytes → Bytes → Outcome MemoryStore → Type 0
Refused env path body none = Unit
Refused env path body (some (ok h, s)) = ⊥
Refused env path body (some (err e, s)) = Taken env path body s

module _ (env : Env) (coder : Coder) (path body : Bytes) where
  current-keeps :
      (codename : Bytes) (s : MemoryStore) → (current coder (memory_store env) codename s).1 ≡ s
  unfolding current get
  current-keeps codename s = elim (Result-cases (checked_lock_path codename)) [
    | inl (p, e) ↦ rw e refl
    | inr (e, f) ↦ rw f refl
  ]

  module _ (o : Options) (attempt : ℕ) (turn : Turn MemoryStore)
      (again : MemoryStore → Outcome MemoryStore)
      (next : (s : MemoryStore) → Taken env path body s → Refused env path body (again s))
      (put_keeps : (s : MemoryStore)
        → Taken env path body s
        → Taken env path body (turn.after_put s))
      (get_keeps : (s : MemoryStore)
        → Taken env path body s
        → Taken env path body (turn.after_get s)) where
    retry-Refused :
        (r : Result Owner) (s : MemoryStore)
        → Taken env path body s
        → Refused env path body (retry coder (memory_store env) o attempt turn again r s)
    unfolding retry
    retry-Refused (ok owner) s t = elim (Bool-cases (attempt == o.max_attempts)) [
      | inl last ↦ rw last t
      | inr more ↦ elim (Option-cases turn.interrupted) [
        | inl quiet ↦ rw (more, quiet) (next (turn.after_get s) (get_keeps s t))
        | inr (e, there) ↦ rw (more, there) t
      ]
    ]
    retry-Refused (err e) s t = elim (Bool-cases (is_not_found e)) [
      | inr other ↦ rw other t
      | inl gone ↦ elim (Bool-cases (attempt == o.max_attempts)) [
        | inl last ↦ rw (gone, last) t
        | inr more ↦ rw (gone, more) (next (turn.after_get s) (get_keeps s t))
      ]
    ]

    started-Refused :
        (codename : Bytes) (owner : Owner) (expired : Option Error) (s : MemoryStore)
        → Taken env path body s
        → Refused env path body (
            started coder
              (memory_store env)
              o
              codename
              path
              owner
              body
              attempt
              turn
              again
              expired
              s)
    unfolding started after_write
    started-Refused codename owner (some e) s t = t
    started-Refused codename owner none s t =
        rw
          (put-conflict env s path body (lock_options o.cache_control) t.place t.object t.at_place
            t.there t.other refl)
          (retry-Refused (current coder (memory_store env) codename (turn.after_put s)).0 _
            (rw (current-keeps codename (turn.after_put s)) (put_keeps s t)))

  attempts-Refused :
      (o : Options) (codename : Bytes) (owner : Owner) (turns : ℕ → Turn MemoryStore)
      → ((n : ℕ) (s : MemoryStore)
          → Taken env path body s
          → Taken env path body ((turns n).after_put s))
      → ((n : ℕ) (s : MemoryStore)
          → Taken env path body s
          → Taken env path body ((turns n).after_get s))
      → (fuel attempt : ℕ) (s : MemoryStore) → Taken env path body s
      → Refused env path body
          (attempts coder (memory_store env) o codename path owner body turns fuel attempt s)
  unfolding attempts attempt_once
  attempts-Refused o codename owner turns p g zero attempt s t = tt
  attempts-Refused o codename owner turns p g (suc fuel) attempt s t =
      elim (Bool-cases (signed_less o.max_attempts 1 || not (signed_less o.max_attempts attempt))) [
        | inr over ↦ rw over t
        | inl within ↦ rw within (
            started-Refused o attempt (turns attempt) _
              (λ s' t'. attempts-Refused o codename owner turns p g fuel (suc attempt) s' t')
              (p attempt) (g attempt) codename owner (turns attempt).expired s t)
      ]

  -- While another owner's lock is at the path that `Acquire` computes, and the others keep it there,
  -- `Acquire` gets no handle, and it does not change what holds the lock: the locks exclude each
  -- other, however many rounds there are and whatever errors cut them short.
  pub acquire-Refused :
      (o : Options) (codename : Bytes) {owner : Owner} (turns : ℕ → Turn MemoryStore)
      → checked_lock_path codename ≡ ok path
      → acquiring_owner coder (options_with_defaults o) ≡ ok owner
      → coder.encode owner ≡ ok body
      → ((n : ℕ) (s : MemoryStore)
          → Taken env path body s
          → Taken env path body ((turns n).after_put s))
      → ((n : ℕ) (s : MemoryStore)
          → Taken env path body s
          → Taken env path body ((turns n).after_get s))
      → (fuel : ℕ) (s : MemoryStore) → Taken env path body s
      → Refused env path body (acquire coder (memory_store env) o codename turns fuel s)
  unfolding acquire
  acquire-Refused o codename {owner} turns located owned encoded p g fuel s t =
      rw (located, owned, encoded)
        (attempts-Refused (options_with_defaults o) codename owner turns p g fuel 1 s t)
