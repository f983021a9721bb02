-- ===== src/Lock/Acquiring.antt =====
-- internal/lock/lock.go on the in-memory store: `Acquire` of a free lock.
use mathlib.Core.Path.{subst}
use deb_s3_go.Base.{
  Result, ℕ, suc, Bool, true, false, not, ◌||◌, none, some, Bytes, ok, ◌≡◌, refl, ap, ◌∙◌,
}
use deb_s3_go.Base.Assoc.{lookup}
use deb_s3_go.Storage.Memory.{MemoryStore, Env, located, memory_store}
use deb_s3_go.Storage.Memory.Consistent.{IsHex, IsConsistent, put-IsConsistent}
use deb_s3_go.Storage.Memory.Contents.{contents, with_key}
use deb_s3_go.Storage.Memory.Guarded.{put_head-free}
use deb_s3_go.Lock.{
  Owner, Options, Handle, Turn, Outcome, Coder, signed_less, checked_lock_path, acquiring_owner,
  options_with_defaults, lock_options, acquired, after_write, started, attempt_once, attempts,
  acquire,
}

-- The lock is there with its body, and the handle knows it.
pub record Locked (env : Env) (owner : Owner) (path place body : Bytes) (s : MemoryStore)
    (h : Handle) (s' : MemoryStore) : Type 0 where
  pub at_path : h.path ≡ path
  pub owned : h.owner ≡ owner
  pub tagged : h.etag ≡ env.digest body
  pub unreleased : h.released ≡ false
  pub consistent : IsHex env.digest → IsConsistent env.digest s → IsConsistent env.digest s'
  pub same_prefix : s'.prefix ≡ s.prefix
  pub stored : (j : Bytes) → contents s' j ≡ with_key place body (contents s) j

pub first_round : (b : Bool) → b || not b ≡ true
first_round true = refl
first_round false = refl

module _ (env : Env) (coder : Coder) (path body place : Bytes) (owner : Owner) where
  started-free :
      (o : Options) (codename : Bytes) (attempt : ℕ) (turn : Turn MemoryStore)
      (again : MemoryStore → Outcome MemoryStore) (s : MemoryStore)
      → ((x : MemoryStore) → turn.after_put x ≡ x)
      → located env s.prefix path ≡ ok place
      → lookup place s.objects ≡ none
      → (h : Handle) × (s' : MemoryStore) × (started coder
            (memory_store env)
            o
            codename
            path
            owner
            body
            attempt
            turn
            again
            none
            s
          ≡ some (ok h, s'))
        × Locked env owner path place body s h s'
  unfolding started after_write acquired
  started-free o codename attempt turn again s idle at free =
      let (s', info, written, found, etag, stored, prefix) =
        put_head-free env s path body (lock_options o.cache_control) place at free in
      (
        record { path = path; owner = owner; etag = info.etag; released = false },
        s',
        rw (written, idle s', found) refl,
        record {
          at_path = refl;
          owned = refl;
          tagged = etag;
          unreleased = refl;
          consistent = λ hex c.
              subst (IsConsistent env.digest)
                (ap (λ (r : Result (Unit {0}) × MemoryStore). r.1) written)
                (put-IsConsistent env hex path (ok body) (lock_options o.cache_control) s c);
          same_prefix = prefix;
          stored = stored;
        },
      )

  -- When nothing is at the path of the lock, the context lives, and nobody moves between its two
  -- requests, `Acquire` on the in-memory store succeeds in its first round: the store then holds the
  -- owner's body there and is otherwise as before, and the handle has the digest of the body as its
  -- ETag.
  pub acquire-Locked :
      (o : Options) (codename : Bytes) (turns : ℕ → Turn MemoryStore) (fuel : ℕ) (s : MemoryStore)
      → checked_lock_path codename ≡ ok path
      → acquiring_owner coder (options_with_defaults o) ≡ ok owner
      → coder.encode owner ≡ ok body
      → (turns 1).expired ≡ none
      → ((x : MemoryStore) → (turns 1).after_put x ≡ x)
      → located env s.prefix path ≡ ok place
      → lookup place s.objects ≡ none
      → (h : Handle) × (s' : MemoryStore) × (acquire coder
            (memory_store env)
            o
            codename
            turns
            (suc fuel)
            s
          ≡ some (ok h, s'))
        × Locked env owner path place body s h s'
  unfolding acquire attempts attempt_once
  acquire-Locked o codename turns fuel s path_of owned encoded live idle at free =
      let again =
        attempts coder (memory_store env) (options_with_defaults o) codename path owner body turns
          fuel 2 in
      let (h, s', run, locked) =
        started-free (options_with_defaults o) codename 1 (turns 1) again s idle at free in
      (
        h,
        s',
        rw
            (
              path_of,
              owned,
              encoded,
              first_round (signed_less (options_with_defaults o).max_attempts 1),
            )
            (ap
                (λ e.
                  started coder (memory_store env) (options_with_defaults o) codename path owner
                    body 1 (turns 1) again e s)
                live
              ∙ run),
        locked,
      )
