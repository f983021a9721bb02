-- ===== src/Cli/Locking.antt =====
-- internal/cli/commands.go: what `withRepositoryLock` leaves, on the in-memory store.
use deb_s3_go.Base.{ℕ, suc, true, none, some, Option, Bytes, Result, ok, err, ◌≡◌, refl, ap, ◌∙◌}
use deb_s3_go.Base.Strings.{equal, equal_refl}
use deb_s3_go.Base.Assoc.{lookup}
use deb_s3_go.Storage.Objects.{M}
use deb_s3_go.Storage.Memory.{MemoryStore, Env, located}
use deb_s3_go.Storage.Memory.Consistent.{IsHex, IsConsistent}
use deb_s3_go.Storage.Memory.Contents.{contents, without_key}
use deb_s3_go.Lock.{
  Owner, Handle, Turn, Coder, checked_lock_path, acquiring_owner, options_with_defaults,
  decode_owner, release,
}
use deb_s3_go.Lock.Acquiring.{Locked}
use deb_s3_go.Lock.Processes.{acquire_alive-Locked}
use deb_s3_go.Storage.Contexts.{Process, under, cancellable, uncancelled}
use deb_s3_go.Lock.Released.{Freed, release-Freed}
use deb_s3_go.Cli.{
  LockFlags, join_results, lock_options, operate, after_acquire, with_repository_lock,
}

join_results-ok : (r : Result (Unit {0})) → join_results r (ok tt) ≡ r
join_results-ok (ok _) = refl
join_results-ok (err e) = refl

-- The process in which the operation runs, and what is left behind it.
pub record Unlocked (place body : Bytes) (operation : M Process (Unit {0}))
    (run : Option (Result (Unit {0}) × Process)) : Type 0 where
  pub during : MemoryStore
  pub held : contents during place ≡ some body
  pub after : Process
  pub ends : run ≡ some ((operation (during, none)).0, after)
  pub freed :
      (j : Bytes)
      → contents after.0 j ≡ without_key place (contents (operation (during, none)).1.0) j

-- An operation that leaves the lock alone, also when it fails. It may find the context cancelled, and
-- leave it so.
pub record LeavesLock (digest : Bytes → Bytes) (place : Bytes) (operation : M Process (Unit {0}))
    : Type 0 where
  pub keeps : (x : Process) → contents (operation x).1.0 place ≡ contents x.0 place
  pub consistent : (x : Process) → IsConsistent digest x.0 → IsConsistent digest (operation x).1.0
  pub same_prefix : (x : Process) → (operation x).1.0.prefix ≡ x.0.prefix

module _ (env : Env) (hex : IsHex env.digest) (coder : Coder) (path body place : Bytes)
    (owner : Owner) where
  release-after :
      (operation : M Process (Unit {0})) (h : Handle) (s during : MemoryStore)
      → IsConsistent env.digest s
      → located (under env none) s.prefix path ≡ ok place
      → LeavesLock env.digest place operation
      → decode_owner coder body ≡ ok owner
      → Locked (under env none) owner path place body s h during
      → Freed place
          (operation (during, none)).1.0
          (release coder (uncancelled env) h (λ x. x) (operation (during, none)).1)
  release-after operation h s during c at leaves decoded locked =
      let x = (operation (during, none)).1 in
      release-Freed env coder h place body owner x.1 x.0
        (leaves.consistent (during, none) (locked.consistent hex c))
        (rw (locked.at_path) (
          ap (λ prefix. located (under env none) prefix path)
            (leaves.same_prefix (during, none) ∙ locked.same_prefix)
          ∙ at))
        (leaves.keeps (during, none) ∙ locked.stored place ∙ rw (equal_refl place) refl)
        locked.unreleased locked.tagged decoded
        (ap (λ o. equal owner.token o.token) locked.owned ∙ equal_refl owner.token)

  operate-Unlocked :
      (operation : M Process (Unit {0})) (h : Handle) (s during : MemoryStore)
      → Locked (under env none) owner path place body s h during
      → Freed place
          (operation (during, none)).1.0
          (release coder (uncancelled env) h (λ x. x) (operation (during, none)).1)
      → Unlocked place body operation (
          some (
            operate coder
              (cancellable env)
              (uncancelled env)
              h
              (λ x. x)
              (operation (during, none))))
  unfolding operate
  operate-Unlocked operation h s during locked freed =
      let final = (release coder (uncancelled env) h (λ x. x) (operation (during, none)).1).1 in
      record {
        during = during;
        held = locked.stored place ∙ rw (equal_refl place) refl;
        after = final;
        ends =
            ap (λ r. some (join_results (operation (during, none)).0 r, final)) freed.succeeds
            ∙ ap (λ r. some (r, final)) (join_results-ok (operation (during, none)).0);
        freed = freed.gone;
      }

  -- With `--lock`, on the in-memory store of a process that may be cancelled: when the lock of the
  -- codename is free, the process is not cancelled yet and nobody else moves, the command comes to its
  -- end, the operation has run with the lock held, its result is the command's, an error or not, and
  -- the lock is gone in what the operation has left, also when the process was cancelled while the
  -- operation ran. The operation leaves the lock alone, also when it fails; what `Acquire` writes is
  -- read back by the decoder.
  pub with_repository_lock-Unlocked :
      (flags : LockFlags) (cache_control : Bytes) (now : ℕ) (codename : Bytes)
      (turns : ℕ → Turn Process) (fuel : ℕ) (operation : M Process (Unit {0})) (s : MemoryStore)
      → flags.enabled ≡ true
      → checked_lock_path codename ≡ ok path
      → acquiring_owner coder (options_with_defaults (lock_options flags cache_control now))
        ≡ ok owner
      → coder.encode owner ≡ ok body
      → decode_owner coder body ≡ ok owner
      → (turns 1).expired ≡ none
      → ((x : Process) → (turns 1).after_put x ≡ x)
      → IsConsistent env.digest s
      → located (under env none) s.prefix path ≡ ok place
      → lookup place s.objects ≡ none
      → LeavesLock env.digest place operation
      → Unlocked place body operation (
          with_repository_lock coder
            (cancellable env)
            (uncancelled env)
            flags
            cache_control
            now
            codename
            turns
            (λ x. x)
            (suc fuel)
            operation
            (s, none))
  unfolding with_repository_lock after_acquire
  with_repository_lock-Unlocked flags cache_control now codename turns fuel operation s on path_of
        owned encoded decoded live idle c at free leaves =
      let (h, during, run, locked) =
        acquire_alive-Locked env coder path body place owner (lock_options flags cache_control now)
          codename turns fuel s path_of owned encoded live idle at free in
      rw (on, run)
        (operate-Unlocked operation h s during locked
          (release-after operation h s during c at leaves decoded locked))
