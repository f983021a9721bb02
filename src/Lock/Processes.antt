-- ===== src/Lock/Processes.antt =====
-- internal/lock/lock.go: `Acquire` of a free lock in a process that is not cancelled yet.
use mathlib.Core.Path.{subst}
use deb_s3_go.Base.{Result, false, ℕ, suc, none, some, Bytes, ok, ◌≡◌, refl, ap, ◌∙◌}
use deb_s3_go.Base.Assoc.{lookup}
use deb_s3_go.Storage.Memory.{MemoryStore, Env, located}
use deb_s3_go.Storage.Memory.Consistent.{IsConsistent, put-IsConsistent}
use deb_s3_go.Storage.Memory.Guarded.{put_head-free}
use deb_s3_go.Storage.Contexts.{Process, under, cancellable}
use deb_s3_go.Lock.{
  Owner, Options, Handle, Turn, Outcome, Coder, signed_less, checked_lock_path, acquiring_owner,
  options_with_defaults, lock_options, acquired, after_write, started, attempt_once, attempts,
  acquire,
}
use deb_s3_go.Lock.Acquiring.{Locked, first_round}

module _ (env : Env) (coder : Coder) (path body place : Bytes) (owner : Owner) where
  started-free :
      (o : Options) (codename : Bytes) (attempt : ℕ) (turn : Turn Process)
      (again : Process → Outcome Process) (s : MemoryStore)
      → ((x : Process) → turn.after_put x ≡ x)
      → located (under env none) s.prefix path ≡ ok place
      → lookup place s.objects ≡ none
      → (h : Handle) × (s' : MemoryStore) × (started coder
            (cancellable env)
            o
            codename
            path
            owner
            body
            attempt
            turn
            again
            none
            (s, none)
          ≡ some (ok h, (s', none)))
        × Locked (under env none) owner path place body s h s'
  unfolding started after_write acquired
  started-free o codename attempt turn again s idle at free =
      let (s', info, written, found, etag, stored, prefix) =
        put_head-free (under env none) s path body (lock_options o.cache_control) place at free in
      (
        record { path = path; owner = owner; etag = info.etag; released = false },
        s',
        rw (written, idle (s', none), found) refl,
        record {
          at_path = refl;
          owned = refl;
          tagged = etag;
          unreleased = refl;
          consistent = λ hex c.
              subst (IsConsistent env.digest)
                (ap (λ (r : Result (Unit {0}) × MemoryStore). r.1) written)
                (put-IsConsistent (under env none) hex path (ok body) (lock_options o.cache_control)
                  s c);
          same_prefix = prefix;
          stored = stored;
        },
      )

  pub acquire_alive-Locked :
      (o : Options) (codename : Bytes) (turns : ℕ → Turn Process) (fuel : ℕ) (s : MemoryStore)
      → checked_lock_path codename ≡ ok path
      → acquiring_owner coder (options_with_defaults o) ≡ ok owner
      → coder.encode owner ≡ ok body
      → (turns 1).expired ≡ none
      → ((x : Process) → (turns 1).after_put x ≡ x)
      → located (under env none) s.prefix path ≡ ok place
      → lookup place s.objects ≡ none
      → (h : Handle) × (s' : MemoryStore) × (acquire coder
            (cancellable env)
            o
            codename
            turns
            (suc fuel)
            (s, none)
          ≡ some (ok h, (s', none)))
        × Locked (under env none) owner path place body s h s'
  unfolding acquire attempts attempt_once
  acquire_alive-Locked o codename turns fuel s path_of owned encoded live idle at free =
      let again =
        attempts coder (cancellable env) (options_with_defaults o) codename path owner body turns
          fuel 2 in
      let (h, s', run, locked) =
        started-free (options_with_defaults o) codename 1 (turns 1) again s idle at free in
      (
        h,
        s',
        rw
            (
              path_of,
              owned,
              encoded,
              first_round (signed_less (options_with_defaults o).max_attempts 1),
            )
            (ap
                (λ e.
                  started coder (cancellable env) (options_with_defaults o) codename path owner body
                    1 (turns 1) again e (s, none))
                live
              ∙ run),
        locked,
      )
