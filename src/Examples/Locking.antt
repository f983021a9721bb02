-- ===== src/Examples/Locking.antt =====
-- internal/lock: the theorems on the repository lock, applied.
use deb_s3_go.Storage.Contexts.{Process, cancellable, uncancelled}
use deb_s3_go.Base.{
  canceled, true, err, Result, Bytes, ℕ, suc, ◌≤◌, false, [], none, some, ok, ◌≡◌, ◌≢◌, ◌<◌, ◌⊎◌,
  refl, arith,
}
use deb_s3_go.Base.Strings.{
  codes, equal, has_prefix, trim_prefix, trim_func, drop_while, split, join, contains_byte,
  to_lower,
}
use deb_s3_go.Base.Assoc.{lookup, insert}
use deb_s3_go.Base.Paths.{clean, path_join}
use deb_s3_go.Storage.Keys.{join_key, normalize_prefix}
use deb_s3_go.Storage.Memory.{MemoryStore, put, located, new_memory_store, memory_store, object_md5}
use deb_s3_go.Storage.Memory.Contents.{contents}
use deb_s3_go.Lock.{
  Owner, Options, Handle, Turn, Coder, ungiven, options_with_defaults, retry_delay, acquire,
  release, checked_lock_path, lock_path, acquiring_owner, decode_owner,
}
use deb_s3_go.Storage.Memory.Consistent.{IsConsistent, put_call, perform}
use deb_s3_go.Cli.{LockFlags, default_lock_timeout, lock_options, with_repository_lock}
use deb_s3_go.Cli.Locking.{Unlocked, with_repository_lock-Unlocked}
use deb_s3_go.Lock.Acquiring.{Locked, acquire-Locked}
use deb_s3_go.Lock.Delays.{doubled, capped, retry_delay-capped, options_with_defaults-bounds}
use deb_s3_go.Lock.Attempts.{Returns, acquire-Returns}
use deb_s3_go.Lock.Exclusion.{Taken, Refused, acquire-Refused}
use deb_s3_go.Lock.Releasing.{Removal, release-Removal}
use deb_s3_go.Examples.Storage.{
  env, options, first_digest, first_digest-IsHex, one_object, one_object-IsConsistent, located_at,
}

abbrev owner : Owner
owner = record { token = codes "y"; user = codes "u"; host = codes "h"; pid = 7; acquired_at = 5 }

-- A coder that writes the token alone.
abbrev pub coder : Coder
coder = record {
  encode = λ o. ok o.token;
  decode = λ body. some (record owner { token = body });
  new_owner = ok owner;
}

abbrev given : Options
given = record {
  owner = owner;
  max_attempts = 3;
  timeout = 0;
  initial_backoff = 0;
  max_backoff = 0;
  cache_control = [];
  now = 9;
}

-- Attempts that nothing cuts short and in which nobody else moves.
abbrev quiet : ℕ → Turn MemoryStore
quiet n = record {
  expired = none;
  aborted = none;
  interrupted = none;
  after_put = λ s. s;
  after_get = λ s. s;
}

retry_delay-capped_example :
    retry_delay 100000000 10000000000 5 ≡ capped 10000000000 (doubled 4 100000000)
retry_delay-capped_example = retry_delay-capped 100000000 10000000000 5 (omega arith) (omega arith)

options_with_defaults-bounds_example :
    (1 ≤ (options_with_defaults given).initial_backoff)
    × ((options_with_defaults given).initial_backoff ≤ (options_with_defaults given).max_backoff)
    × ((options_with_defaults given).max_backoff < 9223372036854775808)
    × (((options_with_defaults given).max_attempts ≢ 0)
        ⊎ (ungiven (options_with_defaults given).timeout ≡ false))
options_with_defaults-bounds_example = options_with_defaults-bounds given

attempts_at :
    (1 ≤ (options_with_defaults given).max_attempts)
    × (suc (options_with_defaults given).max_attempts < 9223372036854775808)
unfolding options_with_defaults
attempts_at = (omega arith, omega arith)

acquire-Returns_example : Returns (
    acquire coder
      (memory_store env)
      given
      (codes "stable")
      quiet
      (suc (options_with_defaults given).max_attempts)
      one_object)
acquire-Returns_example =
    acquire-Returns coder (memory_store env) given (codes "stable") quiet one_object attempts_at.0
      attempts_at.1

abbrev lockfile : Bytes
lockfile = codes "dists/stable/lockfile"

-- A repository without a lock, and one that somebody else has locked.
abbrev unlocked : MemoryStore
unlocked = new_memory_store []

abbrev locked : MemoryStore
locked = perform env (put_call lockfile (ok (codes "x1")) options) unlocked

path_at : checked_lock_path (codes "stable") ≡ ok lockfile
unfolding checked_lock_path lock_path clean path_join split join equal has_prefix
path_at = refl

owner_at : acquiring_owner coder (options_with_defaults given) ≡ ok owner
unfolding acquiring_owner options_with_defaults equal
owner_at = refl

place_at : located env unlocked.prefix lockfile ≡ ok lockfile
unfolding put new_memory_store located join_key lookup insert trim_func drop_while equal
    contains_byte clean path_join split join has_prefix trim_prefix normalize_prefix
place_at = refl

free_at : lookup lockfile unlocked.objects ≡ none
unfolding new_memory_store lookup
free_at = refl

held : Taken env lockfile (codes "y") locked
unfolding put new_memory_store located join_key lookup insert trim_func drop_while equal
    contains_byte clean path_join split join has_prefix trim_prefix normalize_prefix object_md5
    to_lower
held = record { place = lockfile; at_place = refl; object = _; there = refl; other = refl }

acquire-Refused_example :
    Refused env lockfile
      (codes "y")
      (acquire coder (memory_store env) given (codes "stable") quiet 4 locked)
acquire-Refused_example =
    acquire-Refused env coder lockfile (codes "y") given (codes "stable") quiet path_at owner_at
      refl (λ n s t. t) (λ n s t. t) 4 locked held

acquire-Locked_example :
    (h : Handle) × (s : MemoryStore) × (acquire coder
        (memory_store env)
        given
        (codes "stable")
        quiet
        4
        unlocked
      ≡ some (ok h, s))
    × Locked env owner lockfile lockfile (codes "y") unlocked h s
acquire-Locked_example =
    acquire-Locked env coder lockfile (codes "y") lockfile owner given (codes "stable") quiet 3
      unlocked path_at owner_at refl refl (λ x. refl) place_at free_at

abbrev handle : Handle
handle = record { path = codes "k"; owner = owner; etag = codes "a"; released = false }

release-Removal_example :
    (Removal first_digest
      (codes "repo/k")
      (codes "a")
      (contents one_object)
      (contents (release coder (memory_store env) handle (λ s. s) one_object).1))
    ⊎ (Removal first_digest
        (codes "repo/k")
        (codes "a")
        (contents one_object)
        (contents (release coder (memory_store env) handle (λ s. s) one_object).1))
release-Removal_example =
    release-Removal env coder handle (codes "repo/k") (λ s. s) one_object one_object-IsConsistent
      located_at

-- An operation that is cancelled, and fails.
abbrev interrupted : Process → Result (Unit {0}) × Process
interrupted x = (err canceled, (x.0, some canceled))

abbrev quiet_process : ℕ → Turn Process
quiet_process n = record {
  expired = none;
  aborted = none;
  interrupted = none;
  after_put = λ x. x;
  after_get = λ x. x;
}

abbrev flags : LockFlags
flags = record { enabled = true; timeout = default_lock_timeout }

fresh_owner_at : acquiring_owner coder (options_with_defaults (lock_options flags [] 9)) ≡ ok owner
unfolding acquiring_owner options_with_defaults equal
fresh_owner_at = refl

decoded_at : decode_owner coder (codes "y") ≡ ok owner
unfolding decode_owner equal
decoded_at = refl

unlocked-IsConsistent : IsConsistent first_digest unlocked
unfolding new_memory_store lookup
unlocked-IsConsistent = record { at_key = λ k o h. cc }

with_repository_lock-Unlocked_example : Unlocked lockfile (codes "y") interrupted (
    with_repository_lock coder
      (cancellable env)
      (uncancelled env)
      flags
      []
      9
      (codes "stable")
      quiet_process
      (λ x. x)
      4
      interrupted
      (unlocked, none))
with_repository_lock-Unlocked_example =
    with_repository_lock-Unlocked env first_digest-IsHex coder lockfile (codes "y") lockfile owner
      flags [] 9 (codes "stable") quiet_process 3 interrupted unlocked refl path_at fresh_owner_at
      refl decoded_at refl (λ x. refl) unlocked-IsConsistent place_at free_at
      (record { keeps = λ x. refl; consistent = λ x c. c; same_prefix = λ x. refl })
