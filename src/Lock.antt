-- ===== src/Lock.antt =====
-- internal/lock/lock.go: the repository lock, one object of the store.
pub mod Delays
pub mod Exclusion
pub mod Acquiring
pub mod Releasing
pub mod Processes
pub mod Released
pub mod Attempts
use deb_s3_go.Base.{
  ℕ, zero, suc, ◌+◌, ◌-◌, ◌*◌, ◌%◌, ◌^◌, Bool, true, false, not, ◌&&◌, ◌||◌, List, [], ◌∷◌, Option,
  none, some, Bytes, Error, locked, not_owner, conditional_delete_unsupported, message, wrap,
  is_not_found, is_conflict, Result, ok, err, if◌then◌else◌, ltb, ◌==◌,
}
use deb_s3_go.Base.Strings.{codes, equal, has_prefix, index_byte, trim_space}
use deb_s3_go.Base.Lists.{take, drop}
use deb_s3_go.Base.Paths.{clean, path_join, is_abs, dot, dot_dot}
use deb_s3_go.Storage.Objects.{ObjectInfo, PutOptions, M, Store}

-- `Owner`; the zero time is 0.
pub record Owner : Type 0 where
  pub token : Bytes
  pub user : Bytes
  pub host : Bytes
  pub pid : ℕ
  pub acquired_at : ℕ

-- `Options`; counts and durations are 64-bit words, read as two's complement. The reporter is left
-- out.
pub record Options : Type 0 where
  pub owner : Owner
  pub max_attempts : ℕ
  pub timeout : ℕ
  pub initial_backoff : ℕ
  pub max_backoff : ℕ
  pub cache_control : Bytes
  pub now : ℕ

-- `Handle`; the store is a parameter of its operations.
pub record Handle : Type 0 where
  pub path : Bytes
  pub owner : Owner
  pub etag : Bytes
  pub released : Bool

abbrev pub is_negative : ℕ → Bool
is_negative a = not (ltb a 9223372036854775808)

-- `a < b` of two's complement words
abbrev pub signed_less : ℕ → ℕ → Bool
signed_less a b =
    if is_negative a
    then (if is_negative b then ltb a b else true)
    else if is_negative b
    then false
    else ltb a b

-- `LockPath`
unfoldable pub lock_path : Bytes → Bytes
lock_path codename = path_join (codes "dists" ∷ codename ∷ codes "lockfile" ∷ [])

-- `checkedLockPath`
unfoldable pub checked_lock_path : Bytes → Result Bytes
unfolding lock_path
checked_lock_path codename =
    let cleaned = clean codename in
    if (equal cleaned dot || is_abs cleaned)
      || (equal cleaned dot_dot || has_prefix cleaned (codes "../"))
    then err (message "unsafe repository codename")
    else ok (lock_path cleaned)

-- `optionsWithDefaults`; a duration that is not positive is not given.
abbrev pub ungiven : ℕ → Bool
ungiven a = signed_less a 1

abbrev or_default : ℕ → ℕ → ℕ
or_default default a = if ungiven a then default else a

unfoldable pub options_with_defaults : Options → Options
options_with_defaults o =
    let initial = or_default 100000000 o.initial_backoff in
    let maximum = or_default 10000000000 o.max_backoff in
    record o {
      max_attempts = if (o.max_attempts == 0) && ungiven o.timeout then 60 else o.max_attempts;
      initial_backoff = initial;
      max_backoff = if signed_less maximum initial then initial else maximum;
    }

-- `retryDelay`, where doubling wraps around
unfoldable pub double_below : ℕ → ℕ → ℕ → ℕ
double_below zero delay maximum = delay
double_below (suc steps) delay maximum =
    if signed_less delay maximum
    then double_below steps ((delay * 2) % 18446744073709551616) maximum
    else delay

unfoldable pub retry_delay : ℕ → ℕ → ℕ → ℕ
unfolding double_below
retry_delay initial maximum attempt =
    let delay = double_below (attempt - 1) initial maximum in
    if signed_less delay maximum then delay else maximum

-- What `decodeOwner` and `Acquire` take from outside: the JSON coder, and a fresh owner, of random
-- bytes and the names of the user and the host.
pub record Coder : Type 0 where
  pub encode : Owner → Result Bytes
  pub decode : Bytes → Option Owner
  pub new_owner : Result Owner

-- `decodeOwner`: JSON, or the older `user@host`.
abbrev legacy_owner : Bytes → Bytes → Bytes → Result Owner
legacy_owner legacy username host =
    if not (equal username []) && not (equal host [])
    then ok (record { token = legacy; user = username; host = host; pid = 0; acquired_at = 0 })
    else err (message "repository lock contains invalid owner data")

abbrev cut_owner : Bytes → Option ℕ → Result Owner
cut_owner legacy none = err (message "repository lock contains invalid owner data")
cut_owner legacy (some i) = legacy_owner legacy (take i legacy) (drop (suc i) legacy)

abbrev decoded_or : Option Owner → Result Owner → Result Owner
decoded_or none legacy = legacy
decoded_or (some owner) legacy = if equal owner.token [] then legacy else ok owner

unfoldable pub decode_owner : Coder → Bytes → Result Owner
decode_owner coder body =
    let legacy = trim_space body in
    decoded_or (coder.decode body) (cut_owner legacy (index_byte b'@' legacy))

-- The owner that `Acquire` writes.
unfoldable pub acquiring_owner : Coder → Options → Result Owner
acquiring_owner coder o =
    if equal o.owner.token []
    then coder.new_owner
    else if o.owner.acquired_at == 0
    then ok (record (o.owner) { acquired_at = o.now })
    else ok o.owner

-- What the rest of the world does during one attempt: `waitError(ctx)` at its start, after a store
-- error and in the wait, and how others change the store after each request and in the wait.
pub record Turn (S : Type 0) : Type 0 where
  pub expired : Option Error
  pub aborted : Option Error
  pub interrupted : Option Error
  pub after_put : S → S
  pub after_get : S → S

-- An outcome, or none when the fuel is used up.
abbrev pub Outcome : Type 0 → Type 0
Outcome S = Option (Result Handle × S)

abbrev error_or : Option Error → Error → Error
error_or none e = e
error_or (some e') e = e'

abbrev lock_options : Bytes → PutOptions
lock_options cache_control = record {
  content_type = codes "text/plain; charset=utf-8";
  cache_control = cache_control;
  metadata = none;
  fail_if_exists = false;
  create_only = true;
  server_side_encryption = false;
}

-- `Handle.Release`; `meanwhile` is what others do between its two requests. It is ownership-safe
-- because the deletion is conditional on the ETag of the lock that was acquired.
abbrev pub marked : Handle → Handle
marked h = record h { released = true }

module _ {S : Type 0} where
  abbrev pub settled : Handle → Result (Unit {0}) × S → Result (Unit {0}) × S × Handle
  settled h (ok done, s) = (ok tt, s, marked h)
  settled h (err e, s) =
      if is_conflict e
      then (err not_owner, s, h)
      else if not (is_not_found e)
      then (err (wrap "delete repository lock" e), s, h)
      else (ok tt, s, marked h)

  delete_owned :
      Handle
      → Option (Bytes → Bytes → M S (Unit {0}))
      → Result Owner
      → S
      → Result (Unit {0}) × S × Handle
  delete_owned h delete (err e) s = (err not_owner, s, h)
  delete_owned h delete (ok owner) s =
      if not (equal owner.token h.owner.token) then (err not_owner, s, h) else elim delete [
        | none ↦ (err conditional_delete_unsupported, s, h)
        | some delete_if_match ↦ settled h (delete_if_match h.path h.etag s)
      ]

module _ (coder : Coder) {S : Type 0} (store : Store S) where
  -- `Current`
  abbrev decoded : Result Bytes → Result Owner
  decoded (err e) = err e
  decoded (ok body) = decode_owner coder body

  abbrev current_at : Result Bytes → M S Owner
  current_at (err e) s = (err e, s)
  current_at (ok path) s = let (r, s') = store.get path s in (decoded r, s')

  unfoldable pub current : Bytes → M S Owner
  unfolding checked_lock_path decode_owner
  current codename s = current_at (checked_lock_path codename) s

  -- After a conflict: the current owner is read, then the next attempt follows, at once if the lock
  -- is gone, else after the wait.
  retry : Options → ℕ → Turn S → (S → Outcome S) → Result Owner → S → Outcome S
  retry o attempt turn again (ok owner) s =
      if attempt == o.max_attempts
      then some (err locked, s)
      else elim turn.interrupted [ some e ↦ some (err e, s) | none ↦ again (turn.after_get s) ]
  retry o attempt turn again (err e) s =
      if not (is_not_found e)
      then some (err (error_or turn.aborted (wrap "read current repository lock" e)), s)
      else if attempt == o.max_attempts
      then some (err locked, s)
      else again (turn.after_get s)

  -- After the lock was created.
  acquired : Bytes → Owner → Result ObjectInfo → Result Handle
  acquired path owner (err e) = err (wrap "read acquired repository lock" e)
  acquired path owner (ok info) =
      ok (record { path = path; owner = owner; etag = info.etag; released = false })

  -- What follows the write of the lock.
  after_write :
      Options
      → Bytes
      → Bytes
      → Owner
      → ℕ
      → Turn S
      → (S → Outcome S)
      → Result (Unit {0})
      → S
      → Outcome S
  unfolding current retry acquired
  after_write o codename path owner attempt turn again (ok done) s =
      let (info, s') = store.head path (turn.after_put s) in some (acquired path owner info, s')
  after_write o codename path owner attempt turn again (err e) s =
      if is_conflict e
      then (let (r, s') = current codename (turn.after_put s) in retry o attempt turn again r s')
      else some (err (error_or turn.aborted (wrap "create repository lock" e)), s)

  -- The write of a round whose wait has not expired.
  started :
      Options
      → Bytes
      → Bytes
      → Owner
      → Bytes
      → ℕ
      → Turn S
      → (S → Outcome S)
      → Option Error
      → S
      → Outcome S
  unfolding after_write
  started o codename path owner body attempt turn again (some e) s = some (err e, s)
  started o codename path owner body attempt turn again none s =
      let (r, s') = store.put path (ok body) (lock_options o.cache_control) s in
      after_write o codename path owner attempt turn again r s'

  -- One round of the loop of `Acquire`, and what follows it.
  attempt_once :
      Options → Bytes → Bytes → Owner → Bytes → ℕ → Turn S → (S → Outcome S) → S → Outcome S
  unfolding started
  attempt_once o codename path owner body attempt turn again s =
      started o codename path owner body attempt turn again turn.expired s

  -- The loop of `Acquire`.
  unfoldable pub attempts :
      Options → Bytes → Bytes → Owner → Bytes → (ℕ → Turn S) → ℕ → ℕ → S → Outcome S
  unfolding attempt_once
  attempts o codename path owner body turns zero attempt s = none
  attempts o codename path owner body turns (suc fuel) attempt s =
      if signed_less o.max_attempts 1 || not (signed_less o.max_attempts attempt)
      then attempt_once o codename path owner body attempt (turns attempt)
          (attempts o codename path owner body turns fuel (suc attempt)) s
      else some (err locked, s)

  -- `Acquire`, with fuel for its loop
  encoded : Options → Bytes → Bytes → Owner → (ℕ → Turn S) → ℕ → Result Bytes → S → Outcome S
  unfolding attempts
  encoded o codename path owner turns fuel (err e) s = some (err (wrap "encode lock owner" e), s)
  encoded o codename path owner turns fuel (ok body) s =
      attempts o codename path owner body turns fuel 1 s

  owned : Options → Bytes → Bytes → (ℕ → Turn S) → ℕ → Result Owner → S → Outcome S
  unfolding encoded
  owned o codename path turns fuel (err e) s = some (err e, s)
  owned o codename path turns fuel (ok owner) s =
      encoded o codename path owner turns fuel (coder.encode owner) s

  located_lock : Options → Bytes → (ℕ → Turn S) → ℕ → Result Bytes → S → Outcome S
  unfolding owned acquiring_owner
  located_lock o codename turns fuel (err e) s = some (err e, s)
  located_lock o codename turns fuel (ok path) s =
      owned o codename path turns fuel (acquiring_owner coder o) s

  with_deleter :
      Options → Bytes → (ℕ → Turn S) → ℕ → Option (Bytes → Bytes → M S (Unit {0})) → S → Outcome S
  unfolding located_lock checked_lock_path options_with_defaults
  with_deleter options codename turns fuel none s = some (err conditional_delete_unsupported, s)
  with_deleter options codename turns fuel (some delete) s =
      located_lock (options_with_defaults options) codename turns fuel (checked_lock_path codename)
        s

  unfoldable pub acquire : Options → Bytes → (ℕ → Turn S) → ℕ → S → Outcome S
  unfolding with_deleter
  acquire options codename turns fuel s =
      with_deleter options codename turns fuel store.delete_if_match s

  release_read : Handle → (S → S) → Result Bytes → S → Result (Unit {0}) × S × Handle
  unfolding delete_owned decode_owner
  release_read h meanwhile (err e) s =
      if is_not_found e
      then (ok tt, s, marked h)
      else (err (wrap "read repository lock before release" e), s, h)
  release_read h meanwhile (ok body) s =
      delete_owned h store.delete_if_match (decode_owner coder body) (meanwhile s)

  unfoldable pub release : Handle → (S → S) → S → Result (Unit {0}) × S × Handle
  unfolding release_read
  release h meanwhile s =
      if h.released
      then (ok tt, s, h)
      else (let (r, s') = store.get h.path s in release_read h meanwhile r s')
