-- ===== src/Cli.antt =====
-- internal/cli/commands.go and flags.go: the parts of the commands that decide something. Flags are
-- values here, whether a flag was given among them; what is printed is left out.
pub mod Output
pub mod Commands
pub mod Existing
pub mod Locking
use deb_s3_go.Base.{
  ℕ, Bool, true, false, not, ◌||◌, List, [], ◌∷◌, ◌++◌, Option, none, some, Bytes, Error, message,
  wrap, joined, Result, ok, err, if◌then◌else◌, ◌==◌, ◌&&◌,
}
use deb_s3_go.Base.Strings.{codes, equal, member, fields_func}
use deb_s3_go.Storage.Objects.{M, Store}
use deb_s3_go.Config.{Config}
use deb_s3_go.Signing.{GpgSigner, parse_options}
use deb_s3_go.Lock.{Owner, Options, Handle, Turn, Outcome, Coder, acquire, release}

-- `lockFlags`; a duration is a 64-bit word, and `--lock-timeout` has ten minutes as its default.
pub record LockFlags : Type 0 where
  pub enabled : Bool
  pub timeout : ℕ

abbrev pub default_lock_timeout : ℕ
default_lock_timeout = 600000000000

-- `negatedBoolValue.Set`, with `strconv.ParseBool`
abbrev parse_bool : Bytes → Result Bool
parse_bool s =
    if member s
      (codes "1" ∷ codes "t" ∷ codes "T" ∷ codes "true" ∷ codes "TRUE" ∷ codes "True" ∷ [])
    then ok true
    else if member s
        (codes "0" ∷ codes "f" ∷ codes "F" ∷ codes "false" ∷ codes "FALSE" ∷ codes "False" ∷ [])
    then ok false
    else err (message "invalid syntax")

abbrev negated : Result Bool → Result Bool
negated (ok disable) = ok (not disable)
negated (err e) = err e

unfoldable pub set_negated_bool : Bytes → Result Bool
set_negated_bool value = negated (parse_bool value)

-- `stringListValue.Set`
abbrev separates : ℕ → Bool
separates c = c == b',' || c == b' ' || c == 9 || c == b'\n'

unfoldable pub set_string_list : List Bytes → Bytes → List Bytes
unfolding fields_func
set_string_list values value = values ++ fields_func separates value

-- `optionalStringArrayValue.Set`: whether signing is enabled, and the keys.
unfoldable pub set_optional_string_array : List Bytes → Bytes → Bool × List Bytes
set_optional_string_array values value =
    (true, if equal value (codes "default") then values else values ++ (value ∷ []))

-- `componentFor`
unfoldable pub component_for : Config → Bytes
component_for c = if equal c.section [] then c.component else c.section

-- `byHashOption`, of whether `--by-hash` and `--no-by-hash` were given
unfoldable pub by_hash_option : Bool → Bool → Config → Option Bool
by_hash_option given negated_given c =
    if not given && not negated_given then none else some c.by_hash

-- `originSuiteOverrides`, of whether `--origin` and `--suite` were given
abbrev override : Bool → Bytes → Option Bytes
override given value = if given then some value else none

unfoldable pub origin_suite_overrides : Bool → Bool → Config → Option Bytes × Option Bytes
origin_suite_overrides origin_given suite_given c =
    (override origin_given c.origin, override suite_given c.suite)

-- `configuredSigner`
abbrev signer_with : Config → Result (List Bytes) → Result (Option GpgSigner)
signer_with c (err e) = err (wrap "parse GPG options" e)
signer_with c (ok options) =
    ok (some (record { provider = c.gpg_provider; keys = c.sign_keys; extra_options = options }))

unfoldable pub configured_signer : Config → Result (Option GpgSigner)
unfolding parse_options
configured_signer c = if not c.sign then ok none else signer_with c (parse_options c.gpg_options)

-- `errors.Join` of two results
abbrev pub join_results : Result (Unit {0}) → Result (Unit {0}) → Result (Unit {0})
join_results (ok _) r = r
join_results (err e) (ok _) = err e
join_results (err e) (err f) = err (joined e f)

abbrev no_owner : Owner
no_owner = record { token = []; user = []; host = []; pid = 0; acquired_at = 0 }

-- `Unlimited` is -1.
abbrev pub lock_options : LockFlags → Bytes → ℕ → Options
lock_options flags cache_control now = record {
  owner = no_owner;
  max_attempts = 18446744073709551615;
  timeout = flags.timeout;
  initial_backoff = 0;
  max_backoff = 0;
  cache_control = cache_control;
  now = now;
}

-- `withRepositoryLock`. The release runs on the same objects as the rest, in a context that the
-- command's cannot cancel, so that it has a store of its own; `meanwhile` is what others do between
-- its requests.
module _ (coder : Coder) {S : Type 0} (store release_store : Store S) where
  abbrev released : Result (Unit {0}) → Result (Unit {0}) × S × Handle → Result (Unit {0}) × S
  released done (r, s, h) = (join_results done r, s)

  operate : Handle → (S → S) → Result (Unit {0}) × S → Result (Unit {0}) × S
  unfolding release
  operate h meanwhile (done, s) = released done (release coder release_store h meanwhile s)

  unfoldable pub after_acquire :
      (S → S) → M S (Unit {0}) → Outcome S → Option (Result (Unit {0}) × S)
  unfolding operate
  after_acquire meanwhile operation none = none
  after_acquire meanwhile operation (some (err e, s)) = some (err e, s)
  after_acquire meanwhile operation (some (ok h, s)) = some (operate h meanwhile (operation s))

  unfoldable pub with_repository_lock :
      LockFlags
      → Bytes
      → ℕ
      → Bytes
      → (ℕ → Turn S)
      → (S → S)
      → ℕ
      → M S (Unit {0})
      → S
      → Option (Result (Unit {0}) × S)
  unfolding after_acquire acquire
  with_repository_lock flags cache_control now codename turns meanwhile fuel operation s =
      if not flags.enabled
      then some (operation s)
      else after_acquire meanwhile operation
          (acquire coder store (lock_options flags cache_control now) codename turns fuel s)
