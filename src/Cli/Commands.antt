-- ===== src/Cli/Commands.antt =====
-- internal/cli/commands.go: what the commands do once flags and arguments are read.
-- Opening a store and signing are parameters; progress is left out.
use deb_s3_go.Base.{
  ℕ, Bool, List, [], Option, none, some, Bytes, message, Result, ok, err, if◌then◌else◌,
}
use deb_s3_go.Storage.Objects.{M, Store, lift, on_error, pure, ◌>>=◌, ◌>>◌}
use deb_s3_go.Apt.Package.{Package}
use deb_s3_go.Apt.Rendering.{render}
use deb_s3_go.Apt.Publishing.{Tools}
use deb_s3_go.Apt.Release.{SignatureArtifacts}
use deb_s3_go.Config.{Config, validate}
use deb_s3_go.Signing.{GpgSigner}
use deb_s3_go.Lock.{Turn, Coder}
use deb_s3_go.Upload
use deb_s3_go.Manage
use deb_s3_go.Query
use deb_s3_go.Maintenance.{clean_pool}
use deb_s3_go.Maintenance.Verify
use deb_s3_go.Cli.Output.{
  is_no_packages_found, is_no_packages_deleted, is_package_not_found, reworded, all_found,
  checked_config, checked_required, checked_argument, signer_after, list_output,
}
use deb_s3_go.Cli.{
  LockFlags, component_for, by_hash_option, origin_suite_overrides, configured_signer,
  with_repository_lock,
}

-- Which flags were given, and the date of a release.
pub record Given : Type 0 where
  pub by_hash : Bool
  pub no_by_hash : Bool
  pub origin : Bool
  pub suite : Bool
  pub versions : Bool
  pub arch : Bool
  pub date : Bytes

pub record UploadFlags : Type 0 where
  pub architecture : Bytes
  pub preserve_versions : Bool
  pub fail_if_exists : Bool
  pub skip_package_upload : Bool

pub record CopyFlags : Type 0 where
  pub architecture : Bytes
  pub versions : List Bytes
  pub preserve_versions : Bool
  pub fail_if_exists : Bool

-- How a lock is waited for: the flags, the clock, what others do, and the fuel of `Acquire`.
pub record Waiting (S : Type 0) : Type 0 where
  pub flags : LockFlags
  pub now : ℕ
  pub turns : ℕ → Turn S
  pub meanwhile : S → S
  pub fuel : ℕ

-- `newStore`, with the store of the context in which the lock is released; and `Sign`.
module _ (coder : Coder) (tools : Tools) {S : Type 0}
    (open_store : Config → Result (Store S × Store S))
    (sign_with : GpgSigner → Bytes → Result SignatureArtifacts) (c : Config) (g : Given) where
  abbrev signer_of : Option GpgSigner → Option (Bytes → Result SignatureArtifacts)
  signer_of none = none
  signer_of (some s) = some (sign_with s)

  abbrev by_hash_of : Option Bool
  by_hash_of = by_hash_option g.by_hash g.no_by_hash c

  -- The options of the four packages.
  abbrev pub upload_options : UploadFlags → Option GpgSigner → Upload.Options
  upload_options f signer = record {
    codename = c.codename;
    component = component_for c;
    origin = (origin_suite_overrides g.origin g.suite c).0;
    suite = (origin_suite_overrides g.origin g.suite c).1;
    architecture = f.architecture;
    architecture_set = g.arch;
    preserve_versions = f.preserve_versions;
    fail_if_exists = f.fail_if_exists;
    skip_package_upload = f.skip_package_upload;
    cache_control = c.cache_control;
    by_hash = by_hash_of;
    signer = signer_of signer;
    date = g.date;
  }

  abbrev pub copy_options :
      CopyFlags → Bytes → Bytes → Bytes → Option GpgSigner → Manage.CopyOptions
  copy_options f name to_codename to_component signer = record {
    source_codename = c.codename;
    source_component = component_for c;
    destination_codename = to_codename;
    destination_component = to_component;
    architecture = f.architecture;
    name = name;
    versions = f.versions;
    versions_set = g.versions;
    preserve_versions = f.preserve_versions;
    fail_if_exists = f.fail_if_exists;
    cache_control = c.cache_control;
    by_hash = by_hash_of;
    signer = signer_of signer;
    date = g.date;
  }

  abbrev pub delete_options : Bytes → List Bytes → Bytes → Option GpgSigner → Manage.DeleteOptions
  delete_options architecture versions name signer = record {
    codename = c.codename;
    component = component_for c;
    architecture = architecture;
    name = name;
    versions = versions;
    versions_set = g.versions;
    origin = (origin_suite_overrides g.origin g.suite c).0;
    suite = (origin_suite_overrides g.origin g.suite c).1;
    cache_control = c.cache_control;
    by_hash = by_hash_of;
    signer = signer_of signer;
    date = g.date;
  }

  abbrev pub verify_options : Bool → Option GpgSigner → Verify.VerifyOptions
  verify_options fix_manifests signer = record {
    codename = c.codename;
    component = component_for c;
    fix_manifests = fix_manifests;
    origin = (origin_suite_overrides g.origin g.suite c).0;
    suite = (origin_suite_overrides g.origin g.suite c).1;
    cache_control = c.cache_control;
    by_hash = by_hash_of;
    signer = signer_of signer;
    date = g.date;
  }

  -- A command that changes a repository, from its checks on: `none` means that the fuel ran out.
  abbrev locked_on :
      Waiting S
      → Bytes
      → (Store S → M S (Unit {0}))
      → Result (Store S × Store S)
      → S
      → Option (Result (Unit {0}) × S)
  locked_on l codename operation (err e) s = some (err e, s)
  locked_on l codename operation (ok (store, release_store)) s =
      with_repository_lock coder store release_store l.flags c.cache_control l.now codename l.turns
        l.meanwhile l.fuel (operation store) s

  unfoldable pub run_locked :
      Waiting S
      → Bytes
      → Result (Option GpgSigner)
      → (Option GpgSigner → Store S → M S (Unit {0}))
      → S
      → Option (Result (Unit {0}) × S)
  unfolding with_repository_lock
  run_locked l codename (err e) operation s = some (err e, s)
  run_locked l codename (ok signer) operation s =
      locked_on l codename (operation signer) (open_store c) s

  -- `newUploadCommand`
  unfoldable pub upload_command :
      Waiting S → UploadFlags → Upload.Files → List Bytes → S → Option (Result (Unit {0}) × S)
  unfolding run_locked checked_config configured_signer
  upload_command l f files patterns =
      run_locked l c.codename (signer_after (checked_config c f.architecture) c)
        (λ signer store. Upload.upload tools store files patterns (upload_options f signer))

  -- `newCopyCommand`: the lock is that of the destination.
  unfoldable pub copy_command :
      Waiting S → CopyFlags → Bytes → Bytes → Bytes → S → Option (Result (Unit {0}) × S)
  unfolding run_locked checked_required configured_signer
  copy_command l f name to_codename to_component =
      run_locked l to_codename
        (signer_after
          (checked_required "you must specify the architecture of the package to copy" c
            f.architecture)
          c)
        (λ signer store.
          on_error (reworded is_no_packages_found (message "No packages found in repository."))
            (Manage.copy store tools (copy_options f name to_codename to_component signer)))

  -- `newDeleteCommand`
  unfoldable pub delete_command :
      Waiting S → Bytes → List Bytes → Bytes → S → Option (Result (Unit {0}) × S)
  unfolding run_locked checked_required configured_signer
  delete_command l architecture versions name =
      run_locked l c.codename
        (signer_after
          (checked_required "you must specify the architecture of the package to remove" c
            architecture)
          c)
        (λ signer store.
          on_error (reworded is_no_packages_deleted (message "No packages were deleted."))
            (Manage.delete store tools (delete_options architecture versions name signer)))

  abbrev unsigned : Result (Unit {0}) → Result (Option GpgSigner)
  unsigned (err e) = err e
  unsigned (ok _) = ok none

  -- `newCleanCommand`; no signer is read.
  unfoldable pub clean_command : Waiting S → S → Option (Result (Unit {0}) × S)
  unfolding run_locked validate
  clean_command l =
      run_locked l c.codename (unsigned (validate c))
        (λ signer store. do cleaned ← clean_pool store c.codename; pure tt)

  -- The commands without the lock.
  abbrev unlocked : {A : Type 0} → (Store S → M S A) → Result (Store S × Store S) → M S A
  unlocked operation (err e) s = (err e, s)
  unlocked operation (ok (store, _)) s = operation store s

  -- `newVerifyCommand`
  unfoldable pub verify_command : Bool → M S (Unit {0})
  unfolding configured_signer validate
  verify_command fix_manifests = do
    signer ← lift (signer_after (validate c) c)
    verified ←
        unlocked (λ store. Verify.verify store (verify_options fix_manifests signer) tools)
          (open_store c)
    pure tt

  -- `newListCommand`
  unfoldable pub list_command : Bool → Bytes → M S Bytes
  unfolding checked_config list_output
  list_command long architecture = do
    lift (checked_config c architecture)
    packages ←
        unlocked
          (λ store. Query.list_packages store (record {
            codename = c.codename;
            component = component_for c;
            architecture = architecture;
          }))
          (open_store c)
    lift (list_output long c.codename packages)

  -- `newShowCommand`
  abbrev shown : Package → Result Bytes
  shown p = if c.quiet then ok [] else render p c.codename

  unfoldable pub show_command : Bytes → Bytes → Bytes → M S Bytes
  unfolding checked_argument
  show_command name version architecture = do
    lift (checked_argument c architecture)
    pack ←
        unlocked
          (λ store.
            on_error (reworded is_package_not_found (message "No such package found."))
              (Query.show store c.codename (component_for c) architecture name version))
          (open_store c)
    lift (shown pack)

  -- `newExistsCommand`, whose output is left out
  unfoldable pub exists_command : List Bytes → Bytes → Bytes → M S (Unit {0})
  unfolding checked_argument
  exists_command names version architecture = do
    lift (checked_argument c architecture)
    matches ←
        unlocked
          (λ store. Query.exists store c.codename (component_for c) architecture version names)
          (open_store c)
    lift (all_found matches)
