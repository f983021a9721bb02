-- ===== src/Examples/Querying.antt =====
-- internal/query: the theorems on queries, applied.
use deb_s3_go.Base.{
  ◌↔◌, err, message, false, true, List, [], ◌∷◌, ok, value_or, ◌≡◌, refl, All, map, any,
}
use deb_s3_go.Base.Strings.{
  member, codes, equal, has_prefix, trim_prefix, trim_func, drop_while, split, join, contains_byte,
  fields_func, to_lower, replace_crlf,
}
use deb_s3_go.Base.Assoc.{lookup, insert}
use deb_s3_go.Base.Paths.{clean, path_join}
use deb_s3_go.Storage.Keys.{join_key, normalize_prefix}
use deb_s3_go.Storage.Memory.{MemoryStore, get, put, located, new_memory_store, memory_store}
use deb_s3_go.Storage.Memory.Consistent.{put_call, perform}
use deb_s3_go.Apt.Control.{parse_paragraph}
use deb_s3_go.Apt.Package.{Package, parse_package, full_version}
use deb_s3_go.Apt.Manifest.{parse_packages, packages_path}
use deb_s3_go.Apt.Publishing.{retrieve_manifest}
use deb_s3_go.Apt.Release.{parse_release, release_filename, release_field, hash_lines}
use deb_s3_go.Apt.Release.Publish.{retrieve_release, configured}
use deb_s3_go.Query.{
  ListIdentity, ListOptions, Listing, identity, same_identity, list_unseen, list_each,
  list_packages, show,
}
use deb_s3_go.Query.Listed.{Apart, IsListing, list_unseen_lem, list_packages-Apart}
use deb_s3_go.Query.Found.{succeeded}
use deb_s3_go.Config.{Config, new_config, validate, validate_architecture}
use deb_s3_go.Cli.{component_for}
use deb_s3_go.Cli.Output.{checked_argument}
use deb_s3_go.Cli.Commands.{Given, exists_command}
use deb_s3_go.Cli.Existing.{exists_command-show}
use deb_s3_go.Examples.Locking.{coder}
use deb_s3_go.Examples.Publishing.{tools}
use deb_s3_go.Examples.Storage.{env, options}
use deb_s3_go.Examples.Apt.{package_b}

-- A repository with one package in one index.
abbrev repository : MemoryStore
repository =
    perform env
      (put_call (codes "dists/stable/Release")
        (ok (codes "Architectures: amd64\nComponents: main\n")) options)
      (perform env
        (put_call (codes "dists/stable/main/binary-amd64/Packages")
          (ok (codes "Package: a\nVersion: 1\n")) options)
        (new_memory_store []))

abbrev every : ListOptions
every = record { codename = codes "stable"; component = codes "main"; architecture = [] }

abbrev packages : List Package
packages = value_or [] (list_packages (memory_store env) every repository).0

listed : (list_packages (memory_store env) every repository).0 ≡ ok packages
unfolding list_packages list_each list_unseen retrieve_release retrieve_manifest configured
    parse_release release_field hash_lines release_filename packages_path get put new_memory_store
    located join_key lookup insert trim_func drop_while equal contains_byte clean path_join split
    join has_prefix trim_prefix normalize_prefix fields_func to_lower replace_crlf parse_packages
    parse_package parse_paragraph full_version
listed = refl

list_packages-Apart_example : Apart (map identity packages)
list_packages-Apart_example = list_packages-Apart (memory_store env) every repository listed

abbrev empty_listing : Listing
empty_listing = record { packages = []; seen = [] }

list_unseen_lem_example :
    IsListing (list_unseen (package_b ∷ package_b ∷ []) empty_listing)
    × All
        (λ p.
          any
            (same_identity (identity p))
            (list_unseen (package_b ∷ package_b ∷ []) empty_listing).seen
          ≡ true)
        (package_b ∷ package_b ∷ [])
    × ((i : ListIdentity)
        → any (same_identity i) empty_listing.seen ≡ true
        → any (same_identity i) (list_unseen (package_b ∷ package_b ∷ []) empty_listing).seen
          ≡ true)
list_unseen_lem_example =
    list_unseen_lem (package_b ∷ package_b ∷ []) empty_listing
      (record { tracked = refl; apart = tt })

-- The configuration of a command on it.
abbrev a_config : Config
a_config = record new_config { bucket = codes "b" }

abbrev nothing_given : Given
nothing_given = record {
  by_hash = false;
  no_by_hash = false;
  origin = false;
  suite = false;
  versions = false;
  arch = false;
  date = codes "now";
}

is_valid : checked_argument a_config (codes "amd64") ≡ ok tt
unfolding checked_argument validate validate_architecture equal member
is_valid = refl

exists_command-show_example :
    ((exists_command coder tools
        (λ _. ok (memory_store env, memory_store env))
        (λ s release. err (message "no key"))
        a_config
        nothing_given
        (codes "a" ∷ codes "b" ∷ [])
        (codes "1")
        (codes "amd64")
        repository).0
      ≡ ok tt)
    ↔ All
        (λ n.
          succeeded
            (show
              (memory_store env)
              (codes "stable")
              (component_for a_config)
              (codes "amd64")
              n
              (codes "1")
              repository).0
          ≡ true)
        (codes "a" ∷ codes "b" ∷ [])
exists_command-show_example =
    exists_command-show coder tools (λ _. ok (memory_store env, memory_store env))
      (λ s release. err (message "no key")) a_config nothing_given (memory_store env)
      (memory_store env) (codes "a") (codes "b" ∷ []) (codes "1") (codes "amd64") repository
      is_valid refl
