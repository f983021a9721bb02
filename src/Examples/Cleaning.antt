-- ===== src/Examples/Cleaning.antt =====
-- internal/maintenance: the theorem on cleaning, applied.
use deb_s3_go.Base.{true, none, List, [], ◌∷◌, ◌++◌, Bytes, Result, ok, err, ◌≡◌, refl, All}
use deb_s3_go.Base.Strings.{
  codes, equal, has_prefix, trim_prefix, trim_func, drop_while, split, join, contains_byte,
  has_suffix,
}
use deb_s3_go.Base.Assoc.{lookup, insert}
use deb_s3_go.Base.Paths.{clean, path_join, base, dir}
use deb_s3_go.Storage.Keys.{join_key, normalize_prefix, logical_key}
use deb_s3_go.Storage.Objects.{ObjectInfo}
use deb_s3_go.Storage.Events.{traced}
use deb_s3_go.Storage.Memory.{MemoryStore, get, put, list, located, new_memory_store, memory_store}
use deb_s3_go.Storage.Memory.Consistent.{put_call, perform}
use deb_s3_go.Apt.Control.{parse_paragraph}
use deb_s3_go.Apt.Package.{Package, repository_filename, parse_package}
use deb_s3_go.Apt.Manifest.{parse_packages}
use deb_s3_go.Maintenance.{index_keys, clean_pool}
use deb_s3_go.Maintenance.Clean.{Spares, Refers, clean_pool-Spares}
use deb_s3_go.Storage.Stages.{Outcome}
use deb_s3_go.Maintenance.Verify.{VerifyOptions, publish_verified, verify}
use deb_s3_go.Maintenance.Verify.Sifted.{IsVerified, verify_outcomes}
use deb_s3_go.Examples.Storage.{env, options}
use deb_s3_go.Examples.Publishing.{tools}

abbrev index : Bytes
index = codes "dists/old/main/binary-amd64/Packages"

abbrev text : Bytes
text = codes "Package: a\nVersion: 1\nFilename: pool/a.deb\n"

-- An index of one codename refers to an object of the pool.
abbrev stored : MemoryStore
stored = perform env (put_call (codes "pool/b.deb") (ok (codes "y")) options) (
    perform env (put_call (codes "pool/a.deb") (ok (codes "x")) options)
      (perform env (put_call index (ok text) options) (new_memory_store [])))

abbrev values_or : Result (List ObjectInfo) → List ObjectInfo
values_or (ok infos) = infos
values_or (err e) = []

listed_at :
    (list env (codes "dists/") stored).0 ≡ ok (values_or (list env (codes "dists/") stored).0)
unfolding list put new_memory_store located join_key lookup insert trim_func drop_while equal
    contains_byte clean path_join split join has_prefix trim_prefix normalize_prefix logical_key
listed_at = refl

keys_at : index_keys (values_or (list env (codes "dists/") stored).0) ≡ [] ++ (index ∷ [])
unfolding list put new_memory_store located join_key lookup insert trim_func drop_while equal
    contains_byte clean path_join split join has_prefix trim_prefix normalize_prefix logical_key
    index_keys base dir has_suffix
keys_at = refl

abbrev first_of : Result (List Package) → Package → Package
first_of (ok (p ∷ ps)) d = p
first_of _ d = d

refers : Refers env stored index (codes "pool/a.deb")
unfolding get put new_memory_store located join_key lookup insert trim_func drop_while equal
    contains_byte clean path_join split join has_prefix trim_prefix normalize_prefix parse_packages
    parse_package parse_paragraph repository_filename
refers = record {
  content = text;
  stored = refl;
  before = [];
  pack = _;
  after = [];
  parsed = refl;
  filename = codes "pool/a.deb";
  named = refl;
  joined = refl;
}

clean_pool-Spares_example :
    All
      (Spares (codes "pool/a.deb"))
      (clean_pool (traced (memory_store env)) (codes "stable") (stored, [])).1.1
clean_pool-Spares_example =
    clean_pool-Spares env (codes "pool/a.deb") index (codes "stable") [] [] stored listed_at keys_at
      refers

-- `Verify` of a codename, with its manifests to be repaired.
abbrev verify_options : VerifyOptions
verify_options = record {
  codename = codes "old";
  component = codes "main";
  fix_manifests = true;
  origin = none;
  suite = none;
  cache_control = [];
  by_hash = none;
  signer = none;
  date = codes "now";
}

verify_outcomes_example :
    Outcome
      (publish_verified (traced (memory_store env)) verify_options tools)
      (IsVerified (memory_store env) verify_options)
      (verify (traced (memory_store env)) verify_options tools (stored, []))
      (stored, [])
verify_outcomes_example = verify_outcomes (memory_store env) verify_options tools (stored, [])
