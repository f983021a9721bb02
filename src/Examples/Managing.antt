-- ===== src/Examples/Managing.antt =====
-- internal/manage: the theorems on copying and deleting, applied.
use deb_s3_go.Base.{true, false, [], ◌∷◌, none, ok}
use deb_s3_go.Base.Strings.{codes}
use deb_s3_go.Storage.Events.{traced}
use deb_s3_go.Storage.Memory.{MemoryStore, new_memory_store, memory_store}
use deb_s3_go.Storage.Memory.Consistent.{put_call, perform}
use deb_s3_go.Manage.{CopyOptions, DeleteOptions, copy, delete, publish_copy, publish_delete}
use deb_s3_go.Storage.Stages.{Outcome}
use deb_s3_go.Manage.Copying.{Copies, copy_outcomes}
use deb_s3_go.Manage.Deleting.{Deletes, delete_outcomes}
use deb_s3_go.Examples.Storage.{env, options}
use deb_s3_go.Examples.Publishing.{tools}

-- One index with one package.
abbrev stored : MemoryStore
stored =
    perform env
      (put_call (codes "dists/stable/main/binary-amd64/Packages")
        (ok (codes "Package: a\nVersion: 1\nFilename: pool/a.deb\n")) options)
      (new_memory_store [])

abbrev copy_options : CopyOptions
copy_options = record {
  source_codename = codes "stable";
  source_component = codes "main";
  destination_codename = codes "stable";
  destination_component = codes "contrib";
  architecture = codes "amd64";
  name = codes "a";
  versions = [];
  versions_set = false;
  preserve_versions = true;
  fail_if_exists = true;
  cache_control = [];
  by_hash = none;
  signer = none;
  date = codes "now";
}

copy_outcomes_example :
    Outcome
      (publish_copy (traced (memory_store env)) tools)
      (Copies (memory_store env) tools copy_options)
      (copy (traced (memory_store env)) tools copy_options (stored, []))
      (stored, [])
copy_outcomes_example = copy_outcomes (memory_store env) tools copy_options (stored, [])

abbrev delete_options : DeleteOptions
delete_options = record {
  codename = codes "stable";
  component = codes "main";
  architecture = codes "amd64";
  name = codes "a";
  versions = codes "1" ∷ [];
  versions_set = true;
  origin = none;
  suite = none;
  cache_control = [];
  by_hash = none;
  signer = none;
  date = codes "now";
}

delete_outcomes_example :
    Outcome
      (publish_delete (traced (memory_store env)) tools)
      (Deletes (memory_store env) tools delete_options)
      (delete (traced (memory_store env)) tools delete_options (stored, []))
      (stored, [])
delete_outcomes_example = delete_outcomes (memory_store env) tools delete_options (stored, [])
