-- ===== src/Examples/Uploading.antt =====
-- internal/upload: the theorems on uploads, applied.
use deb_s3_go.Base.{false, [], ◌∷◌, none, ok}
use deb_s3_go.Base.Strings.{codes}
use deb_s3_go.Storage.Events.{traced}
use deb_s3_go.Storage.Stages.{Outcome}
use deb_s3_go.Storage.Memory.{memory_store, new_memory_store}
use deb_s3_go.Upload.{Options, Files, upload_prepared, upload}
use deb_s3_go.Upload.Uploaded.{IsUpload, upload_outcomes}
use deb_s3_go.Examples.Storage.{env}
use deb_s3_go.Examples.Apt.{package_b}
use deb_s3_go.Examples.Publishing.{tools}

-- Each pattern is one file, with one package.
abbrev files : Files
files = record { glob = λ p. ok (p ∷ []); inspect = λ name. ok package_b }

abbrev options : Options
options = record {
  codename = codes "stable";
  component = codes "main";
  origin = none;
  suite = none;
  architecture = [];
  architecture_set = false;
  preserve_versions = false;
  fail_if_exists = false;
  skip_package_upload = false;
  cache_control = [];
  by_hash = none;
  signer = none;
  date = codes "now";
}

upload_outcomes_example :
    Outcome
      (upload_prepared tools (traced (memory_store env)))
      (IsUpload tools (memory_store env) options files (new_memory_store [], []))
      (upload tools
        (traced (memory_store env))
        files
        (codes "b.deb" ∷ [])
        options
        (new_memory_store [], []))
      (new_memory_store [], [])
upload_outcomes_example =
    upload_outcomes tools (memory_store env) options files (codes "b.deb" ∷ [])
      (new_memory_store [], [])
