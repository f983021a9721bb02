-- ===== src/Maintenance/References.antt =====
-- internal/maintenance/maintenance.go: the pool keys that the packages of an index refer to.
pub mod Complete
use deb_s3_go.Base.{List, [], ◌∷◌, Bytes, Result, ok, err, ◌>>=◌, wrap_error}
use deb_s3_go.Storage.Keys.{join_key}
use deb_s3_go.Apt.Package.{Package, repository_filename}
use deb_s3_go.Apt.Manifest.{parse_packages}
use deb_s3_go.Apt.Release.{append_unique}

-- The loop over the packages of one index; the set of references is a list without repetition.
unfoldable pub reference_packages : List Package → List Bytes → Result (List Bytes)
unfolding append_unique
reference_packages [] references = ok references
reference_packages (p ∷ ps) references = do
  filename ← wrap_error "resolve package" (repository_filename p [])
  normalized ← wrap_error "unsafe referenced package path" (join_key [] filename)
  reference_packages ps (append_unique references normalized)

unfoldable pub reference_index : Bytes → List Bytes → Result (List Bytes)
unfolding reference_packages
reference_index content references = do
  packages ← wrap_error "parse manifest for clean" (parse_packages content)
  reference_packages packages references
