-- ===== src/Upload/Order.antt =====
-- internal/upload/upload.go: the order in which an upload writes.
use deb_s3_go.Base.{List, [], ◌∷◌, ◌++◌}
use deb_s3_go.Storage.Events.{Log}
use deb_s3_go.Apt.Manifest.{Manifest}
use deb_s3_go.Apt.Publishing.{Tools}
use deb_s3_go.Apt.Publishing.Events.{package_writes}
use deb_s3_go.Apt.Release.{Release}
use deb_s3_go.Apt.Release.Publish.{Prepared}

abbrev pub all_package_writes : Tools → List Prepared → Log
all_package_writes tools [] = []
all_package_writes tools (p ∷ ps) = package_writes tools p.manifest ++ all_package_writes tools ps
