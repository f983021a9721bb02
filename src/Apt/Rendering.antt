-- ===== src/Apt/Rendering.antt =====
-- internal/apt/package_render.go: the paragraph of a package in an index.
use deb_s3_go.Base.{
  Bool, not, ◌&&◌, List, [], ◌∷◌, ◌++◌, Option, none, some, Bytes, Result, ok, ◌>>=◌, if◌then◌else◌,
  length, ltb,
}
use deb_s3_go.Base.Strings.{codes, equal, join}
use deb_s3_go.Apt.Dependency.{normalize_dependency}
use deb_s3_go.Apt.Fields.{
  write_field, write_optional_field, write_description, pointer_value, write_fields,
}
use deb_s3_go.Apt.Package.{Package, full_version, repository_filename, value_or}

-- What the builder `output` holds after these writes.
abbrev output_of : List Bytes → Bytes
output_of [] = []
output_of (text ∷ texts) = text ++ output_of texts

-- The loop over the dependencies in `Render`.
unfoldable pub normalized_dependencies : Bool → List Bytes → List Bytes × List Bytes
unfolding normalize_dependency
normalized_dependencies ignore [] = ([], [])
normalized_dependencies ignore (d ∷ ds) =
    let (deps, conflict) = normalize_dependency d ignore in
    let (rest, conflicts) = normalized_dependencies ignore ds in
    (deps ++ rest, if equal conflict [] then conflicts else conflict ∷ conflicts)

abbrev with_declared : Option Bytes → List Bytes → List Bytes
with_declared none conflicts = conflicts
with_declared (some declared) conflicts = declared ∷ conflicts

abbrev write_list : Bytes → List Bytes → Bytes
write_list name [] = []
write_list name (v ∷ vs) = write_field name (join (codes ", ") (v ∷ vs))

-- `Render`, with the repository filename
pub render_fields : Package → Bytes → Bytes
unfolding normalized_dependencies full_version
render_fields p filename =
    let (dependencies, conflicts) =
      normalized_dependencies p.ignore_iteration_in_dependencies p.dependencies in
    output_of (
      write_field (codes "Package") p.name
      ∷ write_field (codes "Version") (full_version p)
      ∷ write_field (codes "License") p.license
      ∷ write_field (codes "Vendor") p.vendor
      ∷ write_field (codes "Architecture") p.architecture
      ∷ write_field (codes "Maintainer") p.maintainer
      ∷ write_field (codes "Installed-Size") (pointer_value p.installed_size)
      ∷ (if ltb 0 (length p.dependencies) && not p.no_depends
          then write_field (codes "Depends") (join (codes ", ") dependencies)
          else [])
      ∷ write_list (codes "Conflicts") (with_declared p.conflicts conflicts)
      ∷ write_optional_field (codes "Breaks") p.breaks
      ∷ write_optional_field (codes "Pre-Depends") p.pre_depends
      ∷ write_optional_field (codes "Provides") p.provides
      ∷ write_optional_field (codes "Replaces") p.replaces
      ∷ write_optional_field (codes "Recommends") p.recommends
      ∷ write_optional_field (codes "Suggests") p.suggests
      ∷ write_optional_field (codes "Enhances") p.enhances
      ∷ write_field (codes "Section") p.category
      ∷ write_optional_field (codes "Origin") p.origin
      ∷ write_field (codes "Priority") (pointer_value p.priority)
      ∷ write_field (codes "Homepage")
          (value_or (codes "http://nourlgiven.example.com/") p.homepage)
      ∷ write_field (codes "Filename") filename
      ∷ write_optional_field (codes "Size") p.size
      ∷ write_optional_field (codes "SHA1") p.sha1
      ∷ write_optional_field (codes "SHA256") p.sha256
      ∷ write_optional_field (codes "MD5sum") p.md5
      ∷ write_description p.description
      ∷ write_fields p.extra_fields
      ∷ [])

-- `Render`
unfoldable pub render : Package → Bytes → Result Bytes
unfolding repository_filename render_fields
render p codename = do filename ← repository_filename p codename; ok (render_fields p filename)
