-- ===== src/Examples/Apt.antt =====
-- internal/apt: the theorems on paragraphs, packages and manifests, applied.
use mathlib.Core.List.{Perm}
use deb_s3_go.Base.{
  true, false, List, [], ◌∷◌, ◌++◌, none, some, Bytes, ok, if◌then◌else◌, ◌≡◌, refl, inl, inr, All,
}
use deb_s3_go.Base.Strings.{
  codes, equal, has_prefix, trim_func, drop_while, split, join, contains_byte,
}
use deb_s3_go.Base.Paths.{clean, path_join, base}
use deb_s3_go.Apt.Control.{all_bytes, Field, get, set, take_field, parse_paragraph}
use deb_s3_go.Apt.Control.Dictionary.{set_named, remove_named, Distinct}
use deb_s3_go.Apt.Control.Index.{IsIndexed, set_take_dictionary, parse_paragraph-IsIndexed}
use deb_s3_go.Apt.Fields.{write_fields}
use deb_s3_go.Apt.Fields.RoundTrip.Paragraphs.{IsWritable, parse_paragraph-write_fields}
use deb_s3_go.Apt.Package.{
  Package, new_package, full_version, match_version, repository_filename, derived_path,
}
use deb_s3_go.Apt.Package.Version.{package_of, full_version-match_version}
use deb_s3_go.Apt.Package.PoolPath.{IsPoolPath, repository_filename-IsPoolPath}
use deb_s3_go.Apt.Manifest.{
  Manifest, ManifestOptions, new_manifest, add, guard_conflicts, delete_package,
}
use deb_s3_go.Apt.Manifest.Adding.{AddOutcome, find_package-add}
use deb_s3_go.Apt.Manifest.Unique.{Separate, add-Separate}
use deb_s3_go.Apt.Manifest.Deleting.{IsMeant, delete_package_split}

abbrev input : Bytes
input = codes "Package: a\nVersion: 1:2-3\n"

abbrev pub manifest_options : ManifestOptions
manifest_options = record {
  codename = codes "stable";
  component = codes "main";
  architecture = codes "amd64";
  cache_control = [];
  by_hash = true;
  fail_if_exists = false;
  skip_package_upload = false;
}

-- A package, and a manifest of an older version of it.
abbrev pub package_b : Package
package_b = record (new_package []) {
  name = codes "b";
  version = codes "2";
  architecture = codes "amd64";
  filename = codes "/tmp/b_2.deb";
}

abbrev older : Package
older = record package_b { version = codes "1" }

abbrev manifest_of_older : Manifest
manifest_of_older = record (new_manifest manifest_options) { packages = older ∷ [] }

parse_paragraph-IsIndexed_example : IsIndexed (parse_paragraph input)
parse_paragraph-IsIndexed_example = parse_paragraph-IsIndexed input

set_take_dictionary_example :
    ((j : Bytes)
      → get (set (parse_paragraph input) (codes "Version") (codes "2")) j
        ≡ (if equal (codes "Version") j then some (codes "2") else get (parse_paragraph input) j))
    × ((take_field (parse_paragraph input) (codes "Version")).0
        ≡ get (parse_paragraph input) (codes "Version"))
    × ((j : Bytes)
        → get (take_field (parse_paragraph input) (codes "Version")).1 j
          ≡ (if equal (codes "Version") j then none else get (parse_paragraph input) j))
    × ((set (parse_paragraph input) (codes "Version") (codes "2")).fields
        ≡ set_named (codes "Version") (codes "2") (parse_paragraph input).fields)
    × ((take_field (parse_paragraph input) (codes "Version")).1.fields
        ≡ remove_named (codes "Version") (parse_paragraph input).fields)
    × IsIndexed (set (parse_paragraph input) (codes "Version") (codes "2"))
    × IsIndexed (take_field (parse_paragraph input) (codes "Version")).1
set_take_dictionary_example =
    set_take_dictionary (parse_paragraph input) (codes "Version") (codes "2")
      (parse_paragraph-IsIndexed input)

abbrev written : List Field
written =
    record { name = codes "Package"; value = codes "a" }
    ∷ record { name = codes "Note"; value = codes "x\n\ny" }
    ∷ []

written-IsWritable : All IsWritable written
unfolding equal join trim_func drop_while all_bytes
written-IsWritable = (
  record {
    name = record { ne_nil = refl; bytes = refl };
    value = record {
      first = codes "a";
      rest = [];
      text = refl;
      line = record { no_newline = (refl, tt); no_return = (refl, tt) };
      trimmed = refl;
      starts = inr refl;
      continued = tt;
      ends = tt;
    };
  },
  (
    record {
      name = record { ne_nil = refl; bytes = refl };
      value = record {
        first = codes "x";
        rest = [] ∷ codes "y" ∷ [];
        text = refl;
        line = record { no_newline = (refl, tt); no_return = (refl, tt) };
        trimmed = refl;
        starts = inl refl;
        continued = (
          record {
            line = record { no_newline = tt; no_return = tt };
            starts = inl refl;
            not_dot = refl;
          },
          (
            record {
              line = record { no_newline = (refl, tt); no_return = (refl, tt) };
              starts = inr refl;
              not_dot = refl;
            },
            tt,
          ),
        );
        ends = refl;
      };
    },
    tt,
  ),
)

written-Distinct : Distinct written
unfolding equal
written-Distinct = (refl, (refl, tt))

parse_paragraph-write_fields_example : (parse_paragraph (write_fields written)).fields ≡ written
parse_paragraph-write_fields_example =
    parse_paragraph-write_fields written written-IsWritable written-Distinct

match_at : match_version (codes "1:2-3") ≡ some (codes "1", codes "2", codes "3")
unfolding match_version equal contains_byte
match_at = refl

full_version-match_version_example :
    full_version (package_of (codes "1:2-3") (codes "1", codes "2", codes "3")) ≡ codes "1:2-3"
full_version-match_version_example = full_version-match_version (codes "1:2-3") match_at refl

filename_at : repository_filename package_b (codes "stable") ≡ ok (codes "pool/stable/b/b/b_2.deb")
unfolding repository_filename derived_path equal clean base split join path_join has_prefix
filename_at = refl

repository_filename-IsPoolPath_example : IsPoolPath (codes "pool/stable/b/b/b_2.deb")
repository_filename-IsPoolPath_example =
    repository_filename-IsPoolPath package_b (codes "stable") refl filename_at

find_package-add_example :
    AddOutcome package_b false true manifest_of_older
      (codes "b")
      (codes "1")
      (guard_conflicts package_b manifest_of_older)
      (add package_b false true manifest_of_older)
find_package-add_example =
    find_package-add package_b false true manifest_of_older (codes "b") (codes "1")

older-Separate : Separate false manifest_of_older.packages
older-Separate = (tt, tt)

add-Separate_example : Separate false (add package_b false true manifest_of_older).1.packages
add-Separate_example = add-Separate package_b false true manifest_of_older older-Separate

delete_package_split_example :
    Perm
      ((delete_package (codes "b") (some (codes "1" ∷ [])) manifest_of_older).0
        ++ (delete_package (codes "b") (some (codes "1" ∷ [])) manifest_of_older).1.packages)
      manifest_of_older.packages
    × All
        (IsMeant (codes "b") (some (codes "1" ∷ [])))
        (delete_package (codes "b") (some (codes "1" ∷ [])) manifest_of_older).0
    × All
        (λ p. ¬ IsMeant (codes "b") (some (codes "1" ∷ [])) p)
        (delete_package (codes "b") (some (codes "1" ∷ [])) manifest_of_older).1.packages
delete_package_split_example =
    delete_package_split (codes "b") (some (codes "1" ∷ [])) manifest_of_older
