-- ===== src/Apt/Release.antt =====
-- internal/apt/release.go, and the missing manifests of release_publish.go.
pub mod Publish
use deb_s3_go.Base.{
  ℕ, zero, suc, ◌+◌, ◌-◌, Bool, true, false, not, ◌||◌, ◌&&◌, List, [], ◌∷◌, ◌++◌, Option, none,
  some, Bytes, Error, message, wrap, is_not_found, Result, ok, err, ◌>>=◌, if◌then◌else◌, length,
  leb, ◌==◌, map,
}
use deb_s3_go.Base.Strings.{
  codes, equal, less, join, split, replace_crlf, has_prefix, trim_prefix, trim_space, fields,
  member, to_lower,
}
use deb_s3_go.Base.Assoc.{Assoc, lookup, insert}
use deb_s3_go.Base.Int.{ℤ, pos, negsuc, parse_int, decimal}
use deb_s3_go.Base.Paths.{path_join}
use deb_s3_go.Apt.Fields.{write_field, pointer_value}
use deb_s3_go.Apt.Manifest.{FileHashes, Manifest, ManifestOptions, new_manifest}

-- `SignatureArtifacts`
pub record SignatureArtifacts : Type 0 where
  pub in_release : Bytes
  pub release_gpg : Bytes

-- `ReleaseOptions`. The signer is outside the program; the clock is read as the formatted date of
-- `Render`.
pub record ReleaseOptions : Type 0 where
  pub codename : Bytes
  pub origin : Option Bytes
  pub suite : Option Bytes
  pub cache_control : Bytes
  pub by_hash : Option Bool
  pub signer : Option (Bytes → Result SignatureArtifacts)
  pub date : Bytes

-- `Release`, without its store.
pub record Release : Type 0 where
  pub codename : Bytes
  pub origin : Option Bytes
  pub suite : Option Bytes
  pub architectures : List Bytes
  pub components : List Bytes
  pub cache_control : Bytes
  pub by_hash : Bool
  pub signer : Option (Bytes → Result SignatureArtifacts)
  pub files : Assoc FileHashes
  pub date : Bytes

abbrev pub bool_or_false : Option Bool → Bool
bool_or_false none = false
bool_or_false (some b) = b

-- `NewRelease`
abbrev pub new_release : ReleaseOptions → Release
new_release o = record {
  codename = o.codename;
  origin = o.origin;
  suite = o.suite;
  architectures = [];
  components = [];
  cache_control = o.cache_control;
  by_hash = bool_or_false o.by_hash;
  signer = o.signer;
  files = [];
  date = o.date;
}

-- `releaseField`
field_in : Bytes → List Bytes → Option Bytes
field_in prefix [] = none
field_in prefix (line ∷ lines) =
    if has_prefix line prefix then some (trim_prefix line prefix) else field_in prefix lines

unfoldable pub release_lines : Bytes → List Bytes
unfolding replace_crlf split
release_lines input = split b'\n' (replace_crlf input)

unfoldable pub release_field : Bytes → Bytes → Option Bytes
unfolding field_in release_lines
release_field input name = field_in (name ++ codes ": ") (release_lines input)

abbrev no_hashes : FileHashes
no_hashes = record { size = 0; md5 = []; sha1 = []; sha256 = [] }

abbrev hashes_or_none : Option FileHashes → FileHashes
hashes_or_none none = no_hashes
hashes_or_none (some h) = h

-- The `switch len(parts[0])` of `ParseRelease`: 32, 40 and 64 digits.
with_digest : Bytes → ℕ → FileHashes → Option FileHashes
with_digest digest size h =
    if length digest == 32
    then some (record h { size = size; md5 = digest })
    else if length digest == 40
    then some (record h { size = size; sha1 = digest })
    else if length digest == 64
    then some (record h { size = size; sha256 = digest })
    else none

abbrev updated : Bytes → Assoc FileHashes → Option FileHashes → Assoc FileHashes
updated filename files none = files
updated filename files (some h) = insert filename h files

-- A size in range that is not negative.
hash_entry : Bytes → Bytes → Option (ℤ × Bool) → Assoc FileHashes → Assoc FileHashes
unfolding with_digest
hash_entry digest filename (some (pos size, true)) files =
    updated filename files (with_digest digest size (hashes_or_none (lookup filename files)))
hash_entry digest filename _ files = files

hash_parts : List Bytes → Assoc FileHashes → Assoc FileHashes
unfolding hash_entry parse_int
hash_parts (digest ∷ size ∷ filename ∷ []) files = hash_entry digest filename (parse_int size) files
hash_parts _ files = files

-- The body of the loop over the lines.
hash_line : Bytes → Assoc FileHashes → Assoc FileHashes
unfolding hash_parts
hash_line [] files = files
hash_line (c ∷ line) files =
    if c == b' ' || c == 9 then hash_parts (fields (c ∷ line)) files else files

unfoldable pub hash_lines : List Bytes → Assoc FileHashes → Assoc FileHashes
unfolding hash_line
hash_lines [] files = files
hash_lines (line ∷ lines) files = hash_lines lines (hash_line line files)

abbrev fields_or_none : Option Bytes → List Bytes
fields_or_none none = []
fields_or_none (some value) = fields value

-- `strings.EqualFold(strings.TrimSpace(value), "yes")`
abbrev says_yes : Option Bytes → Bool
says_yes none = false
says_yes (some value) = equal (to_lower (trim_space value)) (codes "yes")

-- `ParseRelease`, which never fails; the clock is set by its caller.
unfoldable pub parse_release : Bytes → Release
unfolding release_field hash_lines release_lines
parse_release input = record {
  codename = pointer_value (release_field input (codes "Codename"));
  origin = release_field input (codes "Origin");
  suite = release_field input (codes "Suite");
  architectures = fields_or_none (release_field input (codes "Architectures"));
  components = fields_or_none (release_field input (codes "Components"));
  cache_control = [];
  by_hash = says_yes (release_field input (codes "Acquire-By-Hash"));
  signer = none;
  files = hash_lines (release_lines input) [];
  date = [];
}

-- `Filename`
unfoldable pub release_filename : Release → Bytes
release_filename r = path_join (codes "dists" ∷ r.codename ∷ codes "Release" ∷ [])

-- `sort.Strings`
insert_text : Bytes → List Bytes → List Bytes
insert_text a [] = a ∷ []
insert_text a (b ∷ bs) = if less b a then b ∷ insert_text a bs else a ∷ b ∷ bs

sort_texts : List Bytes → List Bytes
unfolding insert_text
sort_texts [] = []
sort_texts (a ∷ texts) = insert_text a (sort_texts texts)

-- `%16d` of a size
abbrev spaces : ℕ → Bytes
spaces zero = []
spaces (suc n) = b' ' ∷ spaces n

padded : Bytes → Bytes
padded s = spaces (16 - length s) ++ s

-- `writeReleaseHashes`
hash_rows : (FileHashes → Bytes) → Assoc FileHashes → List Bytes → Bytes
unfolding padded
hash_rows hash files [] = []
hash_rows hash files (filename ∷ filenames) =
    let h = hashes_or_none (lookup filename files) in
    b' '
    ∷ (hash h
        ++ (b' '
            ∷ (padded (decimal 20 h.size)
                ++ (b' ' ∷ (filename ++ (b'\n' ∷ hash_rows hash files filenames))))))

unfoldable pub write_release_hashes :
    Bytes → List Bytes → Assoc FileHashes → (FileHashes → Bytes) → Bytes
unfolding hash_rows
write_release_hashes heading filenames files hash =
    heading ++ (codes ":\n" ++ hash_rows hash files filenames)

abbrev write_origin : Option Bytes → Bytes
write_origin none = []
write_origin (some value) = write_field (codes "Origin") value

-- `Release.Render`; a release always has a clock here.
unfoldable pub render_release : Release → Bytes
unfolding write_release_hashes sort_texts write_field
render_release r =
    let filenames = sort_texts (map (λ (e : Bytes × FileHashes). e.0) r.files) in
    write_origin r.origin
    ++ (write_field (codes "Codename") r.codename
        ++ (write_field (codes "Date") r.date
            ++ (write_field (codes "Architectures") (join (codes " ") r.architectures)
                ++ (write_field (codes "Components") (join (codes " ") r.components)
                    ++ (write_field (codes "Suite") (pointer_value r.suite)
                        ++ ((if r.by_hash
                              then write_field (codes "Acquire-By-Hash") (codes "yes")
                              else [])
                            ++ (write_release_hashes (codes "MD5Sum") filenames r.files (λ h. h.md5)
                                ++ (write_release_hashes (codes "SHA1") filenames r.files
                                      (λ h. h.sha1)
                                    ++ write_release_hashes (codes "SHA256") filenames r.files
                                        (λ h. h.sha256)))))))))

-- `appendUnique`
unfoldable pub append_unique : List Bytes → Bytes → List Bytes
unfolding member
append_unique values value = if member value values then values else values ++ (value ∷ [])

insert_all : Assoc FileHashes → Assoc FileHashes → Assoc FileHashes
insert_all [] files = files
insert_all ((filename, h) ∷ more) files = insert_all more (insert filename h files)

-- `UpdateManifest`
unfoldable pub update_manifest : Manifest → Release → Release
unfolding append_unique insert_all
update_manifest m r = record r {
  components = append_unique r.components m.component;
  architectures = append_unique r.architectures m.architecture;
  files = insert_all m.files r.files;
}

-- `MissingManifests`: an empty manifest for each pair that has no index yet.
missing_for : Release → Bytes → List Bytes → List Manifest
missing_for r component [] = []
missing_for r component (architecture ∷ architectures) =
    let rest = missing_for r component architectures in
    let path = component ++ (codes "/binary-" ++ (architecture ++ codes "/Packages")) in
    elim (lookup path r.files) [
      | some _ ↦ rest
      | none ↦
          new_manifest (record {
            codename = r.codename;
            component = component;
            architecture = architecture;
            cache_control = [];
            by_hash = r.by_hash;
            fail_if_exists = false;
            skip_package_upload = false;
          })
          ∷ rest
    ]

missing_in : Release → List Bytes → List Manifest
unfolding missing_for
missing_in r [] = []
missing_in r (component ∷ components) =
    missing_for r component r.architectures ++ missing_in r components

unfoldable pub missing_manifests : Release → List Manifest
unfolding missing_in
missing_manifests r = missing_in r r.components
