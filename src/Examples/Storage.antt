-- ===== src/Examples/Storage.antt =====
-- internal/storage: the theorems on keys and on the in-memory store, applied.
use mathlib.Core.List.{Perm}
use deb_s3_go.Base.{
  true, false, List, [], ◌∷◌, none, some, Bytes, not_found, conflict, ok, err, if◌then◌else◌, ◌==◌,
  ◌≡◌, refl, inl, inr, Bool-cases,
}
use deb_s3_go.Base.Strings.{
  codes, equal, has_prefix, trim_prefix, trim_func, drop_while, split, join, contains_byte,
  to_lower,
}
use deb_s3_go.Base.Assoc.{lookup, insert}
use deb_s3_go.Base.Paths.{clean, path_join}
use deb_s3_go.Storage.Keys.{join_key, normalize_prefix, logical_key}
use deb_s3_go.Storage.Keys.Contained.{IsBelow, join_key-IsBelow}
use deb_s3_go.Storage.Keys.Plain.{IsKey, logical_key-join_key}
use deb_s3_go.Storage.Objects.{PutOptions, CopyOptions, ObjectInfo}
use deb_s3_go.Storage.Memory.{
  MemoryStore, Env, put, delete_if_match, copy, list, list_prefix, located, new_memory_store,
  trim_etag, object_md5,
}
use deb_s3_go.Storage.Memory.Consistent.{
  IsHex, IsConsistent, put_call, perform, Reachable, fresh, after, Reachable-IsConsistent,
}
use deb_s3_go.Storage.Memory.Listing.{Ascending, Lists, list_lem}
use deb_s3_go.Storage.Memory.Contents.{
  contents, Refines, spec_write, without_key, put-Refines, delete_if_match-Refines, copy-Refines,
}

-- A digest that tells three kinds of content apart.
abbrev pub first_digest : Bytes → Bytes
first_digest [] = codes "e"
first_digest (c ∷ s) = if c == b'x' then codes "a" else codes "b"

abbrev pub env : Env
env = record { digest = first_digest; now = 1; ctx = none }

pub first_digest-IsHex : IsHex first_digest
unfolding equal to_lower
first_digest-IsHex = record { lower = λ d. lower d; ne_nil = λ d. nonempty d }
  where
    lower : (d : Bytes) → to_lower (first_digest d) ≡ first_digest d
    lower [] = refl
    lower (c ∷ s) = elim (Bool-cases (c == b'x')) [ inl e ↦ rw e refl | inr e ↦ rw e refl ]

    nonempty : (d : Bytes) → equal (first_digest d) [] ≡ false
    nonempty [] = refl
    nonempty (c ∷ s) = elim (Bool-cases (c == b'x')) [ inl e ↦ rw e refl | inr e ↦ rw e refl ]

abbrev pub options : PutOptions
options = record {
  content_type = [];
  cache_control = [];
  metadata = none;
  fail_if_exists = false;
  create_only = true;
  server_side_encryption = false;
}

-- A store under `repo` that holds one object.
abbrev pub one_object : MemoryStore
one_object =
    perform env (put_call (codes "k") (ok (codes "x1")) options) (new_memory_store (codes "repo"))

join_key_at : join_key (codes "repo") (codes "/pool//a.deb") ≡ ok (codes "repo/pool/a.deb")
unfolding join_key trim_func drop_while equal contains_byte clean path_join split join has_prefix
    trim_prefix normalize_prefix
join_key_at = refl

join_key-IsBelow_example :
    (p : Bytes) × (normalize_prefix (codes "repo") ≡ ok p) × IsBelow p (codes "repo/pool/a.deb")
join_key-IsBelow_example = join_key-IsBelow (codes "repo") (codes "/pool//a.deb") join_key_at

logical_at : join_key (codes "repo") (codes "k") ≡ ok (codes "repo/k")
unfolding join_key trim_func drop_while equal contains_byte clean path_join split join has_prefix
    trim_prefix normalize_prefix
logical_at = refl

-- A name of one plain element.
repo-IsKey : IsKey (codes "repo")
unfolding equal join contains_byte
repo-IsKey = record {
  first = codes "repo";
  rest = [];
  plain = (
    record {
      ne_nil = refl;
      ne_dot = refl;
      ne_dot_dot = refl;
      no_slash = (refl, (refl, (refl, (refl, tt))));
    },
    tt,
  );
  text = refl;
  no_backslash = refl;
}

k-IsKey : IsKey (codes "k")
unfolding equal join contains_byte
k-IsKey = record {
  first = codes "k";
  rest = [];
  plain = (record { ne_nil = refl; ne_dot = refl; ne_dot_dot = refl; no_slash = (refl, tt) }, tt);
  text = refl;
  no_backslash = refl;
}

logical_key-join_key_example : logical_key (codes "repo") (codes "repo/k") ≡ some (codes "k")
logical_key-join_key_example =
    logical_key-join_key (codes "repo") (codes "k") (inl repo-IsKey) k-IsKey logical_at

one_object-Reachable : Reachable first_digest (codes "repo") one_object
one_object-Reachable = after env (put_call (codes "k") (ok (codes "x1")) options) refl fresh

pub one_object-IsConsistent : IsConsistent first_digest one_object
one_object-IsConsistent = Reachable-IsConsistent first_digest-IsHex one_object-Reachable

Reachable-IsConsistent_example : IsConsistent first_digest one_object
Reachable-IsConsistent_example = Reachable-IsConsistent first_digest-IsHex one_object-Reachable

pub located_at : located env one_object.prefix (codes "k") ≡ ok (codes "repo/k")
unfolding put new_memory_store located join_key lookup insert trim_func drop_while equal
    contains_byte clean path_join split join has_prefix trim_prefix normalize_prefix
located_at = refl

put-Refines_example :
    Refines
      (put env (codes "k") (ok (codes "y")) options one_object)
      (spec_write first_digest true (codes "k") (codes "repo/k") (codes "y") (contents one_object))
put-Refines_example =
    put-Refines env one_object one_object-IsConsistent (codes "k") (codes "y") options located_at

delete_if_match-Refines_example :
    Refines
      (delete_if_match env (codes "k") (codes "a") one_object)
      (elim (contents one_object (codes "repo/k")) [
        | none ↦ (err (not_found (codes "k")), contents one_object)
        | some d ↦
            if equal (trim_etag (first_digest d)) (trim_etag (codes "a"))
            then (ok tt, without_key (codes "repo/k") (contents one_object))
            else (err (conflict (codes "k")), contents one_object)
      ])
delete_if_match-Refines_example =
    delete_if_match-Refines env one_object one_object-IsConsistent (codes "k") (codes "a")
      located_at

abbrev copy_options : CopyOptions
copy_options = record { source_etag = []; create_only = true; fail_if_exists = false }

m-located : join_key one_object.prefix (codes "m") ≡ ok (codes "repo/m")
unfolding put new_memory_store located join_key lookup insert trim_func drop_while equal
    contains_byte clean path_join split join has_prefix trim_prefix normalize_prefix
m-located = refl

stored : contents one_object (codes "repo/k") ≡ some (codes "x1")
unfolding put new_memory_store located join_key lookup insert trim_func drop_while equal
    contains_byte clean path_join split join has_prefix trim_prefix normalize_prefix
stored = refl

none_required : equal copy_options.source_etag [] ≡ true
unfolding equal
none_required = refl

copy-Refines_example :
    Refines
      (copy env (codes "k") (codes "m") copy_options one_object)
      (spec_write first_digest true (codes "m") (codes "repo/m") (codes "x1") (contents one_object))
copy-Refines_example =
    copy-Refines env one_object one_object-IsConsistent (codes "k") (codes "m") (codes "x1")
      copy_options located_at m-located stored none_required

put_again : (put env (codes "k") (ok (codes "x2")) options one_object).0 ≡ ok tt
unfolding put new_memory_store located join_key lookup insert trim_func drop_while equal
    contains_byte clean path_join split join has_prefix trim_prefix normalize_prefix object_md5
    to_lower
put_again = refl

abbrev listed : List ObjectInfo
listed =
    record {
      key = codes "k";
      size = 2;
      etag = codes "a";
      metadata = (codes "md5", codes "a") ∷ [];
      content_type = [];
      cache_control = [];
      acl = [];
      server_side_encryption = false;
      last_modified = 1;
    }
    ∷ []

list_at : (list env [] one_object).0 ≡ ok listed
unfolding put new_memory_store located join_key lookup insert trim_func drop_while equal
    contains_byte clean path_join split join has_prefix trim_prefix normalize_prefix list
    logical_key
list_at = refl

list_lem_example :
    (p : Bytes) × (found : List ObjectInfo) × (list_prefix env one_object.prefix [] ≡ ok p)
    × Lists one_object.prefix p one_object.objects found
    × Perm listed found
    × Ascending listed
    × ((list env [] one_object).1 ≡ one_object)
list_lem_example = list_lem env [] one_object list_at

-- Two keys that `JoinKey` accepts without a prefix.
cleaned_away : join_key [] (codes "a/..") ≡ ok (codes ".")
unfolding join_key clean equal split join trim_prefix has_prefix normalize_prefix trim_func
    contains_byte drop_while
cleaned_away = refl

two_slashes : join_key [] (codes "//foo") ≡ ok (codes "/foo")
unfolding join_key clean equal split join trim_prefix has_prefix normalize_prefix trim_func
    contains_byte drop_while
two_slashes = refl
