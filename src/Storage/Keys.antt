-- ===== src/Storage/Keys.antt =====
-- internal/storage/store.go: physical keys from a configured prefix and a logical key.
pub mod Contained
pub mod Plain
use deb_s3_go.Base.{
  Bool, true, false, ◌||◌, List, [], ◌∷◌, ◌++◌, Option, none, some, Bytes, Error, message, Result,
  ok, err, ◌>>=◌, if◌then◌else◌,
}
use deb_s3_go.Base.Strings.{codes, equal, trim_byte, trim_prefix, has_prefix, contains_byte}
use deb_s3_go.Base.Paths.{clean, path_join, dot, slash}
use deb_s3_go.Base.Paths.Contained.{leaves_root}

-- `normalizePrefix`
checked_prefix : Bytes → Result Bytes
checked_prefix prefix =
    if equal prefix []
    then ok []
    else if contains_byte b'\\' prefix
    then err (message "object prefix contains a backslash")
    else let cleaned = clean prefix in
      if leaves_root cleaned
      then err (message "object prefix escapes the bucket root")
      else ok cleaned

unfoldable pub normalize_prefix : Bytes → Result Bytes
unfolding checked_prefix
normalize_prefix prefix = checked_prefix (trim_byte b'/' prefix)

-- The part of `JoinKey` after `TrimPrefix(key, "/")`.
checked_key : Bytes → Bytes → Result Bytes
checked_key prefix key =
    if equal key [] || equal key dot
    then err (message "object key cannot be empty")
    else if contains_byte b'\\' key
    then err (message "object key contains a backslash")
    else let cleaned = clean key in
      if leaves_root cleaned
      then err (message "object key escapes the repository prefix")
      else if equal prefix []
      then ok cleaned
      else ok (path_join (prefix ∷ cleaned ∷ []))

-- `JoinKey`
unfoldable pub join_key : Bytes → Bytes → Result Bytes
unfolding checked_key
join_key prefix key = do
  normalized ← normalize_prefix prefix
  checked_key normalized (trim_prefix key slash)

-- `logicalKey`, on the prefix without its outer slashes
below : Bytes → Bytes → Option Bytes
below prefix physical =
    if equal prefix []
    then some physical
    else let want = prefix ++ slash in
      if has_prefix physical want then some (trim_prefix physical want) else none

unfoldable pub logical_key : Bytes → Bytes → Option Bytes
unfolding below
logical_key prefix physical = below (trim_byte b'/' prefix) physical
