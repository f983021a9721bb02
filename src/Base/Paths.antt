-- ===== src/Base/Paths.antt =====
-- Go's `path` package on slash-separated keys, by its elements.
pub mod Laws
pub mod Elements
pub mod Contained
pub mod Plain
use deb_s3_go.Base.Strings.{codes, equal, split, join, member}
use deb_s3_go.Base.Tests.{◌==◌, if◌then◌else◌}
use deb_s3_go.Base.Errors.{Bytes}
use mathlib.Core.Bool.{Bool, true, false, ◌||◌}
use mathlib.Core.List.{List, [], ◌∷◌, ◌++◌, reverse}

abbrev pub dot : Bytes
dot = b'.' ∷ []

abbrev pub dot_dot : Bytes
dot_dot = b'.' ∷ b'.' ∷ []

abbrev pub slash : Bytes
slash = b'/' ∷ []

-- `path.IsAbs`
abbrev pub is_abs : Bytes → Bool
is_abs [] = false
is_abs (c ∷ p) = c == b'/'

-- `..` removes the element before it, unless that is a leading `..` that could not be removed;
-- at the root it is dropped. The elements so far are held last first.
abbrev pub back_up : Bool → List Bytes → List Bytes
back_up rooted [] = if rooted then [] else dot_dot ∷ []
back_up rooted (top ∷ rest) = if equal top dot_dot then dot_dot ∷ top ∷ rest else rest

unfoldable pub clean_step : Bool → List Bytes → Bytes → List Bytes
clean_step rooted stack part =
    if equal part [] || equal part dot
    then stack
    else if equal part dot_dot
    then back_up rooted stack
    else part ∷ stack

unfoldable pub clean_parts : Bool → List Bytes → List Bytes → List Bytes
clean_parts rooted stack [] = stack
clean_parts rooted stack (p ∷ ps) = clean_parts rooted (clean_step rooted stack p) ps

-- The text of a cleaned path from its elements.
abbrev pub rebuild : Bool → List Bytes → Bytes
rebuild true parts = b'/' ∷ join slash parts
rebuild false [] = dot
rebuild false (p ∷ ps) = join slash (p ∷ ps)

-- `path.Clean`
unfoldable pub clean : Bytes → Bytes
unfolding clean_parts clean_step
clean p = rebuild (is_abs p) (reverse (clean_parts (is_abs p) [] (split b'/' p)))

abbrev pub nonempty : List Bytes → List Bytes
nonempty [] = []
nonempty ([] ∷ ps) = nonempty ps
nonempty ((c ∷ p) ∷ ps) = (c ∷ p) ∷ nonempty ps

abbrev pub clean_joined : List Bytes → Bytes
clean_joined [] = []
clean_joined (p ∷ ps) = clean (join slash (p ∷ ps))

-- `path.Join`
unfoldable pub path_join : List Bytes → Bytes
path_join parts = clean_joined (nonempty parts)

abbrev last_or : Bytes → List Bytes → Bytes
last_or d [] = d
last_or d (p ∷ ps) = last_or p ps

-- `path.Base`: trailing slashes are cut first; a path of slashes alone gives `/`.
abbrev cut_slashes : Bytes → Bytes
cut_slashes [] = []
cut_slashes (c ∷ s) = if c == b'/' then cut_slashes s else c ∷ s

abbrev base_of : Bytes → Bytes
base_of [] = slash
base_of (c ∷ s) = last_or [] (split b'/' (c ∷ s))

unfoldable pub base : Bytes → Bytes
base [] = dot
base (c ∷ p) = base_of (reverse (cut_slashes (reverse (c ∷ p))))

abbrev drop_last : List Bytes → List Bytes
drop_last [] = []
drop_last (p ∷ []) = []
drop_last (p ∷ q ∷ ps) = p ∷ drop_last (q ∷ ps)

-- `path.Dir`: what stands up to and with the last slash, cleaned.
abbrev through_slash : List Bytes → Bytes
through_slash [] = []
through_slash (p ∷ ps) = join slash (p ∷ ps) ++ slash

unfoldable pub dir : Bytes → Bytes
dir p = clean (through_slash (drop_last (split b'/' p)))
