-- ===== src/Apt/Dependency.antt =====
-- internal/apt/dependency.go: dependency lists and their normalization. Each regular expression is
-- written as the match that it makes; every one is anchored, and its pieces cannot overlap, so the
-- match is unique.
mod Tests
use deb_s3_go.Base.{
  ℕ, zero, suc, ◌+◌, ◌-◌, Bool, true, false, not, ◌||◌, ◌&&◌, List, [], ◌∷◌, ◌++◌, Option, none,
  some, Bytes, if◌then◌else◌, length, leb, ltb, ◌==◌, map, select, any,
}
use deb_s3_go.Base.Strings.{
  codes, equal, join, split, trim_space, trim_prefix, has_prefix, contains, contains_byte, fields,
  span, to_lower, drop_while,
}
use deb_s3_go.Base.Int.{ℤ, pos, increment, atoi, itoa}
use mathlib.Core.List.{reverse}

abbrev is_operator_byte : ℕ → Bool
is_operator_byte c = c == b'>' || c == b'=' || c == b'<'

-- `[^)]+\)$`: a text that ends in its only `)`.
closed_version : Bytes × Bytes → Option Bytes
closed_version ([], rest) = none
closed_version (c ∷ v, []) = none
closed_version (c ∷ v, d ∷ []) = some (c ∷ v)
closed_version (c ∷ v, d ∷ e ∷ rest) = none

-- `([>=<]+) ([^)]+)\)$`
after_operator : Bytes × Bytes → Option (Bytes × Bytes)
unfolding closed_version span
after_operator ([], rest) = none
after_operator (c ∷ op, []) = none
after_operator (c ∷ op, d ∷ rest) =
    if d == b' '
    then elim (closed_version (span (λ x. not (x == b')')) rest)) [
      | none ↦ none
      | some version ↦ some (c ∷ op, version)
    ]
    else none

-- `dependencyPattern`: the name, the operator and the version, the last two empty together.
after_name : Bytes × Bytes → Option (Bytes × Bytes × Bytes)
unfolding after_operator
after_name ([], rest) = none
after_name (c ∷ name, []) = some (c ∷ name, [], [])
after_name (c ∷ name, d ∷ rest) =
    if has_prefix (d ∷ rest) (codes " (")
    then elim (after_operator (span is_operator_byte (trim_prefix (d ∷ rest) (codes " (")))) [
      | none ↦ none
      | some (op, version) ↦ some (c ∷ name, op, version)
    ]
    else none

unfoldable pub match_dependency : Bytes → Option (Bytes × Bytes × Bytes)
unfolding after_name
match_dependency s = after_name (span (λ c. not (c == b' ')) s)

-- The loop body of `ParseDependencies`.
parsed_match : Bytes → Option (Bytes × Bytes × Bytes) → Bytes
parsed_match dependency none = dependency
parsed_match dependency (some (name, op, version)) =
    if not (equal op []) && not (equal version [])
    then trim_space (name ++ (codes " (" ++ (op ++ (b' ' ∷ (version ++ (b')' ∷ []))))))
    else trim_space name

unfoldable pub parse_dependency : Bytes → Bytes
unfolding match_dependency parsed_match
parse_dependency dependency = parsed_match dependency (match_dependency dependency)

-- `regexp.MustCompile(", *").Split`: the parts after the first lose their leading blanks.
abbrev trim_later : List Bytes → List Bytes
trim_later [] = []
trim_later (p ∷ ps) = p ∷ map (drop_while (λ c. c == b' ')) ps

-- `ParseDependencies`
unfoldable pub parse_dependencies : Bytes → List Bytes
unfolding parse_dependency
parse_dependencies value =
    if equal value [] then [] else map parse_dependency (trim_later (split b',' value))

-- `debianizeOperator`
unfoldable pub debianize_operator : Bytes → Bytes
debianize_operator op =
    if equal op (codes "<") then codes "<<" else if equal op (codes ">") then codes ">>" else op

-- `numericVersion`
unfoldable pub numeric_version : Bytes → List ℤ
numeric_version version = map atoi (split b'.' version)

-- `joinNumericVersion`
unfoldable pub join_numeric_version : List ℤ → Bytes
join_numeric_version version = join (codes ".") (map itoa version)

abbrev increment_at : ℕ → List ℤ → List ℤ
increment_at n [] = []
increment_at zero (v ∷ vs) = increment v ∷ vs
increment_at (suc n) (v ∷ vs) = v ∷ increment_at n vs

abbrev clear_last : List ℤ → List ℤ
clear_last [] = []
clear_last (v ∷ []) = pos 0 ∷ []
clear_last (v ∷ w ∷ vs) = v ∷ clear_last (w ∷ vs)

-- The upper bound of `~>`: `len(next) - 2` stops at 0, as `-` does.
unfoldable pub pessimistic_bound : List ℤ → List ℤ
pessimistic_bound next = clear_last (increment_at (length next - 2) next)

-- `next[len(next)-1]++`
unfoldable pub next_version : List ℤ → List ℤ
next_version next = increment_at (length next - 1) next

constraint : Bytes → Bytes → Bytes → Bytes
constraint name op version = name ++ (codes " (" ++ (op ++ (b' ' ∷ (version ++ (b')' ∷ [])))))

-- The three first rewritings of `normalizeDependency`: a bare operator, the case of the name, and
-- underscores.
bare_constraint : Bytes → List Bytes → Bytes
unfolding constraint debianize_operator
bare_constraint dependency (name ∷ op ∷ version ∷ more) =
    constraint name (debianize_operator op) version
bare_constraint dependency _ = dependency

abbrev is_upper : ℕ → Bool
is_upper c = leb b'A' c && leb c b'Z'

unfoldable pub bracketed : Bytes → Bytes
unfolding bare_constraint
bracketed dependency =
    if any (λ c. c == b'(' || c == b',' || c == b'|') dependency
    then dependency
    else bare_constraint dependency (fields dependency)

unfoldable pub lower_name : Bytes → Bytes
unfolding to_lower span trim_prefix
lower_name dependency =
    let name = (span (λ c. not (c == b' ' || c == b'(')) dependency).0 in
    if any is_upper name then to_lower name ++ trim_prefix dependency name else dependency

unfoldable pub dashed : Bytes → Bytes
dashed = map (λ c. if c == b'_' then b'-' else c)

-- `\s` and `\S` of a regular expression.
abbrev is_blank : ℕ → Bool
is_blank c = c == 32 || c == 9 || c == 10 || c == 12 || c == 13

-- `(.+)\)$`: all but the last byte, which is `)`.
inner_version : Bytes → Option Bytes
inner_version [] = none
inner_version (c ∷ v) =
    if c == b')' && not (equal v []) && not (contains_byte b'\n' v) then some (reverse v) else none

-- `^(\S+)\s+\(OP (.+)\)$`
after_blanks : Bytes → Bytes → Bytes × Bytes → Option (Bytes × Bytes)
unfolding inner_version
after_blanks op name ([], rest) = none
after_blanks op name (c ∷ blanks, rest) =
    let opening = b'(' ∷ (op ++ (b' ' ∷ [])) in
    if has_prefix rest opening
    then elim (inner_version (reverse (trim_prefix rest opening))) [
      | none ↦ none
      | some version ↦ some (name, version)
    ]
    else none

after_word : Bytes → Bytes × Bytes → Option (Bytes × Bytes)
unfolding after_blanks
after_word op ([], rest) = none
after_word op (c ∷ name, rest) = after_blanks op (c ∷ name) (span is_blank rest)

unfoldable pub match_constraint : Bytes → Bytes → Option (Bytes × Bytes)
unfolding after_word
match_constraint op s = after_word op (span (λ c. not (is_blank c)) s)

-- `strings.Replace(dependency, "!=", "=", 1)`
unfoldable pub replace_inequality : Bytes → Bytes
replace_inequality [] = []
replace_inequality (c ∷ []) = c ∷ []
replace_inequality (c ∷ d ∷ s) =
    let rest = c ∷ replace_inequality (d ∷ s) in if c == b'!' && d == b'=' then b'=' ∷ s else rest

bounds : Bytes → Bytes → List ℤ → List Bytes
unfolding constraint join_numeric_version
bounds name version next =
    constraint name (codes ">=") version
    ∷ constraint name (codes "<<") (join_numeric_version next)
    ∷ []

abbrev trim_right_blanks : Bytes → Bytes
trim_right_blanks s =
    reverse (drop_while (λ c. c == 32 || c == 9 || c == 13 || c == 10) (reverse s))

-- The last branch: an exact version with `ignoreIteration`.
exact_or_plain : Bool → Bytes → Option (Bytes × Bytes) → List Bytes × Bytes
unfolding bounds next_version numeric_version
exact_or_plain true dependency (some (name, version)) =
    (bounds name version (next_version (numeric_version version)), [])
exact_or_plain _ dependency _ = (trim_right_blanks dependency ∷ [], [])

-- The inequality branch, and what follows it.
unequal_or_more : Bool → Bytes → Option (Bytes × Bytes) → List Bytes × Bytes
unfolding exact_or_plain match_constraint
unequal_or_more ignore dependency (some _) = ([], replace_inequality dependency)
unequal_or_more ignore dependency none =
    exact_or_plain ignore dependency (match_constraint (codes "=") dependency)

pessimistic_or_more : Bool → Bytes → List Bytes → List Bytes × Bytes
unfolding bounds pessimistic_bound numeric_version unequal_or_more match_constraint
pessimistic_or_more ignore dependency (name ∷ version ∷ more) =
    (bounds name version (pessimistic_bound (numeric_version version)), [])
pessimistic_or_more ignore dependency _ =
    unequal_or_more ignore dependency (match_constraint (codes "!=") dependency)

-- `normalizeDependency` after its rewritings.
unfoldable pub expand_constraint : Bool → Bytes → List Bytes × Bytes
unfolding pessimistic_or_more unequal_or_more match_constraint
expand_constraint ignore dependency =
    if contains dependency (codes "(~>")
    then pessimistic_or_more ignore dependency
        (fields (select (λ c. not (c == b'(' || c == b')' || c == b'~' || c == b'>')) dependency))
    else unequal_or_more ignore dependency (match_constraint (codes "!=") dependency)

-- `normalizeDependency`: the dependencies, and the conflict, which is empty if there is none.
unfoldable pub normalize_dependency : Bytes → Bool → List Bytes × Bytes
unfolding expand_constraint dashed lower_name bracketed
normalize_dependency dependency ignore =
    expand_constraint ignore (dashed (lower_name (bracketed dependency)))
