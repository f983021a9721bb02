-- ===== src/Cli/Output.antt =====
-- internal/cli/commands.go and root.go: the checks before a command runs, what list prints, and the
-- exit code. Texts are ASCII, so that a width counts bytes.
use deb_s3_go.Base.{
  packages_missing, not, ℕ, zero, suc, String, Bool, true, false, ◌||◌, ◌-◌, List, [], ◌∷◌, ◌++◌,
  Option, Bytes, Error, no_packages_found, no_packages_deleted, package_not_found, packages_missing,
  message, wrap, joined, Result, ok, err, ◌>>=◌, if◌then◌else◌, length, ltb,
}
use deb_s3_go.Base.Strings.{codes, equal, join, has_suffix}
use deb_s3_go.Apt.Package.{Package, full_version}
use deb_s3_go.Apt.Rendering.{render}
use deb_s3_go.Query.{Match}
use deb_s3_go.Config.{Config, validate, validate_architecture}
use deb_s3_go.Signing.{GpgSigner}
use deb_s3_go.Cli.{configured_signer}

-- `errors.Is` of the errors that commands put in other words.
abbrev pub is_no_packages_found : Error → Bool
is_no_packages_found no_packages_found = true
is_no_packages_found (wrap _ e) = is_no_packages_found e
is_no_packages_found (joined a b) = is_no_packages_found a || is_no_packages_found b
is_no_packages_found _ = false

abbrev pub is_no_packages_deleted : Error → Bool
is_no_packages_deleted no_packages_deleted = true
is_no_packages_deleted (wrap _ e) = is_no_packages_deleted e
is_no_packages_deleted (joined a b) = is_no_packages_deleted a || is_no_packages_deleted b
is_no_packages_deleted _ = false

abbrev pub is_package_not_found : Error → Bool
is_package_not_found package_not_found = true
is_package_not_found (wrap _ e) = is_package_not_found e
is_package_not_found (joined a b) = is_package_not_found a || is_package_not_found b
is_package_not_found _ = false

abbrev pub is_packages_missing : Error → Bool
is_packages_missing packages_missing = true
is_packages_missing (wrap _ e) = is_packages_missing e
is_packages_missing (joined a b) = is_packages_missing a || is_packages_missing b
is_packages_missing _ = false

-- `executeCommand`: the exit code, and whether the error is printed.
unfoldable pub exit_of : Result (Unit {0}) → ℕ × Bool
exit_of (ok _) = (0, false)
exit_of (err e) = if is_packages_missing e then (1, false) else (1, true)

abbrev pub reworded : (Error → Bool) → Error → Error → Error
reworded is replacement e = if is e then replacement else e

-- The checks before `RunE`: `PersistentPreRunE` of the root, then `PreRunE` or the arguments.
unfoldable pub checked_config : Config → Bytes → Result (Unit {0})
unfolding validate validate_architecture
checked_config c architecture = validate c >>= λ _. validate_architecture architecture

unfoldable pub checked_required : String → Config → Bytes → Result (Unit {0})
unfolding validate validate_architecture
checked_required text c architecture = validate c >>= λ _.
    if equal architecture [] then err (message text) else validate_architecture architecture

-- Arguments are checked before `PersistentPreRunE`.
unfoldable pub checked_argument : Config → Bytes → Result (Unit {0})
unfolding validate validate_architecture
checked_argument c architecture = validate_architecture architecture >>= λ _. validate c

-- The checks, and then the signer.
abbrev pub signer_after : Result (Unit {0}) → Config → Result (Option GpgSigner)
signer_after checks c = checks >>= λ _. configured_signer c

-- `%-*s`
spaces : ℕ → Bytes
spaces zero = []
spaces (suc n) = b' ' ∷ spaces n

padded : ℕ → Bytes → Bytes
unfolding spaces
padded width s = s ++ spaces (width - length s)

abbrev wider : ℕ → ℕ → ℕ
wider m n = if ltb m n then n else m

-- What `list` prints.
render_all : Bytes → List Package → Result (List Bytes)
unfolding render
render_all codename [] = ok []
render_all codename (p ∷ ps) =
    render p codename >>= λ record_. render_all codename ps >>= λ records. ok (record_ ∷ records)

abbrev ended_by_line : Bytes → Bytes
ended_by_line output = if has_suffix output (codes "\n") then output else output ++ codes "\n"

name_width : List Package → ℕ
name_width [] = 0
name_width (p ∷ ps) = wider (length p.name) (name_width ps)

version_width : List Package → ℕ
version_width [] = 0
version_width (p ∷ ps) = wider (length (full_version p)) (version_width ps)

list_lines : ℕ → ℕ → List Package → Bytes
unfolding padded
list_lines names versions [] = []
list_lines names versions (p ∷ ps) =
    padded names p.name
    ++ (codes "  "
        ++ (padded versions (full_version p)
            ++ (codes "  " ++ (p.architecture ++ (codes "\n" ++ list_lines names versions ps)))))

unfoldable pub list_output : Bool → Bytes → List Package → Result Bytes
unfolding render_all list_lines name_width version_width
list_output long codename packages =
    if long
    then render_all codename packages
      >>= (λ records. ok (ended_by_line (join (codes "\n") records)))
    else ok (list_lines (name_width packages) (version_width packages) packages)

-- What `exists` ends with.
unfoldable pub all_found : List Match → Result (Unit {0})
all_found [] = ok tt
all_found (m ∷ ms) = if not m.found then err packages_missing else all_found ms
