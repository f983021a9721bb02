-- ===== src/Apt/Dependency/Tests.antt =====
-- internal/apt/dependency.go: dependencies normalized by evaluation.
use deb_s3_go.Base.{[], ◌∷◌, ◌≡◌, refl, true, false}
use deb_s3_go.Base.Strings.{
  codes, equal, trim_func, fields_func, contains_byte, contains, has_prefix, trim_prefix, split,
  join,
}
use deb_s3_go.Base.Int.{atoi, itoa, increment}
use deb_s3_go.Apt.Dependency.{parse_dependencies, normalize_dependency, replace_inequality}

tests :
    (parse_dependencies (codes "a, B (>= 1.0),  c(x")
      ≡ codes "a" ∷ codes "B (>= 1.0)" ∷ codes "c(x" ∷ [])
    × (normalize_dependency (codes "A_b (~> 1.2.3)") false
        ≡ (codes "a-b (>= 1.2.3)" ∷ codes "a-b (<< 1.3.0)" ∷ [], []))
    × (normalize_dependency (codes "a < 2") false ≡ (codes "a (<< 2)" ∷ [], []))
    × (normalize_dependency (codes "a (!= 2)") false ≡ ([], codes "a (= 2)"))
    × (normalize_dependency (codes "a (= 1.9)") true
        ≡ (codes "a (>= 1.9)" ∷ codes "a (<< 1.10)" ∷ [], []))
    × (normalize_dependency (codes "a (~> 1)") true
        ≡ (codes "a (>= 1)" ∷ codes "a (<< 0)" ∷ [], []))
unfolding parse_dependencies normalize_dependency equal trim_func fields_func contains has_prefix
    trim_prefix split join atoi itoa increment contains_byte replace_inequality
tests = (refl, refl, refl, refl, refl, refl)
