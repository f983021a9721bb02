-- ===== src/Apt/Package/PoolPath.antt =====
-- internal/apt/package.go: the paths of package bodies.
use mathlib.Core.Path.{subst}
use deb_s3_go.Base.{
  true, false, [], ◌++◌, none, Bytes, ok, ◌≡◌, refl, sym, ap, ◌∙◌, arith, Bool-cases, inl, inr, All,
}
use deb_s3_go.Base.Strings.{codes, equal, equal_iff, has_prefix, has_prefix-append}
use deb_s3_go.Base.Paths.{clean}
use deb_s3_go.Base.Paths.Elements.{IsPlain, elements}
use deb_s3_go.Base.Paths.Contained.{leaves_root, IsContained, clean-IsContained}
use deb_s3_go.Apt.Package.{
  Package, derived_path, checked_path, derive_filename, repository_filename,
}

-- A path under `pool/` whose elements are neither empty nor dots.
pub record IsPoolPath (path : Bytes) : Type 0 where
  pub prefix : has_prefix path (codes "pool/") ≡ true
  pub cleaned : clean path ≡ path
  pub plain : All IsPlain (elements path)

pool_stays : (s : Bytes) → leaves_root (codes "pool/" ++ s) ≡ false
unfolding equal has_prefix
pool_stays s = refl

pool-IsPoolPath :
    (s : Bytes) → clean (codes "pool/" ++ s) ≡ codes "pool/" ++ s → IsPoolPath (codes "pool/" ++ s)
pool-IsPoolPath s e = record {
  prefix = has_prefix-append (codes "pool/") s;
  cleaned = e;
  plain =
      (subst IsContained e
        (clean-IsContained (codes "pool/" ++ s) (ap leaves_root e ∙ pool_stays s))).plain;
}

checked_path-IsPoolPath :
    (s : Bytes) {path : Bytes} → checked_path (codes "pool/" ++ s) ≡ ok path → IsPoolPath path
unfolding checked_path
checked_path-IsPoolPath s {path} h =
    elim (Bool-cases (equal (codes "pool/" ++ s) (clean (codes "pool/" ++ s)))) [
      | inr other ↦ cc (rw other at h)
      | inl same ↦
          let e = sym ((equal_iff (codes "pool/" ++ s) (clean (codes "pool/" ++ s))).0 same) in
          let written : codes "pool/" ++ s ≡ path = ground (arith, rw same at h) in
          subst IsPoolPath written (pool-IsPoolPath s e)
    ]

-- A repository filename that is not taken from the index is a clean path under `pool/`, and no
-- element of it is empty, `.` or `..`, whatever name and source file the package brings.
pub repository_filename-IsPoolPath :
    (p : Package) (codename : Bytes) {path : Bytes}
    → p.index_filename ≡ none
    → repository_filename p codename ≡ ok path
    → IsPoolPath path
unfolding repository_filename derived_path
repository_filename-IsPoolPath p codename {path} none_indexed h =
    derived p codename (rw none_indexed at h)
  where
    derived :
        (p : Package) (codename : Bytes) → derive_filename codename p ≡ ok path → IsPoolPath path
    derived p codename h = elim (Bool-cases (equal p.name [])) [
      | inl e ↦ cc (rw e at h)
      | inr e ↦ elim (Bool-cases (equal p.filename [])) [
        | inl f ↦ cc (rw (e, f) at h)
        | inr f ↦ checked_path-IsPoolPath _ (rw (e, f) at h)
      ]
    ]
