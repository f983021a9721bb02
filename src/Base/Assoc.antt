-- ===== src/Base/Assoc.antt =====
-- Go maps keyed by strings, as association lists with one entry for each key that was set.
use mathlib.Core.Path.{◌≡◌, refl}
use mathlib.Core.List.{List, [], ◌∷◌}
use mathlib.Core.Option.{Option, none, some}
use native.Mathlib.Omega.{arith}
use deb_s3_go.Base.Tests.{if◌then◌else◌}
use deb_s3_go.Base.Errors.{Bytes}
use deb_s3_go.Base.Strings.{equal, equal_iff}

abbrev pub Assoc {ℓ} : Type ℓ → Type ℓ
Assoc V = List (Bytes × V)

module _ {ℓ} {V : Type ℓ} where
  -- `value, ok := m[key]`
  unfoldable pub lookup : Bytes → Assoc V → Option V
  lookup k [] = none
  lookup k ((j, v) ∷ m) = if equal j k then some v else lookup k m

  -- `m[key] = value`
  unfoldable pub insert : Bytes → V → Assoc V → Assoc V
  insert k v [] = (k, v) ∷ []
  insert k v ((j, w) ∷ m) = if equal j k then (k, v) ∷ m else (j, w) ∷ insert k v m

  -- `delete(m, key)`
  unfoldable pub without : Bytes → Assoc V → Assoc V
  without k [] = []
  without k ((j, v) ∷ m) = let rest = without k m in if equal j k then rest else (j, v) ∷ rest

  pub lookup-insert :
      (key other : Bytes) (value : V) (entries : Assoc V)
      → lookup other (insert key value entries)
        ≡ (if equal key other then some value else lookup other entries)
  unfolding lookup insert
  lookup-insert key other value ((i, w) ∷ entries) = ground (
    arith,
    lookup-insert key other value entries,
    equal_iff i key,
    equal_iff i other,
    equal_iff key other,
  )
  lookup-insert key other value [] = refl

  pub lookup-without :
      (k j : Bytes) (m : Assoc V)
      → lookup j (without k m) ≡ (if equal k j then none else lookup j m)
  unfolding lookup without
  lookup-without k j [] = ground arith
  lookup-without k j ((i, v) ∷ m) =
      ground (arith, lookup-without k j m, equal_iff i k, equal_iff i j, equal_iff k j)
