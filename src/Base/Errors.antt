-- ===== src/Base/Errors.antt =====
-- Go's `error` values and fallible results.
use Prim.Native.Nat.{ℕ}
use Prim.Native.String.{String}
use mathlib.Core.Path.{◌≡◌, refl, ap}
use mathlib.Core.Logic.{◌⊎◌, inl, inr}
use mathlib.Core.Bool.{Bool, true, false, ◌||◌}
use mathlib.Core.List.{List}

-- A string of the program: its bytes.
abbrev pub Bytes : Type 0
Bytes = List ℕ

-- `message` is `errors.New` or `fmt.Errorf` without `%w`; `wrap` is `fmt.Errorf` with `%w`.
-- Formatted values are left out of the texts. `joined` is `errors.Join` of two errors.
pub data Error : Type 0 where
  not_found : Bytes → Error
  conflict : Bytes → Error
  package_conflict : Bytes → Bytes → Bytes → Bytes → Error
  locked : Error
  not_owner : Error
  conditional_delete_unsupported : Error
  no_packages_found : Error
  no_packages_deleted : Error
  package_not_found : Error
  packages_missing : Error
  archive_too_large : Error
  missing_member : String → Error
  unsupported_compression : Bytes → Error
  unexpected_eof : Error
  canceled : Error
  eof : Error
  format : String → Error
  message : String → Error
  wrap : String → Error → Error
  joined : Error → Error → Error

-- `errors.Is(err, storage.ErrNotFound)`
abbrev pub is_not_found : Error → Bool
is_not_found (not_found _) = true
is_not_found (wrap _ e) = is_not_found e
is_not_found (joined a b) = is_not_found a || is_not_found b
is_not_found _ = false

-- `errors.Is(err, storage.ErrConflict)`
abbrev pub is_conflict : Error → Bool
is_conflict (conflict _) = true
is_conflict (wrap _ e) = is_conflict e
is_conflict (joined a b) = is_conflict a || is_conflict b
is_conflict _ = false

pub data Result {ℓ} (A : Type ℓ) : Type ℓ where
  ok : A → Result A
  err : Error → Result A

-- The early return of `if err != nil { return err }`.
module _ {ℓ κ} {A : Type ℓ} {B : Type κ} where
  infixl 5 ◌>>=◌
  abbrev pub ◌>>=◌ : Result A → (A → Result B) → Result B
  ◌>>=◌ (err e) next = err e
  ◌>>=◌ (ok value) next = next value

  pub bind-eq-ok :
      (first : Result A) (next : A → Result B) {result : B}
      → first >>= next ≡ ok result
      → (value : A) × (first ≡ ok value) × (next value ≡ ok result)
  bind-eq-ok (err e) next returned = cc
  bind-eq-ok (ok value) next returned = (value, refl, returned)

-- `if err != nil { return fmt.Errorf("…: %w", err) }`
abbrev pub wrap_error {ℓ} : {A : Type ℓ} → String → Result A → Result A
wrap_error text (ok a) = ok a
wrap_error text (err e) = err (wrap text e)

pub Result-cases {ℓ} :
    {A : Type ℓ} (r : Result A) → ((a : A) × (r ≡ ok a)) ⊎ ((e : Error) × (r ≡ err e))
Result-cases (ok a) = inl (a, refl)
Result-cases (err e) = inr (e, refl)

abbrev pub value_or {ℓ} : {A : Type ℓ} → A → Result A → A
value_or default (ok value) = value
value_or default (err e) = default

pub ok-injective {ℓ} : {A : Type ℓ} {a b : A} → ok a ≡ ok b → a ≡ b
ok-injective {A} {a} h = ap (value_or a) h
