-- ===== src/Storage/Objects.antt =====
-- internal/storage/store.go: what a store holds, its options, and the `Store` interface.
use deb_s3_go.Base.{ℕ, Bool, Option, List, Bytes, Error, Result, ok, err}
use deb_s3_go.Base.Assoc.{Assoc}

-- `ObjectInfo`; times are counted from the epoch.
pub record ObjectInfo : Type 0 where
  pub key : Bytes
  pub size : ℕ
  pub etag : Bytes
  pub metadata : Assoc Bytes
  pub content_type : Bytes
  pub cache_control : Bytes
  pub acl : Bytes
  pub server_side_encryption : Bool
  pub last_modified : ℕ

pub record PutOptions : Type 0 where
  pub content_type : Bytes
  pub cache_control : Bytes
  pub metadata : Option (Assoc Bytes)
  pub fail_if_exists : Bool
  pub create_only : Bool
  pub server_side_encryption : Bool

pub record CopyOptions : Type 0 where
  pub source_etag : Bytes
  pub create_only : Bool
  pub fail_if_exists : Bool

-- An operation that may fail, on a state that it may change even when it fails.
abbrev pub M : Type 0 → Type 0 → Type 0
M S A = S → Result A × S

module _ {S A : Type 0} where
  abbrev pub pure : A → M S A
  pure a s = (ok a, s)

  abbrev pub raise : Error → M S A
  raise e s = (err e, s)

  abbrev pub lift : Result A → M S A
  lift r s = (r, s)

module _ {S A B : Type 0} where
  abbrev pub continue : Result A → (A → M S B) → M S B
  continue (ok a) f s = f a s
  continue (err e) f s = (err e, s)

  infixl 5 ◌>>=◌ ◌>>◌
  abbrev pub ◌>>=◌ : M S A → (A → M S B) → M S B
  ◌>>=◌ m f s = continue (m s).0 f (m s).1

  abbrev pub ◌>>◌ : M S A → M S B → M S B
  m >> n = m >>= λ _. n

-- `if err != nil { return fmt.Errorf("…: %w", err) }`
abbrev pub wrapped {ℓ} : {A : Type ℓ} → (Error → Error) → Result A → Result A
wrapped f (ok a) = ok a
wrapped f (err e) = err (f e)

abbrev pub on_error : {S A : Type 0} → (Error → Error) → M S A → M S A
on_error f m s = (wrapped f (m s).0, (m s).1)

-- The `Store` interface over the state `S` of the stored objects. A body is what reading it gives.
pub record Store (S : Type 0) : Type 0 where
  pub get : Bytes → M S Bytes
  pub head : Bytes → M S ObjectInfo
  pub put : Bytes → Result Bytes → PutOptions → M S (Unit {0})
  pub delete : Bytes → M S (Unit {0})
  pub copy : Bytes → Bytes → CopyOptions → M S (Unit {0})
  pub list : Bytes → M S (List ObjectInfo)
  -- `ConditionalDeleter`, which not every store implements
  pub delete_if_match : Option (Bytes → Bytes → M S (Unit {0}))
