-- ===== src/Apt/Control/Dictionary.antt =====
-- internal/apt/control.go: the field list of a paragraph, by names.
use deb_s3_go.Base.{
  ℕ, suc, List, [], ◌∷◌, ◌++◌, Option, none, some, Bytes, if◌then◌else◌, length, ◌≡◌, refl, arith,
  Bool-cases, inl, inr,
}
use deb_s3_go.Base.Strings.{equal, equal_iff}
use deb_s3_go.Apt.Control.{Field, value_at, set_value, remove_at}

-- The dictionary that the fields are: the value, the removal and the setting of a name.
abbrev pub find_value : Bytes → List Field → Option Bytes
find_value name [] = none
find_value name (f ∷ fs) = if equal f.name name then some f.value else find_value name fs

abbrev pub remove_named : Bytes → List Field → List Field
remove_named name [] = []
remove_named name (f ∷ fs) = if equal f.name name then fs else f ∷ remove_named name fs

abbrev pub set_named : Bytes → Bytes → List Field → List Field
set_named name value [] = record { name = name; value = value } ∷ []
set_named name value (f ∷ fs) =
    if equal f.name name then record f { value = value } ∷ fs else f ∷ set_named name value fs

abbrev pub after_one : Option ℕ → Option ℕ
after_one none = none
after_one (some n) = some (suc n)

abbrev pub position : Bytes → List Field → Option ℕ
position name [] = none
position name (f ∷ fs) = if equal f.name name then some 0 else after_one (position name fs)

-- No two fields have one name.
abbrev pub Distinct : List Field → Type 0
Distinct [] = Unit
Distinct (f ∷ fs) = (position f.name fs ≡ none) × Distinct fs

-- Reading and writing through a position is reading and writing by name.
pub value_at-position :
    (name : Bytes) (fs : List Field)
    → elim (position name fs) [ none ↦ none | some n ↦ some (value_at fs n) ] ≡ find_value name fs
value_at-position name [] = refl
value_at-position name (f ∷ fs) = ground (arith, value_at-position name fs)

abbrev pub kept_at : List Field → Option ℕ → List Field
kept_at fs none = fs
kept_at fs (some n) = remove_at fs n

pub remove_at-position :
    (name : Bytes) (fs : List Field) → kept_at fs (position name fs) ≡ remove_named name fs
remove_at-position name [] = refl
remove_at-position name (f ∷ fs) = ground (arith, remove_at-position name fs)

pub set_value-position :
    (name value : Bytes) (fs : List Field)
    → elim (position name fs) [
      | none ↦ fs ++ (record { name = name; value = value } ∷ [])
      | some n ↦ set_value fs n value
    ]
      ≡ set_named name value fs
set_value-position name value [] = refl
set_value-position name value (f ∷ fs) = ground (arith, set_value-position name value fs)

pub position-remove_named :
    (j name : Bytes) (fs : List Field)
    → position j fs ≡ none
    → position j (remove_named name fs) ≡ none
position-remove_named j name [] h = refl
position-remove_named j name (f ∷ fs) h = ground (arith, position-remove_named j name fs)

pub remove_named-Distinct :
    (name : Bytes) (fs : List Field) → Distinct fs → Distinct (remove_named name fs)
remove_named-Distinct name [] h = tt
remove_named-Distinct name (f ∷ fs) h = elim (Bool-cases (equal f.name name)) [
  | inl same ↦ rw same h.1
  | inr other ↦
      rw other (position-remove_named f.name name fs h.0, remove_named-Distinct name fs h.1)
]

pub position-set_named :
    (j name value : Bytes) (fs : List Field)
    → position j (set_named name value fs) ≡ (elim (position name fs) [
      | none ↦ if equal name j then some (length fs) else position j fs
      | some n ↦ position j fs
    ])
position-set_named j name value [] = refl
position-set_named j name value (f ∷ fs) = ground (
  arith,
  position-set_named j name value fs,
  equal_iff f.name name,
  equal_iff f.name j,
  equal_iff name j,
)

pub set_named-Distinct :
    (name value : Bytes) (fs : List Field) → Distinct fs → Distinct (set_named name value fs)
set_named-Distinct name value [] h = (refl, tt)
set_named-Distinct name value (f ∷ fs) h = elim (Bool-cases (equal f.name name)) [
  | inl same ↦ rw same h
  | inr other ↦ rw other (
    ground (
      arith,
      h.0,
      position-set_named f.name name value fs,
      equal_iff f.name name,
      equal_iff name f.name,
    ),
    set_named-Distinct name value fs h.1,
  )
]

pub find_value-set_named :
    (name value j : Bytes) (fs : List Field)
    → find_value j (set_named name value fs)
      ≡ (if equal name j then some value else find_value j fs)
find_value-set_named name value j [] = refl
find_value-set_named name value j (f ∷ fs) = ground (
  arith,
  find_value-set_named name value j fs,
  equal_iff f.name name,
  equal_iff f.name j,
  equal_iff name j,
)

pub find_value-absent :
    (j : Bytes) (fs : List Field) → position j fs ≡ none → find_value j fs ≡ none
find_value-absent j [] h = refl
find_value-absent j (f ∷ fs) h = ground (arith, find_value-absent j fs)

pub find_value-remove_named :
    (name j : Bytes) (fs : List Field)
    → Distinct fs
    → find_value j (remove_named name fs) ≡ (if equal name j then none else find_value j fs)
find_value-remove_named name j [] h = ground arith
find_value-remove_named name j (f ∷ fs) h = ground (
  arith,
  find_value-remove_named name j fs h.1,
  find_value-absent f.name fs h.0,
  equal_iff f.name name,
  equal_iff f.name j,
  equal_iff name j,
)
