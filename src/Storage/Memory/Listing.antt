-- ===== src/Storage/Memory/Listing.antt =====
-- internal/storage/memory.go: what `List` returns.
use mathlib.Core.List.{Perm}
use mathlib.Core.Path.{subst}
use mathlib.Core.List.Perm
use deb_s3_go.Base.{
  true, false, List, [], ◌∷◌, Bytes, ok, ◌≡◌, refl, arith, Bool-cases, inl, inr, bind-eq-ok,
  Option-cases, some, ap, ◌++◌, ◌↔◌, ◌⊎◌, ◌==◌, ==_iff,
}
use deb_s3_go.Base.Strings.{less, less_asymm, has_prefix, has_prefix-append}
use deb_s3_go.Base.Assoc.{Assoc}
use deb_s3_go.Storage.Keys.{logical_key}
use deb_s3_go.Storage.Objects.{ObjectInfo}
use deb_s3_go.Storage.Memory.{
  MemoryStore, MemoryObject, listed_info, Env, check_ctx, list_prefix, matching, insert_sorted,
  sort_infos, list,
}

-- No key is above its successor's.
abbrev NotAbove : ObjectInfo → List ObjectInfo → Type 0
NotAbove a [] = Unit
NotAbove a (b ∷ bs) = less b.key a.key ≡ false

abbrev pub Ascending : List ObjectInfo → Type 0
Ascending [] = Unit
Ascending (a ∷ infos) = NotAbove a infos × Ascending infos

-- An object is listed below a physical prefix under its logical key: its physical key begins with the
-- one and has the other.
abbrev IsSelected : Bytes → Bytes → Bytes → Bytes → Type 0
IsSelected store_prefix p physical logical =
    ((rest : Bytes) × (physical ≡ p ++ rest)) × (logical_key store_prefix physical ≡ some logical)

-- The objects one by one: each is listed, with its own attributes and its logical key, or is not below
-- the prefix.
abbrev pub Lists : Bytes → Bytes → Assoc MemoryObject → List ObjectInfo → Type 0
Lists store_prefix p [] infos = infos ≡ []
Lists store_prefix p ((physical, object) ∷ objects) infos =
    ((logical : Bytes) × (others : List ObjectInfo) × IsSelected store_prefix p physical logical
      × (infos ≡ record object.info { key = logical } ∷ others)
      × Lists store_prefix p objects others)
    ⊎ (((logical : Bytes) → ¬ IsSelected store_prefix p physical logical)
        × Lists store_prefix p objects infos)

has_prefix-splits : (s p : Bytes) → has_prefix s p ≡ true → (rest : Bytes) × (s ≡ p ++ rest)
unfolding has_prefix
has_prefix-splits s [] h = (s, refl)
has_prefix-splits [] (y ∷ p) h = cc
has_prefix-splits (x ∷ s) (y ∷ p) h = elim (Bool-cases (x == y)) [
  | inr e ↦ cc (rw e at h)
  | inl e ↦
      let (rest, q) = has_prefix-splits s p (rw e at h) in
      (rest, rw ((==_iff x y).0 e) (ap (λ t. y ∷ t) q))
]

has_prefix_iff : (s p : Bytes) → (has_prefix s p ≡ true) ↔ ((rest : Bytes) × (s ≡ p ++ rest))
has_prefix_iff s p = (λ h. has_prefix-splits s p h, λ (rest, e). rw e (has_prefix-append p rest))

module _ (env : Env) where
  NotAbove-insert_sorted :
      (b a : ObjectInfo) (infos : List ObjectInfo)
      → less b.key a.key ≡ true
      → NotAbove b infos
      → NotAbove b (insert_sorted env a infos)
  unfolding insert_sorted
  NotAbove-insert_sorted b a [] h k = less_asymm b.key a.key h
  NotAbove-insert_sorted b a (c ∷ infos) h k = elim (Bool-cases (less c.key a.key)) [
    | inl below ↦ rw below k
    | inr above ↦ rw above (less_asymm b.key a.key h)
  ]

  insert_sorted-Ascending :
      (a : ObjectInfo) (infos : List ObjectInfo)
      → Ascending infos
      → Ascending (insert_sorted env a infos)
  unfolding insert_sorted
  insert_sorted-Ascending a [] h = (tt, tt)
  insert_sorted-Ascending a (b ∷ infos) h = elim (Bool-cases (less b.key a.key)) [
    | inl below ↦
        rw below (NotAbove-insert_sorted b a infos below h.0, insert_sorted-Ascending a infos h.1)
    | inr above ↦ rw above (above, h)
  ]

  sort_infos-Ascending : (infos : List ObjectInfo) → Ascending (sort_infos env infos)
  unfolding sort_infos
  sort_infos-Ascending [] = tt
  sort_infos-Ascending (a ∷ infos) =
      insert_sorted-Ascending a (sort_infos env infos) (sort_infos-Ascending infos)

  insert_sorted-perm :
      (a : ObjectInfo) (infos : List ObjectInfo) → Perm (insert_sorted env a infos) (a ∷ infos)
  unfolding insert_sorted
  insert_sorted-perm a [] = Perm.refl _
  insert_sorted-perm a (b ∷ infos) = elim (Bool-cases (less b.key a.key)) [
    | inl below ↦
        rw below (Perm.trans (Perm.cons b (insert_sorted-perm a infos)) (Perm.swap a b infos))
    | inr above ↦ rw above (Perm.refl _)
  ]

  sort_infos-perm : (infos : List ObjectInfo) → Perm (sort_infos env infos) infos
  unfolding sort_infos
  sort_infos-perm [] = Perm.refl _
  sort_infos-perm (a ∷ infos) =
      Perm.trans (insert_sorted-perm a (sort_infos env infos)) (Perm.cons a (sort_infos-perm infos))

  matching-Lists :
      (store_prefix p : Bytes) (objects : Assoc MemoryObject)
      → Lists store_prefix p objects (matching env store_prefix p objects)
  unfolding matching listed_info
  matching-Lists store_prefix p [] = refl
  matching-Lists store_prefix p ((physical, object) ∷ objects) =
      elim (Bool-cases (has_prefix physical p)) [
        | inr outside ↦ rw outside (
            inr (
              λ logical k. cc (outside, (has_prefix_iff physical p).1 k.0),
              matching-Lists store_prefix p objects,
            ))
        | inl inside ↦ elim (Option-cases (logical_key store_prefix physical)) [
          | inl hidden ↦
              rw (inside, hidden)
                (inr (λ logical k. cc (k.1), matching-Lists store_prefix p objects))
          | inr (logical, named) ↦
              rw (inside, named)
                (inl (
                  logical,
                  matching env store_prefix p objects,
                  ((has_prefix_iff physical p).0 inside, refl),
                  refl,
                  matching-Lists store_prefix p objects,
                ))
        ]
      ]

  -- A successful `List` leaves the store as it is and returns, in ascending order of their logical
  -- keys, just the objects whose physical keys begin with the physical prefix and have a logical key:
  -- each once, with the attributes that it has in the store and under its logical key.
  pub list_lem :
      (prefix : Bytes) (s : MemoryStore) {infos : List ObjectInfo}
      → (list env prefix s).0 ≡ ok infos
      → (p : Bytes) × (found : List ObjectInfo) × (list_prefix env s.prefix prefix ≡ ok p)
        × Lists s.prefix p s.objects found
        × Perm infos found
        × Ascending infos
        × ((list env prefix s).1 ≡ s)
  unfolding list
  list_lem prefix s {infos} h =
      let (u, live, rest) = bind-eq-ok (check_ctx env) _ h in
      let (p, located, sorted) = bind-eq-ok (list_prefix env s.prefix prefix) _ rest in
      let same : sort_infos env (matching env s.prefix p s.objects) ≡ infos =
        ground (arith, sorted) in
      (
        p,
        matching env s.prefix p s.objects,
        located,
        matching-Lists s.prefix p s.objects,
        subst (λ i. Perm i (matching env s.prefix p s.objects)) same
            (sort_infos-perm (matching env s.prefix p s.objects)),
        subst Ascending same (sort_infos-Ascending (matching env s.prefix p s.objects)),
        refl,
      )
