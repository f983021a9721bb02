-- ===== src/Maintenance.antt =====
-- internal/maintenance/maintenance.go: removing the packages that no index refers to. What a
-- command logs, and the result beside an error, are left out.
pub mod References
pub mod Clean
pub mod Verify
use deb_s3_go.Base.{
  ℕ, Bool, true, false, not, ◌&&◌, ◌||◌, List, [], ◌∷◌, ◌++◌, Bytes, Error, message, wrap, Result,
  ok, err, if◌then◌else◌, length, map, select,
}
use deb_s3_go.Base.Strings.{codes, equal, has_prefix, member}
use deb_s3_go.Base.Paths.{clean, path_join, base, dir, is_abs, dot, dot_dot}
use deb_s3_go.Storage.Objects.{ObjectInfo, M, pure, lift, ◌>>=◌, ◌>>◌, on_error, Store}
use deb_s3_go.Maintenance.References.{reference_index}

-- `CleanResult`
pub record CleanResult : Type 0 where
  pub manifests : ℕ
  pub referenced : ℕ
  pub deleted : List Bytes

-- `scopedPrefix`
unfoldable pub scoped_prefix : Bytes → Bytes → Result Bytes
scoped_prefix root value =
    let cleaned = clean value in
    if (equal cleaned dot || is_abs cleaned)
      || (equal cleaned dot_dot || has_prefix cleaned (codes "../"))
    then err (message "unsafe repository codename")
    else ok (path_join (root ∷ cleaned ∷ []) ++ codes "/")

-- The keys of the package indexes.
abbrev is_index : ObjectInfo → Bool
is_index o =
    equal (base o.key) (codes "Packages") && has_prefix (base (dir o.key)) (codes "binary-")

unfoldable pub index_keys : List ObjectInfo → List Bytes
index_keys objects = map (λ (o : ObjectInfo). o.key) (select is_index objects)

-- What the pool has and no index refers to.
abbrev pub unreferenced : List Bytes → List ObjectInfo → List ObjectInfo
unreferenced references objects = select (λ o. not (member o.key references)) objects

module _ {S : Type 0} (store : Store S) where
  -- The loop over the indexes.
  unfoldable pub collect_references : List Bytes → List Bytes → M S (List Bytes)
  unfolding reference_index
  collect_references [] references = pure references
  collect_references (key ∷ keys) references = do
    content ← on_error (wrap "retrieve manifest for clean") (store.get key)
    more ← lift (reference_index content references)
    collect_references keys more

  -- The loop over the pool, past the objects that are referenced.
  unfoldable pub delete_all : List ObjectInfo → M S (List Bytes)
  delete_all [] = pure []
  delete_all (o ∷ objects) = do
    on_error (wrap "delete unreferenced package") (store.delete o.key)
    rest ← delete_all objects
    pure (o.key ∷ rest)

  delete_rest : ℕ → List Bytes → Bytes → M S CleanResult
  unfolding delete_all
  delete_rest manifests references pool_prefix = do
    pool ← on_error (wrap "list package pool") (store.list pool_prefix)
    deleted ← delete_all (unreferenced references pool)
    pure (record { manifests = manifests; referenced = length references; deleted = deleted })

  clean_scoped : Bytes → M S CleanResult
  unfolding collect_references delete_rest index_keys
  clean_scoped pool_prefix = do
    objects ← on_error (wrap "list repository manifests") (store.list (codes "dists/"))
    references ← collect_references (index_keys objects) []
    delete_rest (length (index_keys objects)) references pool_prefix

  -- `Clean`
  unfoldable pub clean_pool : Bytes → M S CleanResult
  unfolding clean_scoped scoped_prefix
  clean_pool codename = do
    pool_prefix ← lift (scoped_prefix (codes "pool") codename)
    clean_scoped pool_prefix
