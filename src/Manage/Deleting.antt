-- ===== src/Manage/Deleting.antt =====
-- internal/manage/manage.go: what `Delete` publishes.
use deb_s3_go.Base.{
  ℕ, ◌<◌, ◌≤◌, ok-injective, no_packages_deleted, ◌==◌, Bool, false, List, [], ◌∷◌, Bytes, wrap, ok,
  length, All, ◌≡◌, ◌≢◌, refl, arith, Bool-cases, inl, inr,
}
use deb_s3_go.Storage.Objects.{on_error, Store}
use deb_s3_go.Storage.Events.{Log, traced}
use deb_s3_go.Apt.Package.{Package}
use deb_s3_go.Apt.Manifest.{Manifest, delete_package}
use deb_s3_go.Apt.Manifest.Deleting.{IsMeant, delete_package_split}
use deb_s3_go.Apt.Publishing.{Tools, retrieve_manifest}
use deb_s3_go.Apt.Release.{Release}
use deb_s3_go.Apt.Release.Publish.{retrieve_release}
use mathlib.Core.Path.{subst}
use deb_s3_go.Manage.{
  DeleteOptions, Deletion, delete_release_options, delete_manifest_options, versions_to_delete,
  architectures_of, deleted_from, delete_each, publish_deleted, delete, publish_delete,
}
use deb_s3_go.Storage.Stages.{Quiet, Outcome, bind-Quiet, bind-ok, bind_outcome, stage_outcome}
use deb_s3_go.Apt.Retrieval.{retrieve_manifest-Quiet, read_release_outcome}

-- Nothing is left to delete in the changed manifests, and none of them was changed for nothing.
abbrev Clears : DeleteOptions → Manifest → Type 0
Clears o m = All (λ (p : Package). ¬ IsMeant o.name (versions_to_delete o) p) m.packages

pub record Cleared (o : DeleteOptions) (d : Deletion) : Type 0 where
  pub cleared : All (Clears o) d.changed
  pub counted : length d.changed ≤ d.total_deleted
  pub needed : d.changed ≡ [] → d.total_deleted ≡ 0

deleted_from-Cleared :
    (o : DeleteOptions) (r : List Package × Manifest) (d : Deletion)
    → Clears o r.1
    → Cleared o d
    → Cleared o (deleted_from r d)
deleted_from-Cleared o ([], m) d h k = k
deleted_from-Cleared o (p ∷ ps, m) d h k = record {
  cleared = (h, k.cleared);
  counted = omega (arith, k.counted);
  needed = λ e. cc;
}

module _ {S : Type 0} (store : Store S) (o : DeleteOptions) (by_hash : Bool) where
  delete_each-Quiet :
      (architectures : List Bytes) → Quiet (delete_each (traced store) o by_hash architectures)
  unfolding delete_each
  delete_each-Quiet [] = λ x. refl
  delete_each-Quiet (a ∷ architectures) =
      bind-Quiet
        (on_error (wrap "retrieve manifest for delete")
          (retrieve_manifest (traced store) (delete_manifest_options o by_hash a)))
        _
        (retrieve_manifest-Quiet store (wrap "retrieve manifest for delete")
          (delete_manifest_options o by_hash a))
        (λ m.
          bind-Quiet (delete_each (traced store) o by_hash architectures) _
            (delete_each-Quiet architectures) (λ rest x. refl))

  delete_each-Cleared :
      (architectures : List Bytes) (x : S × Log) {d : Deletion}
      → (delete_each (traced store) o by_hash architectures x).0 ≡ ok d
      → Cleared o d
  unfolding delete_each
  delete_each-Cleared [] x h =
      subst (Cleared o) (ok-injective h)
        (record { cleared = tt; counted = omega arith; needed = λ e. refl })
  delete_each-Cleared (a ∷ architectures) x h =
      let (m, e, k) =
        bind-ok
          (on_error (wrap "retrieve manifest for delete")
            (retrieve_manifest (traced store) (delete_manifest_options o by_hash a)))
          _ x h in
      let (rest, e', k') = bind-ok (delete_each (traced store) o by_hash architectures) _ _ k in
      subst (Cleared o) (ok-injective k') (
        deleted_from-Cleared o (delete_package o.name (versions_to_delete o) m) rest
          (delete_package_split o.name (versions_to_delete o) m).2
          (delete_each-Cleared architectures _ e'))

module _ {S : Type 0} (store : Store S) (tools : Tools) (o : DeleteOptions) where
  -- The manifests that are published, and how they were come by.
  pub record Deletes (published : Release × List Manifest) : Type 0 where
    pub before : S × Log
    pub release_read :
        (retrieve_release (traced store) (delete_release_options o) before).0 ≡ ok published.0
    pub at : S × Log
    pub total : ℕ
    pub some_deleted : 0 < total
    pub manifests_read :
        (delete_each (traced store) o published.0.by_hash (architectures_of o published.0) at).0
        ≡ ok (record { changed = published.1; total_deleted = total })
    pub some_changed : published.1 ≢ []
    pub cleared : All (Clears o) published.1

  deletes :
      (r : Release) (x : S × Log)
      → (retrieve_release (traced store) (delete_release_options o) x).0 ≡ ok r
      → (y : S × Log) (d : Deletion)
      → (delete_each (traced store) o r.by_hash (architectures_of o r) y).0 ≡ ok d
      → (d.total_deleted == 0) ≡ false
      → Deletes (r, d.changed)
  deletes r x h y d k some =
      let c = delete_each-Cleared store o r.by_hash (architectures_of o r) y k in
      record {
        before = x;
        release_read = h;
        at = y;
        total = d.total_deleted;
        some_deleted = ground arith;
        manifests_read = k;
        some_changed = λ e. ground (arith, c.needed e);
        cleared = c.cleared;
      }

  publish_deleted_outcome :
      (r : Release) (x : S × Log)
      → (retrieve_release (traced store) (delete_release_options o) x).0 ≡ ok r
      → (y z : S × Log) (d : Deletion)
      → (delete_each (traced store) o r.by_hash (architectures_of o r) y).0 ≡ ok d
      → Outcome
          (publish_delete (traced store) tools)
          Deletes
          (publish_deleted (traced store) tools r d z)
          z
  unfolding publish_deleted
  publish_deleted_outcome r x h y z d k = elim (Bool-cases (d.total_deleted == 0)) [
    | inl none ↦ rw none (inl (no_packages_deleted, refl, refl))
    | inr some ↦ rw some (
        stage_outcome (publish_delete (traced store) tools) Deletes (r, d.changed) z
          (deletes r x h y d k some))
  ]

  -- `Delete`, on any store: either it fails and has asked for no change of what is stored, or it ends
  -- with one publication of metadata, before which it has asked for no change. Then the release is
  -- the one that was read, at least one package was deleted, at least one manifest is published,
  -- and no published manifest has a package left that the options name.
  pub delete_outcomes :
      (x : S × Log)
      → Outcome (publish_delete (traced store) tools) Deletes (delete (traced store) tools o x) x
  unfolding delete
  delete_outcomes x =
      read_release_outcome store (publish_delete (traced store) tools) Deletes
        "retrieve Release for delete" (delete_release_options o) _ x
        λ release e.
          bind_outcome (publish_delete (traced store) tools) Deletes
            (delete_each (traced store) o release.by_hash (architectures_of o release)) _ _
            (delete_each-Quiet store o release.by_hash (architectures_of o release))
            λ d e'. publish_deleted_outcome release x e _ _ d e'
