-- ===== src/Maintenance/Clean.antt =====
-- internal/maintenance/maintenance.go: the deletions of `Clean` and the references.
use deb_s3_go.Base.{
  ℕ, true, false, List, [], ◌∷◌, ◌++◌, append-nil, Bytes, wrap, Result, ok, length, map, All,
  All-append, All-append_left, ◌≡◌, refl, sym, ap, ◌∙◌, Bool-cases, Result-cases, inl, inr,
  ok-injective,
}
use deb_s3_go.Base.Strings.{codes, equal, equal_iff, member}
use deb_s3_go.Storage.Keys.{join_key}
use deb_s3_go.Storage.Objects.{ObjectInfo, pure, ◌>>=◌, on_error, Store}
use deb_s3_go.Storage.Events.{
  Event, written, copied, deleted, refused, Log, Stops, traced, Emits, pure-Emits, delete-Emits,
  bind-Emits,
}
use deb_s3_go.Storage.Memory.{MemoryStore, Env, get, list, memory_store}
use deb_s3_go.Apt.Package.{Package, repository_filename}
use deb_s3_go.Apt.Manifest.{parse_packages}
use deb_s3_go.Maintenance.References.{reference_index}
use deb_s3_go.Maintenance.References.Complete.{reference_index-keeps, reference_index-adds}
use deb_s3_go.Maintenance.{
  CleanResult, scoped_prefix, index_keys, unreferenced, collect_references, delete_all, delete_rest,
  clean_scoped, clean_pool,
}

-- A request that leaves `n` alone: a deletion of another key. A refusal is an answer.
abbrev pub Spares : Bytes → Event → Type 0
Spares n (written key body options) = ⊥
Spares n (copied from to options) = ⊥
Spares n (deleted key) = equal key n ≡ false
Spares n refused = Unit

end-Spares : {A : Type 0} (n : Bytes) (r : Result A) (end : Log) → Stops r end → All (Spares n) end
end-Spares n r end (inl e) = rw e tt
end-Spares n r end (inr (e, _, _)) = rw e (tt, tt)

-- On any store the pool loop deletes what it is given, in order, up to the first failure.
delete_all-Emits :
    {S : Type 0} (store : Store S) (objects : List ObjectInfo)
    → Emits (delete_all (traced store) objects) (map (λ (o : ObjectInfo). deleted o.key) objects)
unfolding delete_all
delete_all-Emits store [] = pure-Emits []
delete_all-Emits store (o ∷ objects) =
    bind-Emits (on_error (wrap "delete unreferenced package") ((traced store).delete o.key)) _
      (delete-Emits store (wrap "delete unreferenced package") o.key)
      (λ _. rw⁻¹ (append-nil (map (λ (o : ObjectInfo). deleted o.key) objects)) (
        bind-Emits (delete_all (traced store) objects) _ (delete_all-Emits store objects)
          (λ rest. pure-Emits (o.key ∷ rest))))

member-other :
    (k n : Bytes) (references : List Bytes)
    → member k references ≡ false
    → member n references ≡ true
    → equal k n ≡ false
member-other k n references new known = elim (Bool-cases (equal k n)) [
  | inr other ↦ other
  | inl same ↦ cc (ap (λ j. member j references) ((equal_iff k n).0 same), new, known)
]

unreferenced-Spares :
    (n : Bytes) (references : List Bytes) (objects : List ObjectInfo)
    → member n references ≡ true
    → All (Spares n) (map (λ (o : ObjectInfo). deleted o.key) (unreferenced references objects))
unreferenced-Spares n references [] h = tt
unreferenced-Spares n references (o ∷ objects) h = elim (Bool-cases (member o.key references)) [
  | inl known ↦ rw known (unreferenced-Spares n references objects h)
  | inr new ↦
      rw new (member-other o.key n references new h, unreferenced-Spares n references objects h)
]

module _ (env : Env) where
  collect_references-reads :
      (keys references : List Bytes) (x : MemoryStore × Log)
      → (collect_references (traced (memory_store env)) keys references x).1 ≡ x
  unfolding collect_references get
  collect_references-reads [] references x = refl
  collect_references-reads (key ∷ keys) references x = elim (Result-cases (get env key x.0).0) [
    | inr (e, failed) ↦ rw failed refl
    | inl (content, found) ↦ elim (Result-cases (reference_index content references)) [
      | inr (e, failed) ↦ rw (found, failed) refl
      | inl (more, done) ↦ rw (found, done) (collect_references-reads keys more x)
    ]
  ]

  collect_references-keeps :
      (n : Bytes) (keys references : List Bytes) (x : MemoryStore × Log) {after : List Bytes}
      → (collect_references (traced (memory_store env)) keys references x).0 ≡ ok after
      → member n references ≡ true
      → member n after ≡ true
  unfolding collect_references
  collect_references-keeps n [] references x h k = rw⁻¹ (ok-injective h) k
  collect_references-keeps n (key ∷ keys) references x h k =
      elim (Result-cases (get env key x.0).0) [
        | inr (e, failed) ↦ cc (rw failed at h)
        | inl (content, found) ↦ elim (Result-cases (reference_index content references)) [
          | inr (e, failed) ↦ cc (rw (found, failed) at h)
          | inl (more, done) ↦
              collect_references-keeps n keys more ((get env key x.0).1, x.1)
                (rw (found, done) at h) (reference_index-keeps n content references done k)
        ]
      ]

  -- The references of one package of one index are taken in.
  pub record Refers (s : MemoryStore) (key n : Bytes) : Type 0 where
    pub content : Bytes
    pub stored : (get env key s).0 ≡ ok content
    pub before : List Package
    pub pack : Package
    pub after : List Package
    pub parsed : parse_packages content ≡ ok (before ++ (pack ∷ after))
    pub filename : Bytes
    pub named : repository_filename pack [] ≡ ok filename
    pub joined : join_key [] filename ≡ ok n

  collect_references-adds :
      (n key : Bytes) (before after references : List Bytes) (x : MemoryStore × Log)
      {all : List Bytes}
      → Refers x.0 key n
      → (collect_references (traced (memory_store env)) (before ++ (key ∷ after)) references x).0
        ≡ ok all
      → member n all ≡ true
  unfolding collect_references get
  collect_references-adds n key [] after references x r h =
      elim (Result-cases (reference_index r.content references)) [
        | inr (e, failed) ↦ cc (rw (r.stored, failed) at h)
        | inl (more, done) ↦ collect_references-keeps n after more x (rw (r.stored, done) at h) (
            reference_index-adds n r.content r.before r.pack r.after references done r.parsed
              r.named r.joined)
      ]
  collect_references-adds n key (k ∷ before) after references x r h =
      elim (Result-cases (get env k x.0).0) [
        | inr (e, failed) ↦ cc (rw failed at h)
        | inl (content, found) ↦ elim (Result-cases (reference_index content references)) [
          | inr (e, failed) ↦ cc (rw (found, failed) at h)
          | inl (more, done) ↦
              collect_references-adds n key before after more x r (rw (found, done) at h)
        ]
      ]

  deleted-Spares :
      (n : Bytes) (manifests : ℕ) (references : List Bytes) (pool : List ObjectInfo)
      (x : MemoryStore × Log) (result : List Bytes → CleanResult)
      → member n references ≡ true
      → All (Spares n) x.1
      → All
          (Spares n)
          ((delete_all (traced (memory_store env)) (unreferenced references pool)
              >>= (λ removed. pure (result removed)))
            x).1.1
  deleted-Spares n manifests references pool x result h k =
      let p =
        bind-Emits (delete_all (traced (memory_store env)) (unreferenced references pool))
          (λ removed. pure (result removed))
          (delete_all-Emits (memory_store env) (unreferenced references pool))
          (λ removed. pure-Emits (result removed)) x in
      let expected = unreferenced-Spares n references pool h in
      rw p.grows (
        All-append (Spares n) x.1 (p.made ++ p.end) k (
          All-append (Spares n) p.made p.end
            (All-append_left (Spares n) p.made p.rest (
              rw
                (sym (
                    append-nil
                      (map (λ (o : ObjectInfo). deleted o.key) (unreferenced references pool)))
                  ∙ p.in_order)
                at expected))
            (end-Spares n _ p.end p.stops)))

  delete_rest-Spares :
      (n : Bytes) (manifests : ℕ) (references : List Bytes) (pool_prefix : Bytes)
      (x : MemoryStore × Log)
      → member n references ≡ true
      → All (Spares n) x.1
      → All
          (Spares n)
          (delete_rest (traced (memory_store env)) manifests references pool_prefix x).1.1
  unfolding delete_rest list
  delete_rest-Spares n manifests references pool_prefix x h k =
      elim (Result-cases (list env pool_prefix x.0).0) [
        | inr (e, failed) ↦ rw failed k
        | inl (pool, found) ↦ rw found (deleted-Spares n manifests references pool x _ h k)
      ]

  collected-Spares :
      (n key : Bytes) (before after : List Bytes) (pool_prefix : Bytes) (x : MemoryStore × Log)
      {objects : List ObjectInfo}
      → (list env (codes "dists/") x.0).0 ≡ ok objects
      → index_keys objects ≡ before ++ (key ∷ after)
      → Refers x.0 key n
      → All (Spares n) x.1
      → All (Spares n) (clean_scoped (traced (memory_store env)) pool_prefix x).1.1
  unfolding clean_scoped list
  collected-Spares n key before after pool_prefix x {objects} l i r k =
      let reads = collect_references-reads (before ++ (key ∷ after)) [] x in
      elim (Result-cases
        (collect_references (traced (memory_store env)) (before ++ (key ∷ after)) [] x).0) [
          | inr (e, failed) ↦ rw (l, i, failed, reads) k
          | inl (all, done) ↦
              rw (l, i, done, reads)
                (delete_rest-Spares n (length (before ++ (key ∷ after))) all pool_prefix x
                  (collect_references-adds n key before after [] x r done) k)
        ]

  -- `Clean` on the in-memory store asks for no change but deletions, and for none of a key that a
  -- package of an index refers to: any index under `dists/`, of whatever codename, when a package
  -- that it parses to has the key as its file name. This holds also when `Clean` fails on its way.
  pub clean_pool-Spares :
      (n key codename : Bytes) (before after : List Bytes) (s : MemoryStore)
      {objects : List ObjectInfo}
      → (list env (codes "dists/") s).0 ≡ ok objects
      → index_keys objects ≡ before ++ (key ∷ after)
      → Refers s key n
      → All (Spares n) (clean_pool (traced (memory_store env)) codename (s, [])).1.1
  unfolding clean_pool
  clean_pool-Spares n key codename before after s l i r =
      elim (Result-cases (scoped_prefix (codes "pool") codename)) [
        | inr (e, failed) ↦ rw failed tt
        | inl (pool_prefix, scoped) ↦
            rw scoped (collected-Spares n key before after pool_prefix (s, []) l i r tt)
      ]
