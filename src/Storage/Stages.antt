-- ===== src/Storage/Stages.antt =====
-- Runs over the store of internal/storage/store.go that read first and then change what is stored
-- in one last stage, or not at all.
use deb_s3_go.Base.{Error, Result, ok, err, ◌≡◌, refl, ◌∙◌, ◌⊎◌, inl, inr}
use deb_s3_go.Storage.Objects.{M, continue, ◌>>=◌}
use deb_s3_go.Storage.Events.{Log}

-- Nothing is asked for that changes what is stored.
abbrev pub Quiet : {S A : Type 0} → M (S × Log) A → Type 0
Quiet {S} m = (x : S × Log) → (m x).1.1 ≡ x.1

module _ {S A B : Type 0} where
  pub bind-Quiet :
      (m : M (S × Log) A) (f : A → M (S × Log) B)
      → Quiet m
      → ((a : A) → Quiet (f a))
      → Quiet (m >>= f)
  bind-Quiet m f h k x = go (m x).0 (m x).1 (h x)
    where
      go : (r : Result A) (y : S × Log) → y.1 ≡ x.1 → (continue r f y).1.1 ≡ x.1
      go (err e) y q = q
      go (ok a) y q = k a y ∙ q

  -- A run that succeeds is two runs that succeed.
  pub bind-ok :
      (m : M S A) (f : A → M S B) (x : S) {b : B}
      → ((m >>= f) x).0 ≡ ok b
      → (a : A) × ((m x).0 ≡ ok a) × ((f a (m x).1).0 ≡ ok b)
  bind-ok m f x {b} h = go (m x).0 (m x).1 h
    where
      go :
          (r : Result A) (y : S)
          → (continue r f y).0 ≡ ok b
          → (a : A) × (r ≡ ok a) × ((f a y).0 ≡ ok b)
      go (err e) y h = cc
      go (ok a) y h = (a, refl, h)

-- The last stage of a run, by what it depends on, and what holds of that.
module _ {S C B : Type 0} (stage : C → M (S × Log) B) (Q : C → Type 0) where
  -- The run ends as the stage does, from a state that no request has changed.
  pub record Stages (run : Result B × (S × Log)) (x : S × Log) : Type 0 where
    pub content : C
    pub at : S × Log
    pub untouched : at.1 ≡ x.1
    pub ends : run ≡ stage content at
    pub meets : Q content

  abbrev pub Outcome : Result B × (S × Log) → S × Log → Type 0
  Outcome run x = ((e : Error) × (run.0 ≡ err e) × (run.1.1 ≡ x.1)) ⊎ Stages run x

  pub stage_outcome : (c : C) (x : S × Log) → Q c → Outcome (stage c x) x
  stage_outcome c x q =
      inr (record { content = c; at = x; untouched = refl; ends = refl; meets = q })

  later : (run : Result B × (S × Log)) (x y : S × Log) → y.1 ≡ x.1 → Outcome run y → Outcome run x
  later run x y q (inl (e, failed, same)) = inl (e, failed, same ∙ q)
  later run x y q (inr p) = inr (record {
    content = p.content;
    at = p.at;
    untouched = p.untouched ∙ q;
    ends = p.ends;
    meets = p.meets;
  })

  module _ {A : Type 0} where
    continue_outcome :
        (r : Result A) (f : A → M (S × Log) B) (x y : S × Log)
        → y.1 ≡ x.1
        → ((a : A) → r ≡ ok a → Outcome (f a y) y)
        → Outcome (continue r f y) x
    continue_outcome (err e) f x y q h = inl (e, refl, q)
    continue_outcome (ok a) f x y q h = later (f a y) x y q (h a refl)

    -- A step that only reads, or computes, before the rest of a run.
    pub bind_outcome :
        (m : M (S × Log) A) (f : A → M (S × Log) B) (x : S × Log)
        → Quiet m
        → ((a : A) → (m x).0 ≡ ok a → Outcome (f a (m x).1) (m x).1)
        → Outcome ((m >>= f) x) x
    bind_outcome m f x q h = continue_outcome (m x).0 f x (m x).1 (q x) h
