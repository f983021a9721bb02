-- ===== src/Lock/Attempts.antt =====
-- internal/lock/lock.go: the bound on the loop of `Acquire`.
use deb_s3_go.Base.{
  ℕ, zero, suc, ◌+◌, ◌≤◌, ◌<◌, not, ◌||◌, Option, none, some, Bytes, Error, Result, ok, err, ◌≡◌,
  refl, arith, Bool-cases, inl, inr, is_conflict, is_not_found, ◌==◌, Option-cases,
}
use deb_s3_go.Storage.Objects.{M, Store}
use deb_s3_go.Lock.{
  Owner, Options, Turn, Outcome, Coder, signed_less, checked_lock_path, options_with_defaults,
  acquiring_owner, current, retry, after_write, started, lock_options, with_deleter, attempt_once,
  attempts, encoded, owned, located_lock, acquire,
}
use deb_s3_go.Lock.Delays.{signed_less-lt}

abbrev pub Returns : {A : Type 0} → Option A → Type 0
Returns {A} x = (a : A) × (x ≡ some a)

module _ (coder : Coder) {S : Type 0} (store : Store S) where
  module _ (o : Options) (attempt : ℕ) (turn : Turn S) (again : S → Outcome S)
      (total : (s : S) → Returns (again s)) where
    retry-Returns :
        (r : Result Owner) (s : S) → Returns (retry coder store o attempt turn again r s)
    unfolding retry
    retry-Returns (ok owner) s = elim (Bool-cases (attempt == o.max_attempts)) [
      | inl last ↦ rw last (_, refl)
      | inr more ↦ elim (Option-cases turn.interrupted) [
        | inl quiet ↦ rw (more, quiet) (total (turn.after_get s))
        | inr (e, there) ↦ rw (more, there) (_, refl)
      ]
    ]
    retry-Returns (err e) s = elim (Bool-cases (is_not_found e)) [
      | inr other ↦ rw other (_, refl)
      | inl gone ↦ elim (Bool-cases (attempt == o.max_attempts)) [
        | inl last ↦ rw (gone, last) (_, refl)
        | inr more ↦ rw (gone, more) (total (turn.after_get s))
      ]
    ]

    after_write-Returns :
        (codename path : Bytes) (owner : Owner) (r : Result (Unit {0})) (s : S)
        → Returns (after_write coder store o codename path owner attempt turn again r s)
    unfolding after_write
    after_write-Returns codename path owner (ok done) s = (_, refl)
    after_write-Returns codename path owner (err e) s = elim (Bool-cases (is_conflict e)) [
      | inl taken ↦
          let (r, s') = current coder store codename (turn.after_put s) in
          rw taken (retry-Returns r s')
      | inr other ↦ rw other (_, refl)
    ]

    started-Returns :
        (codename path : Bytes) (owner : Owner) (body : Bytes) (expired : Option Error) (s : S)
        → Returns (started coder store o codename path owner body attempt turn again expired s)
    unfolding started
    started-Returns codename path owner body (some e) s = (_, refl)
    started-Returns codename path owner body none s =
        let (r, s') = store.put path (ok body) (lock_options o.cache_control) s in
        after_write-Returns codename path owner r s'

  attempts-Returns :
      (o : Options) (codename path : Bytes) (owner : Owner) (body : Bytes) (turns : ℕ → Turn S)
      (fuel attempt : ℕ) (s : S)
      → 1 ≤ o.max_attempts
      → suc o.max_attempts < 9223372036854775808
      → attempt ≤ suc o.max_attempts
      → suc (suc o.max_attempts) ≤ fuel + attempt
      → Returns (attempts coder store o codename path owner body turns fuel attempt s)
  unfolding attempts attempt_once
  attempts-Returns o codename path owner body turns zero attempt s l h a f = absurd (omega arith)
  attempts-Returns o codename path owner body turns (suc fuel) attempt s l h a f =
      let unlimited = signed_less-lt o.max_attempts 1 (omega arith) (omega arith) in
      let passed = signed_less-lt o.max_attempts attempt (omega arith) (omega arith) in
      elim (Bool-cases (signed_less o.max_attempts 1 || not (signed_less o.max_attempts attempt))) [
        | inr over ↦ rw over (_, refl)
        | inl within ↦
            let inside : attempt ≤ o.max_attempts = ground (arith, unlimited, passed) in
            rw within (
              started-Returns o attempt (turns attempt) _
                (λ s'.
                  attempts-Returns o codename path owner body turns fuel (suc attempt) s' l h
                    (omega arith) (omega arith))
                codename path owner body (turns attempt).expired s)
      ]

  encoded-Returns :
      (o : Options) (codename path : Bytes) (owner : Owner) (turns : ℕ → Turn S)
      (body : Result Bytes) (s : S)
      → 1 ≤ o.max_attempts
      → suc o.max_attempts < 9223372036854775808
      → Returns (encoded coder store o codename path owner turns (suc o.max_attempts) body s)
  unfolding encoded
  encoded-Returns o codename path owner turns (err e) s l h = (_, refl)
  encoded-Returns o codename path owner turns (ok body) s l h =
      attempts-Returns o codename path owner body turns (suc o.max_attempts) 1 s l h (omega arith)
        (omega arith)

  owned-Returns :
      (o : Options) (codename path : Bytes) (turns : ℕ → Turn S) (owner : Result Owner) (s : S)
      → 1 ≤ o.max_attempts
      → suc o.max_attempts < 9223372036854775808
      → Returns (owned coder store o codename path turns (suc o.max_attempts) owner s)
  unfolding owned
  owned-Returns o codename path turns (err e) s l h = (_, refl)
  owned-Returns o codename path turns (ok owner) s l h =
      encoded-Returns o codename path owner turns (coder.encode owner) s l h

  located_lock-Returns :
      (o : Options) (codename : Bytes) (turns : ℕ → Turn S) (path : Result Bytes) (s : S)
      → 1 ≤ o.max_attempts
      → suc o.max_attempts < 9223372036854775808
      → Returns (located_lock coder store o codename turns (suc o.max_attempts) path s)
  unfolding located_lock
  located_lock-Returns o codename turns (err e) s l h = (_, refl)
  located_lock-Returns o codename turns (ok path) s l h =
      owned-Returns o codename path turns (acquiring_owner coder o) s l h

  with_deleter-Returns :
      (o : Options) (codename : Bytes) (turns : ℕ → Turn S)
      (delete : Option (Bytes → Bytes → M S (Unit {0}))) (s : S)
      → 1 ≤ (options_with_defaults o).max_attempts
      → suc (options_with_defaults o).max_attempts < 9223372036854775808
      → Returns (
          with_deleter coder store o codename turns
            (suc (options_with_defaults o).max_attempts)
            delete
            s)
  unfolding with_deleter
  with_deleter-Returns o codename turns none s l h = (_, refl)
  with_deleter-Returns o codename turns (some delete) s l h =
      located_lock-Returns (options_with_defaults o) codename turns (checked_lock_path codename) s l
        h

  -- With a positive bound on the attempts, `Acquire` returns, whatever the store answers and others
  -- do: fuel for one round more than the bound is enough.
  pub acquire-Returns :
      (o : Options) (codename : Bytes) (turns : ℕ → Turn S) (s : S)
      → 1 ≤ (options_with_defaults o).max_attempts
      → suc (options_with_defaults o).max_attempts < 9223372036854775808
      → Returns
          (acquire coder store o codename turns (suc (options_with_defaults o).max_attempts) s)
  unfolding acquire
  acquire-Returns o codename turns s l h =
      with_deleter-Returns o codename turns store.delete_if_match s l h
