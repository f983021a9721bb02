-- ===== src/Signing/Vouched.antt =====
-- internal/signing/gpg.go: what `Sign` returns, and what it leaves behind, on a machine whose gpg and
-- whose files do what their documents say.
use deb_s3_go.Base.{
  ℕ, suc, [], length, Option, none, some, Bytes, Error, wrap, Result, ok, err, ok-injective, ℕ,
  zero, ◌≡◌, ◌≢◌, refl, sym, ap, ◌∙◌, ◌⊎◌, inl, inr,
}
use mathlib.Core.Path.{subst}
use deb_s3_go.Storage.Objects.{lift, on_error, continue, wrapped}
use deb_s3_go.Storage.Events.{wrapped-eq-ok}
use deb_s3_go.Storage.Stages.{bind-ok}
use deb_s3_go.Apt.Release.{SignatureArtifacts}
use deb_s3_go.Signing.{
  GpgSigner, Machine, key_arguments, common_arguments, clear_arguments, detached_arguments,
  provider_of, required, require_file, release_path, in_release_path, detached_path, reading,
  verified, sign_in, sign, removing,
}
use deb_s3_go.Signing.Documented.{clear_check, detached_check, IsDocumented}

required-ok : (r : Result (Option ℕ)) → required r ≡ ok tt → (n : ℕ) × (r ≡ ok (some (suc n)))
required-ok (err e) h = cc
required-ok (ok none) h = cc
required-ok (ok (some zero)) h = cc
required-ok (ok (some (suc n))) h = (n, refl)

module _ {W : Type 0} (machine : Machine W) (IsClear : Bytes → Type 0)
    (IsDetached : Bytes → Bytes → Type 0) (s : GpgSigner) where
  -- Both signatures are there and are good, the detached one for the release.
  pub record IsVouched (release : Bytes) (a : SignatureArtifacts) : Type 0 where
    pub clear : IsClear a.in_release
    pub detached : IsDetached a.release_gpg release
    pub clear_there : a.in_release ≢ []
    pub detached_there : a.release_gpg ≢ []

  module _ (d : IsDocumented machine IsClear IsDetached s) (release directory : Bytes) where
    there :
        (p c : Bytes) (w : W)
        → (require_file machine p w).0 ≡ ok tt
        → machine.read_file p w ≡ ok c
        → c ≢ []
    unfolding require_file
    there p c w h e =
        let (n, sized) = required-ok (machine.size_of p w) h in
        let long = d.sized p c (suc n) w sized e in
        λ empty. cc (long, ap (λ (x : Bytes). length x) empty)

    after_clear : W → W
    after_clear w =
        (machine.run (provider_of s) (clear_check (in_release_path machine directory)) w).1

    after_checks : W → W
    unfolding after_clear
    after_checks w =
        (machine.run (provider_of s)
          (detached_check (detached_path machine directory) (release_path machine directory))
          (after_clear w)).1

    same_after : (p : Bytes) (w : W) → machine.read_file p (after_checks w) ≡ machine.read_file p w
    unfolding after_clear after_checks
    same_after p w =
        d.spared_detached_check directory p (after_clear w) ∙ d.spared_clear_check directory p w

    read-Vouched :
        (c t : Bytes) (w : W)
        → machine.read_file (release_path machine directory) w ≡ ok release
        → (require_file machine (in_release_path machine directory) w).0 ≡ ok tt
        → (require_file machine (detached_path machine directory) w).0 ≡ ok tt
        → (machine.run (provider_of s) (clear_check (in_release_path machine directory)) w).0
          ≡ ok tt
        → (machine.run
            (provider_of s)
            (detached_check (detached_path machine directory) (release_path machine directory))
            (after_clear w)).0
          ≡ ok tt
        → machine.read_file (in_release_path machine directory) (after_checks w) ≡ ok c
        → machine.read_file (detached_path machine directory) (after_checks w) ≡ ok t
        → IsVouched release (record { in_release = c; release_gpg = t })
    unfolding after_clear
    read-Vouched c t w at there_clear there_detached good_clear good_detached read_c read_t =
        let clear = sym (same_after (in_release_path machine directory) w) ∙ read_c in
        let signature = sym (same_after (detached_path machine directory) w) ∙ read_t in
        let early = λ (p : Bytes). d.spared_clear_check directory p w in
        record {
          clear = d.accepts_clear _ c w good_clear clear;
          detached =
              d.accepts_detached _ _ t release (after_clear w) good_detached
                (early (detached_path machine directory) ∙ signature)
                (early (release_path machine directory) ∙ at);
          clear_there = there _ c w there_clear clear;
          detached_there = there _ t w there_detached signature;
        }

    verified-Vouched :
        {a : SignatureArtifacts} (w : W)
        → machine.read_file (release_path machine directory) w ≡ ok release
        → (require_file machine (in_release_path machine directory) w).0 ≡ ok tt
        → (require_file machine (detached_path machine directory) w).0 ≡ ok tt
        → (verified machine s directory w).0 ≡ ok a
        → IsVouched release a
    unfolding verified after_clear after_checks
    verified-Vouched {a} w at there_clear there_detached h =
        let (_, e1, h1) =
          bind-ok
            (on_error (wrap "verify InRelease")
              (machine.run (provider_of s) (clear_check (in_release_path machine directory))))
            _ w h in
        let (_, e2, h2) =
          bind-ok
            (on_error (wrap "verify Release.gpg") (
              machine.run (provider_of s) (
                detached_check (detached_path machine directory) (release_path machine directory))))
            _ _ h1 in
        let (c, e3, h3) =
          bind-ok (reading machine "read InRelease" (in_release_path machine directory)) _ _ h2 in
        let (t, e4, h4) =
          bind-ok (reading machine "read Release.gpg" (detached_path machine directory)) _ _ h3 in
        subst (IsVouched release) (ok-injective h4) (
          read-Vouched c t w at there_clear there_detached (wrapped-eq-ok _ _ e1)
            (wrapped-eq-ok _ _ e2) (wrapped-eq-ok _ _ e3) (wrapped-eq-ok _ _ e4))

    sign_in-Vouched :
        {a : SignatureArtifacts} (w : W)
        → (sign_in machine s release directory w).0 ≡ ok a
        → IsVouched release a
    unfolding sign_in
    sign_in-Vouched w h =
        let (_, e1, h1) =
          bind-ok
            (on_error (wrap "write Release for signing")
              (machine.write_file (release_path machine directory) release))
            _ w h in
        let (keys, e2, h2) = bind-ok (lift (key_arguments s.keys)) _ _ h1 in
        let (_, e3, h3) =
          bind-ok
            (on_error (wrap "create InRelease") (
              machine.run (provider_of s) (
                clear_arguments (common_arguments s keys) (in_release_path machine directory)
                  (release_path machine directory))))
            _ _ h2 in
        let (_, e4, h4) =
          bind-ok
            (on_error (wrap "create Release.gpg") (
              machine.run (provider_of s) (
                detached_arguments (common_arguments s keys) (detached_path machine directory)
                  (release_path machine directory))))
            _ _ h3 in
        let (_, e5, h5) =
          bind-ok (require_file machine (in_release_path machine directory)) _ _ h4 in
        let (_, e6, h6) = bind-ok (require_file machine (detached_path machine directory)) _ _ h5 in
        verified-Vouched _
          (d.spared_detached keys directory _
            ∙ d.spared_clear keys directory _
            ∙ d.written _ _ _ (wrapped-eq-ok _ _ e1))
          e5 e6 h6

  -- The last thing done is to remove the directory, behind an error or signatures that are good.
  pub record EndsWith (release directory : Bytes) (run : Result SignatureArtifacts × W)
      : Type 0 where
    pub before : W
    pub removed_last : run.1 ≡ (machine.remove_all directory before).1
    pub outcome :
        ((e : Error) × (run.0 ≡ err e))
        ⊎ ((a : SignatureArtifacts) × (run.0 ≡ ok a) × IsVouched release a)

  removed-EndsWith :
      (release directory : Bytes) (run : Result SignatureArtifacts × W)
      → ((a : SignatureArtifacts) → run.0 ≡ ok a → IsVouched release a)
      → EndsWith release directory (run.0, (machine.remove_all directory run.1).1)
  removed-EndsWith release directory run h = record {
    before = run.1;
    removed_last = refl;
    outcome = outcome_of run.0 h;
  }
    where
      outcome_of :
          (r : Result SignatureArtifacts)
          → ((a : SignatureArtifacts) → r ≡ ok a → IsVouched release a)
          → ((e : Error) × (r ≡ err e))
            ⊎ ((a : SignatureArtifacts) × (r ≡ ok a) × IsVouched release a)
      outcome_of (err e) h = inl (e, refl)
      outcome_of (ok a) h = inr (a, refl, h a refl)

  abbrev pub SignOutcome : Bytes → W → Result SignatureArtifacts × W → Type 0
  SignOutcome release w run =
      ((e : Error) × ((machine.make_temporary w).0 ≡ err e)
        × (run ≡ (err (wrap "create signing directory" e), (machine.make_temporary w).1)))
      ⊎ ((directory : Bytes) × ((machine.make_temporary w).0 ≡ ok directory)
          × EndsWith release directory run)

  -- Whatever the machine does, of which what is documented of gpg and of the files holds, Sign ends in one
  -- of three ways: no directory could be made, and nothing else is done; an error; or artifacts that gpg
  -- vouches for: InRelease is signed, Release.gpg is a signature of the very release that was given,
  -- and neither is empty. Once there is a directory, removing it is the last thing done, also behind
  -- an error; whether that succeeds is not looked at.
  pub sign_outcomes :
      IsDocumented machine IsClear IsDetached s
      → (release : Bytes) (w : W) → SignOutcome release w (sign machine s release w)
  unfolding sign
  sign_outcomes d release w = go (machine.make_temporary w).0
    where
      next : Bytes → W → Result SignatureArtifacts × W
      next directory x = removing machine directory (sign_in machine s release directory x)

      go :
          (r : Result Bytes)
          → ((e : Error) × (r ≡ err e)
              × (continue
                    (wrapped (wrap "create signing directory") r)
                    next
                    (machine.make_temporary w).1
                  ≡ (err (wrap "create signing directory" e), (machine.make_temporary w).1)))
            ⊎ ((directory : Bytes) × (r ≡ ok directory)
                × EndsWith release directory (
                    continue
                      (wrapped (wrap "create signing directory") r)
                      next
                      (machine.make_temporary w).1))
      go (err e) = inl (e, refl, refl)
      go (ok directory) = inr (
        directory,
        refl,
        removed-EndsWith release directory
            (sign_in machine s release directory (machine.make_temporary w).1)
            (λ a. sign_in-Vouched d release directory (machine.make_temporary w).1),
      )
