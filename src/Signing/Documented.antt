-- ===== src/Signing/Documented.antt =====
-- internal/signing/gpg.go: what is relied on of gpg and of the files of a machine.
use deb_s3_go.Base.{ℕ, List, [], ◌∷◌, length, some, Bytes, ok, ℕ, ◌≡◌}
use deb_s3_go.Base.Strings.{codes}
use deb_s3_go.Signing.{
  GpgSigner, Machine, common_arguments, clear_arguments, detached_arguments, provider_of,
  release_path, in_release_path, detached_path,
}

-- `gpg --verify` of a text that is signed in place, and of a signature and a text.
abbrev pub clear_check : Bytes → List Bytes
clear_check signed = codes "--batch" ∷ codes "--verify" ∷ signed ∷ []

abbrev pub detached_check : Bytes → Bytes → List Bytes
detached_check signature text = codes "--batch" ∷ codes "--verify" ∷ signature ∷ text ∷ []

-- What is documented of the files, and of gpg with the options of `s`: a file has the text that was written
-- to it, and its length; signing with `--output` leaves the text that is signed alone; the two calls
-- that verify write no file, and accept a signature only where it is one.
pub record IsDocumented {W : Type 0} (machine : Machine W) (IsClear : Bytes → Type 0)
    (IsDetached : Bytes → Bytes → Type 0) (s : GpgSigner) : Type 0 where
  pub written :
      (p c : Bytes) (w : W)
      → (machine.write_file p c w).0 ≡ ok tt
      → machine.read_file p (machine.write_file p c w).1 ≡ ok c
  pub sized :
      (p c : Bytes) (n : ℕ) (w : W)
      → machine.size_of p w ≡ ok (some n)
      → machine.read_file p w ≡ ok c
      → length c ≡ n
  pub spared_clear :
      (keys : List Bytes) (d : Bytes) (w : W)
      → machine.read_file
          (release_path machine d)
          (machine.run
            (provider_of s)
            (clear_arguments
              (common_arguments s keys)
              (in_release_path machine d)
              (release_path machine d))
            w).1
        ≡ machine.read_file (release_path machine d) w
  pub spared_detached :
      (keys : List Bytes) (d : Bytes) (w : W)
      → machine.read_file
          (release_path machine d)
          (machine.run
            (provider_of s)
            (detached_arguments
              (common_arguments s keys)
              (detached_path machine d)
              (release_path machine d))
            w).1
        ≡ machine.read_file (release_path machine d) w
  pub spared_clear_check :
      (d p : Bytes) (w : W)
      → machine.read_file p
          (machine.run (provider_of s) (clear_check (in_release_path machine d)) w).1
        ≡ machine.read_file p w
  pub spared_detached_check :
      (d p : Bytes) (w : W)
      → machine.read_file p
          (machine.run
            (provider_of s)
            (detached_check (detached_path machine d) (release_path machine d))
            w).1
        ≡ machine.read_file p w
  pub accepts_clear :
      (p c : Bytes) (w : W)
      → (machine.run (provider_of s) (clear_check p) w).0 ≡ ok tt
      → machine.read_file p w ≡ ok c
      → IsClear c
  pub accepts_detached :
      (p q c t : Bytes) (w : W)
      → (machine.run (provider_of s) (detached_check p q) w).0 ≡ ok tt
      → machine.read_file p w ≡ ok c
      → machine.read_file q w ≡ ok t
      → IsDetached c t
