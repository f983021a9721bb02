-- ===== src/Cli/Existing.antt =====
-- internal/cli/commands.go: the exists command, by what Show finds.
use mathlib.Core.Path.{subst}
use deb_s3_go.Base.{
  Bool, true, List, [], ◌∷◌, Bytes, Result, ok, map, All, ◌≡◌, refl, sym, ◌∙◌, ◌↔◌, Result-cases,
  Bool-cases, inl, inr,
}
use deb_s3_go.Storage.Objects.{Store}
use deb_s3_go.Apt.Publishing.{Tools}
use deb_s3_go.Apt.Release.{SignatureArtifacts}
use deb_s3_go.Config.{Config}
use deb_s3_go.Signing.{GpgSigner}
use deb_s3_go.Lock.{Coder}
use deb_s3_go.Query.{Match, show, exists}
use deb_s3_go.Query.Found.{succeeded, exists-show, exists-err}
use deb_s3_go.Cli.{component_for}
use deb_s3_go.Cli.Output.{checked_argument, all_found}
use deb_s3_go.Cli.Commands.{Given, exists_command}

all_found_lem :
    (f : Bytes → Bool) (ms : List Match)
    → All (λ m. m.found ≡ f m.name) ms
    → (all_found ms ≡ ok tt) ↔ All (λ n. f n ≡ true) (map (λ (m : Match). m.name) ms)
unfolding all_found
all_found_lem f [] h = (λ _. tt, λ _. refl)
all_found_lem f (m ∷ ms) h = elim (Bool-cases m.found) [
  | inl e ↦
      let rest = all_found_lem f ms h.1 in
      (λ k. (sym h.0 ∙ e, rest.0 (rw e at k)), λ k. rw e (rest.1 k.1))
  | inr e ↦ (λ k. cc (rw e at k), λ k. cc (h.0, e, k.0))
]

module _ (coder : Coder) (tools : Tools) {S : Type 0}
    (open_store : Config → Result (Store S × Store S))
    (sign_with : GpgSigner → Bytes → Result SignatureArtifacts) (c : Config) (g : Given) where
  -- With a configuration and an architecture that are valid and a store that opens, the exists command,
  -- of at least one name, succeeds exactly when Show of every name, at that version and architecture,
  -- succeeds on the same store.
  pub exists_command-show :
      (store release_store : Store S) (name : Bytes) (names : List Bytes)
      (version architecture : Bytes) (s : S)
      → checked_argument c architecture ≡ ok tt
      → open_store c ≡ ok (store, release_store)
      → ((exists_command coder tools open_store sign_with c g
            (name ∷ names)
            version
            architecture
            s).0
          ≡ ok tt)
        ↔ All
            (λ n.
              succeeded (show store c.codename (component_for c) architecture n version s).0 ≡ true)
            (name ∷ names)
  unfolding exists_command
  exists_command-show store release_store name names version architecture s checked opened =
      rw (checked, opened)
        (elim (Result-cases
          (exists store c.codename (component_for c) architecture version (name ∷ names) s).0) [
            | inl (ms, e) ↦
                let (agree, named) =
                  exists-show store c.codename (component_for c) architecture version (name ∷ names)
                    s e in
                rw e (
                  subst (λ ns. (all_found ms ≡ ok tt) ↔ All (λ n. shows n ≡ true) ns) named
                    (all_found_lem shows ms agree))
            | inr (er, e) ↦
                let unseen =
                  exists-err store c.codename (component_for c) architecture version name
                    (name ∷ names) s e in
                rw e (λ k. cc, λ k. cc (unseen, k.0))
          ])
    where
      shows : Bytes → Bool
      shows n = succeeded (show store c.codename (component_for c) architecture n version s).0
