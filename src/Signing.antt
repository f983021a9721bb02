-- ===== src/Signing.antt =====
-- internal/signing/gpg.go: the options of gpg, and signing a release with it. The program that is run
-- and the files are parameters; what a failed run prints is part of its error.
pub mod Documented
pub mod Quoted
pub mod Vouched
use deb_s3_go.Base.{
  ℕ, Bool, true, false, not, leb, ◌||◌, ◌&&◌, ◌==◌, List, [], ◌∷◌, ◌++◌, Option, none, some, Bytes,
  Error, message, wrap, Result, ok, err, if◌then◌else◌, String,
}
use deb_s3_go.Base.Runes.{runes, runes_from, encode_rune}
use deb_s3_go.Base.Strings.{codes, equal, is_space, trim_space}
use deb_s3_go.Base.Paths.{path_join}
use deb_s3_go.Storage.Objects.{M, pure, raise, lift, ◌>>=◌, ◌>>◌, on_error}
use deb_s3_go.Apt.Release.{SignatureArtifacts}

-- The variables of `ParseOptions`; the quote is 0 outside quotes.
pub record Tokens : Type 0 where
  pub options : List Bytes
  pub current : Bytes
  pub quote : ℕ
  pub escaped : Bool
  pub have_token : Bool

abbrev pub no_tokens : Tokens
no_tokens = record { options = []; current = []; quote = 0; escaped = false; have_token = false }

unfoldable pub flush : Tokens → Tokens
flush t =
    if t.have_token
    then record t { options = t.options ++ (t.current ∷ []); current = []; have_token = false }
    else t

-- `WriteRune`
abbrev appended : ℕ → Tokens → Tokens
appended c t = record t { current = t.current ++ encode_rune c; have_token = true }

-- `unicode.IsSpace`
abbrev is_space_rune : ℕ → Bool
is_space_rune c =
    is_space c
    || c == 133
    || c == 160
    || c == 5760
    || (leb 8192 c && leb c 8202)
    || c == 8232
    || c == 8233
    || c == 8239
    || c == 8287
    || c == 12288

-- The loop's body, on a rune.
unfoldable pub token_step : Tokens → ℕ → Tokens
unfolding flush
token_step t c =
    if t.escaped
    then record (appended c t) { escaped = false }
    else if c == b'\\' && not (t.quote == b'\'')
    then record t { escaped = true; have_token = true }
    else if not (t.quote == 0)
    then (if c == t.quote then record t { quote = 0; have_token = true } else appended c t)
    else if c == b'\'' || c == b'"'
    then record t { quote = c; have_token = true }
    else if is_space_rune c
    then flush t
    else appended c t

unfoldable pub tokens_of : Tokens → List ℕ → Tokens
unfolding token_step
tokens_of t [] = t
tokens_of t (c ∷ input) = tokens_of (token_step t c) input

unfoldable pub finished : Tokens → Result (List Bytes)
unfolding flush
finished t =
    if t.escaped
    then err (message "unterminated escape in GPG options")
    else if not (t.quote == 0)
    then err (message "unterminated quote in GPG options")
    else ok (flush t).options

-- `ParseOptions`, over the runes of a string
unfoldable pub parse_options : Bytes → Result (List Bytes)
unfolding tokens_of finished runes_from
parse_options input = finished (tokens_of no_tokens (runes input))

-- `GPGSigner`, without the environment of the program
pub record GpgSigner : Type 0 where
  pub provider : Bytes
  pub keys : List Bytes
  pub extra_options : List Bytes

-- The machine, with a state `W`: a new directory, files, and runs of a program. The size of a file is
-- `none` where there is no file.
pub record Machine (W : Type 0) : Type 0 where
  pub make_temporary : M W Bytes
  pub write_file : Bytes → Bytes → M W (Unit {0})
  pub run : Bytes → List Bytes → M W (Unit {0})
  pub size_of : Bytes → W → Result (Option ℕ)
  pub read_file : Bytes → W → Result Bytes
  pub remove_all : Bytes → M W (Unit {0})

-- The arguments that both runs share.
abbrev pub with_key : Bytes → Result (List Bytes) → Result (List Bytes)
with_key key (err e) = err e
with_key key (ok rest) = ok (codes "--local-user" ∷ key ∷ rest)

unfoldable pub key_arguments : List Bytes → Result (List Bytes)
key_arguments [] = ok []
key_arguments (key ∷ keys) =
    if equal (trim_space key) []
    then err (message "GPG signing key cannot be empty")
    else with_key key (key_arguments keys)

abbrev pub common_arguments : GpgSigner → List Bytes → List Bytes
common_arguments s keys =
    codes "--batch"
    ∷ codes "--yes"
    ∷ codes "--armor"
    ∷ (keys ++ (s.extra_options ++ (codes "--digest-algo" ∷ codes "SHA256" ∷ [])))

abbrev pub clear_arguments : List Bytes → Bytes → Bytes → List Bytes
clear_arguments common output release =
    common ++ (codes "--output" ∷ output ∷ codes "--clearsign" ∷ release ∷ [])

abbrev pub detached_arguments : List Bytes → Bytes → Bytes → List Bytes
detached_arguments common output release =
    common ++ (codes "--output" ∷ output ∷ codes "--detach-sign" ∷ release ∷ [])

abbrev pub provider_of : GpgSigner → Bytes
provider_of s = if equal s.provider [] then codes "gpg" else s.provider

-- `requireFile`
abbrev pub required : Result (Option ℕ) → Result (Unit {0})
required (err e) = err (wrap "inspect signature" e)
required (ok none) = err (message "GPG did not create a signature")
required (ok (some size)) =
    if size == 0 then err (message "GPG created an empty signature") else ok tt

module _ {W : Type 0} (machine : Machine W) where
  unfoldable pub require_file : Bytes → M W (Unit {0})
  require_file filename w = (required (machine.size_of filename w), w)

  abbrev pub reading : String → Bytes → M W Bytes
  reading text filename w = on_error (wrap text) (λ v. (machine.read_file filename v, v)) w

  abbrev pub release_path : Bytes → Bytes
  release_path directory = path_join (directory ∷ codes "Release" ∷ [])

  abbrev pub in_release_path : Bytes → Bytes
  in_release_path directory = path_join (directory ∷ codes "InRelease" ∷ [])

  abbrev pub detached_path : Bytes → Bytes
  detached_path directory = path_join (directory ∷ codes "Release.gpg" ∷ [])

  -- From the two verifications on.
  unfoldable pub verified : GpgSigner → Bytes → M W SignatureArtifacts
  verified s directory = do
    on_error (wrap "verify InRelease") (
        machine.run (provider_of s)
          (codes "--batch" ∷ codes "--verify" ∷ in_release_path directory ∷ []))
    on_error (wrap "verify Release.gpg") (
        machine.run (provider_of s) (
          codes "--batch"
          ∷ codes "--verify"
          ∷ detached_path directory
          ∷ release_path directory
          ∷ []))
    in_release ← reading "read InRelease" (in_release_path directory)
    detached ← reading "read Release.gpg" (detached_path directory)
    pure (record { in_release = in_release; release_gpg = detached })

  -- In the directory.
  unfoldable pub sign_in : GpgSigner → Bytes → Bytes → M W SignatureArtifacts
  unfolding key_arguments require_file verified
  sign_in s release directory = do
    on_error (wrap "write Release for signing")
        (machine.write_file (release_path directory) release)
    keys ← lift (key_arguments s.keys)
    on_error (wrap "create InRelease") (
        machine.run (provider_of s) (
          clear_arguments (common_arguments s keys) (in_release_path directory)
            (release_path directory)))
    on_error (wrap "create Release.gpg") (
        machine.run (provider_of s) (
          detached_arguments (common_arguments s keys) (detached_path directory)
            (release_path directory)))
    require_file (in_release_path directory)
    require_file (detached_path directory)
    verified s directory

  -- `Sign`; whatever comes of it, removing the directory is tried, and no error of that is looked at.
  abbrev pub removing : Bytes → Result SignatureArtifacts × W → Result SignatureArtifacts × W
  removing directory (r, w) = (r, (machine.remove_all directory w).1)

  unfoldable pub sign : GpgSigner → Bytes → M W SignatureArtifacts
  unfolding sign_in
  sign s release =
      on_error (wrap "create signing directory") machine.make_temporary >>= λ directory w.
      removing directory (sign_in s release directory w)
