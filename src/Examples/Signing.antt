-- ===== src/Examples/Signing.antt =====
-- internal/signing: the theorems on gpg options and on `Sign`, applied.
use mathlib.Core.List.{reverse, reverse-append}
use deb_s3_go.Base.{
  ℕ, Bool, true, false, ◌&&◌, ◌==◌, ==_iff, List, [], ◌∷◌, ◌++◌, length, Option, none, some, Bytes,
  Error, message, Result, ok, err, ok-injective, if◌then◌else◌, ◌≡◌, refl, sym, ap, ◌∙◌, Bool-cases,
  inl, inr,
}
use deb_s3_go.Base.{map, All, arith}
use deb_s3_go.Base.Runes.{encoded, IsRune}
use deb_s3_go.Base.Strings.{codes, equal, equal_refl}
use deb_s3_go.Base.Paths.{path_join}
use deb_s3_go.Storage.Objects.{M}
use deb_s3_go.Signing.{
  GpgSigner, Machine, common_arguments, release_path, in_release_path, detached_path, parse_options,
  sign,
}
use deb_s3_go.Signing.Quoted.{command_line, parse_options-command_line}
use deb_s3_go.Signing.Documented.{IsDocumented}
use deb_s3_go.Signing.Vouched.{SignOutcome, sign_outcomes}

-- An option with quotes, one with two letters beyond ASCII, and an empty one.
abbrev some_options : List (List ℕ)
some_options = codes "it's \"here\"\\" ∷ (233 ∷ 8364 ∷ []) ∷ [] ∷ []

some_options-All-IsRune : All (All IsRune) some_options
some_options-All-IsRune = ground arith

parse_options-command_line_example :
    parse_options (encoded (command_line some_options)) ≡ ok (map encoded some_options)
parse_options-command_line_example = parse_options-command_line some_options some_options-All-IsRune

-- A machine that has one directory, and a gpg that signs a text in place with an S before it, and
-- apart with a D and the text.
abbrev Files : Type 0
Files = Bytes → Option Bytes

abbrev found : Option Bytes → Result Bytes
found none = err (message "no such file")
found (some c) = ok c

abbrev measured : Option Bytes → Option ℕ
measured none = none
measured (some c) = some (length c)

abbrev saved : Bytes → Bytes → Files → Files
saved p c w q = if equal q p then some c else w q

abbrev is_clear : Bytes → Bool
is_clear [] = false
is_clear (c ∷ s) = c == b'S'

abbrev is_detached : Bytes → Bytes → Bool
is_detached s t = equal s (b'D' ∷ t)

abbrev clear_in : Option Bytes → Bool
clear_in none = false
clear_in (some c) = is_clear c

abbrev detached_in : Option Bytes → Option Bytes → Bool
detached_in (some s) (some t) = is_detached s t
detached_in _ _ = false

abbrev accepted : List Bytes → Files → Bool
accepted (p ∷ []) w = clear_in (w p)
accepted (p ∷ q ∷ []) w = detached_in (w p) (w q)
accepted _ w = false

abbrev signature : Bytes → Bytes → Bytes
signature mode t = if equal mode (codes "--clearsign") then b'S' ∷ t else b'D' ∷ t

abbrev written_to : Bytes → Bytes → Option Bytes → M Files (Unit {0})
written_to output mode none w = (err (message "no such file"), w)
written_to output mode (some t) w = (ok tt, saved output (signature mode t) w)

abbrev refused : M Files (Unit {0})
refused w = (err (message "usage"), w)

-- From the last argument on.
signing : List Bytes → M Files (Unit {0})
signing (input ∷ mode ∷ output ∷ rest) w =
    if equal input output then refused w else written_to output mode (w input) w
signing _ w = refused w

gpg : List Bytes → M Files (Unit {0})
unfolding signing
gpg (a ∷ b ∷ rest) w =
    if equal b (codes "--verify")
    then ((if accepted rest w then ok tt else err (message "bad signature")), w)
    else signing (reverse (a ∷ b ∷ rest)) w
gpg _ w = refused w

abbrev a_machine : Machine Files
a_machine = record {
  make_temporary = λ w. (ok (codes "/tmp/signing"), w);
  write_file = λ p c w. (ok tt, saved p c w);
  run = λ program arguments w. gpg arguments w;
  size_of = λ p w. ok (measured (w p));
  read_file = λ p w. found (w p);
  remove_all = λ d w. (ok tt, λ p. none);
}

abbrev a_signer : GpgSigner
a_signer = record { provider = []; keys = codes "me" ∷ []; extra_options = codes "--quiet" ∷ [] }

signing-spares :
    (input mode output : Bytes) (rest : List Bytes) (w : Files)
    → found ((signing (input ∷ mode ∷ output ∷ rest) w).1 input) ≡ found (w input)
unfolding signing
signing-spares input mode output rest w = elim (Bool-cases (equal input output)) [
  | inl e ↦ rw e refl
  | inr e ↦ rw e (go (w input) refl e)
]
  where
    go :
        (c : Option Bytes)
        → w input ≡ c
        → equal input output ≡ false
        → found ((written_to output mode c w).1 input) ≡ found (w input)
    go none h e = refl
    go (some t) h e = rw e refl

reversed-spares :
    (common : List Bytes) (input mode output : Bytes) (w : Files)
    → found
        ((signing (reverse (common ++ (codes "--output" ∷ output ∷ mode ∷ input ∷ []))) w).1 input)
      ≡ found (w input)
reversed-spares common input mode output w =
    rw (reverse-append common (codes "--output" ∷ output ∷ mode ∷ input ∷ []))
      (signing-spares input mode output (codes "--output" ∷ reverse common) w)

clear_lem : (o : Option Bytes) (c : Bytes) → clear_in o ≡ true → found o ≡ ok c → is_clear c ≡ true
clear_lem none c h e = cc
clear_lem (some x) c h e = rw⁻¹ (ok-injective e) h

detached_lem :
    (o o' : Option Bytes) (c t : Bytes)
    → detached_in o o' ≡ true
    → found o ≡ ok c
    → found o' ≡ ok t
    → is_detached c t ≡ true
detached_lem none o' c t h e k = cc
detached_lem (some x) none c t h e k = cc
detached_lem (some x) (some y) c t h e k = rw⁻¹ (ok-injective e, ok-injective k) h

sized_lem :
    (o : Option Bytes) (c : Bytes) (n : ℕ)
    → ok (measured o) ≡ ok (some n)
    → found o ≡ ok c
    → length c ≡ n
sized_lem none c n h e = cc
sized_lem (some x) c n h e = cc

accepted_lem :
    (b : Bool) → (if b then ok tt else err (message "bad signature")) ≡ ok (tt {0}) → b ≡ true
accepted_lem true h = refl
accepted_lem false h = cc

a_machine-IsDocumented :
    IsDocumented a_machine (λ c. is_clear c ≡ true) (λ s t. is_detached s t ≡ true) a_signer
unfolding gpg equal
a_machine-IsDocumented = record {
  written = λ p c w h. rw (equal_refl p) refl;
  sized = λ p c n w h e. sized_lem (w p) c n h e;
  spared_clear = λ keys d w.
      reversed-spares (common_arguments a_signer keys) (release_path a_machine d)
        (codes "--clearsign") (in_release_path a_machine d) w;
  spared_detached = λ keys d w.
      reversed-spares (common_arguments a_signer keys) (release_path a_machine d)
        (codes "--detach-sign") (detached_path a_machine d) w;
  spared_clear_check = λ d p w. refl;
  spared_detached_check = λ d p w. refl;
  accepts_clear = λ p c w h e. clear_lem (w p) c (accepted_lem (clear_in (w p)) h) e;
  accepts_detached = λ p q c t w h e k.
      detached_lem (w p) (w q) c t (accepted_lem (detached_in (w p) (w q)) h) e k;
}

-- A release is signed there.
signs_a_release :
    (sign a_machine a_signer (codes "Suite: stable") (λ p. none)).0
    ≡ ok (record { in_release = codes "SSuite: stable"; release_gpg = codes "DSuite: stable" })
unfolding sign gpg equal path_join deb_s3_go.Base.Strings.trim_func deb_s3_go.Base.Paths.clean
    deb_s3_go.Base.Strings.join deb_s3_go.Base.Strings.split
signs_a_release = refl

sign_outcomes_example :
    SignOutcome a_machine
      (λ c. is_clear c ≡ true)
      (λ s t. is_detached s t ≡ true)
      a_signer
      (codes "Suite: stable")
      (λ p. none)
      (sign a_machine a_signer (codes "Suite: stable") (λ p. none))
sign_outcomes_example =
    sign_outcomes a_machine (λ c. is_clear c ≡ true) (λ s t. is_detached s t ≡ true) a_signer
      a_machine-IsDocumented (codes "Suite: stable") (λ p. none)
