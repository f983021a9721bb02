-- ===== src/Config.antt =====
-- internal/config/config.go: the options that all commands share.
use deb_s3_go.Base.{
  Bool, true, false, not, ◌||◌, ◌&&◌, List, [], ◌∷◌, Bytes, message, Result, ok, err, if◌then◌else◌,
  leb, ◌==◌, ℕ,
}
use deb_s3_go.Base.Strings.{codes, equal, member}

-- `Config`
pub record Config : Type 0 where
  pub bucket : Bytes
  pub prefix : Bytes
  pub origin : Bytes
  pub suite : Bytes
  pub codename : Bytes
  pub component : Bytes
  pub section : Bytes
  pub access_key_id : Bytes
  pub secret_access_key : Bytes
  pub session_token : Bytes
  pub endpoint : Bytes
  pub s3_region : Bytes
  pub force_path_style : Bool
  pub proxy_uri : Bytes
  pub visibility : Bytes
  pub sign : Bool
  pub sign_keys : List Bytes
  pub gpg_options : Bytes
  pub gpg_provider : Bytes
  pub encryption : Bool
  pub quiet : Bool
  pub cache_control : Bytes
  pub by_hash : Bool
  pub checksum_when_required : Bool

-- `New`
abbrev pub new_config : Config
new_config = record {
  bucket = [];
  prefix = [];
  origin = [];
  suite = [];
  codename = codes "stable";
  component = codes "main";
  section = [];
  access_key_id = [];
  secret_access_key = [];
  session_token = [];
  endpoint = [];
  s3_region = codes "us-east-1";
  force_path_style = false;
  proxy_uri = [];
  visibility = codes "public";
  sign = false;
  sign_keys = [];
  gpg_options = [];
  gpg_provider = codes "gpg";
  encryption = false;
  quiet = false;
  cache_control = [];
  by_hash = false;
  checksum_when_required = false;
}

abbrev pub visibilities : List Bytes
visibilities =
    codes "public"
    ∷ codes "private"
    ∷ codes "authenticated"
    ∷ codes "bucket_owner"
    ∷ codes "nil"
    ∷ []

abbrev same_bool : Bool → Bool → Bool
same_bool true b = b
same_bool false b = not b

-- `Validate`
unfoldable pub validate : Config → Result (Unit {0})
validate c =
    if equal c.bucket []
    then err (message "no value provided for required option '--bucket'")
    else if not (same_bool (equal c.access_key_id []) (equal c.secret_access_key []))
    then err (message "one of --access-key-id and --secret-access-key without the other")
    else if not (member c.visibility visibilities)
    then err (message "invalid visibility")
    else if equal c.codename []
    then err (message "codename cannot be empty")
    else if equal c.component [] && equal c.section []
    then err (message "component cannot be empty")
    else ok tt

-- `architecturePattern`: `^[a-z0-9][a-z0-9-]*$`
abbrev is_lower_or_digit : ℕ → Bool
is_lower_or_digit c = (leb b'a' c && leb c b'z') || (leb b'0' c && leb c b'9')

all_later : Bytes → Bool
all_later [] = true
all_later (c ∷ s) = (is_lower_or_digit c || c == b'-') && all_later s

matches_architecture : Bytes → Bool
unfolding all_later
matches_architecture [] = false
matches_architecture (c ∷ s) = is_lower_or_digit c && all_later s

-- `ValidateArchitecture`
unfoldable pub validate_architecture : Bytes → Result (Unit {0})
unfolding matches_architecture
validate_architecture architecture =
    if equal architecture []
    then ok tt
    else if not (matches_architecture architecture)
    then err (message "architecture must contain only lowercase letters, numbers, and hyphens")
    else ok tt
