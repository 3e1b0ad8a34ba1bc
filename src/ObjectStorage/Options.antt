-- ===== src/ObjectStorage/Options.antt =====
-- object_storage.rs: AwsOptions and GcpOptions, how a setting is made (`set`) and listed
-- (`entries`).
use Prim.Native.Char.{code}
use Prim.Native.String.{◌++◌ as append}
use text.Mathlib.Text.{◌==◌ as str_eq}
use xorq_datafusion.Common.{
  ◌≡◌, Bool, ◌||◌, Option, none, some, List, [], ◌∷◌, String, Result, ok, err, configuration, ◌>>=◌,
  ◌==◌, if◌then◌else◌,
}

-- `ConfigField` of DataFusion for `Option<String>` and `Option<bool>`: a setting is given the rest
-- of its key, its text and its value so far.
pub record ConfigField : Type 0 where
  pub set_string : String → String → Option String → Result (Option String)
  pub set_bool : String → String → Option Bool → Result (Option Bool)
  pub parse_bool : String → Option Bool
  pub display_bool : Bool → String
  pub set_string-some :
      (rem v : String) (old : Option String) {o : Option String}
      → set_string rem v old ≡ ok o
      → o ≡ some v
  pub set_bool-parse_bool :
      (rem v : String) (old : Option Bool) {o : Option Bool}
      → set_bool rem v old ≡ ok o
      → o ≡ parse_bool v

-- `key.split_once('.').unwrap_or((key, ""))`
unfoldable pub split_key : String → String × String
split_key String.[] = ("", "")
split_key (String.◌∷◌ c s) =
    let rest = split_key s in if code c == b'.' then ("", s) else (String.◌∷◌ c rest.0, rest.1)

pub record AwsOptions : Type 0 where
  pub access_key_id : Option String
  pub secret_access_key : Option String
  pub session_token : Option String
  pub region : Option String
  pub endpoint : Option String
  pub allow_http : Option Bool

pub record GcpOptions : Type 0 where
  pub service_account_path : Option String
  pub service_account_key : Option String
  pub application_credentials_path : Option String

-- A `ConfigEntry`: its key and its value. The code gives each an empty description.
abbrev pub ConfigEntry : Type 0
ConfigEntry = String × Option String

-- `Visit` shows the value of a setting that is made.
abbrev pub shown : (Bool → String) → Option Bool → Option String
shown display none = none
shown display (some b) = some (display b)

module _ (field : ConfigField) where
  open field use {set_string, set_bool, display_bool}

  unfoldable pub set_aws_field : String → String → String → AwsOptions → Result AwsOptions
  set_aws_field key rem value o =
      if str_eq key "access_key_id"
      then (do x ← set_string rem value o.access_key_id; ok (record o { access_key_id = x }))
      else if str_eq key "secret_access_key"
      then (do
        x ← set_string rem value o.secret_access_key
        ok (record o { secret_access_key = x }))
      else if str_eq key "session_token"
      then (do x ← set_string rem value o.session_token; ok (record o { session_token = x }))
      else if str_eq key "region"
      then (do x ← set_string rem value o.region; ok (record o { region = x }))
      else if str_eq key "oss" || (str_eq key "cos" || str_eq key "endpoint")
      then (do x ← set_string rem value o.endpoint; ok (record o { endpoint = x }))
      else if str_eq key "allow_http"
      then (do x ← set_bool rem value o.allow_http; ok (record o { allow_http = x }))
      else err (configuration (append "Config value \"" (append rem "\" not found on AwsOptions")))

  unfoldable pub set_aws : String → String → AwsOptions → Result AwsOptions
  set_aws key value o =
      let aws_key = split_key (split_key key).1 in set_aws_field aws_key.0 aws_key.1 value o

  unfoldable pub aws_entries : AwsOptions → List ConfigEntry
  aws_entries o =
      ("access_key_id", o.access_key_id)
      ∷ ("secret_access_key", o.secret_access_key)
      ∷ ("session_token", o.session_token)
      ∷ ("region", o.region)
      ∷ ("endpoint", o.endpoint)
      ∷ ("allow_http", shown display_bool o.allow_http)
      ∷ []

  unfoldable pub set_gcp_field : String → String → GcpOptions → Result GcpOptions
  set_gcp_field rem value o =
      if str_eq rem "service_account_path"
      then (do
        x ← set_string rem value o.service_account_path
        ok (record o { service_account_path = x }))
      else if str_eq rem "service_account_key"
      then (do
        x ← set_string rem value o.service_account_key
        ok (record o { service_account_key = x }))
      else if str_eq rem "application_credentials_path"
      then (do
        x ← set_string rem value o.application_credentials_path
        ok (record o { application_credentials_path = x }))
      else err (configuration (append "Config value \"" (append rem "\" not found on GcpOptions")))

  unfoldable pub set_gcp : String → String → GcpOptions → Result GcpOptions
  set_gcp key value o = set_gcp_field (split_key key).1 value o

unfoldable pub gcp_entries : GcpOptions → List ConfigEntry
gcp_entries o =
    ("service_account_path", o.service_account_path)
    ∷ ("service_account_key", o.service_account_key)
    ∷ ("application_credentials_path", o.application_credentials_path)
    ∷ []
