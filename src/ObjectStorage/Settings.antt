-- ===== src/ObjectStorage/Settings.antt =====
-- What a setting of an object store changes among the settings that are listed.
use text.Mathlib.Text.{◌==◌ as str_eq}
use text.Mathlib.TextEquality.{eq_iff}
use xorq_datafusion.Common.{
  ◌≡◌, ◌||◌, Option, some, List, [], ◌∷◌, String, arith, ok, if◌then◌else◌, ◌⊎◌, inl, inr, subst,
  sym,
}
use xorq_datafusion.ObjectStorage.Options.{
  ConfigField, split_key, AwsOptions, GcpOptions, ConfigEntry, shown, set_aws_field, aws_entries,
  set_gcp_field, set_gcp, gcp_entries,
}

-- The entries with the value of one key replaced.
abbrev pub put : String → Option String → List ConfigEntry → List ConfigEntry
put key value [] = []
put key value ((k, v) ∷ entries) = (k, if str_eq k key then value else v) ∷ put key value entries

-- The setting that a name stands for: OSS and COS name the endpoint.
abbrev pub target : String → String
target key = if str_eq key "oss" || str_eq key "cos" then "endpoint" else key

abbrev pub IsAmong : String → List String → Type 0
IsAmong key [] = ⊥
IsAmong key (k ∷ ks) = (key ≡ k) ⊎ IsAmong key ks

abbrev All : (String → Type 0) → List String → Type 0
All P [] = Unit {0}
All P (k ∷ ks) = P k × All P ks

-- What holds at each name holds at a text that is one of them.
at_name :
    (P : String → Type 0) (key : String) (ks : List String) → All P ks → IsAmong key ks → P key
at_name P key [] ps n = elim n [ ]
at_name P key (k ∷ ks) (p, ps) (inl e) = subst P (sym e) p
at_name P key (k ∷ ks) (p, ps) (inr n) = at_name P key ks ps n

-- The names of settings, aliases included.
abbrev pub aws_names : List String
aws_names =
    "access_key_id" ∷ "secret_access_key" ∷ "session_token" ∷ "region" ∷ "oss" ∷ "cos" ∷ "endpoint"
    ∷ "allow_http" ∷ []

abbrev gcp_names : List String
gcp_names = "service_account_path" ∷ "service_account_key" ∷ "application_credentials_path" ∷ []

module _ (field : ConfigField) where
  abbrev pub given : String → String → Option String
  given key value =
      if str_eq key "allow_http"
      then shown field.display_bool (field.parse_bool value)
      else some value

  -- What a setting under a name has to do to the entries.
  Sets : AwsOptions → AwsOptions → String → String → String → Type 0
  Sets o o' rem value key =
      set_aws_field field key rem value o ≡ ok o'
      → aws_entries field o' ≡ put (target key) (given (target key) value) (aws_entries field o)

  module _ (value : String) (o o' : GcpOptions) where
    service_account_path_kept :
        set_gcp_field field "service_account_path" value o ≡ ok o'
        → gcp_entries o' ≡ put "service_account_path" (some value) (gcp_entries o)
    unfolding set_gcp_field gcp_entries
    service_account_path_kept h = ground (
      arith,
      field.set_string-some "service_account_path" value o.service_account_path
          {o = o'.service_account_path},
    )

    service_account_key_kept :
        set_gcp_field field "service_account_key" value o ≡ ok o'
        → gcp_entries o' ≡ put "service_account_key" (some value) (gcp_entries o)
    unfolding set_gcp_field gcp_entries
    service_account_key_kept h = ground (
      arith,
      field.set_string-some "service_account_key" value o.service_account_key
          {o = o'.service_account_key},
    )

    application_credentials_path_kept :
        set_gcp_field field "application_credentials_path" value o ≡ ok o'
        → gcp_entries o' ≡ put "application_credentials_path" (some value) (gcp_entries o)
    unfolding set_gcp_field gcp_entries
    application_credentials_path_kept h = ground (
      arith,
      field.set_string-some "application_credentials_path" value o.application_credentials_path
          {o = o'.application_credentials_path},
    )

    set_gcp_field-IsAmong :
        (rem : String) → set_gcp_field field rem value o ≡ ok o' → IsAmong rem gcp_names
    unfolding set_gcp_field
    set_gcp_field-IsAmong rem h = ground (
      arith,
      eq_iff rem "service_account_path",
      eq_iff rem "service_account_key",
      eq_iff rem "application_credentials_path",
    )

  -- A GCP setting that is made under a key `gcp.name` stands in the entries under that name, and
  -- the other entries are kept.
  pub set_gcp-gcp_entries :
      (key value : String) (o o' : GcpOptions)
      → set_gcp field key value o ≡ ok o'
      → gcp_entries o' ≡ put (split_key key).1 (some value) (gcp_entries o)
  unfolding set_gcp
  set_gcp-gcp_entries key value o o' h =
      at_name
        (λ k.
          set_gcp_field field k value o ≡ ok o'
          → gcp_entries o' ≡ put k (some value) (gcp_entries o))
        (split_key key).1 gcp_names
        (
          service_account_path_kept value o o',
          (service_account_key_kept value o o', (application_credentials_path_kept value o o', tt)),
        )
        (set_gcp_field-IsAmong value o o' (split_key key).1 h) h
