-- ===== src/ObjectStorage/Register.antt =====
-- object_storage.rs: `register_object_store_and_config_extensions`, and context.rs:
-- `get_object_metadata`, which finds the store of a location without registering it. What happens
-- to the session is returned beside the outcome, since extensions stay registered on an error.
pub mod Outcome
mod Tests
use Prim.Native.String.{◌++◌ as append}
use text.Mathlib.Text.{◌==◌ as str_eq}
use xorq_datafusion.Common.{
  ◌≡◌, refl, Bool, true, false, ◌||◌, Option, none, some, List, [], ◌∷◌, ◌++◌, String, arith,
  Result, ok, err, Error, external, value_error, ◌>>=◌, if◌then◌else◌, ◌⊎◌, inl, inr,
}
use xorq_datafusion.ObjectStorage.Options.{AwsOptions, GcpOptions}
use xorq_datafusion.ObjectStorage.Stores.{Url, SdkConfig, ObjectStores, get_object_store}
use xorq_datafusion.ObjectStorage.Sessions.{
  ConfigFileType, csv, json, parquet, ObjectMeta, Sessions,
}

-- `AwsOptions::default()`, `GcpOptions::default()`
abbrev pub default_aws : AwsOptions
default_aws = record {
  access_key_id = none;
  secret_access_key = none;
  session_token = none;
  region = none;
  endpoint = none;
  allow_http = none;
}

abbrev pub default_gcp : GcpOptions
default_gcp = record {
  service_account_path = none;
  service_account_key = none;
  application_credentials_path = none;
}

-- The patterns of schemes: "s3" | "oss" | "cos", and "gs" | "gcs".
abbrev pub is_aws : String → Bool
is_aws scheme = str_eq scheme "s3" || (str_eq scheme "oss" || str_eq scheme "cos")

abbrev pub is_gcp : String → Bool
is_gcp scheme = str_eq scheme "gs" || str_eq scheme "gcs"

-- The format that `get_object_metadata` reads from its argument.
unfoldable pub format_of : String → Option ConfigFileType
format_of file_format =
    if str_eq file_format "csv"
    then some csv
    else if str_eq file_format "json"
    then some json
    else if str_eq file_format "parquet"
    then some parquet
    else none

unfoldable pub metadata_to_pydict : ObjectMeta → List (String × String)
metadata_to_pydict m =
    ("location", m.location)
    ∷ ("last_modified", m.last_modified)
    ∷ ("size", m.size)
    ∷ ("e_tag", elim m.e_tag [ none ↦ "" | some tag ↦ tag ])
    ∷ elim m.version [ none ↦ [] | some version ↦ ("version", version) ∷ [] ]

-- `storage_options` of the keyword arguments: none given, or given and read, or not readable.
pub storage_options_of : Option (Result (List (String × String))) → List (String × String)
storage_options_of (some (ok options)) = options
storage_options_of _ = []

module _ (os : ObjectStores) (sessions : Sessions os.Store) (config : SdkConfig os.Provider)
    (display : Error → String) where
  open os use {Store}
  open sessions use {
    Session, TableOptions, parse_location, register_aws, register_gcp, default_table_options,
    set_config_format, alter_with_string_hash_map, aws, gcp, register_object_store, get_store,
    object_path, head, get_store-register_aws, get_store-register_gcp,
    get_store-register_object_store, aws-register_aws, gcp-register_gcp,
  }

  -- `match scheme`: the options of the scheme's stores start from their defaults.
  register_extension : String → Session → Session
  register_extension scheme s =
      if is_aws scheme
      then register_aws default_aws s
      else (if is_gcp scheme then register_gcp default_gcp s else s)

  formatted : Option ConfigFileType → TableOptions → TableOptions
  formatted none t = t
  formatted (some format) t = set_config_format format t

  -- `alter_with_string_hash_map` and the loops of context.rs go through a HashMap, whose order is
  -- its own: the options are its entries in the order of one such walk.
  altered : String → List (String × String) → TableOptions → Result TableOptions
  altered scheme options t =
      if is_aws scheme || is_gcp scheme then alter_with_string_hash_map options t else ok t

  -- The store of a URL, with the table options altered by those that are given.
  table_options :
      Url → Option ConfigFileType → List (String × String) → Session → Result TableOptions
  table_options url format options s =
      altered url.scheme options (formatted format (default_table_options s))

  store_of : Url → Session → TableOptions → Result Store
  store_of url s t = get_object_store os config (get_store s) url.scheme url (aws t) (gcp t)

  store_for : Url → Option ConfigFileType → List (String × String) → Session → Result Store
  store_for url format options s = table_options url format options s >>= store_of url s

  register_at :
      Url → Option ConfigFileType → List (String × String) → Session → Session × Result (Unit {0})
  register_at url format options s =
      let s' = register_extension url.scheme s in
      elim (store_for url format options s') [
        | ok store ↦ (register_object_store url store s', ok tt)
        | err e ↦ (s', err e)
      ]

  register_parsed :
      Option ConfigFileType
      → List (String × String)
      → Session
      → Result Url
      → Session × Result (Unit {0})
  register_parsed format options s (ok url) = register_at url format options s
  register_parsed format options s (err e) = (s, err e)

  pub register_object_store_and_config_extensions :
      String
      → Option ConfigFileType
      → List (String × String)
      → Session
      → Session × Result (Unit {0})
  register_object_store_and_config_extensions location format options s =
      register_parsed format options s (parse_location location)

  -- `result`: the error of a store is wrapped as that of the store "Config".
  find_object : Url → Session → TableOptions → Result ObjectMeta
  find_object url s t = elim (store_of url s t) [
    | ok store ↦ object_path url >>= head store
    | err e ↦ err (external (append "Source: " (display e)))
  ]

  metadata_at :
      Url
      → Option ConfigFileType
      → List (String × String)
      → Session
      → Session × Result (List (String × String))
  metadata_at url format options s =
      let s' = register_extension url.scheme s in
      elim (table_options url format options s') [
        | err e ↦ (s', err (value_error (display e)))
        | ok t ↦ (
          s',
          elim (find_object url s' t) [
            | ok m ↦ ok (metadata_to_pydict m)
            | err e ↦ err (value_error (append "Err: " (display e)))
          ],
        )
      ]

  metadata_parsed :
      Option ConfigFileType
      → List (String × String)
      → Session
      → Result Url
      → Session × Result (List (String × String))
  metadata_parsed format options s (ok url) = metadata_at url format options s
  metadata_parsed format options s (err e) = (s, err (value_error (display e)))

  -- `path` is what `to_str` makes of the path.
  pub get_object_metadata :
      Option String
      → String
      → Option (Result (List (String × String)))
      → Session
      → Session × Result (List (String × String))
  get_object_metadata none file_format kwargs s =
      (s, err (value_error "Unable to convert path to a string"))
  get_object_metadata (some location) file_format kwargs s =
      metadata_parsed (format_of file_format) (storage_options_of kwargs) s
        (parse_location location)
