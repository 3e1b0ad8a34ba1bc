-- ===== src/ObjectStorage/Sessions.antt =====
-- What register_object_store_and_config_extensions of object_storage.rs and get_object_metadata of
-- context.rs use of DataFusion's session: its table options and its registry of stores.
use xorq_datafusion.Common.{◌≡◌, Option, some, List, String, Result, ok}
use xorq_datafusion.ObjectStorage.Options.{AwsOptions, GcpOptions}
use xorq_datafusion.ObjectStorage.Stores.{Url}

-- `ConfigFileType`
pub data ConfigFileType : Type 0 where
  csv json parquet : ConfigFileType

pub record ObjectMeta : Type 0 where
  pub location : String
  pub last_modified : String
  pub size : String
  pub e_tag : Option String
  pub version : Option String

-- A session over stores in `Store`. The extension that is registered is found among the table
-- options, the store that is registered is found at its URL, and registering an extension leaves
-- the stores alone. `head` asks a store for the metadata of an object.
pub record Sessions (Store : Type 0) : Type 1 where
  pub Session : Type 0
  pub TableOptions : Type 0
  pub parse_location : String → Result Url
  pub register_aws : AwsOptions → Session → Session
  pub register_gcp : GcpOptions → Session → Session
  pub default_table_options : Session → TableOptions
  pub set_config_format : ConfigFileType → TableOptions → TableOptions
  pub alter_with_string_hash_map : List (String × String) → TableOptions → Result TableOptions
  pub aws : TableOptions → Option AwsOptions
  pub gcp : TableOptions → Option GcpOptions
  pub register_object_store : Url → Store → Session → Session
  pub get_store : Session → Url → Result Store
  pub object_path : Url → Result String
  pub head : Store → String → Result ObjectMeta
  pub aws-register_aws :
      (o : AwsOptions) (s : Session) → aws (default_table_options (register_aws o s)) ≡ some o
  pub gcp-register_gcp :
      (o : GcpOptions) (s : Session) → gcp (default_table_options (register_gcp o s)) ≡ some o
  pub get_store-register_aws :
      (o : AwsOptions) (s : Session) (u : Url) → get_store (register_aws o s) u ≡ get_store s u
  pub get_store-register_gcp :
      (o : GcpOptions) (s : Session) (u : Url) → get_store (register_gcp o s) u ≡ get_store s u
  pub get_store-register_object_store :
      (u : Url) (x : Store) (s : Session) → get_store (register_object_store u x s) u ≡ ok x
