-- ===== src/ObjectStorage/Register/Tests.antt =====
-- A session that holds one store for every URL, and the theorems at it.
use xorq_datafusion.Common.{
  ◌≡◌, refl, Option, none, some, List, [], ◌∷◌, String, Result, ok, err, Error, execution_error,
}
use xorq_datafusion.ObjectStorage.Options.{AwsOptions, GcpOptions}
use xorq_datafusion.ObjectStorage.Samples.{bucket, stores, nothing}
use xorq_datafusion.ObjectStorage.Stores.{
  get_object_store, get_s3_object_store_builder, with_s3_credentials, with_s3_endpoint,
  get_bucket_name, with_sdk_credentials,
}
use xorq_datafusion.ObjectStorage.Sessions.{parquet, ObjectMeta, Sessions}
use xorq_datafusion.ObjectStorage.Register.{
  register_extension, formatted, altered, table_options, store_of, store_for, register_at,
  register_parsed, register_object_store_and_config_extensions, find_object, metadata_at,
  metadata_parsed, get_object_metadata, format_of, storage_options_of, metadata_to_pydict,
}
use xorq_datafusion.ObjectStorage.Register.Outcome.{
  register, register-err, Shows, get_object_metadata-register,
}

record Held : Type 0 where
  aws : Option AwsOptions
  gcp : Option GcpOptions
  last : Result (List String)

abbrev given_keys : AwsOptions
given_keys = record {
  access_key_id = some "key";
  secret_access_key = some "secret";
  session_token = none;
  region = none;
  endpoint = none;
  allow_http = none;
}

abbrev listed : ObjectMeta
listed = record {
  location = "a.parquet";
  last_modified = "now";
  size = "5";
  e_tag = none;
  version = some "2";
}

-- Whatever options are given, they are the keys.
abbrev sessions : Sessions (List String)
sessions = record {
  Session = Held;
  TableOptions = Option AwsOptions × Option GcpOptions;
  parse_location = λ s. ok bucket;
  register_aws = λ o s. record s { aws = some o };
  register_gcp = λ o s. record s { gcp = some o };
  default_table_options = λ s. (s.aws, s.gcp);
  set_config_format = λ f t. t;
  alter_with_string_hash_map = λ o t. elim o [ [] ↦ ok t | x ∷ xs ↦ ok (some given_keys, t.1) ];
  aws = λ t. t.0;
  gcp = λ t. t.1;
  register_object_store = λ u x s. record s { last = ok x };
  get_store = λ s u. s.last;
  object_path = λ u. ok "a.parquet";
  head = λ x p. ok listed;
  aws-register_aws = λ o s. refl;
  gcp-register_gcp = λ o s. refl;
  get_store-register_aws = λ o s u. refl;
  get_store-register_gcp = λ o s u. refl;
  get_store-register_object_store = λ u x s. refl;
}

abbrev empty : Held
empty = record { aws = none; gcp = none; last = err (execution_error "no store") }

abbrev shown : Error → String
shown e = "error"

abbrev keys : List (String × String)
keys = ("aws.access_key_id", "key") ∷ []

abbrev dict : List (String × String)
dict =
    ("location", "a.parquet")
    ∷ ("last_modified", "now")
    ∷ ("size", "5")
    ∷ ("e_tag", "")
    ∷ ("version", "2")
    ∷ []

register-err_example :
    (register stores sessions nothing shown "s3://data/a.parquet" (some parquet) [] empty).0.last
    ≡ empty.last
unfolding register_object_store_and_config_extensions register_parsed register_at register_extension
    store_for table_options formatted altered store_of get_object_store get_s3_object_store_builder
    get_bucket_name with_s3_credentials with_sdk_credentials
register-err_example =
    register-err stores sessions nothing shown "s3://data/a.parquet" (some parquet) [] empty _ refl
      bucket

get_object_metadata-register_example :
    let done =
      register stores sessions nothing shown "s3://data/a.parquet"
        (format_of "parquet")
        (storage_options_of (some (ok keys)))
        empty in
    (done.1 ≡ ok tt)
    × (store : List String) × (done.0.last ≡ ok store)
    × Shows stores sessions nothing shown store bucket dict
unfolding get_object_metadata metadata_parsed metadata_at register_extension find_object
    storage_options_of metadata_to_pydict format_of table_options formatted altered store_of
    get_object_store get_s3_object_store_builder get_bucket_name with_s3_credentials
    with_s3_endpoint
get_object_metadata-register_example =
    get_object_metadata-register stores sessions nothing shown "s3://data/a.parquet" "parquet"
      (some (ok keys)) empty bucket dict refl refl
