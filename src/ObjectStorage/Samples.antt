-- ===== src/ObjectStorage/Samples.antt =====
-- A crate of object stores for tests: a builder is the list of its settings, the last first.
use xorq_datafusion.Common.{none, some, List, [], ◌∷◌, String, ok}
use xorq_datafusion.ObjectStorage.Stores.{Url, SdkConfig, ObjectStores}

abbrev pub minio : Url
minio = record {
  as_str = "http://minio";
  scheme = "http";
  host_str = some "minio";
  origin = "http://minio";
}

abbrev pub bucket : Url
bucket = record { as_str = "s3://data"; scheme = "s3"; host_str = some "data"; origin = "null" }

abbrev pub stores : ObjectStores
stores = record {
  Provider = String;
  S3 = List String;
  Gcs = List String;
  Store = List String;
  parse_url = λ s. some minio;
  s3_from_env = [];
  with_bucket_name = λ s b. s ∷ b;
  with_access_key_id = λ s b. s ∷ b;
  with_secret_access_key = λ s b. s ∷ b;
  with_token = λ s b. s ∷ b;
  with_region = λ s b. s ∷ b;
  with_credentials = λ s b. s ∷ b;
  with_endpoint = λ s b. s ∷ b;
  with_allow_http = λ f b. "allow_http" ∷ b;
  with_virtual_hosted_style_request = λ f b. b;
  build_s3 = ok;
  gcs_from_env = [];
  with_gcs_bucket_name = λ s b. s ∷ b;
  with_service_account_path = λ s b. s ∷ b;
  with_service_account_key = λ s b. s ∷ b;
  with_application_credentials = λ s b. s ∷ b;
  build_gcs = ok;
  build_http = λ s. ok (s ∷ []);
}

abbrev pub nothing : SdkConfig String
nothing = record { sdk_region = none; credentials_provider = none }
