-- ===== src/ObjectStorage/Tests.antt =====
-- The theorems on object stores, where a builder is the list of its settings.
use text.Mathlib.Text.{◌==◌ as str_eq}
use xorq_datafusion.Common.{
  ◌≡◌, refl, Bool, true, false, Option, none, some, List, [], ◌∷◌, String, Result, ok, err,
  configuration,
}
use xorq_datafusion.ObjectStorage.Options.{ConfigField, AwsOptions, GcpOptions}
use xorq_datafusion.ObjectStorage.Stores.{
  Url, SdkConfig, get_object_store, get_s3_object_store_builder, get_bucket_name,
  with_s3_credentials, with_s3_endpoint, is_http_refused,
}
use xorq_datafusion.ObjectStorage.Samples.{minio, bucket, stores, nothing}
use xorq_datafusion.ObjectStorage.Guards.{get_object_store-allow_http}

abbrev parsed : String → Option Bool
parsed s = elim (str_eq s "true") [ true ↦ some true | false ↦ some false ]

some_of_ok : {A : Type 0} {x : A} {o : Option A} → ok (some x) ≡ ok o → o ≡ some x
some_of_ok h = cc

of_ok : {A : Type 0} {x o : A} → ok x ≡ ok o → o ≡ x
of_ok h = cc

abbrev fields : ConfigField
fields = record {
  set_string = λ rem v old. ok (some v);
  set_bool = λ rem v old. ok (parsed v);
  parse_bool = parsed;
  display_bool = λ b. elim b [ true ↦ "true" | false ↦ "false" ];
  set_string-some = λ rem v old h. some_of_ok h;
  set_bool-parse_bool = λ rem v old h. of_ok h;
}

abbrev fresh : AwsOptions
fresh = record {
  access_key_id = some "key";
  secret_access_key = some "secret";
  session_token = none;
  region = none;
  endpoint = none;
  allow_http = some true;
}

abbrev local : AwsOptions
local = record fresh { endpoint = some "http://minio" }

abbrev account : GcpOptions
account = record {
  service_account_path = none;
  service_account_key = none;
  application_credentials_path = none;
}

abbrev keyed : GcpOptions
keyed = record account { service_account_key = some "key" }

abbrev none_registered : Url → Result (List String)
none_registered u = err (configuration "none")

abbrev found : SdkConfig String
found = record { sdk_region = some "eu"; credentials_provider = some "profile" }

get_object_store-allow_http_example : local.allow_http ≡ some true
unfolding get_object_store get_s3_object_store_builder get_bucket_name with_s3_credentials
    with_s3_endpoint is_http_refused
get_object_store-allow_http_example =
    get_object_store-allow_http stores nothing none_registered bucket local none
      ("allow_http" ∷ "http://minio" ∷ "secret" ∷ "key" ∷ "data" ∷ []) "http://minio" minio refl
      refl refl refl
