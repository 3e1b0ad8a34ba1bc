-- ===== src/ObjectStorage/Stores.antt =====
-- object_storage.rs: the builders of object stores, and `get_object_store`. The builders of the
-- crate object_store, the configuration that the AWS SDK finds in its environment and the URLs are
-- parameters.
use Prim.Native.String.{◌++◌ as append}
use text.Mathlib.Text.{◌==◌ as str_eq}
use xorq_datafusion.Common.{
  Bool, true, false, ◌||◌, Option, none, some, String, Result, ok, err, execution_error,
  configuration, external, ◌>>=◌, if◌then◌else◌,
}
use xorq_datafusion.ObjectStorage.Options.{AwsOptions, GcpOptions}

pub record Url : Type 0 where
  pub as_str : String
  pub scheme : String
  pub host_str : Option String
  pub origin : String

-- What the AWS SDK loads: a region and a provider of credentials, if it finds them.
pub record SdkConfig (Provider : Type 0) : Type 0 where
  pub sdk_region : Option String
  pub credentials_provider : Option Provider

pub record ObjectStores : Type 1 where
  pub Provider : Type 0
  pub S3 : Type 0
  pub Gcs : Type 0
  pub Store : Type 0
  pub parse_url : String → Option Url
  pub s3_from_env : S3
  pub with_bucket_name : String → S3 → S3
  pub with_access_key_id : String → S3 → S3
  pub with_secret_access_key : String → S3 → S3
  pub with_token : String → S3 → S3
  pub with_region : String → S3 → S3
  pub with_credentials : Provider → S3 → S3
  pub with_endpoint : String → S3 → S3
  pub with_allow_http : Bool → S3 → S3
  pub with_virtual_hosted_style_request : Bool → S3 → S3
  pub build_s3 : S3 → Result Store
  pub gcs_from_env : Gcs
  pub with_gcs_bucket_name : String → Gcs → Gcs
  pub with_service_account_path : String → Gcs → Gcs
  pub with_service_account_key : String → Gcs → Gcs
  pub with_application_credentials : String → Gcs → Gcs
  pub build_gcs : Gcs → Result Store
  pub build_http : String → Result Store

-- `if let Some(value) = option { builder = builder.with(value) }`
abbrev given {ℓ κ} : {A : Type ℓ} {B : Type κ} → Option A → (A → B → B) → B → B
given none set b = b
given (some a) set b = set a b

unfoldable pub get_bucket_name : Url → Result String
get_bucket_name url = elim url.host_str [
  | some host ↦ ok host
  | none ↦ err (execution_error (append "Not able to parse bucket name from url: " url.as_str))
]

module _ (os : ObjectStores) where
  open os use {
    Provider, S3, Gcs, Store, parse_url, s3_from_env, with_bucket_name, with_access_key_id,
    with_secret_access_key, with_token, with_region, with_credentials, with_endpoint,
    with_allow_http, with_virtual_hosted_style_request, gcs_from_env, with_gcs_bucket_name,
    with_service_account_path, with_service_account_key, with_application_credentials,
  }

  -- Without both keys the credentials are those that the SDK finds.
  unfoldable pub with_sdk_credentials : SdkConfig Provider → S3 → Result S3
  with_sdk_credentials config builder =
      let b = given config.sdk_region with_region builder in
      elim config.credentials_provider [
        | some credentials ↦ ok (with_credentials credentials b)
        | none ↦ err (external "Failed to get S3 credentials from the environment")
      ]

  unfoldable pub with_s3_credentials : SdkConfig Provider → AwsOptions → S3 → Result S3
  with_s3_credentials config o builder = elim o.access_key_id [
    | none ↦ with_sdk_credentials config builder
    | some access_key_id ↦ elim o.secret_access_key [
      | none ↦ with_sdk_credentials config builder
      | some secret_access_key ↦ ok (
          given o.session_token with_token
            (with_secret_access_key secret_access_key (with_access_key_id access_key_id builder)))
    ]
  ]

  -- `!matches!(allow_http, Some(true)) && endpoint_url.scheme() == "http"`
  unfoldable pub is_http_refused : Option Bool → Option Url → Bool
  is_http_refused allow_http none = false
  is_http_refused (some true) (some url) = false
  is_http_refused allow_http (some url) = str_eq url.scheme "http"

  unfoldable pub with_s3_endpoint : AwsOptions → S3 → Result S3
  with_s3_endpoint o builder = elim o.endpoint [
    | none ↦ ok builder
    | some endpoint ↦
        if is_http_refused o.allow_http (parse_url endpoint)
        then err (
            configuration (
              append "Invalid endpoint: " (
                append endpoint
                  ". HTTP is not allowed for S3 endpoints. To allow HTTP, set 'aws.allow_http' to true")))
        else ok (with_endpoint endpoint builder)
  ]

  unfoldable pub get_s3_object_store_builder : SdkConfig Provider → Url → AwsOptions → Result S3
  get_s3_object_store_builder config url o = do
    bucket_name ← get_bucket_name url
    b ← with_s3_credentials config o (with_bucket_name bucket_name s3_from_env)
    c ← with_s3_endpoint o (given o.region with_region b)
    ok (given o.allow_http with_allow_http c)

  with_keys : AwsOptions → S3 → S3
  with_keys o b = elim o.access_key_id [
    | none ↦ b
    | some access_key_id ↦ elim o.secret_access_key [
      | none ↦ b
      | some secret_access_key ↦
          with_secret_access_key secret_access_key (with_access_key_id access_key_id b)
    ]
  ]

  -- For OSS, whose requests name the bucket in the host, and for COS.
  unfoldable pub get_object_store_builder : Url → AwsOptions → Bool → Result S3
  unfolding with_keys
  get_object_store_builder url o virtual_hosted_style_request = do
    bucket_name ← get_bucket_name url
    let b = with_region "do_not_care" (
        with_bucket_name bucket_name
          (with_virtual_hosted_style_request virtual_hosted_style_request s3_from_env))
    ok (given o.endpoint with_endpoint (with_keys o b))

  unfoldable pub get_gcs_object_store_builder : Url → GcpOptions → Result Gcs
  get_gcs_object_store_builder url o = do
    bucket_name ← get_bucket_name url
    let b = with_gcs_bucket_name bucket_name gcs_from_env
    let c = given o.service_account_path with_service_account_path b
    let d = given o.service_account_key with_service_account_key c
    ok (given o.application_credentials_path with_application_credentials d)

  incompatible : {A : Type 0} → String → Result A
  incompatible scheme = err (
      execution_error
        (append "Given table options incompatible with the " (append scheme " scheme")))

  -- `registered` is the registry of the session, and `aws` and `gcp` are what
  -- `table_options.extensions.get()` finds.
  unfoldable pub get_object_store :
      SdkConfig Provider
      → (Url → Result Store)
      → String
      → Url
      → Option AwsOptions
      → Option GcpOptions
      → Result Store
  unfolding incompatible
  get_object_store config registered scheme url aws gcp =
      if str_eq scheme "s3"
      then elim aws [
        | none ↦ incompatible "'s3'"
        | some o ↦ get_s3_object_store_builder config url o >>= os.build_s3
      ]
      else if str_eq scheme "oss"
      then elim aws [
        | none ↦ incompatible "'oss'"
        | some o ↦ get_object_store_builder url o true >>= os.build_s3
      ]
      else if str_eq scheme "cos"
      then elim aws [
        | none ↦ incompatible "'cos'"
        | some o ↦ get_object_store_builder url o false >>= os.build_s3
      ]
      else if str_eq scheme "gs" || str_eq scheme "gcs"
      then elim gcp [
        | none ↦ incompatible "'gs'/'gcs'"
        | some o ↦ get_gcs_object_store_builder url o >>= os.build_gcs
      ]
      else if str_eq scheme "http" || str_eq scheme "https"
      then os.build_http url.origin
      else elim (registered url) [
        | ok store ↦ ok store
        | err e ↦ err (execution_error (append "Unsupported object store scheme: " scheme))
      ]
