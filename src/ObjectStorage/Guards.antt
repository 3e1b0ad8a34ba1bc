-- ===== src/ObjectStorage/Guards.antt =====
-- What guards the store of an S3 location.
use text.Mathlib.TextEquality.{eq_iff}
use xorq_datafusion.Common.{◌≡◌, true, Option, some, String, arith, Result, ok}
use xorq_datafusion.ObjectStorage.Options.{AwsOptions, GcpOptions}
use xorq_datafusion.ObjectStorage.Stores.{
  Url, SdkConfig, ObjectStores, with_s3_credentials, is_http_refused, with_s3_endpoint,
  get_s3_object_store_builder, get_object_store,
}

module _ (os : ObjectStores) where
  with_s3_endpoint_allowed :
      (o : AwsOptions) (b c : os.S3) (endpoint : String) (url : Url)
      → with_s3_endpoint os o b ≡ ok c
      → o.endpoint ≡ some endpoint
      → os.parse_url endpoint ≡ some url
      → url.scheme ≡ "http"
      → o.allow_http ≡ some true
  unfolding with_s3_endpoint is_http_refused
  with_s3_endpoint_allowed o b c endpoint url h e p s = ground (arith, eq_iff url.scheme "http")

  -- No store is made for an S3 location whose endpoint is a URL with the scheme `http`, unless the
  -- options allow HTTP.
  pub get_object_store-allow_http :
      (config : SdkConfig os.Provider) (registered : Url → Result os.Store) (location : Url)
      (o : AwsOptions) (gcp : Option GcpOptions) (store : os.Store) (endpoint : String) (url : Url)
      → get_object_store os config registered "s3" location (some o) gcp ≡ ok store
      → o.endpoint ≡ some endpoint
      → os.parse_url endpoint ≡ some url
      → url.scheme ≡ "http"
      → o.allow_http ≡ some true
  unfolding get_object_store get_s3_object_store_builder
  get_object_store-allow_http config registered location o gcp store endpoint url h e p s = grind (
    arith,
    λ (b c : os.S3) (q : with_s3_endpoint os o b ≡ ok c).
        with_s3_endpoint_allowed o b c endpoint url q e p s,
  )

  -- With both keys among the options, the store of a location, or the error, is the same whatever
  -- configuration the AWS SDK finds in its environment.
  pub get_object_store_explicit_keys :
      (config config' : SdkConfig os.Provider) (registered : Url → Result os.Store)
      (scheme : String) (location : Url) (o : AwsOptions) (gcp : Option GcpOptions)
      (access_key_id secret_access_key : String)
      → o.access_key_id ≡ some access_key_id
      → o.secret_access_key ≡ some secret_access_key
      → get_object_store os config registered scheme location (some o) gcp
        ≡ get_object_store os config' registered scheme location (some o) gcp
  unfolding get_object_store get_s3_object_store_builder with_s3_credentials
  get_object_store_explicit_keys config config' registered scheme location o gcp access_key_id
        secret_access_key a s =
      rw (a, s)
