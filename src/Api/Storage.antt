-- ===== src/Api/Storage.antt =====
-- api/v1alpha1/application_types.go: the storage part of an Application's spec and status.
use forge_operator.Prelude.{ℕ, String, Bool, Option, List}

-- StorageProvider and DeletionPolicy are strings of the API, so that values outside the
-- enumerations reach the default branches of the code.
abbrev pub provider_aws_s3 : String
provider_aws_s3 = "AWS"

abbrev pub provider_akamai_object_storage : String
provider_akamai_object_storage = "Akamai"

abbrev pub deletion_policy_delete : String
deletion_policy_delete = "Delete"

abbrev pub deletion_policy_retain : String
deletion_policy_retain = "Retain"

pub record LifecycleTransition : Type 0 where
  pub days : ℕ
  pub storage_class : String

-- Pointers that may be nil are options.
pub record LifecycleRule : Type 0 where
  pub id : String
  pub enabled : Option Bool
  pub prefix : String
  pub expiration_days : Option ℕ
  pub noncurrent_version_expiration_days : Option ℕ
  pub abort_incomplete_multipart_upload_days : Option ℕ
  pub transitions : List LifecycleTransition

-- A nil slice of rules differs from an empty one.
pub record AwsStorageSpec : Type 0 where
  pub credentials_secret_ref : String
  pub versioning_enabled : Option Bool
  pub lifecycle_rules : Option (List LifecycleRule)

pub record AkamaiStorageSpec : Type 0 where
  pub access_key_secret_ref : String
  pub endpoint : String
  pub inject_credentials : Bool

pub record StorageSpec : Type 0 where
  pub provider : String
  pub bucket : String
  pub deletion_policy : String
  pub region : String
  pub endpoint : String
  pub secret_name : String
  pub aws : Option AwsStorageSpec
  pub akamai : Option AkamaiStorageSpec

pub record AwsStorageStatus : Type 0 where
  pub role_arn : String
  pub credentials_secret_ref : String

pub record AkamaiStorageStatus : Type 0 where
  pub endpoint : String
  pub access_key_secret_ref : String

-- A time is its number of nanoseconds since the zero value of Go's time.Time.
abbrev pub Time : Type 0
Time = ℕ

pub record StorageStatus : Type 0 where
  pub provider : String
  pub bucket : String
  pub created : Bool
  pub created_at : Time
  pub region : String
  pub secret_name : String
  pub deletion_policy : String
  pub aws : Option AwsStorageStatus
  pub akamai : Option AkamaiStorageStatus
