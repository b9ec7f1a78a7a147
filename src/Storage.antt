-- ===== src/Storage.antt =====
-- internal/controller/storage.go and finalizer.go: what is recorded of a storage in the status, and
-- how the record is read again: the test for a changed identity and the spec made from the status.
-- Only the records are here, not the control flow around them. Child Records: what survives.
pub mod Records
use forge_operator.Prelude.{
  String, Bool, true, false, not, ◌||◌, Option, none, some, ◌==◌, if◌then◌else◌, nat_eq,
}
use forge_operator.Api.{
  StorageSpec, AwsStorageSpec, AkamaiStorageSpec, StorageStatus, AwsStorageStatus,
  AkamaiStorageStatus, Time, provider_aws_s3, provider_akamai_object_storage,
  deletion_policy_retain,
}

-- the test in reconcileStorage before cleanupPreviousStorage
unfoldable pub is_identity_changed : StorageStatus → StorageSpec → Bool
is_identity_changed old spec =
    not (old.provider == spec.provider)
    || (not (old.bucket == spec.bucket) || not (old.region == spec.region))

abbrev akamai_from : Option AkamaiStorageStatus → Option AkamaiStorageSpec
akamai_from none = none
akamai_from (some k) =
    if k.access_key_secret_ref == ""
    then none
    else some (record {
      access_key_secret_ref = k.access_key_secret_ref;
      endpoint = "";
      inject_credentials = false;
    })

abbrev aws_from : Option AwsStorageStatus → Option AwsStorageSpec
aws_from none = none
aws_from (some a) =
    if a.credentials_secret_ref == ""
    then none
    else some (record {
      credentials_secret_ref = a.credentials_secret_ref;
      versioning_enabled = none;
      lifecycle_rules = none;
    })

unfoldable pub storage_spec_from_status : StorageStatus → StorageSpec
storage_spec_from_status status = record {
  provider = status.provider;
  bucket = status.bucket;
  deletion_policy = status.deletion_policy;
  region = status.region;
  endpoint = "";
  secret_name = status.secret_name;
  aws = aws_from status.aws;
  akamai = akamai_from status.akamai;
}

-- the test of finalizeApplication that keeps the bucket
abbrev pub is_retained : StorageSpec → Bool
is_retained spec = spec.deletion_policy == deletion_policy_retain

-- the record that the callback recordCreated of a provider writes, at the time `now`
unfoldable pub created_status : String → StorageSpec → Time → StorageStatus
created_status provider spec now = record {
  provider = provider;
  bucket = spec.bucket;
  created = true;
  created_at = now;
  region = "";
  secret_name = "";
  deletion_policy = "";
  aws = none;
  akamai = none;
}

-- the time of the record before, unless it is zero
abbrev pub created_at_from : Option StorageStatus → Time → Time
created_at_from none now = now
created_at_from (some st) now = if nat_eq st.created_at 0 then now else st.created_at

abbrev pub credentials_ref : Option AwsStorageSpec → String
credentials_ref none = ""
credentials_ref (some a) = a.credentials_secret_ref

-- the record of reconcileAWSStorage after a reconcile that succeeded
unfoldable pub configured_status :
    StorageSpec → Option StorageStatus → String → Time → StorageStatus
configured_status spec before role_arn now = record {
  provider = provider_aws_s3;
  bucket = spec.bucket;
  created = true;
  created_at = created_at_from before now;
  region = spec.region;
  secret_name = spec.secret_name;
  deletion_policy = spec.deletion_policy;
  aws = some (record { role_arn = role_arn; credentials_secret_ref = credentials_ref spec.aws });
  akamai = none;
}

-- accessKeySecretRef
abbrev pub access_key_ref : Option AkamaiStorageSpec → String
access_key_ref none = ""
access_key_ref (some a) = a.access_key_secret_ref

-- the record of reconcileAkamaiStorage after a reconcile that succeeded
unfoldable pub configured_akamai_status :
    StorageSpec → Option StorageStatus → String → Time → StorageStatus
configured_akamai_status spec before endpoint now = record {
  provider = provider_akamai_object_storage;
  bucket = spec.bucket;
  created = true;
  created_at = created_at_from before now;
  region = spec.region;
  secret_name = spec.secret_name;
  deletion_policy = spec.deletion_policy;
  aws = none;
  akamai =
      some (record { endpoint = endpoint; access_key_secret_ref = access_key_ref spec.akamai });
}
