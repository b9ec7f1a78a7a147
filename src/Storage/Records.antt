-- ===== src/Storage/Records.antt =====
-- What the records of internal/controller/storage.go keep of a storage, for the next reconcile and
-- for a cleanup after the spec is gone.
use forge_operator.Prelude.{String, true, false, Option, ◌≡◌, ◌≢◌, arith, eq_iff, eq_refl}
use forge_operator.Api.{StorageSpec, StorageStatus, Time, provider_aws_s3, deletion_policy_retain}
use forge_operator.Storage.{
  is_identity_changed, storage_spec_from_status, is_retained, created_status, configured_status,
  credentials_ref,
}

-- What a cleanup needs to know of a storage.
abbrev pub SameCleanup : StorageSpec → StorageSpec → Type 0
SameCleanup s t =
    (s.provider ≡ t.provider)
    × (s.bucket ≡ t.bucket)
    × (s.region ≡ t.region)
    × (s.secret_name ≡ t.secret_name)
    × (credentials_ref s.aws ≡ credentials_ref t.aws)
    × (is_retained s ≡ is_retained t)

-- The record of a reconcile of S3 storage that succeeded, read again for the same spec, shows an
-- unchanged identity, and the spec that a cleanup makes from the record has the provider, the bucket, the region, the Secrets
-- and the retention of the spec itself.
pub configured_status-SameCleanup :
    (spec : StorageSpec) (before : Option StorageStatus) (role_arn : String) (now : Time)
    → spec.provider ≡ provider_aws_s3
    → (is_identity_changed (configured_status spec before role_arn now) spec ≡ false)
      × SameCleanup (storage_spec_from_status (configured_status spec before role_arn now)) spec
unfolding is_identity_changed configured_status storage_spec_from_status
configured_status-SameCleanup spec before role_arn now aws = ground (
  arith,
  aws,
  eq_iff provider_aws_s3 spec.provider,
  eq_refl spec.bucket,
  eq_refl spec.region,
  eq_iff (credentials_ref spec.aws) "",
)

-- The record of a creation, read again for a spec that names a region, shows a changed identity, and
-- the spec that the cleanup then makes from it is not retained, whatever the deletion policy of the
-- spec.
pub created_status_forgets :
    (provider : String) (spec : StorageSpec) (now : Time)
    → spec.region ≢ ""
    → (is_identity_changed (created_status provider spec now) spec ≡ true)
      × (is_retained (storage_spec_from_status (created_status provider spec now)) ≡ false)
unfolding is_identity_changed created_status storage_spec_from_status
created_status_forgets provider spec now h =
    ground (arith, eq_iff "" spec.region, eq_iff "" deletion_policy_retain)
