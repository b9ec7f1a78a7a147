-- ===== src/Examples/Records.antt =====
-- The records of internal/controller/storage.go for a storage that is to be retained.
use forge_operator.Prelude.{false, none, ◌≡◌, refl}
use forge_operator.Api.{StorageSpec, deletion_policy_retain}
use forge_operator.Storage.{is_identity_changed, storage_spec_from_status, configured_status}
use forge_operator.Storage.Records.{SameCleanup, configured_status-SameCleanup}
use forge_operator.Examples.Samples.{sample_storage}

abbrev retained : StorageSpec
retained = record sample_storage { deletion_policy = deletion_policy_retain }

configured_status-SameCleanup_example :
    (is_identity_changed (configured_status retained none "arn" 7) retained ≡ false)
    × SameCleanup (storage_spec_from_status (configured_status retained none "arn" 7)) retained
configured_status-SameCleanup_example = configured_status-SameCleanup retained none "arn" 7 refl
