-- ===== src/Examples/Control.antt =====
-- The theorems on the finalizer of internal/controller/finalizer.go on the sample Application.
use forge_operator.Prelude.{true, none, some, [], ◌∷◌, ◌≡◌, refl, err, is_ok, Error, wrap, lookup}
use forge_operator.Api.{StorageSpec, deletion_policy_retain}
use forge_operator.S3.Session.{Session}
use forge_operator.S3.Connect.{credentials_secret_not_found, static_credentials, new_s3_manager}
use forge_operator.S3.Ownership.{verify_ownership, verify_from, first_owner}
use forge_operator.S3.Role.{cleanup_app_irsa}
use forge_operator.S3.Cleanup.{
  cleanup_bucket, cleanup_contents, delete_all_object_versions, delete_pages, delete_batches,
  batches, batches_from, abort_multipart_uploads, abort_each, delete_bucket,
}
use forge_operator.Controller.Session.{retry_status_update, status_once}
use forge_operator.Controller.Finalizer.{
  application_finalizer, finalize_application, delete_storage, finalize_aws, handle_finalizer,
}
use forge_operator.Controller.Finalizer.Retain.{retained_untouched}
use forge_operator.Controller.Finalizer.Handled.{IsHandled, handle_finalizer-IsHandled}
use forge_operator.Controller.Finalizer.Order.{IsCleaned, finalized-IsCleaned}
use forge_operator.Examples.Samples.{
  Tagged, sample_app, sample_metadata, sample_spec, sample_storage, tagged_by, facing,
}
use forge_operator.Examples.Reconcilers.{sample_reconciler, sample_retries, samples-Apart}

abbrev retained : StorageSpec
retained = record sample_storage { deletion_policy = deletion_policy_retain }

abbrev deleting : StorageSpec → Tagged → Session Tagged
deleting storage w = record (facing w) {
  app = record sample_app {
    metadata = record sample_metadata {
      deletion_timestamp = some 9;
      finalizers = application_finalizer ∷ [];
    };
    spec = record sample_spec { storage = some storage };
  };
}

retained_untouched_example :
    (is_ok (finalize_application sample_reconciler (deleting retained (tagged_by "uid-1"))).0
      ≡ true)
    × ((finalize_application sample_reconciler (deleting retained (tagged_by "uid-1"))).1.world
        ≡ tagged_by "uid-1")
retained_untouched_example =
    retained_untouched sample_reconciler (λ w. w) samples-Apart sample_retries retained
      (deleting retained (tagged_by "uid-1")) refl refl

handle_finalizer-IsHandled_example :
    IsHandled sample_reconciler
      (deleting retained (tagged_by "uid-1"))
      (handle_finalizer sample_reconciler (deleting retained (tagged_by "uid-1")))
handle_finalizer-IsHandled_example =
    handle_finalizer-IsHandled sample_reconciler (deleting retained (tagged_by "uid-1"))

-- Its static credentials are not there.
abbrev unreachable : StorageSpec
unreachable = record sample_storage {
  aws = some (record {
    credentials_secret_ref = "keys";
    versioning_enabled = none;
    lifecycle_rules = none;
  });
}

abbrev missing_keys : Error
missing_keys =
    wrap "failed to create storage manager for cleanup: "
      (wrap "" credentials_secret_not_found ": keys") ""

cannot_finalize :
    (finalize_application sample_reconciler (deleting unreachable (tagged_by "uid-1"))).0
    ≡ err missing_keys
unfolding finalize_application delete_storage finalize_aws new_s3_manager static_credentials
    retry_status_update status_once lookup
cannot_finalize = refl

can_finalize :
    is_ok (finalize_application sample_reconciler (deleting sample_storage (tagged_by "uid-1"))).0
    ≡ true
unfolding finalize_application delete_storage finalize_aws new_s3_manager static_credentials
    retry_status_update status_once lookup cleanup_bucket cleanup_app_irsa cleanup_contents
    verify_ownership verify_from first_owner delete_all_object_versions delete_pages delete_batches
    batches batches_from abort_multipart_uploads abort_each delete_bucket
can_finalize = refl

finalized-IsCleaned_example :
    IsCleaned sample_reconciler sample_storage (deleting sample_storage (tagged_by "uid-1"))
finalized-IsCleaned_example =
    finalized-IsCleaned sample_reconciler sample_storage
      (deleting sample_storage (tagged_by "uid-1")) refl refl refl can_finalize
