-- ===== src/Controller/Storage/Linode.antt =====
-- internal/controller/storage.go: reconcileAkamaiStorage.
use forge_operator.Prelude.{
  some, Exec, pure, try, ◌>>=◌, ◌>>◌, Result, ok, err, ◌==◌, if◌then◌else◌, lookup,
}
use forge_operator.Api.{StorageSpec, StorageStatus, provider_akamai_object_storage}
use forge_operator.Cluster.{Secret}
use forge_operator.Naming.Names.{storage_secret}
use forge_operator.Storage.{configured_akamai_status}
use forge_operator.ErrorClass.{classify_akamai_storage_error}
use forge_operator.S3.Session.{Session, on_world}
use forge_operator.Akamai.Session.{AkamaiEnv, AkamaiManager, AkamaiResult}
use forge_operator.Akamai.Connect.{new_akamai_manager}
use forge_operator.Akamai.Bucket.{reconcile_akamai_bucket}
use forge_operator.Controller.Session.{Reconciler, current_spec}
use forge_operator.Controller.Storage.Aws.{
  record_created_as, provision_failure, not_ready, show_outcome, show_ready,
}

module _ {W : Type 0} (r : Reconciler W) where
  abbrev pub recovered : AkamaiResult → Result Secret → AkamaiResult
  recovered result (err e) = result
  recovered result (ok secret) = record result { secret_key = lookup secret.entries "secret_key" }

  -- a secret key that Linode did not give again, from the storage Secret
  unfoldable pub recover_result : AkamaiResult → Exec (Session W) AkamaiResult
  recover_result result s =
      if result.secret_key == ""
      then (try (on_world (r.platform.k8s.get_secret s.app.namespace (storage_secret s.app)))
            >>= (λ q. pure (recovered result q)))
          s
      else (ok result, s)

  abbrev pub akamai_record : StorageSpec → AkamaiResult → Session W → StorageStatus
  akamai_record storage result s =
      configured_akamai_status (current_spec storage s.app) s.app.status.storage result.endpoint
        (r.platform.now s.world)

  abbrev pub akamai_reconciled : StorageSpec → Result AkamaiResult → Exec (Session W) AkamaiResult
  akamai_reconciled storage (err e) =
      provision_failure r (show_outcome r (classify_akamai_storage_error e) e)
        provider_akamai_object_storage (classify_akamai_storage_error e)
        "failed to reconcile Akamai bucket: " e
  akamai_reconciled storage (ok result) = recover_result result >>= (λ kept.
      show_ready r provider_akamai_object_storage "Akamai bucket and access key provisioned"
        (akamai_record storage kept)
      >> pure kept)

  abbrev pub provision_akamai :
      StorageSpec → Result (AkamaiEnv W × AkamaiManager W) → Exec (Session W) AkamaiResult
  provision_akamai storage (err e) =
      provision_failure r (not_ready r e) provider_akamai_object_storage
        (classify_akamai_storage_error e) "failed to create Akamai storage manager: " e
  provision_akamai storage (ok (env, m)) =
      try (reconcile_akamai_bucket env m) >>= akamai_reconciled storage

  -- for an Application with this storage spec
  unfoldable pub reconcile_akamai_storage : StorageSpec → Exec (Session W) AkamaiResult
  reconcile_akamai_storage storage =
      try (
        new_akamai_manager r.platform r.akamai
          (some (record_created_as r provider_akamai_object_storage storage)))
      >>= provision_akamai storage
