-- ===== src/Controller/Storage/Aws.antt =====
-- internal/controller/storage.go: reconcileAWSStorage.
use forge_operator.Prelude.{
  ℕ, String, some, not, Exec, pure, fail, try, ◌>>=◌, ◌>>◌, mapping_error, Result, ok, err, Error,
  wrap, ◌==◌, if◌then◌else◌,
}
use forge_operator.Api.{Application, StorageSpec, StorageStatus, provider_aws_s3}
use forge_operator.Storage.{created_status, configured_status}
use forge_operator.ErrorClass.{outcome_ready, outcome_not_owned, classify_aws_storage_error}
use forge_operator.StorageConditions.{set_not_owned, set_not_ready, set_storage_ready}
use forge_operator.S3.Session.{
  Session, Env, Manager, increment, storage_reconcile_total, storage_ready_set,
}
use forge_operator.S3.Connect.{new_s3_manager}
use forge_operator.S3.Bucket.{reconcile_bucket}
use forge_operator.Controller.Session.{
  Reconciler, modify, retry_status_update, try_status_update, current_spec,
}
use forge_operator.Controller.Accounts.{
  service_account_name_for, annotate_service_account_with_irsa,
}

abbrev pub with_record : StorageStatus → Application → Application
with_record st app = record app { status = record (app.status) { storage = some st } }

module _ {W : Type 0} (r : Reconciler W) where
  abbrev pub gauge : String → ℕ → Exec (Session W) (Unit {0})
  gauge provider n s = increment (storage_ready_set s.app.namespace s.app.name provider n) s

  -- the callback recordCreated of a provider
  abbrev pub record_created_as : String → StorageSpec → Exec (Session W) (Unit {0})
  record_created_as provider storage s =
      (modify (
            with_record
              (created_status provider (current_spec storage s.app) (r.platform.now s.world)))
          >> retry_status_update r)
        s

  -- an error shown by `show`, counted under its class, and returned with `text`
  abbrev pub provision_failure :
      {A : Type 0}
      → (Application → Application)
      → String
      → String
      → String
      → Error
      → Exec (Session W) A
  provision_failure show provider outcome text e =
      modify show
      >> (try_status_update r
          >> (increment (storage_reconcile_total provider outcome)
              >> (gauge provider 0 >> fail (wrap text e ""))))

  abbrev pub not_ready : Error → Application → Application
  not_ready e app = set_not_ready r.set_status_condition app (some e)

  abbrev pub show_outcome : String → Error → Application → Application
  show_outcome outcome e app =
      if outcome == outcome_not_owned
      then set_not_owned r.set_status_condition app (some e)
      else not_ready e app

  -- the record and the condition after a reconcile that succeeded, and the metrics
  abbrev pub show_ready :
      String → String → (Session W → StorageStatus) → Exec (Session W) (Unit {0})
  show_ready provider message st s =
      (modify (λ app. set_storage_ready r.set_status_condition app (some (st s)) message)
          >> (mapping_error (λ e. wrap "failed to update storage status: " e "")
                (retry_status_update r)
              >> (increment (storage_reconcile_total provider outcome_ready) >> gauge provider 1)))
        s

  abbrev pub annotate_role : String → Exec (Session W) (Unit {0})
  annotate_role role =
      if not (role == "") then annotate_service_account_with_irsa r role else pure tt

  abbrev pub aws_record : StorageSpec → String → Session W → StorageStatus
  aws_record storage role s =
      configured_status (current_spec storage s.app) s.app.status.storage role
        (r.platform.now s.world)

  abbrev pub aws_reconciled : StorageSpec → Result String → Exec (Session W) (Unit {0})
  aws_reconciled storage (err e) =
      provision_failure (show_outcome (classify_aws_storage_error e) e) provider_aws_s3
        (classify_aws_storage_error e) "failed to reconcile S3 bucket: " e
  aws_reconciled storage (ok role) =
      annotate_role role
      >> show_ready provider_aws_s3 "S3 bucket and IRSA role provisioned" (aws_record storage role)

  abbrev pub provision_aws : StorageSpec → Result (Env W × Manager W) → Exec (Session W) (Unit {0})
  provision_aws storage (err e) =
      provision_failure (not_ready e) provider_aws_s3 (classify_aws_storage_error e)
        "failed to create S3 storage manager: " e
  provision_aws storage (ok (env, m)) = try (reconcile_bucket env m) >>= aws_reconciled storage

  -- for an Application with this storage spec
  unfoldable pub reconcile_aws_storage : StorageSpec → Exec (Session W) (Unit {0})
  reconcile_aws_storage storage s =
      (try (
            new_s3_manager r.platform r.aws (service_account_name_for s.app)
              (some (record_created_as provider_aws_s3 storage)))
          >>= provision_aws storage)
        s
