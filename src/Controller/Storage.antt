-- ===== src/Controller/Storage.antt =====
-- internal/controller/storage.go: reconcileStorage, which makes the storage of an Application, and
-- cleans up what it had before. Child Aws: reconcileAWSStorage. Child Linode: reconcileAkamaiStorage.
-- Child Previous: the storage that an Application had before. Child Identity: its ownership ID. Child
-- Recorded: what a success has written. Child Kept: the same for Akamai. Child Sent: the status that a
-- success has sent. Child Annotated: the ServiceAccount that it has annotated. Child Refused: a bucket of
-- another Application.
pub mod Identity
pub mod Sent
pub mod Annotated
pub mod Recorded
pub mod Refused
pub mod Kept
pub mod Aws
pub mod Linode
pub mod Previous
use forge_operator.Prelude.{
  String, Option, none, some, [], ◌∷◌, Exec, pure, fail, ◌>>=◌, ◌>>◌, mapping_error, ok, err, Error,
  new_error, wrap, ◌==◌, if◌then◌else◌, concat,
}
use forge_operator.Api.{
  Application, StorageSpec, StorageStatus, provider_aws_s3, provider_akamai_object_storage,
}
use forge_operator.Storage.{is_identity_changed}
use forge_operator.StorageConditions.{set_not_ready}
use forge_operator.S3.Session.{Session}
use forge_operator.Akamai.Session.{AkamaiResult}
use forge_operator.Controller.Session.{Reconciler, modify, try_status_update, current_spec}
use forge_operator.Controller.Secrets.{reconcile_storage_secret}
use forge_operator.Controller.Storage.Aws.{reconcile_aws_storage}
use forge_operator.Controller.Storage.Linode.{reconcile_akamai_storage}
use forge_operator.Controller.Storage.Previous.{
  cleanup_previous_storage, ensure_storage_ownership_id,
}

module _ {W : Type 0} (r : Reconciler W) where
  unfoldable pub unsupported : String → Exec (Session W) (Option AkamaiResult)
  unsupported provider =
      let e = new_error (concat ("unsupported storage provider: " ∷ provider ∷ [])) in
      modify (λ app. set_not_ready r.set_status_condition app (some e))
      >> (try_status_update r >> fail e)

  -- the switch of reconcileStorage: akamaiCreds
  unfoldable pub provision : StorageSpec → Exec (Session W) (Option AkamaiResult)
  provision storage =
      if storage.provider == provider_aws_s3
      then mapping_error (λ e. wrap "failed to reconcile AWS storage: " e "")
          (reconcile_aws_storage r storage)
        >> pure none
      else if storage.provider == provider_akamai_object_storage
      then mapping_error (λ e. wrap "failed to reconcile Akamai storage: " e "")
          (reconcile_akamai_storage r storage)
        >>= (λ creds. pure (some creds))
      else unsupported storage.provider

  abbrev pub leave_changed : Option StorageStatus → StorageSpec → Exec (Session W) (Unit {0})
  leave_changed none storage = pure tt
  leave_changed (some old) storage =
      if is_identity_changed old storage then cleanup_previous_storage r old else pure tt

  abbrev pub leave_recorded : Option StorageStatus → Exec (Session W) (Unit {0})
  leave_recorded none = pure tt
  leave_recorded (some old) = cleanup_previous_storage r old

  abbrev pub provide : StorageSpec → Exec (Session W) (Unit {0})
  provide storage =
      mapping_error (λ e. wrap "failed to ensure storage ownership ID: " e "")
        (ensure_storage_ownership_id r)
      >> ((λ s. provision (current_spec storage s.app) s) >>= (λ creds.
          mapping_error (λ e. wrap "failed to reconcile storage secret: " e "")
            (reconcile_storage_secret r creds)))

  abbrev pub reconcile_storage_of :
      Option StorageSpec → Option StorageStatus → Exec (Session W) (Unit {0})
  reconcile_storage_of none before = leave_recorded before >> reconcile_storage_secret r none
  reconcile_storage_of (some storage) before = leave_changed before storage >> provide storage

  unfoldable pub reconcile_storage : Exec (Session W) (Unit {0})
  reconcile_storage s = reconcile_storage_of s.app.spec.storage s.app.status.storage s
