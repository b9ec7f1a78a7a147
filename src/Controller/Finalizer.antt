-- ===== src/Controller/Finalizer.antt =====
-- internal/controller/finalizer.go: what becomes of the storage when an Application is deleted, and the
-- finalizer that holds the Application until then. Children: Apart (what the freeing of credentials
-- leaves alone), Retain (a bucket that is to be retained), Order (the cleanup
-- before a success), Handled (the branches of handleFinalizer).
pub mod Apart
pub mod Retain
pub mod Order
pub mod Handled
use forge_operator.Prelude.{
  String, Bool, true, false, not, Option, none, some, [], ◌∷◌, nat_eq, Exec, pure, fail, try, ◌>>=◌,
  ◌>>◌, mapping_error, Result, ok, err, Error, wrap, ◌==◌, if◌then◌else◌, concat, quote, lookup,
}
use forge_operator.Api.{
  Application, StorageSpec, StorageStatus, Time, provider_aws_s3, provider_akamai_object_storage,
}
use forge_operator.Storage.{storage_spec_from_status, is_retained}
use forge_operator.ErrorClass.{
  outcome_success, classify_aws_storage_error, classify_akamai_storage_error,
}
use forge_operator.StorageConditions.{set_retained, set_cleanup_in_progress, set_cleanup_failed}
use forge_operator.S3.Session.{
  Session, Env, Manager, increment, storage_ready_deleted, finalizer_cleanup_total,
  application_ready_deleted, on_world,
}
use forge_operator.S3.Connect.{new_s3_manager}
use forge_operator.S3.Cleanup.{cleanup_bucket, cleanup_credentials_only}
use forge_operator.Akamai.Session.{AkamaiEnv, AkamaiManager}
use forge_operator.Akamai.Connect.{new_akamai_manager}
use forge_operator.Akamai.Cleanup.{delete_akamai_bucket, cleanup_akamai_credentials_only}
use forge_operator.Controller.Session.{Reconciler, modify, on_snapshot, try_status_update, emit}
use forge_operator.Controller.Accounts.{service_account_name_for}

abbrev pub application_finalizer : String
application_finalizer = "forge.ningendo7.github.io/finalizer"

abbrev recorded : Option StorageStatus → Option StorageSpec
recorded none = none
recorded (some st) = some (storage_spec_from_status st)

abbrev spec_or_record : Option StorageSpec → Option StorageStatus → Option StorageSpec
spec_or_record (some storage) before = some storage
spec_or_record none before = recorded before

-- what finalizeApplication cleans up
abbrev pub storage_to_clean : Application → Option StorageSpec
storage_to_clean app = spec_or_record app.spec.storage app.status.storage

-- cleanupApp
abbrev pub with_storage : StorageSpec → Application → Application
with_storage storage app = record app { spec = record (app.spec) { storage = some storage } }

abbrev pub is_zero_time : Option Time → Bool
is_zero_time none = true
is_zero_time (some t) = nat_eq t 0

module _ {W : Type 0} (r : Reconciler W) where
  abbrev pub fail_storage_cleanup : Error → Exec (Session W) (Unit {0})
  fail_storage_cleanup e =
      modify (λ app. set_cleanup_failed r.set_status_condition app (some e))
      >> (try_status_update r >> fail e)

  abbrev pub show_cleanup : Exec (Session W) (Unit {0})
  show_cleanup = modify (set_cleanup_in_progress r.set_status_condition) >> try_status_update r

  -- an error of a cleanup, counted under its class and shown as `text`
  abbrev pub cleanup_failure : String → String → String → Error → Exec (Session W) (Unit {0})
  cleanup_failure provider outcome text e =
      increment (finalizer_cleanup_total provider outcome) >> fail_storage_cleanup (wrap text e "")

  -- the credentials' error after a cleanup that succeeded
  abbrev pub warn : String → String → Option Error → Exec (Session W) (Unit {0})
  warn reason note none = pure tt
  warn reason note (some e) = emit r "Warning" reason (concat (note ∷ e.text ∷ []))

  abbrev pub aws_cleaned : Option Error × Result (Unit {0}) → Exec (Session W) (Unit {0})
  aws_cleaned (irsa_error, err e) =
      cleanup_failure provider_aws_s3 (classify_aws_storage_error e)
        "failed to delete S3 bucket during cleanup: " e
  aws_cleaned (irsa_error, ok a) =
      increment (finalizer_cleanup_total provider_aws_s3 outcome_success)
      >> warn "IRSACleanupFailed"
          "Bucket was deleted, but its IAM role/policy could not be cleaned up: " irsa_error

  -- both errors of a cleanup as a result
  abbrev pub both : {A : Type 0} → (Session W → A × Session W) → Exec (Session W) A
  both m s = let (a, t) = m s in (ok a, t)

  abbrev pub clean_aws : Application → Result (Env W × Manager W) → Exec (Session W) (Unit {0})
  clean_aws copy (err e) =
      cleanup_failure provider_aws_s3 (classify_aws_storage_error e)
        "failed to create storage manager for cleanup: " e
  clean_aws copy (ok (env, m)) = both (on_snapshot copy (cleanup_bucket env m)) >>= aws_cleaned

  -- NewManager for a cleanup of the copy, with the service account of the Application itself
  abbrev pub aws_manager : Application → Exec (Session W) (Result (Env W × Manager W))
  aws_manager copy s =
      try (on_snapshot copy (new_s3_manager r.platform r.aws (service_account_name_for s.app) none))
        s

  unfoldable pub finalize_aws : Application → Exec (Session W) (Unit {0})
  finalize_aws copy = show_cleanup >> (aws_manager copy >>= clean_aws copy)

  abbrev pub akamai_cleaned : Option Error × Result (Unit {0}) → Exec (Session W) (Unit {0})
  akamai_cleaned (access_key_error, err e) =
      cleanup_failure provider_akamai_object_storage (classify_akamai_storage_error e)
        "failed to delete Akamai bucket during cleanup: " e
  akamai_cleaned (access_key_error, ok a) =
      increment (finalizer_cleanup_total provider_akamai_object_storage outcome_success)
      >> warn "AccessKeyCleanupFailed"
          "Bucket was deleted, but its Akamai Object Storage access key could not be cleaned up: "
          access_key_error

  abbrev pub clean_akamai :
      Application → Result (AkamaiEnv W × AkamaiManager W) → Exec (Session W) (Unit {0})
  clean_akamai copy (err e) =
      cleanup_failure provider_akamai_object_storage (classify_akamai_storage_error e)
        "failed to create Akamai storage manager for cleanup: " e
  clean_akamai copy (ok (env, m)) =
      both (on_snapshot copy (delete_akamai_bucket env m)) >>= akamai_cleaned

  abbrev pub akamai_manager :
      Application → Exec (Session W) (Result (AkamaiEnv W × AkamaiManager W))
  akamai_manager copy = try (on_snapshot copy (new_akamai_manager r.platform r.akamai none))

  unfoldable pub finalize_akamai : Application → Exec (Session W) (Unit {0})
  finalize_akamai copy = show_cleanup >> (akamai_manager copy >>= clean_akamai copy)

  abbrev pub warned : String → String → Result (Unit {0}) → Exec (Session W) (Unit {0})
  warned reason note (ok a) = pure tt
  warned reason note (err e) = emit r "Warning" reason (concat (note ∷ e.text ∷ []))

  abbrev pub drop_role : Application → Result (Env W × Manager W) → Exec (Session W) (Unit {0})
  drop_role copy (err e) = pure tt
  drop_role copy (ok (env, m)) =
      try (on_snapshot copy (cleanup_credentials_only env m))
      >>= warned "IRSACleanupFailed"
          "Bucket was retained, but its IAM role/policy could not be cleaned up: "

  abbrev pub drop_access_key :
      Application → Result (AkamaiEnv W × AkamaiManager W) → Exec (Session W) (Unit {0})
  drop_access_key copy (err e) = pure tt
  drop_access_key copy (ok (env, m)) =
      try (on_snapshot copy (cleanup_akamai_credentials_only env m))
      >>= warned "AccessKeyCleanupFailed"
          "Bucket was retained, but its Akamai Object Storage access key could not be cleaned up: "

  unfoldable pub cleanup_retained_storage_credentials : StorageSpec → Exec (Session W) (Unit {0})
  cleanup_retained_storage_credentials storage s =
      let copy = with_storage storage s.app in
      if storage.provider == provider_aws_s3
      then (aws_manager copy >>= drop_role copy) s
      else if storage.provider == provider_akamai_object_storage
      then (akamai_manager copy >>= drop_access_key copy) s
      else (ok tt, s)

  unfoldable pub retain_storage : String → Exec (Session W) (Unit {0})
  retain_storage bucket =
      modify (λ app. set_retained r.set_status_condition app bucket)
      >> (try_status_update r
          >> emit r "Normal" "StorageRetained" (
              concat (
                "deletionPolicy is Retain: bucket "
                ∷ quote bucket
                ∷ " was NOT deleted and remains in your cloud account"
                ∷ [])))

  -- the switch of finalizeApplication; another provider has nothing to clean up
  unfoldable pub delete_storage : StorageSpec → Exec (Session W) (Unit {0})
  delete_storage storage s =
      if storage.provider == provider_aws_s3
      then finalize_aws (with_storage storage s.app) s
      else if storage.provider == provider_akamai_object_storage
      then finalize_akamai (with_storage storage s.app) s
      else (ok tt, s)

  -- the deferred function
  abbrev pub forget_storage_ready : String → Exec (Session W) (Unit {0})
  forget_storage_ready provider s =
      increment (storage_ready_deleted s.app.namespace s.app.name provider) s

  abbrev pub finalize_storage : Option StorageSpec → Exec (Session W) (Unit {0})
  finalize_storage none = pure tt
  finalize_storage (some storage) =
      (if is_retained storage
        then cleanup_retained_storage_credentials storage >> retain_storage storage.bucket
        else delete_storage storage)
      >> forget_storage_ready storage.provider

  unfoldable pub finalize_application : Exec (Session W) (Unit {0})
  finalize_application s = finalize_storage (storage_to_clean s.app) s

  -- r.Update
  abbrev pub update_answered : Result Application × W → Exec (Session W) (Unit {0})
  update_answered (ok answer, w) s = (ok tt, record s { app = answer; world = w })
  update_answered (err e, w) s = (err e, record s { world = w })

  abbrev pub update_application : Exec (Session W) (Unit {0})
  update_application s = update_answered (r.platform.k8s.update s.app s.world) s

  abbrev pub with_finalizers : (Application → Application) → Exec (Session W) (Unit {0})
  with_finalizers f = modify f >> update_application

  abbrev pub has_finalizer : Application → Bool
  has_finalizer app = r.contains_finalizer app.finalizers application_finalizer

  abbrev pub removed_finalizer : Application → Application
  removed_finalizer app = record app {
    metadata = record (app.metadata) {
      finalizers = r.remove_finalizer app.finalizers application_finalizer;
    };
  }

  abbrev added_finalizer : Application → Application
  added_finalizer app = record app {
    metadata = record (app.metadata) {
      finalizers = r.add_finalizer app.finalizers application_finalizer;
    };
  }

  unfoldable pub release : Exec (Session W) (Unit {0})
  release =
      mapping_error (λ e. wrap "failed to remove finalizer: " e "")
        (with_finalizers removed_finalizer)
      >> (λ s. increment (application_ready_deleted s.app.namespace s.app.name) s)

  unfoldable pub finish_deletion : Exec (Session W) (Unit {0})
  finish_deletion =
      mapping_error (λ e. wrap "failed to finalize application: " e "") finalize_application
      >> release

  -- whether the Application is being deleted, and the error
  unfoldable pub handle_finalizer : Session W → (Bool × Result (Unit {0})) × Session W
  handle_finalizer s =
      if not (is_zero_time s.app.deletion_timestamp)
      then (if has_finalizer s.app
          then (let (q, t) = finish_deletion s in ((true, q), t))
          else ((true, ok tt), s))
      else if not (has_finalizer s.app)
      then (let (q, t) =
            mapping_error (λ e. wrap "failed to add finalizer: " e "")
              (with_finalizers added_finalizer) s in
          ((false, q), t))
      else ((false, ok tt), s)
