-- ===== src/Controller/Storage/Refused.antt =====
-- reconcileAWSStorage of internal/controller/storage.go at a bucket that is not the Application's: how the
-- refusal of ReconcileBucket reaches the status, the metrics and the caller.
use Prim.Native.String.{◌++◌ as ◌+++◌, len, slice}
use forge_operator.Prelude.{◌≡◌, refl, Error, err, ok, wrap, ltb, if◌then◌else◌, [], ◌∷◌, ◌++◌}
use forge_operator.Api.{Application, Condition, StorageSpec, condition_false}
use forge_operator.ErrorClass.Outcomes.{reconcile_refused_outcome}
use forge_operator.StorageConditions.{set_not_owned, truncate_message}
use forge_operator.S3.Session.{Session, Env, Manager, storage_reconcile_total, storage_ready_set}
use forge_operator.S3.Ownership.Refusal.{OnlyReads}
use forge_operator.S3.Bucket.{reconcile_bucket}
use forge_operator.S3.Bucket.Gate.{IsThere, IsEntitled, after_looking, reconcile_refused}
use forge_operator.Controller.Session.{Reconciler, retry_status_update}
use forge_operator.Controller.Storage.Aws.{reconcile_aws_storage}
use forge_operator.Controller.Storage.Recorded.{aws_made}

module _ {W : Type 0} (r : Reconciler W) where
  -- the condition StorageReady, false for the reason BucketNotOwned, with the error's text: its first 247
  -- characters and dots where it is longer than 250
  abbrev pub not_owned : Error → Application → Condition
  not_owned e app = record {
    type = "StorageReady";
    status = condition_false;
    reason = "BucketNotOwned";
    message = "" +++ (if ltb 250 (len e.text) then slice e.text 0 247 +++ "..." else e.text);
    observed_generation = app.generation;
  }

  abbrev pub with_not_owned : Error → Application → Application
  with_not_owned e app = record app {
    status = record (app.status) {
      conditions = (r.set_status_condition app.status.conditions (not_owned e app)).1;
    };
  }

  -- the session `u` after the condition, the attempt to write the status, and the two metrics
  abbrev pub denied : Error → Session W → Session W
  denied e u =
      let x = (retry_status_update r (record u { app = with_not_owned e u.app })).1 in
      record x {
        metrics =
            (x.metrics ++ storage_reconcile_total "AWS" "not_owned" ∷ [])
            ++ storage_ready_set x.app.namespace x.app.name "AWS" 0 ∷ [];
      }

  -- If the manager could be made, the bucket is there and the Application is not entitled to it, then the
  -- reconcile of S3 storage only reads until ReconcileBucket has failed, and then it sets the
  -- condition StorageReady to false, for the reason BucketNotOwned and with that error's text (cut
  -- to 250 characters where it is longer), tries to write the status, counts the outcome not_owned, sets the gauge to 0 and
  -- fails with that error wrapped; nothing else is done.
  pub reconcile_aws_storage_refused :
      (storage : StorageSpec) (s : Session W) (env : Env W) (m : Manager W)
      → (aws_made r storage s).0 ≡ ok (env, m)
      → IsThere env m (aws_made r storage s).1
      → ¬ (IsEntitled env m (aws_made r storage s).1)
      → (e : Error) × (u : Session W) × (reconcile_bucket env m (aws_made r storage s).1
          ≡ (err e, u))
        × OnlyReads env m (after_looking env m (aws_made r storage s).1) u
        × (reconcile_aws_storage r storage s
            ≡ (err (wrap "failed to reconcile S3 bucket: " e ""), denied e u))
  unfolding reconcile_aws_storage set_not_owned truncate_message
  reconcile_aws_storage_refused storage s env m connected there foreign =
      let t = (aws_made r storage s).1 in
      let (e, failed, label) = reconcile_refused_outcome env m t there foreign in
      let (_, reads) = reconcile_refused env m t there foreign in
      (
        e,
        (reconcile_bucket env m t).1,
        (λ i. (failed i, (reconcile_bucket env m t).1)),
        reads,
        rw (connected, failed, label) refl,
      )
