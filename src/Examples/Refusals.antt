-- ===== src/Examples/Refusals.antt =====
-- An Application whose reconcile meets a bucket of another one, and the workload of an Application beside
-- another one.
use forge_operator.Prelude.{true, none, some, err, ok, Error, wrap, ◌≡◌, refl, arith, eq_iff, []}
use forge_operator.Api.{Application, IngressSpec, PdbSpec, AutoscalingSpec, provider_aws_s3}
use forge_operator.S3.Session.{Session, Env, Manager}
use forge_operator.S3.Connect.{new_s3_manager, static_credentials}
use forge_operator.S3.Ownership.Tags.{last_value}
use forge_operator.S3.Ownership.Refusal.{OnlyReads}
use forge_operator.S3.Bucket.{reconcile_bucket}
use forge_operator.S3.Bucket.Gate.{after_looking}
use forge_operator.Controller.Accounts.{service_account_name_for}
use forge_operator.Controller.Storage.Aws.{record_created_as, reconcile_aws_storage}
use forge_operator.Controller.Storage.Recorded.{aws_made}
use forge_operator.Controller.Storage.Refused.{denied, reconcile_aws_storage_refused}
use forge_operator.Controller.Workload.Fitting.{Fit, workload_fits}
use forge_operator.Examples.Samples.{
  Tagged, facing, tagged_by, sample_env, sample_manager, sample_storage, sample_app,
  sample_metadata,
}
use forge_operator.Examples.Buckets.{not-Entitled}
use forge_operator.Examples.Reconcilers.{idle_s3, sample_reconciler}

abbrev idle_env : Env Tagged
idle_env = record sample_env { s3 = idle_s3 }

abbrev recording_manager : Manager Tagged
recording_manager = record sample_manager {
  service_account_name = "shop-sa";
  record_created = some (record_created_as sample_reconciler provider_aws_s3 sample_storage);
}

sample_made :
    aws_made sample_reconciler sample_storage (facing (tagged_by "uid-2"))
    ≡ (ok (idle_env, recording_manager), facing (tagged_by "uid-2"))
unfolding new_s3_manager static_credentials service_account_name_for
sample_made = refl

reconcile_aws_storage_refused_example :
    (e : Error) × (u : Session Tagged) × (reconcile_bucket idle_env recording_manager
        (aws_made sample_reconciler sample_storage (facing (tagged_by "uid-2"))).1
      ≡ (err e, u))
    × OnlyReads idle_env recording_manager
        (after_looking idle_env recording_manager
          (aws_made sample_reconciler sample_storage (facing (tagged_by "uid-2"))).1)
        u
    × (reconcile_aws_storage sample_reconciler sample_storage (facing (tagged_by "uid-2"))
        ≡ (err (wrap "failed to reconcile S3 bucket: " e ""), denied sample_reconciler e u))
unfolding new_s3_manager last_value static_credentials
reconcile_aws_storage_refused_example =
    reconcile_aws_storage_refused sample_reconciler sample_storage (facing (tagged_by "uid-2"))
      idle_env recording_manager (λ i. (sample_made i).0) refl not-Entitled

abbrev neighbour : Application
neighbour = record sample_app { metadata = record sample_metadata { name = "blog" } }

abbrev sample_ingress : IngressSpec
sample_ingress = record {
  host = "shop.example";
  path = "";
  path_type = none;
  class_name = none;
  annotations = [];
  tls = [];
}

abbrev sample_autoscaling : AutoscalingSpec
sample_autoscaling = record { min_replicas = 1; max_replicas = 4; cpu_utilization = none }

abbrev sample_pdb : PdbSpec
sample_pdb = record { min_available = none; max_unavailable = none }

workload_fits_example : Fit sample_app neighbour true sample_ingress sample_autoscaling sample_pdb
workload_fits_example =
    workload_fits sample_app neighbour true sample_ingress sample_autoscaling sample_pdb
      (ground (arith, eq_iff "shop" "blog")) refl
