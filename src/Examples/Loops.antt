-- ===== src/Examples/Loops.antt =====
-- The theorems on the control flow of internal/controller on the sample Application: its storage, its
-- workload, and the whole reconcile.
use forge_operator.Prelude.{
  pos, subst, sym, All, false, String, true, none, some, [], ◌∷◌, ◌≡◌, ◌≢◌, ◌⊎◌, refl, pure, ok,
  is_ok, arith, eq_iff, lookup, Bool, not, nat_eq,
}
use forge_operator.Api.{StorageSpec}
use forge_operator.Api.{Application, AutoscalingSpec, provider_akamai_object_storage}
use forge_operator.Cluster.{Secret}
use forge_operator.S3.Session.{Session}
use forge_operator.S3.Connect.{static_credentials, new_s3_manager}
use forge_operator.S3.Ownership.{ownership_id}
use forge_operator.Akamai.Session.{AkamaiResult, AkamaiEnv}
use forge_operator.Akamai.Keys.{recover_secret_key}
use forge_operator.Controller.Session.{retry_status_update, status_once}
use forge_operator.Controller.Accounts.{desired_service_account}
use forge_operator.Controller.Secrets.{desired_storage}
use forge_operator.Controller.Secrets.Keys.{recover-desired_storage}
use forge_operator.Controller.Storage.Previous.{ensure_storage_ownership_id}
use forge_operator.Controller.Storage.Identity.{WasPersisted, ensure-WasPersisted}
use forge_operator.Controller.Storage.Aws.{reconcile_aws_storage}
use forge_operator.Controller.Storage.Recorded.{IsRecorded, reconcile_aws_storage-IsRecorded}
use forge_operator.Controller.Accounts.{
  should_create_service_account, annotate_service_account_with_irsa,
}
use forge_operator.S3.Bucket.{
  reconcile_bucket, ensure_bucket_exists, ensure_from, ensure_versioning, ensure_lifecycle_policy,
}
use forge_operator.S3.Role.{reconcile_app_irsa, role_from}
use forge_operator.S3.Ownership.{
  claim_or_verify_ownership, claim_from, note_tags, note_tag, claim_tagged, tag_as_owned,
  owned_tags, tags_excluding_owner,
}
use forge_operator.Controller.Secrets.{
  reconcile_storage_secret, delete_stale_secrets, delete_each_secret,
}
use forge_operator.Controller.Secrets.Injected.{ReadsFrom, storage_credential_env_vars-ReadsFrom}
use forge_operator.Controller.Accounts.{
  reconcile_service_account, delete_stale_service_accounts, delete_each_account,
}
use forge_operator.Controller.Deployment.{storage_credential_env_vars, reconcile_deployment}
use forge_operator.Controller.Workload.{
  reconcile_config_map, delete_stale_config_maps, delete_each_config_map, reconcile_service,
  reconcile_ingress, reconcile_pdb, reconcile_hpa,
}
use forge_operator.Controller.Storage.{reconcile_storage}
use forge_operator.Controller.Loop.{ensure_desired_state, reconcile_found}
use forge_operator.Controller.Loop.Settled.{IsLast, started, IsSettled, reconcile_found-IsSettled}
use forge_operator.Status.Manager.{set_reconciling, set_ready, update_status, update_once}
use forge_operator.Status.Compute.{evaluate_compute_readiness, deployment_verdict, rollout_issue}
use forge_operator.Controller.Finalizer.{is_zero_time, application_finalizer, handle_finalizer}
use forge_operator.Examples.Samples.{
  Tagged, cluster, sample_app, sample_metadata, sample_spec, sample_storage, tagged_by, facing,
}
use forge_operator.Examples.Linode.{linode_env, linode_manager, Marked}
use forge_operator.Controller.Predicates.{Event, updated}
use forge_operator.Controller.Predicates.Wakes.{SeesGeneration}
use forge_operator.Naming.Names.{adopt_bucket_annotation, adopt_bucket_annotation_value}
use forge_operator.Examples.Reconcilers.{sample_reconciler, sample_retries}

abbrev unnamed : Session Tagged
unnamed = record (facing none) {
  app = record sample_app { metadata = record sample_metadata { annotations = [] } };
}

id_is_ensured : is_ok (ensure_storage_ownership_id sample_reconciler unnamed).0 ≡ true
unfolding ensure_storage_ownership_id lookup
id_is_ensured = refl

ensure-WasPersisted_example :
    (ownership_id (ensure_storage_ownership_id sample_reconciler unnamed).1.app ≢ "")
    × ((ensure_storage_ownership_id sample_reconciler unnamed).1 ≡ unnamed
        ⊎ ((ownership_id unnamed.app ≡ "")
            × WasPersisted sample_reconciler unnamed
                (ownership_id (ensure_storage_ownership_id sample_reconciler unnamed).1.app)
                none))
ensure-WasPersisted_example =
    ensure-WasPersisted sample_reconciler unnamed (λ w. ground (arith, eq_iff "oid-9" ""))
      id_is_ensured

abbrev sample_role : String
sample_role = "arn:aws:iam::1:role/app"

abbrev sample_creds : AkamaiResult
sample_creds = record { access_key = "ak"; secret_key = "sk"; endpoint = "shop-data.eu-1.example" }

abbrev stored : Secret
stored = record {
  entries = (desired_storage sample_app sample_storage (some sample_creds)).string_data;
  keys = [];
}

abbrev keeping_env : AkamaiEnv Marked
keeping_env = record linode_env { k8s = record cluster { get_secret = λ ns name. pure stored } }

abbrev keeping : Session Marked
keeping = record { app = sample_app; world = none; metrics = [] }

recover-desired_storage_example :
    (recover_secret_key keeping_env linode_manager keeping).0 ≡ ok "sk"
recover-desired_storage_example =
    recover-desired_storage keeping_env linode_manager keeping sample_storage sample_creds stored
      (ground (arith, eq_iff "sk" "")) refl refl

can_reconcile :
    is_ok (reconcile_aws_storage sample_reconciler sample_storage (facing (tagged_by "uid-1"))).0
    ≡ true
unfolding reconcile_aws_storage new_s3_manager static_credentials retry_status_update status_once
    reconcile_bucket ensure_bucket_exists ensure_from claim_or_verify_ownership claim_from note_tags
    note_tag claim_tagged tag_as_owned owned_tags tags_excluding_owner lookup ensure_versioning
    ensure_lifecycle_policy reconcile_app_irsa role_from annotate_service_account_with_irsa
    should_create_service_account
can_reconcile = refl

reconcile_aws_storage-IsRecorded_example :
    IsRecorded sample_reconciler sample_storage
      (facing (tagged_by "uid-1"))
      (reconcile_aws_storage sample_reconciler sample_storage (facing (tagged_by "uid-1"))).1
reconcile_aws_storage-IsRecorded_example =
    reconcile_aws_storage-IsRecorded sample_reconciler sample_storage (facing (tagged_by "uid-1"))
      sample_retries can_reconcile

-- More replicas at least than at most, and an impossible target.
abbrev odd_autoscaling : AutoscalingSpec
odd_autoscaling = record { min_replicas = 9; max_replicas = 4; cpu_utilization = some 400 }

-- Its finalizer is there, and it has no storage.
abbrev bare_app : Application
bare_app = record sample_app {
  metadata = record sample_metadata { finalizers = application_finalizer ∷ [] };
  spec = record sample_spec { storage = none };
}

abbrev bare : Session Tagged
bare = record (facing none) { app = bare_app }

bare_settles : (reconcile_found sample_reconciler bare).0 ≡ ok (pos 0)
unfolding reconcile_found set_reconciling update_status update_once handle_finalizer
    ensure_desired_state reconcile_service_account should_create_service_account
    desired_service_account delete_stale_service_accounts delete_each_account reconcile_config_map
    delete_stale_config_maps delete_each_config_map reconcile_storage reconcile_storage_secret
    delete_stale_secrets delete_each_secret reconcile_service reconcile_deployment reconcile_ingress
    reconcile_pdb reconcile_hpa evaluate_compute_readiness deployment_verdict rollout_issue
    set_ready
bare_settles = refl

reconcile_found-IsSettled_example :
    (is_zero_time (started sample_reconciler bare).app.deletion_timestamp ≡ false)
    ⊎ IsSettled sample_reconciler (reconcile_found sample_reconciler bare).1
reconcile_found-IsSettled_example =
    reconcile_found-IsSettled sample_reconciler (λ w d h. h) bare
      (subst (IsLast sample_reconciler) (sym bare_settles) (λ h. omega (arith, h)))

abbrev injecting : StorageSpec
injecting = record sample_storage {
  provider = provider_akamai_object_storage;
  akamai = some (record { access_key_secret_ref = ""; endpoint = ""; inject_credentials = true });
}

abbrev injected_app : Application
injected_app = record sample_app { spec = record sample_spec { storage = some injecting } }

storage_credential_env_vars-ReadsFrom_example :
    All
      (ReadsFrom (desired_storage injected_app injecting (some sample_creds)))
      (storage_credential_env_vars injected_app)
storage_credential_env_vars-ReadsFrom_example =
    storage_credential_env_vars-ReadsFrom injected_app injecting sample_creds
      (ground (arith, eq_iff "sk" ""))

abbrev by_generation : Event Application → Bool
by_generation (updated old new) = not (nat_eq old.generation new.generation)
by_generation _ = true

by_generation-SeesGeneration : SeesGeneration by_generation
by_generation-SeesGeneration old new = ground arith

-- The user asks to adopt the bucket.
abbrev asking : Application
asking = record sample_app {
  metadata = record sample_metadata {
    annotations = (adopt_bucket_annotation, adopt_bucket_annotation_value) ∷ [];
  };
}
