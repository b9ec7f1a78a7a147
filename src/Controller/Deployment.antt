-- ===== src/Controller/Deployment.antt =====
-- internal/controller/deployment.go: the Deployment of an Application.
use Prim.Native.String.{◌++◌}
use forge_operator.Prelude.{
  ℕ, String, Bool, true, false, not, ◌&&◌, ◌||◌, is_some, Option, none, some, List, [], ◌∷◌, Exec,
  pure, fail, try, ◌>>=◌, mapping_error, Result, ok, err, wrap, ◌==◌, if◌then◌else◌,
}
use forge_operator.Api.{
  Application, StorageSpec, AkamaiStorageSpec, EnvVar, Probe, ResourceRequirements, SecurityContext,
  PodSecurityContext, provider_akamai_object_storage,
}
use forge_operator.Cluster.{
  OwnedMeta, DeploymentState, DeploymentObject, PodSpec, VolumeMount, deployment_object,
}
use forge_operator.Naming.Names
use forge_operator.Naming.Names.{app_config_map, storage_secret}
use forge_operator.S3.Session.{Session, on_world}
use forge_operator.Controller.Session.{Reconciler}
use forge_operator.Controller.Accounts.{pod_service_account_name, controlled}
use forge_operator.Controller.Workload.{app_labels, container_port}

abbrev pub config_map_name_for : Application → String
config_map_name_for app =
    if not (app.spec.container.config_map_name == "")
    then app.spec.container.config_map_name
    else app_config_map app

abbrev pub secret_name_for : Application → String
secret_name_for app =
    if not (app.spec.container.secret_name == "")
    then app.spec.container.secret_name
    else app.name ++ "-secret"

abbrev pub config_mount_path_for : Application → String
config_mount_path_for app =
    if not (app.spec.container.config_mount_path == "")
    then app.spec.container.config_mount_path
    else "/etc/" ++ (app.name ++ "/config")

abbrev pub secret_mount_path_for : Application → String
secret_mount_path_for app =
    if not (app.spec.container.secret_mount_path == "")
    then app.spec.container.secret_mount_path
    else "/etc/" ++ (app.name ++ "/secret")

abbrev pub config_volume : Application → VolumeMount
config_volume app = record {
  name = "config";
  mount_path = config_mount_path_for app;
  source = config_map_name_for app;
}

abbrev pub secret_volume : Application → VolumeMount
secret_volume app = record {
  name = "secret";
  mount_path = secret_mount_path_for app;
  source = secret_name_for app;
}

abbrev with_secret : Application → List VolumeMount
with_secret app = if not (app.spec.container.secret_name == "") then secret_volume app ∷ [] else []

-- each volume with its mount
unfoldable pub build_volume_and_mounts : Application → List VolumeMount
build_volume_and_mounts app =
    if not (app.spec.container.config_map_name == "") || is_some app.spec.config_map
    then config_volume app ∷ with_secret app
    else with_secret app

abbrev pub default_pod_security_context : PodSecurityContext
default_pod_security_context = record {
  run_as_non_root = some true;
  seccomp_profile = "RuntimeDefault";
}

abbrev pub default_container_security_context : SecurityContext
default_container_security_context = record {
  run_as_non_root = some true;
  allow_privilege_escalation = some false;
  dropped_capabilities = "ALL" ∷ [];
}

abbrev pub given_or : {A : Type 0} → Option A → A → A
given_or none a = a
given_or (some given) a = given

abbrev pub default_resources : ResourceRequirements
default_resources = record {
  requests = ("cpu", "100m") ∷ ("memory", "128Mi") ∷ [];
  limits = ("cpu", "500m") ∷ ("memory", "512Mi") ∷ [];
}

abbrev is_empty : List (String × String) → Bool
is_empty [] = true
is_empty (x ∷ xs) = false

unfoldable pub resources_for : Application → ResourceRequirements
resources_for app =
    if is_empty app.spec.resources.requests && is_empty app.spec.resources.limits
    then default_resources
    else app.spec.resources

abbrev pub default_liveness_probe : ℕ → Probe
default_liveness_probe port = record {
  tcp_port = port;
  initial_delay_seconds = 10;
  period_seconds = 15;
  timeout_seconds = 5;
  failure_threshold = 3;
}

abbrev pub default_readiness_probe : ℕ → Probe
default_readiness_probe port = record {
  tcp_port = port;
  initial_delay_seconds = 5;
  period_seconds = 10;
  timeout_seconds = 3;
  failure_threshold = 3;
}

abbrev from_secret : String → String → String → EnvVar
from_secret secret name key = record {
  name = name;
  value = "";
  secret_key_ref = some (record { name = secret; key = key });
}

abbrev injects : Option AkamaiStorageSpec → Bool
injects none = false
injects (some akamai) = akamai.inject_credentials

abbrev pub injected : Option StorageSpec → Bool
injected none = false
injected (some storage) =
    (storage.provider == provider_akamai_object_storage) && injects storage.akamai

unfoldable pub storage_credential_env_vars : Application → List EnvVar
storage_credential_env_vars app =
    let secret = storage_secret app in
    if injected app.spec.storage
    then from_secret secret "AWS_ACCESS_KEY_ID" "access_key"
      ∷ from_secret secret "AWS_SECRET_ACCESS_KEY" "secret_key"
      ∷ from_secret secret "AWS_ENDPOINT_URL" "endpoint_url"
      ∷ from_secret secret "AWS_REGION" "region"
      ∷ from_secret secret "FORGE_STORAGE_BUCKET" "bucket"
      ∷ []
    else []

abbrev followed_by : List EnvVar → List EnvVar → List EnvVar
followed_by [] rest = rest
followed_by (v ∷ vs) rest = v ∷ followed_by vs rest

-- an empty service account name is left out
unfoldable pub desired_pod_spec : Application → PodSpec
desired_pod_spec app = record {
  service_account_name = pod_service_account_name app;
  pod_security_context = given_or app.spec.pod_security_context default_pod_security_context;
  container_name = app.name;
  image = app.spec.image;
  container_port = container_port app;
  env = followed_by (storage_credential_env_vars app) app.spec.env;
  resources = resources_for app;
  volumes = build_volume_and_mounts app;
  security_context =
      given_or app.spec.container.security_context default_container_security_context;
  liveness_probe =
      given_or app.spec.container.liveness_probe (default_liveness_probe (container_port app));
  readiness_probe =
      given_or app.spec.container.readiness_probe (default_readiness_probe (container_port app));
  startup_probe = app.spec.container.startup_probe;
}

unfoldable pub desired_replicas : Application → ℕ
desired_replicas app = given_or app.spec.replicas 1

abbrev pub seeded_replicas : Application → Bool → Option ℕ
seeded_replicas app deployment_exists =
    if not (is_some app.spec.autoscaling) || not deployment_exists
    then some (desired_replicas app)
    else none

unfoldable pub desired_deployment : Application → Bool → DeploymentObject
desired_deployment app deployment_exists = record {
  metadata = record {
    name = Names.deployment app;
    namespace = app.namespace;
    labels = [];
    annotations = [];
    controller = none;
  };
  replicas = seeded_replicas app deployment_exists;
  match_labels = app_labels app;
  pod_labels = app_labels app;
  pod = desired_pod_spec app;
}

module _ {W : Type 0} (r : Reconciler W) where
  abbrev pub does_exist : Result DeploymentState → Exec (Session W) Bool
  does_exist (ok existing) = pure true
  does_exist (err e) =
      if e.is_not_found then pure false else fail (wrap "failed to get existing Deployment: " e "")

  abbrev with_meta : DeploymentObject → OwnedMeta → DeploymentObject
  with_meta object meta = record object { metadata = meta }

  abbrev pub apply_deployment : Application → Bool → Exec (Session W) (Unit {0})
  apply_deployment app exists =
      let desired = desired_deployment app exists in
      controlled r "failed to set controller reference: " app desired.metadata >>= (λ meta.
        mapping_error (λ e. wrap "failed to server-side apply Deployment: " e "")
          (on_world (r.platform.k8s.apply_workload (deployment_object (with_meta desired meta)))))

  unfoldable pub reconcile_deployment : Exec (Session W) (Unit {0})
  reconcile_deployment s =
      (try (on_world (r.platform.k8s.get_deployment s.app.namespace (Names.deployment s.app)))
          >>= (λ q. does_exist q >>= apply_deployment s.app))
        s
