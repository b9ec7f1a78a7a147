-- ===== src/Cluster.antt =====
-- The Kubernetes API as the operator uses it: sigs.k8s.io/controller-runtime's client, which is a
-- parameter of the model. A call reads and changes the world (the API server, its clients' caches
-- and the cloud) and gives an object or an error. Of the objects the fields are those that the
-- operator reads; int32 and int64 fields that the API server keeps from being negative are
-- natural numbers.
use forge_operator.Prelude.{ℕ, String, Option, List, StringMap, Exec}
use forge_operator.Api.{
  Application, Condition, Time, IngressTls, IntOrString, EnvVar, Probe, ResourceRequirements,
  SecurityContext, PodSecurityContext,
}

pub record Namespace : Type 0 where
  pub annotations : StringMap

-- The bytes of each key, as a text; a missing key reads as the empty text.
pub record Secret : Type 0 where
  pub entries : StringMap
  -- the keys that the Secret has
  pub keys : List String

pub record DeploymentState : Type 0 where
  pub generation : ℕ
  pub spec_replicas : Option ℕ
  pub observed_generation : ℕ
  pub conditions : List Condition
  pub updated_replicas : ℕ
  pub available_replicas : ℕ
  pub ready_replicas : ℕ

pub record LoadBalancerIngress : Type 0 where
  pub ip : String
  pub hostname : String

-- A nil slice of endpoints differs from an empty one.
pub record IngressState : Type 0 where
  pub endpoints : Option (List LoadBalancerIngress)

pub record HpaState : Type 0 where
  pub generation : ℕ
  pub observed_generation : Option ℕ
  pub conditions : List Condition
  pub current_replicas : ℕ

pub record PdbState : Type 0 where
  pub disruptions_allowed : ℕ
  pub current_healthy : ℕ
  pub desired_healthy : ℕ

-- The metadata of an object that the operator owns; `controller` is the UID of the controller
-- reference.
pub record OwnedMeta : Type 0 where
  pub name : String
  pub namespace : String
  pub labels : StringMap
  pub annotations : StringMap
  pub controller : Option String

-- An opaque Secret with its StringData.
pub record OwnedSecret : Type 0 where
  pub metadata : OwnedMeta
  pub string_data : StringMap

pub record ConfigMapObject : Type 0 where
  pub metadata : OwnedMeta
  pub entries : StringMap

-- The one port and its name.
pub record ServiceObject : Type 0 where
  pub metadata : OwnedMeta
  pub type : String
  pub selector : StringMap
  pub port_name : String
  pub port : ℕ
  pub target_port : ℕ

-- The one rule with its one path.
pub record IngressObject : Type 0 where
  pub metadata : OwnedMeta
  pub class_name : Option String
  pub host : String
  pub path : String
  pub path_type : Option String
  pub backend_name : String
  pub backend_port : ℕ
  pub tls : List IngressTls

-- The one metric is the average utilization of the CPU.
pub record HpaObject : Type 0 where
  pub metadata : OwnedMeta
  pub target_kind : String
  pub target_name : String
  pub min_replicas : ℕ
  pub max_replicas : ℕ
  pub average_utilization : ℕ

pub record PdbObject : Type 0 where
  pub metadata : OwnedMeta
  pub match_labels : StringMap
  pub min_available : Option IntOrString
  pub max_unavailable : Option IntOrString

-- One volume and where it is mounted, read only; it holds a ConfigMap or a Secret of this name.
pub record VolumeMount : Type 0 where
  pub name : String
  pub mount_path : String
  pub source : String

-- The pods have one container.
pub record PodSpec : Type 0 where
  pub service_account_name : String
  pub pod_security_context : PodSecurityContext
  pub container_name : String
  pub image : String
  pub container_port : ℕ
  pub env : List EnvVar
  pub resources : ResourceRequirements
  pub volumes : List VolumeMount
  pub security_context : SecurityContext
  pub liveness_probe : Probe
  pub readiness_probe : Probe
  pub startup_probe : Option Probe

pub record DeploymentObject : Type 0 where
  pub metadata : OwnedMeta
  pub replicas : Option ℕ
  pub match_labels : StringMap
  pub pod_labels : StringMap
  pub pod : PodSpec

-- A whole object that is applied.
pub data Workload : Type 0 where
  config_map_object : ConfigMapObject → Workload
  service_object : ServiceObject → Workload
  ingress_object : IngressObject → Workload
  hpa_object : HpaObject → Workload
  pdb_object : PdbObject → Workload
  deployment_object : DeploymentObject → Workload

-- The kinds that a part of the spec turns on and off.
pub data Toggled : Type 0 where
  ingress_kind hpa_kind pdb_kind : Toggled

-- The first argument of a get is the namespace, the second the name.
pub record Client (W : Type 0) : Type 0 where
  pub list_applications : Exec W (List Application)
  pub get_application : String → String → Exec W Application
  pub get_namespace : String → Exec W Namespace
  pub get_secret : String → String → Exec W Secret
  pub get_service : String → String → Exec W (Unit {0})
  pub get_deployment : String → String → Exec W DeploymentState
  pub get_ingress : String → String → Exec W IngressState
  pub get_hpa : String → String → Exec W HpaState
  pub get_pdb : String → String → Exec W PdbState
  -- Update and Status().Update: the object as the response writes it back
  pub update : Application → Exec W Application
  pub update_status : Application → Exec W Application
  -- Patch with client.Apply, the field owner forge-operator and ForceOwnership: of an Application's
  -- namespace and name one annotation, of the others the whole object
  pub apply_annotation : String → String → String → String → Exec W (Unit {0})
  pub apply_secret : OwnedSecret → Exec W (Unit {0})
  pub apply_service_account : OwnedMeta → Exec W (Unit {0})
  -- List in a namespace, by labels
  pub list_secrets : String → StringMap → Exec W (List OwnedMeta)
  pub list_service_accounts : String → StringMap → Exec W (List OwnedMeta)
  pub delete_secret : OwnedMeta → Exec W (Unit {0})
  pub delete_service_account : OwnedMeta → Exec W (Unit {0})
  pub apply_workload : Workload → Exec W (Unit {0})
  pub list_config_maps : String → StringMap → Exec W (List OwnedMeta)
  pub delete_config_map : OwnedMeta → Exec W (Unit {0})
  -- by namespace and name
  pub delete_toggled : Toggled → String → String → Exec W (Unit {0})

-- The Kubernetes client, time.Now and SHA-256.
pub record Platform (W : Type 0) : Type 0 where
  pub k8s : Client W
  pub now : W → Time
  pub sha256_hex : String → String
