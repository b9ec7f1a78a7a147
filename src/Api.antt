-- ===== src/Api.antt =====
-- api/v1alpha1/application_types.go: the Application custom resource. Children: Storage and
-- Workload, the parts of its spec. An int32 or int64 field is a natural number, since the API
-- server admits no negative one. Of the object's metadata the fields are those that the operator
-- reads, and of a condition (metav1.Condition) those that it sets.
mod Storage
mod Workload
pub use Storage.*
pub use Workload.*
use forge_operator.Prelude.{ℕ, String, Option, List, StringMap}

pub record ApplicationSpec : Type 0 where
  pub image : String
  pub replicas : Option ℕ
  pub container : ContainerSpec
  pub config_map : Option ConfigSpec
  pub service : ServiceSpec
  pub ingress : Option IngressSpec
  pub autoscaling : Option AutoscalingSpec
  pub pdb : Option PdbSpec
  pub storage : Option StorageSpec
  pub service_account : Option ServiceAccountSpec
  pub env : List EnvVar
  pub resources : ResourceRequirements
  pub pod_security_context : Option PodSecurityContext

pub data ConditionStatus : Type 0 where
  condition_true condition_false condition_unknown : ConditionStatus

pub record Condition : Type 0 where
  pub type : String
  pub status : ConditionStatus
  pub reason : String
  pub message : String
  pub observed_generation : ℕ

pub record ApplicationStatus : Type 0 where
  pub conditions : List Condition
  pub observed_generation : ℕ
  pub storage : Option StorageStatus

pub record ObjectMeta : Type 0 where
  pub name : String
  pub namespace : String
  pub uid : String
  pub generation : ℕ
  pub resource_version : String
  pub deletion_timestamp : Option Time
  pub finalizers : List String
  pub annotations : StringMap

-- The fields of the metadata are read as the Application's own.
pub record Application : Type 0 where
  pub metadata : ObjectMeta
  pub open metadata use *
  pub spec : ApplicationSpec
  pub status : ApplicationStatus
