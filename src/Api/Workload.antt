-- ===== src/Api/Workload.antt =====
-- api/v1alpha1/application_types.go: the part of an Application's spec that describes its
-- workload. Of the Kubernetes types that it embeds (the records above ContainerSpec, IngressTls
-- and IntOrString) the fields are those that the operator itself fills in.
use forge_operator.Prelude.{ℕ, String, Bool, Option, List, StringMap}

pub record Probe : Type 0 where
  pub tcp_port : ℕ
  pub initial_delay_seconds : ℕ
  pub period_seconds : ℕ
  pub timeout_seconds : ℕ
  pub failure_threshold : ℕ

pub record SecurityContext : Type 0 where
  pub run_as_non_root : Option Bool
  pub allow_privilege_escalation : Option Bool
  pub dropped_capabilities : List String

pub record PodSecurityContext : Type 0 where
  pub run_as_non_root : Option Bool
  pub seccomp_profile : String

pub record SecretKeySelector : Type 0 where
  pub name : String
  pub key : String

pub record EnvVar : Type 0 where
  pub name : String
  pub value : String
  pub secret_key_ref : Option SecretKeySelector

pub record ResourceRequirements : Type 0 where
  pub requests : StringMap
  pub limits : StringMap

pub record ContainerSpec : Type 0 where
  pub port : ℕ
  pub config_map_name : String
  pub secret_name : String
  pub config_mount_path : String
  pub secret_mount_path : String
  pub security_context : Option SecurityContext
  pub liveness_probe : Option Probe
  pub readiness_probe : Option Probe
  pub startup_probe : Option Probe

-- The key data is spelled entries, since data is a word of the language.
pub record ConfigSpec : Type 0 where
  pub name : String
  pub entries : StringMap

pub record ServiceSpec : Type 0 where
  pub type : String
  pub port : ℕ
  pub target_port : Option ℕ

pub record IngressTls : Type 0 where
  pub hosts : List String
  pub secret_name : String

pub record IngressSpec : Type 0 where
  pub host : String
  pub path : String
  pub path_type : Option String
  pub class_name : Option String
  pub annotations : StringMap
  pub tls : List IngressTls

pub data IntOrString : Type 0 where
  int_value : ℕ → IntOrString
  string_value : String → IntOrString

pub record PdbSpec : Type 0 where
  pub min_available : Option IntOrString
  pub max_unavailable : Option IntOrString

pub record AutoscalingSpec : Type 0 where
  pub min_replicas : ℕ
  pub max_replicas : ℕ
  pub cpu_utilization : Option ℕ

pub record ServiceAccountSpec : Type 0 where
  pub name : String
  pub create : Option Bool
