-- ===== src/Controller/Workload.antt =====
-- The Kubernetes objects that the controller writes, with the fields that it reads or sets. `other`
-- stands for the fields that it leaves alone, such as those that the API server fills in. A Go map is
-- an association list; nil and empty maps are the same.
use kurama.Base.{ℤ, Bytes, ℕ, Bool, Option, List}
use kurama.Controller.Resources.{ResourceRequirements}
use kurama.Controller.Secrets.{KeyToPath, ProjectedVolumeSource}

abbrev pub StringMap : Type 0
StringMap = List (Bytes × Bytes)

-- `metav1.OwnerReference` of the controller of an object
pub record OwnerReference : Type 0 where
  pub kind : Bytes
  pub name : Bytes
  pub uid : Bytes

pub record ConfigMap : Type 0 where
  pub namespace : Bytes
  pub name : Bytes
  pub labels : StringMap
  pub annotations : StringMap
  pub controller : Option OwnerReference
  pub contents : StringMap
  pub other : Bytes

-- A value, or a reference to a field of the pod.
pub data EnvValue : Type 0 where
  literal field_ref : Bytes → EnvValue

pub record EnvVar : Type 0 where
  pub name : Bytes
  pub value : EnvValue

pub record VolumeMount : Type 0 where
  pub name : Bytes
  pub mount_path : Bytes
  pub read_only : Bool

pub record ContainerPort : Type 0 where
  pub name : Bytes
  pub container_port : ℕ
  pub protocol : Bytes

-- A probe by an HTTP request.
pub record Probe : Type 0 where
  pub path : Bytes
  pub port : Bytes
  pub scheme : Bytes
  pub timeout_seconds : ℕ
  pub period_seconds : ℕ
  pub success_threshold : ℕ
  pub failure_threshold : ℕ

pub record SecurityContext : Type 0 where
  pub privileged : Option Bool
  pub allow_privilege_escalation : Option Bool
  pub read_only_root_filesystem : Option Bool
  pub dropped_capabilities : Option (List Bytes)
  pub other : Bytes

pub record Container : Type 0 where
  pub name : Bytes
  pub image : Bytes
  pub command : List Bytes
  pub args : List Bytes
  pub env : List EnvVar
  pub volume_mounts : List VolumeMount
  pub ports : List ContainerPort
  pub resources : ResourceRequirements
  pub security_context : Option SecurityContext
  pub startup_probe : Option Probe
  pub liveness_probe : Option Probe
  pub readiness_probe : Option Probe
  pub other : Bytes

pub record ConfigMapVolumeSource : Type 0 where
  pub name : Bytes
  pub items : List KeyToPath
  pub optional : Option Bool
  pub default_mode : Option ℕ

pub data VolumeSource : Type 0 where
  config_map : ConfigMapVolumeSource → VolumeSource
  projected : ProjectedVolumeSource → VolumeSource
  other_source : Bytes → VolumeSource

pub record Volume : Type 0 where
  pub name : Bytes
  pub source : VolumeSource

pub record PodSecurityContext : Type 0 where
  pub run_as_non_root : Option Bool
  pub seccomp_profile : Option Bytes
  pub other : Bytes

pub record PodSpec : Type 0 where
  pub image_pull_secrets : List Bytes
  pub automount_service_account_token : Option Bool
  pub enable_service_links : Option Bool
  pub security_context : Option PodSecurityContext
  pub containers : List Container
  pub volumes : List Volume
  pub other : Bytes

-- `appsv1.DeploymentStrategy`
pub record Strategy : Type 0 where
  pub type : Bytes
  pub max_unavailable : ℕ
  pub max_surge : ℕ

-- `appsv1.Deployment` but for its status
pub record Deployment : Type 0 where
  pub namespace : Bytes
  pub name : Bytes
  pub labels : StringMap
  pub annotations : StringMap
  pub controller : Option OwnerReference
  pub replicas : Option ℤ
  pub revision_history_limit : Option ℕ
  pub progress_deadline_seconds : Option ℕ
  pub strategy : Strategy
  pub selector : StringMap
  pub template_labels : StringMap
  pub template_annotations : StringMap
  pub pod : PodSpec
  pub other : Bytes
