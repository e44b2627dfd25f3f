-- ===== src/Workloads.antt =====
-- internal/deployment, internal/service, internal/pdb and internal/hpa: the objects that a store is made of,
-- as they are built before they are written (k8s.io/api). Labels and Annotations stand for
-- internal/util/labels.go and annotations.go, Containers for what the containers share.
pub mod Labels
pub mod Containers
pub mod Deployments
pub mod Services
pub mod Jobs
pub mod Selection
pub mod Sharing
pub mod Scaling
pub mod Limits
use shopware_operator.Prelude.{ℕ, String, Bool, Option, List}
use shopware_operator.Prelude.Int.{ℤ}
use shopware_operator.Kube.{Volume, PodSecurityContext, Container}
use shopware_operator.Cluster.Meta.{Map}

-- corev1.PodSpec
pub record PodSpec : Type 0 where
  pub volumes : List Volume
  pub topology_spread_constraints : List String
  pub node_selector : Map
  pub image_pull_secrets : List String
  pub enable_service_links : Option Bool
  pub restart_policy : String
  pub termination_grace_period_seconds : ℤ
  pub containers : List Container
  pub security_context : PodSecurityContext
  pub init_containers : List Container
  pub service_account_name : String

-- corev1.PodTemplateSpec
pub record PodTemplate : Type 0 where
  pub labels : Map
  pub annotations : Map
  pub spec : PodSpec

-- appsv1.Deployment as the operator builds it
pub record BuiltDeployment : Type 0 where
  pub kind : String
  pub api_version : String
  pub name : String
  pub namespace : String
  pub labels : Map
  pub annotations : Map
  pub progress_deadline_seconds : ℤ
  pub replicas : ℤ
  pub match_labels : Map
  pub max_surge : String
  pub max_unavailable : String
  pub template : PodTemplate

-- batchv1.Job as the operator builds it
pub record BuiltJob : Type 0 where
  pub kind : String
  pub api_version : String
  pub name : String
  pub namespace : String
  pub labels : Map
  pub annotations : Map
  pub backoff_limit : ℕ
  pub ttl_seconds_after_finished : ℕ
  pub share_process_namespace : Bool
  pub template : PodTemplate

-- corev1.ServicePort
pub record ServicePort : Type 0 where
  pub name : String
  pub protocol : String
  pub port : ℤ
  pub target_port : ℤ

-- corev1.Service
pub record Service : Type 0 where
  pub name : String
  pub namespace : String
  pub labels : Map
  pub selector : Map
  pub type : String
  pub ports : List ServicePort

-- policy.PodDisruptionBudget
pub record DisruptionBudget : Type 0 where
  pub name : String
  pub namespace : String
  pub labels : Map
  pub match_labels : Map
  pub max_unavailable : ℕ

-- kedav1alpha1.ScaledObject, with its only trigger
pub record ScaledObject : Type 0 where
  pub name : String
  pub namespace : String
  pub labels : Map
  pub scale_target : String
  pub min_replica_count : ℤ
  pub max_replica_count : ℤ
  pub cooldown_period : ℤ
  pub polling_interval : ℤ
  pub pods_per_step : ℕ
  pub step_seconds : ℕ
  pub trigger_type : String
  pub trigger_url : String
  pub value_location : String
  pub target_value : String

-- autoscaling.HorizontalPodAutoscaler
pub record Autoscaler : Type 0 where
  pub name : String
  pub namespace : String
  pub labels : Map
  pub annotations : Option Map
  pub target_kind : String
  pub target_name : String
  pub target_api_version : String
  pub min_replicas : Option ℤ
  pub max_replicas : ℤ
  pub metrics : List String
  pub behavior : Option String
