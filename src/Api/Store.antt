-- ===== src/Api/Store.antt =====
-- api/v1: the Store resource, with the fields that the modelled code reads, and its status.
use shopware_operator.Prelude.{ℕ, String, Bool, Option, List, ◌==◌}
use shopware_operator.Prelude.Int.{ℤ}
use shopware_operator.Api.State.{AppState, DeploymentState, is_one_of}
use shopware_operator.Api.Conditions.{Condition, add_condition, get_last_condition}
pub use shopware_operator.Api.Features.{SecretRef}
use shopware_operator.Api.Features.{
  RedisSpec, CacheSpec, FpmSpec, BlackfireSpec, TidewaysSpec, OtelSpec, OpensearchIndexSpec,
  NetworkSpec, Configuration,
}
use shopware_operator.Api.Container.{ContainerSpec, ContainerMergeSpec}

pub record DatabaseSpec : Type 0 where
  pub host : String
  pub host_ref : SecretRef
  pub port : ℤ
  pub version : String
  pub user : String
  pub name : String
  pub ssl_mode : String
  pub tls_secret_name : String
  pub tls_client_certificate : Bool
  pub tls_dont_verify_server_certificate : Bool
  pub options : String
  pub password_secret_ref : SecretRef

pub record Credentials : Type 0 where
  pub username : String
  pub password : String
  pub username_secret_ref : SecretRef
  pub password_secret_ref : SecretRef

pub record FastlySpec : Type 0 where
  pub disable_on_setup_migration : Bool
  pub token_ref : SecretRef
  pub service_ref : SecretRef

pub record OpensearchSpec : Type 0 where
  pub index : OpensearchIndexSpec
  pub enabled : Bool
  pub host : String
  pub username : String
  pub password_secret_ref : SecretRef
  pub port : ℤ
  pub schema : String

pub record S3Storage : Type 0 where
  pub endpoint_url : String
  pub private_bucket_name : String
  pub public_bucket_name : String
  pub region : String
  pub access_key_ref : SecretRef
  pub secret_access_key_ref : SecretRef

pub record WorkerSpec : Type 0 where
  pub redis : RedisSpec
  pub adapter : String
  pub enable_keda_scaling : Bool
  pub max_replicas : ℤ
  pub min_replicas : ℤ
  pub cooldown_period : ℤ
  pub polling_interval : ℤ
  pub target_queue_length : ℤ

-- HPASpec; a metric and the behavior are only passed on.
pub record HpaSpec : Type 0 where
  pub min_replicas : Option ℤ
  pub max_replicas : ℤ
  pub metrics : List String
  pub behavior : Option String
  pub enabled : Bool
  pub annotations : Option (List (String × String))

pub record StoreSpec : Type 0 where
  pub database : DatabaseSpec
  pub container : ContainerSpec
  pub admin_deployment_container : ContainerMergeSpec
  pub worker_deployment_container : ContainerMergeSpec
  pub storefront_deployment_container : ContainerMergeSpec
  pub setup_job_container : ContainerMergeSpec
  pub migration_job_container : ContainerMergeSpec
  pub network : NetworkSpec
  pub s3_storage : S3Storage
  pub cdn_url : String
  pub blackfire : BlackfireSpec
  pub tideways : TidewaysSpec
  pub otel : OtelSpec
  pub fpm : FpmSpec
  pub horizontal_pod_autoscaler : HpaSpec
  pub service_account_name : String
  pub setup_script : String
  pub migration_script : String
  pub opensearch_spec : OpensearchSpec
  pub shop_configuration : Configuration
  pub fastly : FastlySpec
  pub disable_checks : Bool
  pub disable_s3_check : Bool
  pub disable_fastly_check : Bool
  pub disable_opensearch_check : Bool
  pub disable_database_check : Bool
  pub session_cache : CacheSpec
  pub app_cache : CacheSpec
  pub lock : CacheSpec
  pub worker : WorkerSpec
  pub secret_name : String
  pub admin_credentials : Credentials
  pub scheduled_task_suspend : Bool

abbrev pub StoreCondition : Type 0
StoreCondition = Condition String

pub record DeploymentCondition : Type 0 where
  pub state : DeploymentState
  pub last_update_time : ℕ
  pub message : String
  pub ready : String
  pub store_replicas : ℤ

pub record QueueTransportStats : Type 0 where
  pub name : String
  pub count : ℤ

pub record QueueCondition : Type 0 where
  pub last_update_time : ℕ
  pub error : String
  pub transports : List QueueTransportStats
  pub uncountable_transports : List String

pub record StoreStatus : Type 0 where
  pub state : AppState
  pub message : String
  pub current_image_tag : String
  pub worker_state : DeploymentCondition
  pub admin_state : DeploymentCondition
  pub storefront_state : DeploymentCondition
  pub queue_state : QueueCondition
  pub conditions : List StoreCondition

pub record Store : Type 0 where
  pub namespace : String
  pub name : String
  pub deletion_timestamp : Option ℕ
  pub spec : StoreSpec
  pub status : StoreStatus

-- StoreConditionsList.AddCondition on the status of a store
unfoldable pub store_add_condition : StoreCondition → Store → Store
unfolding add_condition
store_add_condition c s = record s {
  status = record s.status { conditions = add_condition ◌==◌ c s.status.conditions };
}

-- Store.IsState
abbrev pub store_is_state : Store → List AppState → Bool
store_is_state s states = is_one_of s.status.state states

abbrev pub zero_condition : StoreCondition
zero_condition = record {
  type = "";
  last_transition_time = 0;
  last_update_time = 0;
  message = "";
  reason = "";
  status = "";
}

-- StoreConditionsList.GetLastCondition
unfoldable pub store_last_condition : Store → StoreCondition
unfolding get_last_condition
store_last_condition s = get_last_condition zero_condition s.status.conditions
