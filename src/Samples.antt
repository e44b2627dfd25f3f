-- ===== src/Samples.antt =====
-- A cluster and a store on which the definitions are run.
use shopware_operator.Prelude.{String, true, false, none, some, [], ◌∷◌}
use shopware_operator.Prelude.Int.{ℤ, pos}
use shopware_operator.Kube.{
  empty_container, found, Affinity, PodPhase, Pod, Job, Deployment, Env, ok,
}
use shopware_operator.Api.State.{AppState, not_found}
use shopware_operator.Api.Features.{RedisSpec, CacheSpec}
use shopware_operator.Api.Container.{ContainerSpec, ContainerMergeSpec}
use shopware_operator.Api.Store.{SecretRef, S3Storage, StoreSpec, DeploymentCondition, Store}
use shopware_operator.Manager.Base.{Base}
use shopware_operator.Trigger.{NamespacedName, Trigger}

abbrev no_ref : SecretRef
no_ref = record { name = ""; key = "" }

abbrev no_affinity : Affinity
no_affinity = record { node_affinity = none; pod_affinity = none; pod_anti_affinity = none }

abbrev pub container : ContainerSpec
container = record {
  image = "shop:2";
  image_pull_policy = "IfNotPresent";
  volumes = [];
  port = pos 8000;
  volume_mounts = [];
  image_pull_secrets = [];
  restart_policy = "";
  security_context = none;
  extra_containers = [];
  init_containers = [];
  replicas = pos 2;
  progress_deadline_seconds = pos 3600;
  termination_grace_period_seconds = pos 30;
  annotations = none;
  labels = none;
  node_selector = [];
  topology_spread_constraints = [];
  tolerations = [];
  affinity = no_affinity;
  resources = record { requests = none; limits = none };
  service_account_name = "";
  enable_service_links = none;
  extra_envs = [];
}

abbrev pub no_override : ContainerMergeSpec
no_override = record {
  image = "";
  image_pull_policy = "";
  image_pull_secrets = none;
  volumes = none;
  volume_mounts = none;
  restart_policy = "";
  security_context = none;
  extra_containers = none;
  init_containers = none;
  replicas = pos 0;
  progress_deadline_seconds = pos 0;
  termination_grace_period_seconds = pos 0;
  annotations = none;
  labels = none;
  node_selector = none;
  topology_spread_constraints = none;
  tolerations = none;
  affinity = no_affinity;
  requests = none;
  limits = none;
  extra_envs = none;
  service_account_name = "";
  enable_service_links = none;
}

abbrev pub storage : S3Storage
storage = record {
  endpoint_url = "http://s3:9000";
  private_bucket_name = "private";
  public_bucket_name = "public";
  region = "eu";
  access_key_ref = no_ref;
  secret_access_key_ref = no_ref;
}

abbrev no_redis : RedisSpec
no_redis = record { redis_dsn = ""; redis_host = ""; redis_port = pos 6379; redis_index = pos 0 }

abbrev builtin : CacheSpec
builtin = record { redis = no_redis; adapter = "builtin" }

abbrev pub spec : StoreSpec
spec = record {
  database = record {
    host = "db";
    host_ref = no_ref;
    port = pos 3306;
    version = "8.0";
    user = "shopware";
    name = "shopware";
    ssl_mode = "PREFERRED";
    tls_secret_name = "";
    tls_client_certificate = false;
    tls_dont_verify_server_certificate = false;
    options = "";
    password_secret_ref = record { name = "db"; key = "password" };
  };
  container = container;
  admin_deployment_container = no_override;
  worker_deployment_container = no_override;
  storefront_deployment_container = no_override;
  setup_job_container = no_override;
  migration_job_container = no_override;
  network = record {
    enabled_ingress = true;
    enabled_gateway = false;
    host = "demo.example.com";
    hosts = [];
    app_url_host = "";
    port = pos 8000;
    pre_stop_delay_seconds = pos 5;
  };
  s3_storage = storage;
  cdn_url = "https://cdn.example.com";
  blackfire = record { enabled = false; host = ""; port = pos 8307 };
  tideways = record {
    enabled = false;
    host = "";
    port = pos 9135;
    service = "";
    api_key_ref = no_ref;
  };
  otel = record {
    enabled = false;
    service_name = "";
    traces_exporter = "";
    exporter_protocol = "";
    exporter_endpoint = "";
  };
  fpm = record {
    process_management = "static";
    listen = "/tmp/php-fpm.sock";
    scrape_uri = "";
    status_path = "/-/fpm/status";
    max_children = pos 8;
    start_servers = pos 8;
    min_spare_servers = pos 4;
    max_spare_servers = pos 8;
  };
  horizontal_pod_autoscaler = record {
    min_replicas = some (pos 2);
    max_replicas = pos 4;
    metrics = [];
    behavior = none;
    enabled = false;
    annotations = none;
  };
  service_account_name = "";
  setup_script = "/setup";
  migration_script = "/setup";
  opensearch_spec = record {
    index = record { replicas = pos 0; shards = pos 1; prefix = "sw" };
    enabled = false;
    host = "";
    username = "";
    password_secret_ref = no_ref;
    port = pos 9200;
    schema = "https";
  };
  shop_configuration = record { currency = "EUR"; locale = "de-DE"; usage_data_consent = "" };
  fastly = record { disable_on_setup_migration = false; token_ref = no_ref; service_ref = no_ref };
  disable_checks = false;
  disable_s3_check = false;
  disable_fastly_check = false;
  disable_opensearch_check = false;
  disable_database_check = false;
  session_cache = builtin;
  app_cache = builtin;
  lock = builtin;
  worker = record {
    redis = no_redis;
    adapter = "builtin";
    enable_keda_scaling = false;
    max_replicas = pos 4;
    min_replicas = pos 1;
    cooldown_period = pos 30;
    polling_interval = pos 10;
    target_queue_length = pos 100;
  };
  secret_name = "store-secret";
  admin_credentials = record {
    username = "admin";
    password = "";
    username_secret_ref = no_ref;
    password_secret_ref = no_ref;
  };
  scheduled_task_suspend = false;
}

abbrev no_deployment : DeploymentCondition
no_deployment = record {
  state = not_found;
  last_update_time = 0;
  message = "";
  ready = "0/0";
  store_replicas = pos 0;
}

-- The sample store in a state.
abbrev pub store_in : AppState → Store
store_in state = record {
  namespace = "shops";
  name = "demo";
  deletion_timestamp = none;
  spec = spec;
  status = record {
    state = state;
    message = "";
    current_image_tag = "shop:1";
    worker_state = no_deployment;
    admin_state = no_deployment;
    storefront_state = no_deployment;
    queue_state = record {
      last_update_time = 0;
      error = "";
      transports = record { name = "async"; count = pos 3 } ∷ [];
      uncountable_transports = [];
    };
    conditions = [];
  };
}

abbrev pub base : Base
base = record {
  disable_service_checks = false;
  enable_keda = false;
  has_recorder = true;
  has_clients = true;
}

-- A job that is done by its own count, and one of which a pod tells how it went.
abbrev pub job : ℤ → Job
job succeeded = record {
  namespace = "shops";
  containers = "shopware-setup" ∷ "shopware-migration" ∷ [];
  selector = "app=demo";
  active = pos 0;
  succeeded = succeeded;
  failed_pods = pos 0;
  start_time = some 10;
  completion_time = none;
}

abbrev pub pod_of : String → ℤ → String → Pod
pod_of name code reason = record {
  phase = PodPhase.running;
  container_statuses =
      record { name = name; terminated = some (record { exit_code = code; reason = reason }) } ∷ [];
}

abbrev pub deployment : ℤ → Deployment
deployment available = record {
  containers = record empty_container { name = "shopware-storefront"; image = "shop:1" } ∷ [];
  replicas = pos 2;
  available_replicas = available;
  unavailable_replicas = pos 0;
  conditions =
      record { type = "Progressing"; status = "False"; reason = "ProgressDeadlineExceeded" } ∷ [];
}

-- The cluster: all deployments have the given number of available pods, and the job has one pod.
abbrev pub env_of : ℤ → Pod → Env
env_of available pod = record {
  now = 100;
  get_secret = λ namespace name. found (("password", "geheim") ∷ []);
  get_job = λ namespace name. found (job (pos 0));
  get_deployment = λ namespace name. found (deployment available);
  get_pod = λ namespace name. found pod;
  as_selector = λ selector. found selector;
  list_pods = λ namespace selector. found (pod ∷ []);
  lower_rune = λ c. c;
  quote = λ s. s;
  show_duration = λ start end'. "90s";
  sha256_hex = λ s. "0123456789abcdef";
  md5_hex = λ s. "0123456789abcdef";
  append_certs = λ pem. true;
  key_pair = λ cert key. ok tt;
  new_connector = λ config. ok tt;
  ping = λ config. none;
  parse_url = λ url. ok "s3:9000";
  new_client = λ host id key. ok tt;
  list_buckets = λ host id key. ok ("public" ∷ "private" ∷ []);
}

abbrev pub env : Env
env = env_of (pos 2) (pod_of "shopware-setup" (pos 0) "Completed")

abbrev pub key : NamespacedName
key = record { namespace = "shops"; name = "demo" }

abbrev pub watch_trigger : Trigger
watch_trigger = record {
  source = "Deployment";
  event = "update";
  name = "demo-storefront";
  reason = "status changed";
  changes = [];
  at = 0;
}
