-- ===== src/Workloads/Deployments.antt =====
-- AdminDeployment, StorefrontDeployment and WorkerDeployment (internal/deployment/admin.go, storefront.go
-- and worker.go). Each gives what it builds and, since it writes to a map that the store shares with its
-- caller, the store as the caller sees it afterwards. The annotations of what is built are those of the
-- time of the call: in the code they are the shared map, which later writes change too. `url` is the
-- service URL of the operator.
use shopware_operator.Prelude.{
  ℕ, ◌*◌, ◌/◌, String, some, List, [], ◌∷◌, ◌++◌, ◌==◌, eqb, ltb, if◌then◌else◌,
}
use shopware_operator.Prelude.Int.{ℤ, pos, eqb_ℤ}
use shopware_operator.Prelude.Text.{concat, show}
use shopware_operator.Prelude.Assoc.{insert, copy}
use shopware_operator.Kube.{EnvVar, Container, empty_container, Env}
use shopware_operator.Api.Container.{ContainerSpec, ContainerMergeSpec, merge}
use shopware_operator.Api.Store.{Store}
use shopware_operator.Api.Environment.{get_env}
use shopware_operator.Cluster.Meta.{Map}
use shopware_operator.Deployments.{admin_name, storefront_name, storefront_container}
use shopware_operator.Deployments.Names.{queue_worker_name, truncate_with_hash}
use shopware_operator.Deployments.Workers.{single_queue}
use shopware_operator.Workloads.{BuiltDeployment}
use shopware_operator.Workloads.Labels.{
  shopware_key, container_store_labels, App, match_label, container_annotations, annotated,
}
use App.{admin, storefront, worker}
use shopware_operator.Workloads.Containers.{
  merge_env, default_container_contexts, restricted_container_context, default_pod_context, env_var,
  php_fpm_values, memory_limit, memory_limit_mib, tls_volumes, tls_volume_mounts, probe,
  graceful_shutdown,
}

-- `containerSpec`: the merged container, with the volumes of the database's certificates
unfoldable pub container_spec : Store → ContainerMergeSpec → ContainerSpec
unfolding merge
container_spec store override =
    let c = merge store.spec.container override in
    record c {
      volumes = c.volumes ++ tls_volumes store;
      volume_mounts = c.volume_mounts ++ tls_volume_mounts store;
    }

-- `if process management is by the operator { envs = util.MergeEnv(envs, phpEnvs) }`
abbrev fpm_env : Store → ContainerSpec → List EnvVar → List EnvVar
fpm_env store c envs =
    if store.spec.fpm.process_management == "operator"
    then (if eqb (memory_limit c.resources) 0
        then merge_env envs (php_fpm_values 2048)
        else merge_env envs (php_fpm_values (memory_limit_mib c.resources)))
    else envs

abbrev pub either_account : Store → ContainerSpec → String
either_account store c =
    if c.service_account_name == "" then store.spec.service_account_name else c.service_account_name

-- The literal that the three functions share: the deployment of a container among the extra ones.
abbrev deployment_of :
    Store → ContainerSpec → String → Map → Map → Map → ℤ → ℤ → Container → BuiltDeployment
deployment_of store c name labels annotations match_labels replicas grace main = record {
  kind = "Deployment";
  api_version = "apps/v1";
  name = name;
  namespace = store.namespace;
  labels = labels;
  annotations = annotations;
  progress_deadline_seconds = c.progress_deadline_seconds;
  replicas = replicas;
  match_labels = match_labels;
  max_surge = "25%";
  max_unavailable = "25%";
  template = record {
    labels = labels;
    annotations = annotations;
    spec = record {
      volumes = c.volumes;
      topology_spread_constraints = c.topology_spread_constraints;
      node_selector = c.node_selector;
      image_pull_secrets = c.image_pull_secrets;
      enable_service_links = c.enable_service_links;
      restart_policy = c.restart_policy;
      termination_grace_period_seconds = grace;
      containers = default_container_contexts c.extra_containers ++ main ∷ [];
      security_context = default_pod_context c.security_context;
      init_containers = default_container_contexts c.init_containers;
      service_account_name = either_account store c;
    };
  };
}

-- What the literals of the three main containers share
abbrev main_container : String → ContainerSpec → List EnvVar → Container
main_container name c envs = record empty_container {
  name = name;
  image = c.image;
  image_pull_policy = c.image_pull_policy;
  security_context = some restricted_container_context;
  env = envs;
  volume_mounts = c.volume_mounts;
  ports = record { name = ""; container_port = c.port; protocol = "TCP" } ∷ [];
  resources = c.resources;
}

abbrev pub app_labels : Store → ContainerMergeSpec → Map → Map
app_labels store override match_labels =
    copy (container_store_labels store override.labels) match_labels

-- AdminDeployment
unfoldable pub admin_deployment : String → Store → BuiltDeployment × Store
admin_deployment url store =
    let override = store.spec.admin_deployment_container in
    let c = container_spec store override in
    let envs = fpm_env store c (merge_env (get_env url store) c.extra_envs) in
    let annotations =
      container_annotations "shopware-admin" store.spec.container.annotations
        override.annotations in
    let main = record (main_container "shopware-admin" c envs) {
      pre_stop = some (graceful_shutdown store.spec.network.pre_stop_delay_seconds);
      liveness_probe = some (probe "/-/healthz" (pos 8001) 5 2 0 0);
      readiness_probe = some (probe "/api/_info/health-check" c.port 5 5 0 0);
    } in
    (
      deployment_of store c (admin_name store) (app_labels store override (match_label admin))
          annotations (match_label admin) c.replicas c.termination_grace_period_seconds main,
      annotated "shopware-admin" override.annotations store,
    )

-- StorefrontDeployment
unfoldable pub storefront_deployment : String → Store → BuiltDeployment × Store
storefront_deployment url store =
    let override = store.spec.storefront_deployment_container in
    let c = container_spec store override in
    let envs = fpm_env store c (merge_env (get_env url store) c.extra_envs) in
    let annotations =
      container_annotations "shopware-storefront" store.spec.container.annotations
        override.annotations in
    let main = record (main_container storefront_container c envs) {
      pre_stop = some (graceful_shutdown store.spec.network.pre_stop_delay_seconds);
      startup_probe = some (probe "/-/fpm/ping" (pos 8001) 0 5 5 18);
      liveness_probe = some (probe "/-/healthz" (pos 8001) 0 5 10 3);
      readiness_probe = some (probe "/api/_info/health-check" c.port 5 5 0 0);
    } in
    (
      deployment_of store c (storefront_name store)
          (app_labels store override (match_label storefront)) annotations (match_label storefront)
          c.replicas c.termination_grace_period_seconds main,
      annotated "shopware-storefront" override.annotations store,
    )

-- `strings.Join`
abbrev pub join : String → List String → String
join sep [] = ""
join sep (s ∷ []) = s
join sep (s ∷ t ∷ ss) = concat (s ∷ sep ∷ join sep (t ∷ ss) ∷ [])

-- `matchLabels` of WorkerDeployment
unfoldable pub worker_match_labels : Env → List String → Map
unfolding insert
worker_match_labels env queues =
    let queue = single_queue queues in
    if queue == ""
    then match_label worker
    else insert (shopware_key "worker.queue") (truncate_with_hash env queue) (match_label worker)

-- `labels` of WorkerDeployment
unfoldable pub worker_labels : Env → Store → List String → Map
unfolding worker_match_labels
worker_labels env store queues =
    insert (shopware_key "worker.queues") (truncate_with_hash env (join "." queues))
      (app_labels store store.spec.worker_deployment_container (worker_match_labels env queues))

-- `phpMemoryLimitMiB`: 90 % of the memory limit, rounded down
abbrev pub php_memory_limit : ContainerSpec → ℕ
php_memory_limit c =
    if eqb (memory_limit c.resources) 0 then 0 else memory_limit_mib c.resources * 9 / 10

abbrev worker_env : String → Store → ContainerSpec → List EnvVar
worker_env url store c =
    let defaults = env_var "DATABASE_PERSISTENT_CONNECTION" "1" ∷ [] in
    let envs = merge_env (merge_env (get_env url store) defaults) c.extra_envs in
    let limit = env_var "PHP_MEMORY_LIMIT" (concat (show (pos (php_memory_limit c)) ∷ "M" ∷ [])) in
    if eqb (memory_limit c.resources) 0 then envs else merge_env envs (limit ∷ [])

-- `consume` and `workerScript`
abbrev consume_command : List String → ℕ → String
consume_command queues limit = concat (
    "bin/console messenger:consume "
    ∷ join " " queues
    ∷ " --time-limit=300 -vv"
    ∷ (if ltb 0 limit then concat (" --memory-limit=" ∷ show (pos limit) ∷ "M" ∷ []) else "")
    ∷ [])

abbrev worker_script : String → String
worker_script consume = concat (
    "term() {\n  trap - TERM INT QUIT\n  kill -TERM \"$child\" 2>/dev/null\n  wait \"$child\"\n  exit 0\n}\n"
    ∷ "trap term TERM INT QUIT\nwhile true; do\n  " ∷ consume
    ∷ " &\n  child=$!\n  wait \"$child\"\ndone" ∷ [])

-- WorkerDeployment
unfoldable pub worker_deployment : Env → String → Store → List String → BuiltDeployment × Store
unfolding worker_labels
worker_deployment env url store queues =
    let override = store.spec.worker_deployment_container in
    let c = container_spec store override in
    let replicas =
      if store.spec.worker.enable_keda_scaling
      then store.spec.worker.min_replicas
      else c.replicas in
    let annotations =
      container_annotations "shopware-worker" store.spec.container.annotations
        override.annotations in
    let grace =
      if eqb_ℤ override.termination_grace_period_seconds (pos 0)
      then pos 300
      else override.termination_grace_period_seconds in
    let main = record (main_container "shopware-worker" c (worker_env url store c)) {
      command = "/bin/sh" ∷ "-c" ∷ [];
      args = worker_script (consume_command queues (php_memory_limit c)) ∷ [];
    } in
    (
      deployment_of store c (queue_worker_name env store (single_queue queues))
          (worker_labels env store queues) annotations (worker_match_labels env queues) replicas
          grace main,
      annotated "shopware-worker" override.annotations store,
    )
