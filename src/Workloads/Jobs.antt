-- ===== src/Workloads/Jobs.antt =====
-- SetupJob and MigrationJob (internal/job/setup.go and migration.go). As with the deployments, each gives the store
-- back, whose map of annotations it writes to.
pub mod Images
pub mod Apart
use shopware_operator.Prelude.{
  String, true, Option, none, some, List, [], ◌∷◌, ◌++◌, ◌==◌, if◌then◌else◌,
}
use shopware_operator.Prelude.Int.{ℤ}
use shopware_operator.Prelude.Assoc.{insert}
use shopware_operator.Kube.{EnvVar, secret_key_ref, Container, empty_container, Env}
use shopware_operator.Api.Container.{ContainerSpec}
use shopware_operator.Api.Store.{Store}
use shopware_operator.Api.Environment.{get_env}
use shopware_operator.Cluster.Meta.{Map}
use shopware_operator.Manager.Jobs.{
  setup_container, migration_container, setup_job_name, migrate_job_name,
}
use shopware_operator.Workloads.{BuiltJob}
use shopware_operator.Workloads.Labels.{
  shopware_key, container_store_labels, container_annotations, annotated,
}
use shopware_operator.Workloads.Containers.{
  merge_env, default_container_contexts, restricted_container_context, default_pod_context, env_var,
}
use shopware_operator.Workloads.Deployments.{container_spec, either_account}

-- The literal that the two functions share
abbrev job_of : Store → ContainerSpec → String → Map → Map → Container → BuiltJob
job_of store c name labels annotations main = record {
  kind = "Job";
  api_version = "batch/v1";
  name = name;
  namespace = store.namespace;
  labels = labels;
  annotations = annotations;
  backoff_limit = 3;
  ttl_seconds_after_finished = 86400;
  share_process_namespace = true;
  template = record {
    labels = labels;
    annotations = annotations;
    spec = record {
      volumes = c.volumes;
      topology_spread_constraints = c.topology_spread_constraints;
      node_selector = c.node_selector;
      image_pull_secrets = c.image_pull_secrets;
      enable_service_links = c.enable_service_links;
      restart_policy = "Never";
      termination_grace_period_seconds = c.termination_grace_period_seconds;
      containers = default_container_contexts c.extra_containers ++ main ∷ [];
      security_context = default_pod_context c.security_context;
      init_containers = default_container_contexts c.init_containers;
      service_account_name = either_account store c;
    };
  };
}

abbrev script_container : String → ContainerSpec → String → List EnvVar → Container
script_container name c script envs = record empty_container {
  name = name;
  image = c.image;
  image_pull_policy = c.image_pull_policy;
  command = "sh" ∷ "-c" ∷ [];
  args = script ∷ [];
  env = envs;
  resources = c.resources;
  volume_mounts = c.volume_mounts;
  security_context = some restricted_container_context;
}

-- `adminUsername`
abbrev admin_username : Store → EnvVar
admin_username store =
    let credentials = store.spec.admin_credentials in
    let ref = credentials.username_secret_ref in
    if ref.name == "" then env_var "INSTALL_ADMIN_USERNAME" credentials.username else record {
      name = "INSTALL_ADMIN_USERNAME";
      value = "";
      value_from = some (secret_key_ref ref.name ref.key);
    }

abbrev admin_password : Store → EnvVar
admin_password store = record {
  name = "INSTALL_ADMIN_PASSWORD";
  value = "";
  value_from = some (secret_key_ref store.spec.secret_name "admin-password");
}

-- `labels` of SetupJob and of MigrationJob
unfoldable pub setup_labels : Store → Map
unfolding insert
setup_labels store =
    insert (shopware_key "store.type") "setup"
      (container_store_labels store store.spec.migration_job_container.labels)

unfoldable pub migration_labels : Env → Store → Map
unfolding insert
migration_labels env store = insert (shopware_key "store.type") "migration" (
    insert (shopware_key "store.hash") (env.md5_hex store.status.current_image_tag)
      (container_store_labels store store.spec.migration_job_container.labels))

-- SetupJob
unfoldable pub setup_job : String → Store → BuiltJob × Store
setup_job url store =
    let override = store.spec.setup_job_container in
    let c = container_spec store override in
    let envs =
      merge_env (get_env url store ++ admin_password store ∷ admin_username store ∷ [])
        c.extra_envs in
    (
      job_of store c (setup_job_name store) (setup_labels store)
          (container_annotations setup_container store.spec.container.annotations
            override.annotations)
          (script_container setup_container c store.spec.setup_script envs),
      annotated setup_container override.annotations store,
    )

-- The two annotations that MigrationJob writes to what GetDefaultContainerAnnotations gives it
abbrev with_images : Store → ContainerSpec → Map → Map
with_images store c m =
    insert "shop.shopware.com/store.newImage" c.image
      (insert "shop.shopware.com/store.oldImage" store.status.current_image_tag m)

abbrev with_shared_images : Store → ContainerSpec → Option Map → Option Map
with_shared_images store c none = none
with_shared_images store c (some m) = some (with_images store c m)

-- MigrationJob
unfoldable pub migration_job : Env → String → Store → BuiltJob × Store
unfolding insert
migration_job env url store =
    let override = store.spec.migration_job_container in
    let c = container_spec store override in
    let envs = merge_env (get_env url store) c.extra_envs in
    let after = annotated migration_container override.annotations store in
    (
      job_of store c (migrate_job_name env store) (migration_labels env store)
          (with_images store c (
            container_annotations migration_container store.spec.container.annotations
              override.annotations))
          (script_container migration_container c store.spec.migration_script envs),
      record after {
        spec = record after.spec {
          container = record after.spec.container {
            annotations = with_shared_images store c after.spec.container.annotations;
          };
        };
      },
    )
