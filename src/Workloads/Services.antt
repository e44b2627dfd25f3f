-- ===== src/Workloads/Services.antt =====
-- internal/service/admin.go and storefront.go, internal/pdb, internal/deployment/scaledobject.go and
-- internal/hpa: what stands beside the deployments.
use shopware_operator.Prelude.{
  Bool, ℕ, zero, suc, ◌++◌, String, Option, none, some, List, [], ◌∷◌, map, if◌then◌else◌,
}
use shopware_operator.Prelude.Int.{pos}
use shopware_operator.Prelude.Text.{concat, show}
use shopware_operator.Prelude.Assoc.{insert}
use shopware_operator.Kube.{Volume, Env, Result, ok, err}
use shopware_operator.Api.Container.{
  ContainerSpec, ContainerMergeSpec, merge, value_or, last_index, replace_at,
}
use shopware_operator.Api.Store.{Store}
use shopware_operator.Cluster.Meta.{Map, is_empty}
use shopware_operator.Deployments.Names.{queue_worker_name, truncate_with_hash}
use shopware_operator.Deployments.Workers.{worker_queues, has_empty}
use shopware_operator.Workloads.{Service, DisruptionBudget, ScaledObject, Autoscaler}
use shopware_operator.Workloads.Labels.{
  shopware_key, store_label, container_store_labels, App, app_name, match_label, selects_in,
  deployment_store_labels,
}
use App.{admin, storefront, worker}
use shopware_operator.Workloads.Deployments.{storefront_deployment}

-- The literal of AdminService and of StorefrontService
abbrev service_of : String → App → Store → Service
service_of name app store = record {
  name = name;
  namespace = store.namespace;
  labels = store_label store;
  selector = (shopware_key "store.app", app_name app) ∷ [];
  type = "ClusterIP";
  ports = record { name = ""; protocol = "TCP"; port = pos 8000; target_port = pos 8000 } ∷ [];
}

-- AdminService and StorefrontService
unfoldable pub admin_service : Store → Service
admin_service store = service_of (concat (store.name ∷ "-admin" ∷ [])) admin store

unfoldable pub storefront_service : Store → Service
storefront_service store = service_of (concat (store.name ∷ "-storefront" ∷ [])) storefront store

-- The override of a deployment, and the last part of its budget's name
abbrev override_of : App → Store → ContainerMergeSpec
override_of admin store = store.spec.admin_deployment_container
override_of storefront store = store.spec.storefront_deployment_container
override_of worker store = store.spec.worker_deployment_container

abbrev budget_suffix : App → String
budget_suffix admin = "-admin"
budget_suffix storefront = "-storefront"
budget_suffix worker = "-worker"

-- A map of the base that Merge writes to, as others who hold it see it: one that is nil is made anew.
abbrev shared_map {ℓ} : {A : Type ℓ} → Option A → Option A → Option A
shared_map none merged = none
shared_map (some m) merged = merged

-- The loop of mergeVolumesByName on the array of the base, which has room for `spare` more elements: an
-- append beyond that moves to a new array, which no one else holds.
unfoldable merge_in_place : ℕ → List Volume → List Volume → List Volume
merge_in_place spare base [] = base
merge_in_place spare base (m ∷ from) = elim (last_index m.name 0 base) [
  | some i ↦ merge_in_place spare (replace_at i m base) from
  | none ↦ elim spare [ zero ↦ base | suc n ↦ merge_in_place n (base ++ m ∷ []) from ]
]

-- The elements at the places of the first list
abbrev shared_prefix {ℓ} : {A : Type ℓ} → List A → List A → List A
shared_prefix [] merged = []
shared_prefix (b ∷ base) [] = []
shared_prefix (b ∷ base) (m ∷ merged) = m ∷ shared_prefix base merged

-- `store.Spec.Container.Merge(override)` on a copy of the store: the caller's container shares its maps
-- and the elements of its slices with the copy.
-- The numbers are the room in the arrays of its volumes and of its mounts.
unfoldable pub shared_merge : ℕ → ℕ → ContainerSpec → ContainerMergeSpec → ContainerSpec
unfolding merge_in_place
shared_merge spare spare_mounts c from =
    let m = merge c from in
    record c {
      annotations = shared_map c.annotations m.annotations;
      labels = shared_map c.labels m.labels;
      resources = record {
        requests = shared_map c.resources.requests m.resources.requests;
        limits = shared_map c.resources.limits m.resources.limits;
      };
      volumes = shared_prefix c.volumes (merge_in_place spare c.volumes (value_or from.volumes []));
      volume_mounts =
          shared_prefix c.volume_mounts
            (merge_in_place spare_mounts c.volume_mounts (value_or from.volume_mounts []));
    }

-- AdminPDB, StorefrontPDB and WorkerPDB, and the store as their caller sees it afterwards
unfoldable pub disruption_budget : ℕ → ℕ → App → Store → DisruptionBudget × Store
disruption_budget spare spare_mounts app store = (
  record {
    name = concat (store.name ∷ budget_suffix app ∷ []);
    namespace = store.namespace;
    labels = store_label store;
    match_labels = match_label app;
    max_unavailable = 1;
  },
  record store {
    spec = record store.spec {
      container = shared_merge spare spare_mounts store.spec.container (override_of app store);
    };
  },
)

-- `labels` of WorkerScaledObject
unfoldable pub scaled_object_labels : Env → Store → String → Map
unfolding insert
scaled_object_labels env store queue =
    insert (shopware_key "worker.queue") (truncate_with_hash env queue)
      (insert (shopware_key "store.app") "shopware-worker" (store_label store))

-- The URL of its trigger
abbrev pub queue_path : String → String → String → String
queue_path namespace name queue = concat ("/api/queue/" ∷ namespace ∷ "/" ∷ name ∷ "/" ∷ queue ∷ [])

-- WorkerScaledObject
unfoldable pub worker_scaled_object : Env → String → Store → String → ScaledObject
unfolding scaled_object_labels
worker_scaled_object env metrics_url store queue = record {
  name = queue_worker_name env store queue;
  namespace = store.namespace;
  labels = scaled_object_labels env store queue;
  scale_target = queue_worker_name env store queue;
  min_replica_count = store.spec.worker.min_replicas;
  max_replica_count = store.spec.worker.max_replicas;
  cooldown_period = store.spec.worker.cooldown_period;
  polling_interval = store.spec.worker.polling_interval;
  pods_per_step = 1;
  step_seconds = 10;
  trigger_type = "metrics-api";
  trigger_url = concat (metrics_url ∷ queue_path store.namespace store.name queue ∷ []);
  value_location = "count";
  target_value = show store.spec.worker.target_queue_length;
}

-- WorkerScaledObjects
unfoldable pub worker_scaled_objects : Env → String → Store → Result (List ScaledObject)
unfolding worker_scaled_object worker_queues
worker_scaled_objects env metrics_url store =
    if has_empty (worker_queues store)
    then err (concat ("empty queue name for store " ∷ store.namespace ∷ "/" ∷ store.name ∷ []))
    else ok (map (worker_scaled_object env metrics_url store) (worker_queues store))

-- What CleanupObsoleteWorkerDeployments and CleanupObsoleteWorkerScaledObjects list: the objects of the
-- namespace of the store with its labels.
unfoldable pub cleanup_lists : Store → String → Map → Bool
unfolding selects_in deployment_store_labels
cleanup_lists store namespace labels =
    selects_in store.namespace (deployment_store_labels store worker) namespace labels

abbrev cpu_metric : String
cpu_metric = "Resource cpu, Utilization 70"

-- StoreHPA
unfoldable pub store_hpa : String → Store → Autoscaler × Store
unfolding storefront_deployment
store_hpa url store =
    let (d, after) = storefront_deployment url store in
    let hpa = store.spec.horizontal_pod_autoscaler in
    (
      record {
        name = concat ("store-" ∷ store.name ∷ []);
        namespace = store.namespace;
        labels = container_store_labels store (some []);
        annotations = hpa.annotations;
        target_kind = d.kind;
        target_name = d.name;
        target_api_version = d.api_version;
        min_replicas = hpa.min_replicas;
        max_replicas = hpa.max_replicas;
        metrics = if is_empty hpa.metrics then cpu_metric ∷ [] else hpa.metrics;
        behavior = hpa.behavior;
      },
      after,
    )
