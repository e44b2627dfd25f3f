-- ===== src/Witnesses/Workloads.antt =====
-- What is built of the sample store.
use shopware_operator.Prelude.{◌*◌, ◌≤◌, String, ◌≡◌, refl, ◌↔◌, true, some, [], ◌∷◌}
use shopware_operator.Prelude.Assoc.{lookup}
use Prim.Native.String.{len}
use shopware_operator.Prelude.Int.{pos}
use shopware_operator.Kube.{Env, found}
use shopware_operator.Workloads.Jobs.{migration_job}
use shopware_operator.Workloads.Jobs.Images.{len-migration_job_iff}
use shopware_operator.Samples.{job}
use shopware_operator.Api.State.{ready, migration}
use shopware_operator.Api.Store.{Store}
use shopware_operator.Samples.{env, store_in, no_override}
use shopware_operator.Workloads.Labels.{App}
use shopware_operator.Workloads.Containers.{pool_limits, env_var, merge_env, has_env}
use shopware_operator.Workloads.Deployments.{admin_deployment, storefront_deployment}
use shopware_operator.Workloads.Services.{worker_scaled_objects}
use shopware_operator.Workloads.Sharing.{annotations_leak}
use shopware_operator.Workloads.Scaling.{
  map_ok, scaling, scaled, built_worker_deployments, worker_scaled_objects_match,
}
use shopware_operator.Workloads.Limits.Variables.{last_env, merge_env_last}
use shopware_operator.Workloads.Limits.{Starts, pool_limits-Starts_iff}

abbrev url : String
url = "http://operator"

-- The store with annotations, an override of them for the admin and scaling by its queues.
abbrev annotated_store : Store
annotated_store =
    let s = store_in ready in
    record s {
      spec = record s.spec {
        container = record s.spec.container { annotations = some (("team", "web") ∷ []) };
        admin_deployment_container = record no_override {
          annotations = some (("backup", "yes") ∷ []);
        };
        worker = record s.spec.worker { enable_keda_scaling = true };
      };
    }

-- Another store of the namespace
abbrev other_store : Store
other_store = record (store_in ready) { name = "other" }

annotations_leak_example :
    let (d, after) = admin_deployment url annotated_store in
    lookup "backup" (storefront_deployment url after).0.annotations ≡ lookup "backup" d.annotations
annotations_leak_example =
    annotations_leak url "backup" annotated_store (("team", "web") ∷ []) refl refl refl refl

worker_scaled_objects_match_example :
    map_ok scaling (worker_scaled_objects env "http://metrics" annotated_store)
    ≡ map_ok scaled (built_worker_deployments env url annotated_store)
worker_scaled_objects_match_example =
    worker_scaled_objects_match env "http://metrics" url annotated_store refl

merge_env_last_example :
    last_env "A" (merge_env (env_var "A" "1" ∷ env_var "B" "2" ∷ []) (env_var "A" "3" ∷ []))
    ≡ some (env_var "A" "3")
unfolding has_env
merge_env_last_example =
    merge_env_last "A" (env_var "A" "1" ∷ env_var "B" "2" ∷ []) (env_var "A" "3" ∷ [])
      (refl, (refl, tt))

pool_limits-Starts_iff_example :
    (Starts (pool_limits 512) ↔ (240 ≤ 512)) × ((pool_limits 512).max_children * 80 ≤ 512)
pool_limits-Starts_iff_example = pool_limits-Starts_iff 512

-- A cluster in which the migration job of the sample store has succeeded
abbrev migrated_env : Env
migrated_env = record env {
  get_job = λ namespace name. found (job (pos 1));
  md5_hex = λ s. "0123456789abcdef0123456789abcdef";
}

len-migration_job_iff_example :
    (len (migration_job migrated_env url (store_in migration)).0.name ≤ 63)
    ↔ (len (store_in migration).name ≤ 22)
len-migration_job_iff_example = len-migration_job_iff migrated_env url (store_in migration) refl
