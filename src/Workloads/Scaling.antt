-- ===== src/Workloads/Scaling.antt =====
-- The names and the counts of what is built, against those that the status of a store is read by.
use shopware_operator.Prelude.{
  String, ◌≡◌, refl, sym, ap, ◌∙◌, true, List, [], ◌∷◌, map, if◌then◌else◌, inl, inr, Bool-cases,
}
use shopware_operator.Prelude.Text.{concat}
use shopware_operator.Kube.{Env, Result, ok, err}
use shopware_operator.Api.Store.{Store}
use shopware_operator.Deployments.{admin_name, storefront_name, admin_replicas, storefront_replicas}
use shopware_operator.Deployments.Workers.{
  Worker, worker_queues, worker_deployments, has_empty, split_workers,
}
use shopware_operator.Deployments.Workers as Workers
use shopware_operator.Workloads.{ScaledObject, BuiltDeployment}
use shopware_operator.Workloads.Deployments.{
  container_spec, admin_deployment, storefront_deployment, worker_deployment,
}
use shopware_operator.Workloads.Services.{worker_scaled_object, worker_scaled_objects}

-- The deployments are looked for in the status of a store under the names and with the replicas that they
-- are built with.
deployments_as_read :
    (env : Env) (url : String) (store : Store) (queues : List String)
    → (let d = (admin_deployment url store).0 in
        (d.name ≡ admin_name store) × (d.replicas ≡ admin_replicas store))
      × (let d = (storefront_deployment url store).0 in
          (d.name ≡ storefront_name store) × (d.replicas ≡ storefront_replicas store))
      × (let d = (worker_deployment env url store queues).0 in
          let w = Workers.worker_deployment env store queues in
          (d.name ≡ w.name) × (d.replicas ≡ w.replicas))
unfolding admin_deployment storefront_deployment worker_deployment container_spec admin_replicas
    storefront_replicas Workers.worker_deployment
deployments_as_read env url store queues = ((refl, refl), (refl, refl), (refl, refl))

-- WorkerDeployments, with the deployments as they are built: one for each queue, or one for all of them
abbrev built_split : Env → String → Store → List String → List BuiltDeployment
built_split env url store [] = []
built_split env url store (q ∷ qs) =
    if store.spec.worker.enable_keda_scaling
    then map (λ queue. (worker_deployment env url store (queue ∷ [])).0) (q ∷ qs)
    else (worker_deployment env url store (q ∷ qs)).0 ∷ []

unfoldable pub built_worker_deployments : Env → String → Store → Result (List BuiltDeployment)
unfolding worker_queues
built_worker_deployments env url store =
    if has_empty (worker_queues store)
    then err (concat ("empty queue name for store " ∷ store.namespace ∷ "/" ∷ store.name ∷ []))
    else ok (built_split env url store (worker_queues store))

-- Where a scaled object is, its name, and the deployment of its namespace that it scales
abbrev pub scaling : ScaledObject → String × String × String
scaling o = (o.namespace, o.name, o.scale_target)

-- The same for an object of the name of a deployment that scales it
abbrev pub scaled : BuiltDeployment → String × String × String
scaled d = (d.namespace, d.name, d.name)

unfoldable pub map_ok {ℓ κ} :
    {A : Type ℓ} {B : Type κ} → (A → B) → Result (List A) → Result (List B)
map_ok f (ok xs) = ok (map f xs)
map_ok f (err e) = err e

module _ (env : Env) (metrics_url url : String) (store : Store) where
  scaling-worker_deployment :
      (queues : List String)
      → map scaling (map (worker_scaled_object env metrics_url store) queues)
        ≡ map scaled (map (λ queue. (worker_deployment env url store (queue ∷ [])).0) queues)
  unfolding worker_scaled_object worker_deployment
  scaling-worker_deployment [] = refl
  scaling-worker_deployment (q ∷ qs) =
      ap (λ ns. scaling (worker_scaled_object env metrics_url store q) ∷ ns)
        (scaling-worker_deployment qs)

  scaling-built_split :
      store.spec.worker.enable_keda_scaling ≡ true
      → (queues : List String)
      → map scaling (map (worker_scaled_object env metrics_url store) queues)
        ≡ map scaled (built_split env url store queues)
  scaling-built_split keda [] = refl
  scaling-built_split keda (q ∷ qs) =
      scaling-worker_deployment (q ∷ qs)
      ∙ ap
          (λ split. map scaled (
            if split
            then map (λ queue. (worker_deployment env url store (queue ∷ [])).0) (q ∷ qs)
            else (worker_deployment env url store (q ∷ qs)).0 ∷ []))
          (sym keda)

  -- With scaling by the queues, the scaled objects of a store are in the namespaces of its worker
  -- deployments, in their order, have their names and scale them, and the two lists of what is built
  -- fail on the same stores, with the same error.
  pub worker_scaled_objects_match :
      store.spec.worker.enable_keda_scaling ≡ true
      → map_ok scaling (worker_scaled_objects env metrics_url store)
        ≡ map_ok scaled (built_worker_deployments env url store)
  unfolding worker_scaled_objects built_worker_deployments map_ok
  worker_scaled_objects_match keda = elim (Bool-cases (has_empty (worker_queues store))) [
    | inl empty ↦ rw empty refl
    | inr full ↦ rw full (ap ok (scaling-built_split keda (worker_queues store)))
  ]
