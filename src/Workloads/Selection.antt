-- ===== src/Workloads/Selection.antt =====
-- Which pods the services, the disruption budgets and the deployments select.
pub mod Owned
use shopware_operator.Prelude.{
  String, ◌≡◌, refl, sym, ap, ◌∙◌, ◌↔◌, Bool, true, false, not, ◌&&◌, Option, none, some, List, [],
  ◌∷◌, arith, ◌==◌, eq_iff, eq_refl, if◌then◌else◌, inl, inr, Bool-cases, eq_of_some-eq,
}
use shopware_operator.Prelude.Assoc.{
  insert, lookup, copy, lookup-insert, or_else, last_lookup, lookup-copy,
}
use shopware_operator.Kube.{Env}
use shopware_operator.Api.Container.{ContainerMergeSpec}
use shopware_operator.Api.Store.{Store}
use shopware_operator.Cluster.Meta.{Map, same_value}
use shopware_operator.Deployments.Workers.{single_queue}
use shopware_operator.Workloads.Labels.{
  shopware_key, container_store_labels, App, app_name, match_label,
}
use App.{admin, storefront, worker}
use shopware_operator.Workloads.Deployments.{
  app_labels, worker_match_labels, worker_labels, admin_deployment, storefront_deployment,
  worker_deployment,
}

-- A conjunction of two tests, by what each decides
pub both_iff :
    {A B : Type 0} {p q : Bool} → (p ≡ true) ↔ A → (q ≡ true) ↔ B → ((p && q) ≡ true) ↔ (A × B)
both_iff {p = true} {q = true} f g = (λ h. (f.0 refl, g.0 refl), λ h. refl)
both_iff {p = true} {q = false} f g = (λ h. cc, λ h. let clash = g.1 h.1 in cc)
both_iff {p = false} f g = (λ h. cc, λ h. let clash = f.1 h.0 in cc)

same_value_iff : (o : Option String) (v : String) → (same_value o (some v) ≡ true) ↔ (o ≡ some v)
same_value_iff none v = ground arith
same_value_iff (some w) v = ground (arith, eq_iff w v)

abbrev pub app_key : String
app_key = shopware_key "store.app"

lookup-app_labels :
    (store : Store) (override : ContainerMergeSpec) (app : App)
    → lookup app_key (app_labels store override (match_label app)) ≡ some (app_name app)
lookup-app_labels store override app = rw lookup-copy refl

module _ (env : Env) (queues : List String) where
  last_lookup-worker_match_labels :
      last_lookup app_key (worker_match_labels env queues) ≡ some (app_name worker)
  unfolding worker_match_labels insert
  last_lookup-worker_match_labels = elim (Bool-cases (single_queue queues == "")) [
    | inl none_or_many ↦ rw none_or_many refl
    | inr one ↦ rw one refl
  ]

  pub lookup-worker_labels :
      (store : Store) → lookup app_key (worker_labels env store queues) ≡ some (app_name worker)
  unfolding worker_labels
  lookup-worker_labels store = rw (lookup-insert, lookup-copy, last_lookup-worker_match_labels) refl

module _ (env : Env) (url : String) (queues : List String) where
  -- The labels of the pods of the three deployments of a store.
  abbrev pub pod_labels : App → Store → Map
  pod_labels admin store = (admin_deployment url store).0.template.labels
  pod_labels storefront store = (storefront_deployment url store).0.template.labels
  pod_labels worker store = (worker_deployment env url store queues).0.template.labels

  pub lookup-pod_labels :
      (app : App) (store : Store) → lookup app_key (pod_labels app store) ≡ some (app_name app)
  unfolding admin_deployment storefront_deployment worker_deployment
  lookup-pod_labels admin store =
      lookup-app_labels store store.spec.admin_deployment_container admin
  lookup-pod_labels storefront store =
      lookup-app_labels store store.spec.storefront_deployment_container storefront
  lookup-pod_labels worker store = lookup-worker_labels env queues store

  -- The namespace of these pods, which is that of their deployment.
  abbrev pub pod_namespace : App → Store → String
  pod_namespace admin store = (admin_deployment url store).0.namespace
  pod_namespace storefront store = (storefront_deployment url store).0.namespace
  pod_namespace worker store = (worker_deployment env url store queues).0.namespace
