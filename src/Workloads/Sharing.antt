-- ===== src/Workloads/Sharing.antt =====
-- The annotations that one deployment leaves in the store for the next one.
use shopware_operator.Prelude.{
  String, ◌≡◌, refl, ap, Bool, true, false, Option, none, some, List, [], ◌==◌, if◌then◌else◌,
}
use shopware_operator.Prelude.Assoc.{lookup, lookup-insert, or_else, last_lookup}
use shopware_operator.Kube.{Env}
use shopware_operator.Api.Container.{value_or}
use shopware_operator.Api.Container.Merging.{lookup-copy_over}
use shopware_operator.Api.Store.{Store}
use shopware_operator.Cluster.Meta.{Map}
use shopware_operator.Workloads.Labels.{
  container_key, logs_container_key, container_annotations, shared_annotations, annotated,
}
use shopware_operator.Workloads.Deployments.{
  admin_deployment, storefront_deployment, worker_deployment,
}
use shopware_operator.Workloads.Services.{store_hpa}

-- The value of a key in the result of GetDefaultContainerAnnotations: that of the override, the default
-- container for its two keys, or what the shared map has.
value_of : String → String → Option Map → Option String → Option String
value_of key container overwrite shared = or_else (last_lookup key (value_or overwrite [])) (
    if logs_container_key == key
    then some container
    else if container_key == key
    then some container
    else shared)

lookup-container_annotations :
    (key container : String) (shared overwrite : Option Map)
    → lookup key (container_annotations container shared overwrite)
      ≡ value_of key container overwrite (lookup key (value_or shared []))
unfolding container_annotations value_of
lookup-container_annotations key container shared overwrite =
    rw (lookup-copy_over, lookup-insert, lookup-insert) refl

-- If the store's container has annotations, then the storefront deployment that is built from a store
-- after its admin deployment has, at each key that is not one of the two for the default container and
-- that its own override does not set, what the admin deployment has, the override of that one included.
pub annotations_leak :
    (url key : String) (store : Store) (m : Map)
    → store.spec.container.annotations ≡ some m
    → last_lookup key (value_or store.spec.storefront_deployment_container.annotations []) ≡ none
    → (logs_container_key == key) ≡ false
    → (container_key == key) ≡ false
    → let (d, after) = admin_deployment url store in
      lookup key (storefront_deployment url after).0.annotations ≡ lookup key d.annotations
unfolding admin_deployment storefront_deployment shared_annotations value_of
annotations_leak url key store m has own logs default =
    rw (has, lookup-container_annotations, own, logs, default) refl

annotated-none :
    (container : String) (overwrite : Option Map) (store : Store)
    → store.spec.container.annotations ≡ none
    → annotated container overwrite store ≡ store
unfolding shared_annotations
annotated-none container overwrite store bare =
    ap
      (λ a. record store {
        spec = record store.spec { container = record store.spec.container { annotations = a } };
      })
      (shared_none container store.spec.container.annotations overwrite bare)
  where
    shared_none :
        (container : String) (o overwrite : Option Map)
        → o ≡ none
        → shared_annotations container o overwrite ≡ o
    shared_none container o overwrite e = rw e refl

-- If the store's container has no annotations, no deployment that is built from the store changes it, and
-- neither does its autoscaler.
deployments_keep_store :
    (env : Env) (url : String) (store : Store) (queues : List String)
    → store.spec.container.annotations ≡ none
    → ((admin_deployment url store).1 ≡ store)
      × ((storefront_deployment url store).1 ≡ store)
      × ((worker_deployment env url store queues).1 ≡ store)
      × ((store_hpa url store).1 ≡ store)
unfolding admin_deployment storefront_deployment worker_deployment store_hpa
deployments_keep_store env url store queues bare =
    let kept : (container : String) (over : Option Map) → annotated container over store ≡ store =
      λ container over. annotated-none container over store bare in
    (kept _ _, kept _ _, kept _ _, kept _ _)

value_of_idem :
    (own here : Option String) (logs default : Bool) (c : String)
    → or_else own (
        if logs
        then some c
        else if default
        then some c
        else or_else own (if logs then some c else if default then some c else here))
      ≡ or_else own (if logs then some c else if default then some c else here)
value_of_idem (some a) here logs default c = refl
value_of_idem none here true default c = refl
value_of_idem none here false true c = refl
value_of_idem none here false false c = refl

container_annotations_idem :
    (key container : String) (shared overwrite : Option Map)
    → lookup key
        (container_annotations container (shared_annotations container shared overwrite) overwrite)
      ≡ lookup key (container_annotations container shared overwrite)
unfolding shared_annotations value_of
container_annotations_idem key container none overwrite = refl
container_annotations_idem key container (some m) overwrite =
    rw
      (
        lookup-container_annotations key container
            (some (container_annotations container (some m) overwrite)) overwrite,
        lookup-container_annotations key container (some m) overwrite,
      )
      (value_of_idem (last_lookup key (value_or overwrite [])) (lookup key m)
        (logs_container_key == key) (container_key == key) container)

-- The admin and the storefront deployment have the same annotations when they are built again, alone,
-- from the store that they have left.
annotations_stable :
    (url key : String) (store : Store)
    → (let (d, after) = admin_deployment url store in
        lookup key (admin_deployment url after).0.annotations ≡ lookup key d.annotations)
      × (let (d, after) = storefront_deployment url store in
          lookup key (storefront_deployment url after).0.annotations ≡ lookup key d.annotations)
unfolding admin_deployment storefront_deployment
annotations_stable url key store = (
  container_annotations_idem key "shopware-admin" store.spec.container.annotations
      store.spec.admin_deployment_container.annotations,
  container_annotations_idem key "shopware-storefront" store.spec.container.annotations
      store.spec.storefront_deployment_container.annotations,
)
