-- ===== src/Workloads/Labels.antt =====
-- internal/util/labels.go and annotations.go: the labels and the annotations of what is built.
use shopware_operator.Prelude.{String, Option, none, some, [], ◌∷◌, Bool, all, ◌==◌, ◌&&◌}
use shopware_operator.Prelude.Text.{concat}
use shopware_operator.Prelude.Assoc.{insert, lookup, copy}
use shopware_operator.Api.Container.{copy_over, value_or}
use shopware_operator.Api.Store.{Store}
use shopware_operator.Cluster.Meta.{Map, same_value}

-- ShopwareKey
abbrev pub shopware_key : String → String
shopware_key key = concat ("shop.shopware.com/" ∷ key ∷ [])

-- GetStoreLabel
abbrev pub store_label : Store → Map
store_label store = (shopware_key "store.name", store.name) ∷ []

-- overrideStoreLabels, which GetDefaultContainerStoreLabels calls
unfoldable pub container_store_labels : Store → Option Map → Map
unfolding insert
container_store_labels store extra =
    copy_over extra (copy_over store.spec.container.labels (store_label store))

-- The value of the label store.app: which of the three deployments a pod is of.
pub data App : Type 0 where
  admin storefront worker : App

abbrev pub app_name : App → String
app_name admin = "shopware-admin"
app_name storefront = "shopware-storefront"
app_name worker = "shopware-worker"

-- GetAdminDeploymentMatchLabel, GetStorefrontDeploymentMatchLabel and GetWorkerDeploymentMatchLabel
abbrev pub match_label : App → Map
match_label app = (shopware_key "store.app", app_name app) ∷ []

-- GetAdminDeploymentStoreLabels, GetStorefrontDeploymentStoreLabels and GetWorkerDeploymentStoreLabels
unfoldable pub deployment_store_labels : Store → App → Map
unfolding copy
deployment_store_labels store app = copy (store_label store) (match_label app)

-- metav1.LabelSelector: a selector by labels selects what has all of them.
unfoldable pub selects : Map → Map → Bool
selects selector labels =
    all (λ (e : String × String). same_value (lookup e.0 labels) (some e.1)) selector

-- A selector of an object in a namespace, and a list with client.InNamespace and
-- client.MatchingLabels, find only what is in that namespace.
unfoldable pub selects_in : String → Map → String → Map → Bool
unfolding selects
selects_in namespace selector other labels = namespace == other && selects selector labels

abbrev pub container_key : String
container_key = "kubectl.kubernetes.io/default-container"

abbrev pub logs_container_key : String
logs_container_key = "kubectl.kubernetes.io/default-logs-container"

-- GetDefaultContainerAnnotations at `store.Spec.Container.Annotations` as it is before and after: a map
-- that is not nil is written to and given out, and everyone who holds the store shares it.
unfoldable pub container_annotations : String → Option Map → Option Map → Map
unfolding insert
container_annotations container shared overwrite =
    copy_over overwrite
      (insert logs_container_key container (insert container_key container (value_or shared [])))

unfoldable pub shared_annotations : String → Option Map → Option Map → Option Map
shared_annotations container none overwrite = none
shared_annotations container (some m) overwrite =
    some (container_annotations container (some m) overwrite)

-- The store with its annotations as the caller sees them afterwards.
abbrev pub annotated : String → Option Map → Store → Store
annotated container overwrite store = record store {
  spec = record store.spec {
    container = record store.spec.container {
      annotations = shared_annotations container store.spec.container.annotations overwrite;
    };
  };
}
