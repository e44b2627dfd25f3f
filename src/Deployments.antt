-- ===== src/Deployments.antt =====
-- internal/deployment: the state of a deployment (util.go), of the admin, the storefront and the
-- worker deployments (admin.go, storefront.go, worker.go), and the image that the store runs.
pub mod Names
pub mod States
pub mod Images
pub mod Workers
use shopware_operator.Prelude.{
  ℕ, String, Bool, true, false, not, ◌&&◌, ◌||◌, Option, none, some, List, [], ◌∷◌, ◌==◌,
  if◌then◌else◌,
}
use shopware_operator.Prelude.Int.{ℤ, pos, eqb_ℤ, is_pos}
use shopware_operator.Prelude.Text.{concat, show}
use shopware_operator.Kube.{
  Reply, found, absent, failed, Container, DeploymentProgress, Deployment, Env, Result, ok, err,
}
use shopware_operator.Api.State.{DeploymentState, unknown, error, not_found, running, scaling}
use shopware_operator.Api.Container.{ContainerSpec, merge}
use shopware_operator.Api.Store.{DeploymentCondition, Store}

-- progressDeadlineExceeded
unfoldable pub progress_deadline_exceeded : List DeploymentProgress → Bool
progress_deadline_exceeded [] = false
progress_deadline_exceeded (c ∷ cs) =
    if c.type == "Progressing"
    then c.status == "False" && c.reason == "ProgressDeadlineExceeded"
    else progress_deadline_exceeded cs

abbrev pub condition_of : ℕ → DeploymentState → String → String → ℤ → DeploymentCondition
condition_of now state message ready replicas = record {
  state = state;
  last_update_time = now;
  message = message;
  ready = ready;
  store_replicas = replicas;
}

-- `fmt.Sprintf("%d/%d", available, replicas)`
abbrev pub ready_text : ℤ → ℤ → String
ready_text available replicas = concat (show available ∷ "/" ∷ show replicas ∷ [])

-- getDeploymentCondition
unfoldable pub get_deployment_condition : ℕ → Deployment → ℤ → DeploymentCondition
get_deployment_condition now d replicas =
    let ready = ready_text d.available_replicas replicas in
    if eqb_ℤ d.available_replicas d.replicas
    then (if not (eqb_ℤ d.available_replicas replicas)
        then condition_of now running "Deployment is running, but has own scaling" ready replicas
        else condition_of now running "Deployment is running" ready replicas)
    else if not (eqb_ℤ d.available_replicas d.replicas)
    then (if is_pos d.available_replicas || eqb_ℤ replicas (pos 0)
        then condition_of now running "Deployment is running, but is scaling" ready replicas
        else if progress_deadline_exceeded d.conditions
        then condition_of now error
            "Deployment has no available replicas and exceeded its progress deadline" ready replicas
        else condition_of now scaling "Deployment is scaling" ready replicas)
    else if is_pos d.unavailable_replicas
    then condition_of now error "Deployment has UnavailableReplicas" ready replicas
    else condition_of now unknown "Unknown state of the deployment" "0/0" replicas

-- The body that GetAdminDeploymentCondition and GetStorefrontDeploymentCondition share.
abbrev reply_condition : ℕ → ℤ → Reply Deployment → DeploymentCondition
reply_condition now replicas (absent e) =
    condition_of now not_found "No deployment found" "0/0" (pos 0)
reply_condition now replicas (failed e) =
    condition_of now error (concat ("error on client get: " ∷ e ∷ [])) "0/0" (pos 0)
reply_condition now replicas (found d) = get_deployment_condition now d replicas

unfoldable pub admin_name : Store → String
admin_name store = concat (store.name ∷ "-store-admin" ∷ [])

unfoldable pub storefront_name : Store → String
storefront_name store = concat (store.name ∷ "-storefront" ∷ [])

-- `*deployment.Spec.Replicas` of AdminDeployment(store) and of StorefrontDeployment(store)
unfoldable pub admin_replicas : Store → ℤ
unfolding merge
admin_replicas store = (merge store.spec.container store.spec.admin_deployment_container).replicas

unfoldable pub storefront_replicas : Store → ℤ
unfolding merge
storefront_replicas store =
    (merge store.spec.container store.spec.storefront_deployment_container).replicas

-- GetAdminDeploymentCondition
unfoldable pub get_admin_deployment_condition : Env → Store → DeploymentCondition
unfolding admin_name
get_admin_deployment_condition env store =
    reply_condition env.now (admin_replicas store)
      (env.get_deployment store.namespace (admin_name store))

-- GetStorefrontDeploymentCondition
unfoldable pub get_storefront_deployment_condition : Env → Store → DeploymentCondition
unfolding storefront_name
get_storefront_deployment_condition env store =
    reply_condition env.now (storefront_replicas store)
      (env.get_deployment store.namespace (storefront_name store))

abbrev pub storefront_container : String
storefront_container = "shopware-storefront"

abbrev pub image_of : List Container → Reply String
image_of [] = failed "could not find storefront deployment container"
image_of (c ∷ cs) = if c.name == storefront_container then found c.image else image_of cs

abbrev pub deployed_image : Reply Deployment → Reply String
deployed_image (absent e) = absent e
deployed_image (failed e) = failed e
deployed_image (found d) = image_of d.containers

-- GetStoreDeploymentImage: the error of the request is passed on, so `IsNotFound` still holds of it.
unfoldable pub get_store_deployment_image : Env → Store → Reply String
unfolding storefront_name
get_store_deployment_image env store =
    deployed_image (env.get_deployment store.namespace (storefront_name store))
