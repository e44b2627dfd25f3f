-- ===== src/Manager/Serving.antt =====
-- internal/manager/initializing/initializing.go and internal/manager/ready/ready.go: the two states
-- in which the deployments of a store are started and watched.
use shopware_operator.Prelude.{ℕ, String, Bool, true, false, not, [], ◌∷◌, ◌==◌, if◌then◌else◌}
use shopware_operator.Prelude.Text.{concat}
use shopware_operator.Kube.{Reply, found, absent, failed, Env}
use shopware_operator.Api.State.{AppState, initializing, migration, ready}
use shopware_operator.Api.Store.{StoreCondition, Store, store_add_condition}
use shopware_operator.Deployments.{get_store_deployment_image}
use shopware_operator.Manager.Base.{
  Base, Handled, error_status, ready_status, refresh_deployment_states, all_deployments_running,
  all_deployments_available,
}
use shopware_operator.Manager.Jobs.{job_condition, set_image}

abbrev initializing_condition : ℕ → Bool → StoreCondition
initializing_condition now true =
    job_condition "initializing" now now "Initialization finished" "" ready_status
initializing_condition now false =
    job_condition "initializing" 0 now "Waiting for deployments to get ready" "" ""

-- initializing.StateHandler: the image is written to the status first.
unfoldable pub initializing_handler : Base → Env → Store → Handled
unfolding refresh_deployment_states all_deployments_running
initializing_handler base env s =
    let s' = refresh_deployment_states env (set_image s.spec.container.image s) in
    let runs = all_deployments_running s' in
    record {
      store = store_add_condition (initializing_condition env.now runs) s';
      next = if runs then ready else initializing;
      events = [];
    }

abbrev ready_condition : ℕ → ℕ → String → String → StoreCondition
ready_condition transition now reason status =
    job_condition "ready" transition now "Store is running waiting for image updates to migrate"
      reason status

abbrev pub leave : StoreCondition → AppState → Store → Handled
leave c next s = record { store = store_add_condition c s; next = next; events = [] }

-- The handler once it knows the image that runs.
abbrev pub watch : Env → String → Store → Handled
watch env current s =
    if not (current == s.spec.container.image)
    then leave
        (ready_condition env.now env.now "Detected image change, switch to migration" ready_status)
        migration (set_image current s)
    else (let s' = refresh_deployment_states env (set_image current s) in
        if not (all_deployments_available s')
        then leave (ready_condition 0 env.now "Deployments are not running anymore" "") initializing
            s'
        else leave (ready_condition 0 env.now "" ready_status) ready s')

abbrev pub reply_ready : Env → Store → Reply String → Handled
reply_ready env s (absent e) = leave (ready_condition 0 env.now "" "") initializing s
reply_ready env s (failed e) =
    leave (ready_condition 0 env.now (concat ("get deployment: " ∷ e ∷ [])) error_status) ready s
reply_ready env s (found current) = watch env current s

-- ready.StateHandler
unfoldable pub ready_handler : Base → Env → Store → Handled
ready_handler base env s = reply_ready env s (get_store_deployment_image env s)
