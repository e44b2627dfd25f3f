-- ===== src/Witnesses.antt =====
-- Runs of the state machine on a concrete cluster.
mod Parts
mod Resources
mod Controllers
mod Stores
mod Workloads
mod Queues
use shopware_operator.Prelude.{
  ℕ, ◌≤◌, String, ◌≡◌, refl, ◌≢◌, ◌↔◌, ◌⊎◌, inl, inr, Bool, true, false, ◌||◌, Option, none, some,
  List, [], ◌∷◌, arith, ◌==◌, eq_iff, if◌then◌else◌, length, any, All,
}
use shopware_operator.Prelude.Int.{ℤ, pos, negsuc, is_pos, eqb_ℤ_iff}
use shopware_operator.Samples.{
  base, env, env_of, pod_of, store_in, job, deployment, spec, storage, key, watch_trigger,
}
use shopware_operator.Kube.{Reply, found, absent, failed, Env, Result, ok, err}
use shopware_operator.Api.State.{
  AppState, empty, wait, setup, setup_error, initializing, migration, migration_error, ready, other,
  running,
}
use shopware_operator.Api.Store.{Store, store_add_condition}
use shopware_operator.Jobs.{
  JobState, is_done, has_errors, is_job_container_done, scan_statuses, scan_pods, scan_job,
  scan_containers, fall_back,
}
use Prim.Native.String.{len}
use shopware_operator.Prelude.Assoc.{lookup}
use shopware_operator.Kube.{Volume}
use shopware_operator.Api.State.{error, unknown, not_found}
use shopware_operator.Api.Store.{StoreCondition, zero_condition}
use shopware_operator.Api.Conditions.{add_condition, get_last_condition}
use shopware_operator.Api.Conditions.History.{
  add_condition-IsWellFormed, last-add_condition, add_condition_newest,
}
use shopware_operator.Api.Container.{merge, merge_by_name}
use shopware_operator.Api.Container.Merging.{last_named, last_named-merge_by_name}
use shopware_operator.Jobs.Reports.{Completed, Exited, done_is_backed, error_is_backed}
use shopware_operator.Services.{check_buckets}
use shopware_operator.Services.Buckets.{check_buckets_iff, private_bucket_unchecked}
use shopware_operator.Deployments.{progress_deadline_exceeded}
use shopware_operator.Deployments.States.{running_iff, error_iff, unavailable_ignored}
use shopware_operator.Deployments.Names.{
  truncate_with_hash, queue_worker_name, short_hash, len-truncate_with_hash, len-queue_worker_name,
  truncate_with_hash_collision,
}
use shopware_operator.Deployments.Images.{FirstImage}
use shopware_operator.Deployments.Workers.{rank}
use shopware_operator.Deployments.Workers.Worst.{state_of, Some, worst_worker, workers_running_iff}
use shopware_operator.Manager.Base.{Base, refresh_deployment_states, all_deployments_running}
use shopware_operator.Manager.Reconcile.Path.{
  Turn, take_turn, run_turns, visited, Visits, ready_is_earned,
}
use shopware_operator.Trigger.{new_recorder, add, drain, forget, finish, cause}
use shopware_operator.Trigger.Pending.{adds, finishes, after_calls, pending_bounded}
use shopware_operator.Trigger.Causes.{cause-drain, cause-drain-finish, cause-drain-forget}
use shopware_operator.Manager.Wait.{state_handler, check_database}
use shopware_operator.Manager.Jobs.{
  setup_handler, setup_progress, setup_container, setup_job_name, migration_container,
  migrate_job_name,
}
use shopware_operator.Manager.Jobs.Evidence.{Backed}
use shopware_operator.Manager.Serving.{initializing_handler}
use shopware_operator.Manager.Reconcile.{managers, reconcile_state}
use shopware_operator.Manager.Reconcile.Machine.{◌⟶◌, reconcile-⟶, reconcile_unregistered}
use shopware_operator.Manager.Reconcile.Guards.{
  setup_is_Backed, migration_is_Backed, initializing-ready_iff, ready-migration_iff, wait-setup_iff,
}
use shopware_operator.Manager.Reconcile.History.{reconcile_state-IsWellFormed}
use shopware_operator.Api.Conditions.History.{IsWellFormed}
use shopware_operator.Services.{get_db_spec, test_sql_connection}
use shopware_operator.Deployments.{
  get_admin_deployment_condition, get_storefront_deployment_condition, get_store_deployment_image,
  get_deployment_condition, admin_replicas, storefront_replicas,
}
use shopware_operator.Deployments.Workers.{
  get_worker_deployment_condition, add_workers, add_worker, worker_deployments, worker_queues,
  worker_deployment, Worker,
}

reconcile-⟶_example : setup ⟶ (reconcile_state base env (store_in setup)).store.status.state
unfolding reconcile_state managers setup_handler
reconcile-⟶_example = reconcile-⟶ base env (store_in setup) refl

setup_is_Backed_example : Backed env setup_container (found (job (pos 0)))
unfolding reconcile_state managers setup_handler setup_progress setup_job_name is_job_container_done
    scan_statuses scan_pods scan_job scan_containers fall_back is_done has_errors
setup_is_Backed_example = setup_is_Backed base env (store_in setup) (inl refl) refl

abbrev migrated_env : Env
migrated_env = env_of (pos 2) (pod_of "shopware-migration" (pos 0) "Completed")

migration_is_Backed_example :
    let s = store_in migration in
    let t = (reconcile_state base migrated_env s).store in
    ((t.status.state ≡ initializing)
      × (t.status.current_image_tag ≡ "shop:2")
      × Backed migrated_env migration_container
          (migrated_env.get_job "shops" (migrate_job_name migrated_env s)))
    ⊎ ((t.status.state ≢ initializing) × (t.status.current_image_tag ≡ "shop:1"))
migration_is_Backed_example = migration_is_Backed base migrated_env (store_in migration) (inl refl)

initializing-ready_iff_example :
    (reconcile_state base env (store_in initializing)).store.status.state ≡ ready
unfolding get_admin_deployment_condition get_worker_deployment_condition
    get_storefront_deployment_condition get_deployment_condition add_workers add_worker
    worker_deployments worker_queues worker_deployment admin_replicas storefront_replicas
initializing-ready_iff_example =
    (initializing-ready_iff base env (store_in initializing) refl).0.1 (refl, refl, refl)

ready-migration_iff_example :
    (reconcile_state base env (store_in ready)).store.status.state ≡ migration
unfolding FirstImage
ready-migration_iff_example = (ready-migration_iff base env (store_in ready) refl).1 (
  _,
  "shop:1",
  refl,
  ([], _, [], refl, tt, refl, refl),
  λ h. let same = (eq_iff "shop:1" "shop:2").1 h in cc,
)

wait-setup_iff_example : (reconcile_state base env (store_in wait)).store.status.state ≡ setup
unfolding check_database get_db_spec test_sql_connection lookup
wait-setup_iff_example =
    (wait-setup_iff base env (store_in wait) refl refl).1
      (λ h. ("Database ping passed", refl), λ h. cc, λ h. cc, λ h. cc)

reconcile_state-IsWellFormed_example :
    IsWellFormed ◌==◌ (reconcile_state base env (store_in wait)).store.status.conditions
reconcile_state-IsWellFormed_example =
    reconcile_state-IsWellFormed base env (store_in wait)
      (record { bounded = omega arith; alternates = tt })

abbrev turn : Base → Turn
turn b = record { base = b; env = env; spec = spec }

abbrev unchecked : Base
unchecked = record base { disable_service_checks = true }

ready_is_earned_example :
    Visits setup (visited (turn unchecked ∷ turn base ∷ turn base ∷ []) (store_in empty))
    × Visits initializing (visited (turn unchecked ∷ turn base ∷ turn base ∷ []) (store_in empty))
unfolding run_turns take_turn reconcile_state managers state_handler setup_handler setup_progress
    setup_job_name is_job_container_done scan_statuses scan_pods scan_job scan_containers fall_back
    is_done has_errors initializing_handler refresh_deployment_states all_deployments_running
    store_add_condition get_admin_deployment_condition get_worker_deployment_condition
    get_storefront_deployment_condition get_deployment_condition add_workers add_worker
    worker_deployments worker_queues worker_deployment admin_replicas storefront_replicas
ready_is_earned_example =
    ready_is_earned (turn unchecked ∷ turn base ∷ turn base ∷ []) (store_in empty) refl refl
