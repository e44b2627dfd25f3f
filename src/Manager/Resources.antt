-- ===== src/Manager/Resources.antt =====
-- internal/manager/manager.go (ReconcileResources) and the resource handlers of the state managers: what a
-- reconcile asks the API server for, in which order.
pub mod Steps
pub mod Parts
pub mod Touching
pub mod Kinds
pub mod Workloads
pub mod Confined
use shopware_operator.Prelude.{
  String, Bool, true, false, not, ◌&&◌, ◌||◌, Option, none, some, List, [], ◌∷◌, ◌++◌, ◌==◌,
  if◌then◌else◌,
}
use shopware_operator.Prelude.Text.{concat}
use shopware_operator.Prelude.Assoc.{lookup}
use shopware_operator.Kube.{Reply, found, absent, failed, Result, ok, err}
use shopware_operator.Api.State.{
  AppState, empty, wait, setup, setup_error, initializing, migration, migration_error, ready, other,
}
use shopware_operator.Api.Store.{Store, store_is_state}
use shopware_operator.Cluster.{Kind, Object, Api, has_object_changed}
use shopware_operator.Cluster.Kinds.{
  ensure_service, ensure_hpa, ensure_cron_job, ensure_job, ensure_pdb, ensure_ingress,
  ensure_http_route, ensure_deployment,
}
use shopware_operator.Cluster.Requests.{
  Request, delete, Outcome, wrapped, text_of, ensure_object_with_hash,
}
use shopware_operator.Manager.Base.{Base, RecordedEvent, eventf}
use Steps.{World, Effects, nothing, ◌and_then◌, within}
use Parts.{
  ensure_app_secrets, reconcile_services, reconcile_ingress, reconcile_http_route, reconcile_pdb,
  reconcile_deployment, reconcile_scaled_objects, reconcile_hpa, reconcile_setup_job,
  reconcile_migration_job, reconcile_scheduled_task,
}

-- ResourceHandler of the wait manager
abbrev wait_resources : World → Base → Store → Effects
wait_resources w b s = nothing

-- ResourceHandler of the setup manager
abbrev setup_resources : World → Base → Store → Effects
setup_resources w b s = within "setup" (reconcile_setup_job w b s)

-- `store.Spec.ScheduledTask.Suspend = true`
abbrev pub suspended : Store → Store
suspended s = record s { spec = record s.spec { scheduled_task_suspend = true } }

-- ResourceHandler of the migration manager. The code suspends the scheduled task in the store itself; no
-- later part of the reconcile reads that field.
abbrev pub migration_resources : World → Base → Store → Effects
migration_resources w b s =
    within "migration" (reconcile_migration_job w b s)
    and_then within "cronjob" (reconcile_scheduled_task w b (suspended s))

-- ResourceHandler of the initializing manager
abbrev pub initializing_resources : World → Base → Store → Effects
initializing_resources w b s =
    within "deployment" (reconcile_deployment w b s)
    and_then within "scaledobject" (reconcile_scaled_objects w b s)

abbrev pub is_current : Store → Bool
is_current s = s.status.current_image_tag == s.spec.container.image

-- ResourceHandler of the ready manager
abbrev pub ready_resources : World → Base → Store → Effects
ready_resources w b s =
    if not (is_current s)
    then within "migration" (reconcile_migration_job w b s)
    else within "deployment" (reconcile_deployment w b s)
      and_then within "scaledobject" (reconcile_scaled_objects w b s)
      and_then within "service" (reconcile_services w b s)
      and_then within "cronjob" (reconcile_scheduled_task w b s)
      and_then within "hpa" (reconcile_hpa w b s)

-- reconcileInitResources
abbrev reconcile_init_resources : World → Base → Store → Effects
reconcile_init_resources w b s =
    within "ingress" (reconcile_ingress w b s)
    and_then within "httproute" (reconcile_http_route w b s)
    and_then within "pdb" (reconcile_pdb w b s)

-- The resource handler of the manager that the map has for a state.
abbrev pub resources_of : AppState → World → Base → Store → Effects
resources_of empty = wait_resources
resources_of wait = wait_resources
resources_of setup = setup_resources
resources_of setup_error = setup_resources
resources_of initializing = initializing_resources
resources_of migration = migration_resources
resources_of migration_error = migration_resources
resources_of ready = ready_resources
resources_of (other s) = λ w b s. nothing

-- ReconcileResources
unfoldable pub reconcile_resources : World → Base → Store → Effects
reconcile_resources w b s =
    reconcile_init_resources w b s
    and_then (if store_is_state s (empty ∷ wait ∷ [])
        then nothing
        else within "app secrets" (ensure_app_secrets w s)
          and_then resources_of s.status.state w b s)
