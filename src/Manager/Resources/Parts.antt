-- ===== src/Manager/Resources/Parts.antt =====
-- internal/manager/base/resources.go: the resources, one function each.
use shopware_operator.Prelude.{
  String, Bool, false, not, ◌||◌, none, some, List, [], ◌∷◌, ◌==◌, if◌then◌else◌,
}
use shopware_operator.Prelude.Text.{concat}
use shopware_operator.Prelude.Assoc.{lookup}
use shopware_operator.Kube.{Reply, found, absent, failed, Result, ok, err}
use shopware_operator.Api.Store.{Store}
use shopware_operator.Cluster.{Kind, Object, has_object_changed}
use shopware_operator.Cluster.Kinds.{
  ensure_service, ensure_hpa, ensure_cron_job, ensure_job, ensure_pdb, ensure_ingress,
  ensure_http_route, ensure_deployment,
}
use shopware_operator.Cluster.Requests.{text_of, ensure_object_with_hash}
use shopware_operator.Manager.Base.{Base, RecordedEvent, eventf}
use shopware_operator.Manager.Resources.Steps.{
  World, Effects, nothing, fails, ◌and_then◌, within, with_events, reconcile_object,
  reconcile_objects, delete_found, delete_if_there, delete_all,
}

abbrev update_message : Store → String → String
update_message s what =
    concat
      ("Update Store " ∷ s.name ∷ " " ∷ what ∷ " in namespace " ∷ s.namespace ∷ ". Diff hash" ∷ [])

abbrev update_message_for : Store → String → String → String
update_message_for s what name = concat (
    "Update Store " ∷ s.name ∷ " " ∷ what ∷ " in namespace " ∷ s.namespace ∷ " for " ∷ name
    ∷ ". Diff hash" ∷ [])

abbrev app_label : Object → String
app_label o = text_of (lookup "app" o.labels)

-- EnsureAppSecrets
abbrev pub ensured_secret : World → Result Object → Effects
ensured_secret w (err e) = fails (concat ("app secrets: " ∷ e ∷ []))
ensured_secret w (ok o) =
    within "ensure store secret" (with_events [] (ensure_object_with_hash w.api none o))

abbrev pub ensure_app_secrets : World → Store → Effects
ensure_app_secrets w s = ensured_secret w (w.build.store_secret s)

-- ReconcileServices.
abbrev pub reconcile_services : World → Base → Store → Effects
reconcile_services w b s =
    reconcile_objects w
      (λ o. eventf b "Diff service hash" (update_message_for s "service" (app_label o))) s
      ensure_service "reconcile unready svc" "reconcile unready services"
      (w.build.storefront_service s ∷ w.build.admin_service s ∷ [])

-- ReconcileIngress, with DeleteStoreIngress
abbrev pub reconcile_ingress : World → Base → Store → Effects
reconcile_ingress w b s =
    if not s.spec.network.enabled_ingress
    then delete_found w Kind.ingress "delete ingress"
        (w.api.get Kind.ingress s.namespace (w.build.ingress_name s))
    else reconcile_object w (eventf b "Diff ingress hash" (update_message s "ingress")) s
        ensure_ingress "reconcile unready ingress" "reconcile unready ingress"
        (w.build.store_ingress s)

-- ReconcileHTTPRoute, with DeleteStoreHTTPRoute
abbrev pub reconcile_http_route : World → Base → Store → Effects
reconcile_http_route w b s =
    if not s.spec.network.enabled_gateway
    then delete_found w Kind.http_route "delete httproute"
        (w.api.get Kind.http_route s.namespace (w.build.http_route_name s))
    else reconcile_object w (eventf b "Diff httproute hash" (update_message s "httproute")) s
        ensure_http_route "reconcile unready httproute" "reconcile unready httproute"
        (w.build.store_http_route s)

abbrev reconcile_pdbs : World → Base → Store → List Object → Effects
reconcile_pdbs w b s =
    reconcile_objects w (λ o. eventf b "Diff pdb hash" (update_message s "pdb")) s ensure_pdb
      "reconcile unready pdb" "reconcile unready pdb"

-- ReconcilePDB
abbrev pub reconcile_pdb : World → Base → Store → Effects
reconcile_pdb w b s =
    if s.spec.worker.enable_keda_scaling
    then delete_if_there w "cleanup worker pdb" (w.build.worker_pdb s)
      and_then reconcile_pdbs w b s (w.build.admin_pdb s ∷ w.build.storefront_pdb s ∷ [])
    else reconcile_pdbs w b s
        (w.build.admin_pdb s ∷ w.build.storefront_pdb s ∷ w.build.worker_pdb s ∷ [])

abbrev pub is_named : String → List Object → Bool
is_named name [] = false
is_named name (o ∷ os) = o.name == name || is_named name os

abbrev pub obsolete : List Object → List Object → List Object
obsolete desired [] = []
obsolete desired (o ∷ os) =
    let rest = obsolete desired os in if is_named o.name desired then rest else o ∷ rest

-- CleanupObsoleteWorkerDeployments
abbrev pub cleanup_deployments : World → Result (List Object) → Result (List Object) → Effects
cleanup_deployments w (err e) there = fails e
cleanup_deployments w (ok workers) (err e) = fails (concat ("list worker deployments: " ∷ e ∷ []))
cleanup_deployments w (ok workers) (ok there) =
    delete_all w "delete obsolete worker deployment" (obsolete workers there)

abbrev pub cleanup_unless : World → Store → Effects
cleanup_unless w s =
    if s.status.queue_state.error == ""
    then within "cleanup worker deployments"
        (cleanup_deployments w (w.build.worker_deployments s) (w.list_worker_deployments s))
    else nothing

abbrev pub deployments_with : World → Base → Store → Result (List Object) → Effects
deployments_with w b s (err e) = fails (concat ("worker deployments: " ∷ e ∷ []))
deployments_with w b s (ok workers) =
    reconcile_objects w
      (λ o. eventf b "Diff deployment hash" (update_message_for s "deployment" (app_label o))) s
      ensure_deployment "reconcile unready deployment" "reconcile unready deployment"
      (w.build.storefront_deployment s ∷ w.build.admin_deployment s ∷ workers)
    and_then cleanup_unless w s

-- ReconcileDeployment
abbrev pub reconcile_deployment : World → Base → Store → Effects
reconcile_deployment w b s = deployments_with w b s (w.build.worker_deployments s)

abbrev pub scaled_by_change : World → List RecordedEvent → Object → Object → Result Bool → Effects
scaled_by_change w events target o (err e) =
    fails (concat ("reconcile worker scaledobject: " ∷ e ∷ []))
scaled_by_change w events target o (ok changed) = within "reconcile worker scaledobject" (
    with_events (if changed then events else [])
      (ensure_object_with_hash w.api (some target.name) o))

abbrev pub scaled_with : World → List RecordedEvent → String → Object → Reply Object → Effects
scaled_with w events name o (absent e) = nothing
scaled_with w events name o (failed e) = fails (concat ("get scale target " ∷ name ∷ ": " ∷ e ∷ []))
scaled_with w events name o (found target) =
    scaled_by_change w events target o (has_object_changed w.api o)

abbrev pub scale_all : World → Base → Store → List (Object × String) → Effects
scale_all w b s [] = nothing
scale_all w b s (entry ∷ entries) =
    scaled_with w
      (eventf b "Diff scaledobject hash" (update_message_for s "scaledobject" entry.0.name)) entry.1
      entry.0 (w.api.get Kind.deployment entry.0.namespace entry.1)
    and_then scale_all w b s entries

abbrev pub scale_built : World → Base → Store → Result (List (Object × String)) → Effects
scale_built w b s (err e) = fails e
scale_built w b s (ok entries) = scale_all w b s entries

-- CleanupObsoleteWorkerScaledObjects
abbrev pub cleanup_scaled_objects : World → Result (List Object) → Effects
cleanup_scaled_objects w (err e) = fails (concat ("list worker scaledobjects: " ∷ e ∷ []))
cleanup_scaled_objects w (ok there) = delete_all w "delete obsolete worker scaledobject" there

-- ReconcileScaledObjects
abbrev pub reconcile_scaled_objects : World → Base → Store → Effects
reconcile_scaled_objects w b s =
    if not b.enable_keda
    then nothing
    else if not s.spec.worker.enable_keda_scaling
    then cleanup_scaled_objects w (w.list_scaled_objects s)
    else scale_built w b s (w.build.worker_scaled_objects s)

-- ReconcileHorizontalPodAutoscaler
abbrev pub reconcile_hpa : World → Base → Store → Effects
reconcile_hpa w b s =
    if not s.spec.horizontal_pod_autoscaler.enabled
    then nothing
    else reconcile_object w (eventf b "Diff hpa hash" (update_message s "hpa")) s ensure_hpa
        "reconcile unready deployment" "reconcile unready hpa" (w.build.store_hpa s)

-- ReconcileSetupJob
abbrev pub reconcile_setup_job : World → Base → Store → Effects
reconcile_setup_job w b s =
    reconcile_object w (eventf b "Diff setup job hash" (update_message s "setup job")) s ensure_job
      "reconcile unready setup job" "reconcile unready setup job" (w.build.setup_job s)

-- ReconcileMigrationJob
abbrev pub reconcile_migration_job : World → Base → Store → Effects
reconcile_migration_job w b s =
    reconcile_object w (eventf b "Diff migrate job hash" (update_message s "migrate job")) s
      ensure_job "reconcile unready migrate job" "reconcile unready migrate job"
      (w.build.migration_job s)

-- ReconcileScheduledTask
abbrev pub reconcile_scheduled_task : World → Base → Store → Effects
reconcile_scheduled_task w b s =
    reconcile_object w (eventf b "Diff setup job hash" (update_message s "scheduled task job")) s
      ensure_cron_job "reconcile unready setup job" "reconcile unready scheduled task job"
      (w.build.scheduled_task_job s)
