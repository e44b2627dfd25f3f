-- ===== src/Manager/Resources/Workloads.antt =====
-- The types of the objects that deployments, scaled objects and jobs are reconciled by.
use shopware_operator.Prelude.{
  String, ◌≡◌, refl, ap, ◌∙◌, Bool, true, not, some, List, [], ◌∷◌, ◌==◌, All,
}
use shopware_operator.Kube.{Reply, found, absent, failed, Result, ok, err}
use shopware_operator.Api.Store.{Store}
use shopware_operator.Cluster.{Kind, Object, has_object_changed}
use shopware_operator.Cluster.Requests.{ensure_object_with_hash}
use shopware_operator.Manager.Base.{Base, RecordedEvent}
use shopware_operator.Manager.Resources.Steps.{World}
use shopware_operator.Manager.Resources.Parts.{
  obsolete, cleanup_deployments, cleanup_unless, deployments_with, reconcile_deployment,
  scaled_by_change, scaled_with, scale_all, scale_built, cleanup_scaled_objects,
  reconcile_scaled_objects, reconcile_hpa, reconcile_setup_job, reconcile_migration_job,
  reconcile_scheduled_task,
}
use shopware_operator.Manager.Resources.Touching.{
  OfKind, Touches, sent_kinds, Touches-nothing, Touches-fails, Touches-within, Touches-with_events,
  Touches-if, Touches-and_then, Touches-reconcile_object, Touches-reconcile_objects,
  Touches-delete_all,
}
use shopware_operator.Manager.Resources.Kinds.{Typed, OfKind-All, AllOf-obsolete}

module _ (w : World) (types : Typed w) (b : Base) (test : Kind → Bool) where
  pub Touches-cleanup :
      (s : Store) → test Kind.deployment ≡ true → Touches test (cleanup_unless w s)
  Touches-cleanup s e =
      Touches-if w test (s.status.queue_state.error == "") _ _
        (λ clean.
          Touches-within w test _ _
            (by_result (w.build.worker_deployments s) (w.list_worker_deployments s) refl))
        (λ failing. Touches-nothing w test)
    where
      by_result :
          (desired there : Result (List Object))
          → w.list_worker_deployments s ≡ there
          → Touches test (cleanup_deployments w desired there)
      by_result (err t) there h = Touches-fails w test t
      by_result (ok workers) (err t) h = Touches-fails w test _
      by_result (ok workers) (ok os) h = Touches-delete_all w test _ (obsolete workers os) (
          OfKind-All test Kind.deployment (obsolete workers os) e
            (AllOf-obsolete Kind.deployment workers os (types.listed s os h)))

  pub Touches-deployment :
      (s : Store) → test Kind.deployment ≡ true → Touches test (reconcile_deployment w b s)
  Touches-deployment s e = by_result (w.build.worker_deployments s) refl
    where
      by_result :
          (r : Result (List Object))
          → w.build.worker_deployments s ≡ r
          → Touches test (deployments_with w b s r)
      by_result (err t) h = Touches-fails w test _
      by_result (ok workers) h =
          let os = w.build.storefront_deployment s ∷ w.build.admin_deployment s ∷ workers in
          Touches-and_then w test _ _
            (Touches-reconcile_objects w test _ s Kind.deployment _ _ os (
              OfKind-All test Kind.deployment os e
                (types.storefront s, (types.admin s, types.workers s workers h))))
            (Touches-cleanup s e)

  pub Touches-scale_all :
      (s : Store) (entries : List (Object × String))
      → test Kind.scaled_object ≡ true
      → All (λ entry. entry.0.kind ≡ Kind.scaled_object) entries
      → Touches test (scale_all w b s entries)
  unfolding OfKind
  Touches-scale_all s [] e h = Touches-nothing w test
  Touches-scale_all s (entry ∷ entries) e h =
      Touches-and_then w test _ _
        (by_target _ (w.api.get Kind.deployment entry.0.namespace entry.1))
        (Touches-scale_all s entries e h.1)
    where
      by_change :
          (events : List RecordedEvent) (target : Object) (r : Result Bool)
          → Touches test (scaled_by_change w events target entry.0 r)
      by_change events target (err t) = Touches-fails w test _
      by_change events target (ok changed) = Touches-within w test _ _ (
          Touches-with_events w test _ (ensure_object_with_hash w.api (some target.name) entry.0)
            (sent_kinds w.api test (some target.name) entry.0 (ap test h.0 ∙ e)))

      by_target :
          (events : List RecordedEvent) (r : Reply Object)
          → Touches test (scaled_with w events entry.1 entry.0 r)
      by_target events (absent t) = Touches-nothing w test
      by_target events (failed t) = Touches-fails w test _
      by_target events (found target) = by_change events target (has_object_changed w.api entry.0)

  pub Touches-scaled :
      (s : Store) → test Kind.scaled_object ≡ true → Touches test (reconcile_scaled_objects w b s)
  Touches-scaled s e =
      Touches-if w test (not b.enable_keda) _ _ (λ off. Touches-nothing w test)
        (λ on.
          Touches-if w test (not s.spec.worker.enable_keda_scaling) _ _
            (λ plain. by_list (w.list_scaled_objects s) refl)
            (λ keda. by_built (w.build.worker_scaled_objects s) refl))
    where
      by_list :
          (r : Result (List Object))
          → w.list_scaled_objects s ≡ r
          → Touches test (cleanup_scaled_objects w r)
      by_list (err t) h = Touches-fails w test _
      by_list (ok os) h =
          Touches-delete_all w test _ os
            (OfKind-All test Kind.scaled_object os e (types.listed_scaled s os h))

      by_built :
          (r : Result (List (Object × String)))
          → w.build.worker_scaled_objects s ≡ r
          → Touches test (scale_built w b s r)
      by_built (err t) h = Touches-fails w test t
      by_built (ok entries) h = Touches-scale_all s entries e (types.scaled s entries h)

  pub Touches-hpa : (s : Store) → test Kind.autoscaler ≡ true → Touches test (reconcile_hpa w b s)
  unfolding OfKind
  Touches-hpa s e =
      Touches-if w test (not s.spec.horizontal_pod_autoscaler.enabled) _ _
        (λ off. Touches-nothing w test)
        (λ on.
          Touches-reconcile_object w test _ s Kind.service _ _ (w.build.store_hpa s)
            (ap test (types.autoscaler s) ∙ e))

  pub Touches-setup_job :
      (s : Store) → test Kind.job ≡ true → Touches test (reconcile_setup_job w b s)
  unfolding OfKind
  Touches-setup_job s e =
      Touches-reconcile_object w test _ s Kind.job _ _ (w.build.setup_job s)
        (ap test (types.setup_job s) ∙ e)

  pub Touches-migration_job :
      (s : Store) → test Kind.job ≡ true → Touches test (reconcile_migration_job w b s)
  unfolding OfKind
  Touches-migration_job s e =
      Touches-reconcile_object w test _ s Kind.job _ _ (w.build.migration_job s)
        (ap test (types.migration_job s) ∙ e)

  pub Touches-task :
      (s : Store) → test Kind.cron_job ≡ true → Touches test (reconcile_scheduled_task w b s)
  unfolding OfKind
  Touches-task s e =
      Touches-reconcile_object w test _ s Kind.job _ _ (w.build.scheduled_task_job s)
        (ap test (types.task s) ∙ e)
