-- ===== src/Workloads/Jobs/Apart.antt =====
-- The pods of the jobs are apart from those that serve.
use shopware_operator.Prelude.{String, ◌≡◌, refl, false, none}
use shopware_operator.Prelude.Assoc.{lookup, lookup-insert}
use shopware_operator.Kube.{Env}
use shopware_operator.Api.Container.Merging.{lookup-copy_over}
use shopware_operator.Api.Store.{Store}
use shopware_operator.Workloads.Labels.{container_store_labels, App, match_label, selects}
use shopware_operator.Workloads.Selection.{app_key}
use shopware_operator.Workloads.Selection.Owned.{Leaves}
use shopware_operator.Workloads.Jobs.{setup_labels, migration_labels, setup_job, migration_job}

module _ (store : Store) where
  module _ (base : Leaves app_key store.spec.container.labels)
      (override : Leaves app_key store.spec.migration_job_container.labels) where
    lookup-setup_labels : lookup app_key (setup_labels store) ≡ none
    unfolding setup_labels container_store_labels lookup
    lookup-setup_labels =
        rw (lookup-insert, lookup-copy_over, lookup-copy_over, base, override) refl

    lookup-migration_labels : (env : Env) → lookup app_key (migration_labels env store) ≡ none
    unfolding migration_labels container_store_labels lookup
    lookup-migration_labels env =
        rw (lookup-insert, lookup-insert, lookup-copy_over, lookup-copy_over, base, override) refl

    -- If no label of the store and of its migration job says otherwise, no disruption budget, and no
    -- service or deployment with the same selector, selects the pods of the setup job or those of the
    -- migration job.
    pub jobs_not_selected :
        (env : Env) (url : String) (app : App)
        → (selects (match_label app) (setup_job url store).0.template.labels ≡ false)
          × (selects (match_label app) (migration_job env url store).0.template.labels ≡ false)
    unfolding selects setup_job migration_job
    jobs_not_selected env url app =
        (rw lookup-setup_labels refl, rw (lookup-migration_labels env) refl)
