-- ===== src/Manager/Reconcile/Guards.antt =====
-- What must hold for a store to leave a state.
use shopware_operator.Prelude.{
  String, ◌≡◌, refl, sym, ap, ◌∙◌, ◌≢◌, ◌↔◌, ◌⊎◌, inl, inr, Bool, true, false, ◌||◌, [], ◌∷◌, arith,
  ◌==◌, eq_iff, Bool-cases,
}
use shopware_operator.Kube.{Reply, found, absent, failed, Deployment, Job, Env, Result, ok, err}
use shopware_operator.Api.State.{
  AppState, is_one_of, running, empty, wait, setup, setup_error, initializing, migration,
  migration_error, ready,
}
use shopware_operator.Api.Store.{Store, store_add_condition, store_is_state}
use shopware_operator.Deployments.{
  get_admin_deployment_condition, get_storefront_deployment_condition, get_store_deployment_image,
  storefront_name,
}
use shopware_operator.Deployments.Images.{FirstImage, deployed_image_iff}
use shopware_operator.Prelude.Text.{concat}
use shopware_operator.Deployments.Workers.{get_worker_deployment_condition}
use shopware_operator.Manager.Base.{Base}
use shopware_operator.Manager.Wait.{
  state_handler, run_checks, run_check, check_database, check_s3, check_fastly, check_opensearch,
  database_enabled, s3_enabled, fastly_enabled, opensearch_enabled,
}
use shopware_operator.Manager.Jobs.{
  Progress, setup_container, migration_container, setup_job_name, migrate_job_name, setup_progress,
  setup_next, setup_handler, migration_progress, migration_next, migration_handler, migrated,
  set_image,
}
use shopware_operator.Manager.Jobs.Evidence.{Backed, reply_finished}
use shopware_operator.Manager.Serving.{initializing_handler, ready_handler, reply_ready}
use shopware_operator.Manager.Reconcile.{managers, run, step_to, reconcile_state}

-- A check that is enabled passes.
abbrev Passes : Bool → Result String → Type 0
Passes enabled r = enabled ≡ true → (reason : String) × (r ≡ ok reason)

module _ (base : Base) (env : Env) (s : Store) where
  abbrev next : AppState
  next = (reconcile_state base env s).store.status.state

  reconcile_at :
      (from : AppState)
      → s.status.state ≡ from
      → reconcile_state base env s ≡ run (managers from) base env s
  unfolding reconcile_state
  reconcile_at from e = ap (λ st. run (managers st) base env s) e

  -- An initializing store becomes ready exactly when its admin, its worker and its storefront
  -- deployments are all running, and its status has the image of its specification in any case.
  pub initializing-ready_iff :
      s.status.state ≡ initializing
      → let t = set_image s.spec.container.image s in
        (((reconcile_state base env s).store.status.state ≡ ready) ↔ (
          ((get_admin_deployment_condition env t).state ≡ running)
          × ((get_worker_deployment_condition env t).state ≡ running)
          × ((get_storefront_deployment_condition env t).state ≡ running)))
        × ((reconcile_state base env s).store.status.current_image_tag ≡ s.spec.container.image)
  unfolding managers initializing_handler store_add_condition
  initializing-ready_iff e =
      rw (reconcile_at initializing e) ((λ h. ground arith, λ h. ground arith), refl)

  setup_next-initializing :
      (p : Progress) → setup_next p ≡ initializing → (k : Job) × (p ≡ Progress.finished k)
  setup_next-initializing (Progress.finished j) h = (j, refl)
  setup_next-initializing _ h = cc

  migration_next-initializing :
      (p : Progress) → migration_next p ≡ initializing → (k : Job) × (p ≡ Progress.finished k)
  migration_next-initializing (Progress.finished j) h = (j, refl)
  migration_next-initializing _ h = cc

  run-setup-next :
      (s.status.state ≡ setup) ⊎ (s.status.state ≡ setup_error)
      → next ≡ setup_next (setup_progress env s)
  unfolding managers setup_handler
  run-setup-next (inl e) = ap (λ t. t.store.status.state) (reconcile_at setup e)
  run-setup-next (inr e) = ap (λ t. t.store.status.state) (reconcile_at setup_error e)

  -- A store leaves the setup states for initializing only if the API server has its setup job and
  -- that job has succeeded, or its container has completed in one of the pods of the job.
  pub setup_is_Backed :
      (s.status.state ≡ setup) ⊎ (s.status.state ≡ setup_error)
      → (reconcile_state base env s).store.status.state ≡ initializing
      → Backed env setup_container (env.get_job s.namespace (setup_job_name s))
  unfolding setup_progress
  setup_is_Backed e h =
      let (k, p) = setup_next-initializing (setup_progress env s) (sym (run-setup-next e) ∙ h) in
      reply_finished env setup_container (env.get_job s.namespace (setup_job_name s)) k p

  abbrev pub IsMigrating : Type 0
  IsMigrating = (s.status.state ≡ migration) ⊎ (s.status.state ≡ migration_error)

  run-migration : IsMigrating → reconcile_state base env s ≡ step_to (migration_handler base env s)
  unfolding managers
  run-migration (inl e) = reconcile_at migration e
  run-migration (inr e) = reconcile_at migration_error e

  migrated-image :
      (p : Progress)
      → ((migration_next p ≡ initializing)
          × ((migrated p s).status.current_image_tag ≡ s.spec.container.image))
        ⊎ ((migration_next p ≢ initializing)
            × ((migrated p s).status.current_image_tag ≡ s.status.current_image_tag))
  migrated-image (Progress.finished j) = inl (refl, refl)
  migrated-image Progress.missing = inr (λ h. cc, refl)
  migrated-image (Progress.unreadable e) = inr (λ h. cc, refl)
  migrated-image (Progress.broken j c) = inr (λ h. cc, refl)
  migrated-image (Progress.waiting j) = inr (λ h. cc, refl)

  -- A store leaves the migration states for initializing only if its migration job has succeeded, or
  -- the job's container has completed in a pod of the job, and then its status has the new image;
  -- in all other cases the image in the status, after which the job is named, stays as it was.
  pub migration_is_Backed :
      IsMigrating
      → (((reconcile_state base env s).store.status.state ≡ initializing)
          × ((reconcile_state base env s).store.status.current_image_tag ≡ s.spec.container.image)
          × Backed env migration_container (env.get_job s.namespace (migrate_job_name env s)))
        ⊎ (((reconcile_state base env s).store.status.state ≢ initializing)
            × ((reconcile_state base env s).store.status.current_image_tag
                ≡ s.status.current_image_tag))
  unfolding migration_handler migration_progress store_add_condition
  migration_is_Backed e = rw (run-migration e) (elim (migrated-image (migration_progress env s)) [
    | inl (h, image) ↦
        let (k, p) = migration_next-initializing (migration_progress env s) h in
        inl (
          h,
          image,
          reply_finished env migration_container (env.get_job s.namespace (migrate_job_name env s))
              k p,
        )
    | inr (h, image) ↦ inr (h, image)
  ])

  reply_ready-migration_iff :
      (r : Reply String)
      → ((reply_ready env s r).next ≡ migration)
        ↔ ((image : String) × (r ≡ found image) × (image ≢ s.spec.container.image))
  reply_ready-migration_iff (absent e) = (λ h. cc, λ h. cc)
  reply_ready-migration_iff (failed e) = (λ h. cc, λ h. cc)
  reply_ready-migration_iff (found image) = elim (Bool-cases (image == s.spec.container.image)) [
    | inl same ↦ rw same (
      λ h. ground arith,
      λ h.
          let (x, q, differs) = h in
          let is_same : image ≡ s.spec.container.image =
            (eq_iff image s.spec.container.image).0 same in
          absurd (differs cc),
    )
    | inr differs ↦ rw differs (
      λ h. (image, refl, λ q. let same = (eq_iff image s.spec.container.image).1 q in cc),
      λ h. refl,
    )
  ]

  -- A ready store goes over to the migration exactly when the API server has the deployment of the
  -- store's name and the suffix -storefront in its namespace, and the first of its containers that is
  -- called shopware-storefront has another image than the one of the specification.
  pub ready-migration_iff :
      s.status.state ≡ ready
      → ((reconcile_state base env s).store.status.state ≡ migration) ↔ (
          (d : Deployment) × (image : String) × (env.get_deployment s.namespace
              (concat (s.name ∷ "-storefront" ∷ []))
            ≡ found d)
          × FirstImage "shopware-storefront" d.containers image
          × (image ≢ s.spec.container.image))
  unfolding managers ready_handler get_store_deployment_image storefront_name
  ready-migration_iff e = rw (reconcile_at ready e) (
      let (to, from) = reply_ready-migration_iff (get_store_deployment_image env s) in
      (
        λ h.
            let (image, i, differs) = to h in
            let (d, g, first) = (deployed_image_iff _ image).0 i in (d, image, g, first, differs),
        λ (d, image, g, first, differs).
            from (image, (deployed_image_iff _ image).1 (d, g, first), differs),
      ))

  run_check-setup_iff :
      (enabled : Bool) (message : String) (r : Result String) (p : Store × AppState)
      → ((run_check enabled env.now message r p).1 ≡ setup) ↔ (Passes enabled r × (p.1 ≡ setup))
  run_check-setup_iff false message r p = (λ h. (λ q. cc, h), λ h. h.1)
  run_check-setup_iff true message (ok reason) p = (λ h. (λ q. (reason, refl), h), λ h. h.1)
  run_check-setup_iff true message (err reason) p =
      (λ h. cc, λ h. let (reason', q) = h.0 refl in cc)

  run_checks-setup_iff : ((run_checks env s).1 ≡ setup) ↔ (
      Passes (database_enabled s) (check_database env s)
      × Passes (s3_enabled s) (check_s3 env s)
      × Passes (fastly_enabled s) (check_fastly env s)
      × Passes (opensearch_enabled s) (check_opensearch env s))
  unfolding run_checks
  run_checks-setup_iff =
      let database =
        run_check-setup_iff (database_enabled s) "Waiting for database connection"
          (check_database env s) (s, setup) in
      let s3 = run_check-setup_iff (s3_enabled s) "Waiting for s3 connection" (check_s3 env s) _ in
      let fastly =
        run_check-setup_iff (fastly_enabled s) "Waiting for fastly secret" (check_fastly env s) _ in
      let opensearch =
        run_check-setup_iff (opensearch_enabled s) "Waiting for Opensearch ref"
          (check_opensearch env s) _ in
      (
        λ h.
            let (p_opensearch, h1) = opensearch.0 h in
            let (p_fastly, h2) = fastly.0 h1 in
            let (p_s3, h3) = s3.0 h2 in ((database.0 h3).0, p_s3, p_fastly, p_opensearch),
        λ (p_database, p_s3, p_fastly, p_opensearch).
            opensearch.1
              (p_opensearch, fastly.1 (p_fastly, s3.1 (p_s3, database.1 (p_database, refl)))),
      )

  state_handler-checks :
      s.status.state ≡ wait
      → base.disable_service_checks || s.spec.disable_checks ≡ false
      → (state_handler base env s).next ≡ (run_checks env s).1
  unfolding state_handler
  state_handler-checks e d =
      let waits : store_is_state s (empty ∷ []) ≡ false = ap (λ st. is_one_of st (empty ∷ [])) e in
      rw (d, waits) refl

  -- The reconcile of a waiting store whose checks are not disabled as a whole goes on to the setup
  -- exactly when each of the four checks passes or is not enabled.
  pub wait-setup_iff :
      s.status.state ≡ wait
      → base.disable_service_checks || s.spec.disable_checks ≡ false
      → ((reconcile_state base env s).store.status.state ≡ setup) ↔ (
          Passes (database_enabled s) (check_database env s)
          × Passes (s3_enabled s) (check_s3 env s)
          × Passes (fastly_enabled s) (check_fastly env s)
          × Passes (opensearch_enabled s) (check_opensearch env s))
  unfolding managers
  wait-setup_iff e d = rw (reconcile_at wait e, state_handler-checks e d) run_checks-setup_iff
