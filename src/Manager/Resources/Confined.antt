-- ===== src/Manager/Resources/Confined.antt =====
-- That a reconcile keeps to the types of objects that belong to the state of the store.
use shopware_operator.Prelude.{◌≡◌, refl, Bool, true, false, [], ◌∷◌, if◌then◌else◌}
use shopware_operator.Api.State.{
  AppState, empty, wait, setup, setup_error, initializing, migration, migration_error, ready, other,
  is_one_of,
}
use shopware_operator.Api.Store.{Store}
use shopware_operator.Cluster.{Kind}
use shopware_operator.Manager.Base.{Base}
use shopware_operator.Manager.Resources.Steps.{World, Effects, nothing, ◌and_then◌, within}
use shopware_operator.Manager.Resources.Parts.{ensure_app_secrets}
use shopware_operator.Manager.Resources.{
  migration_resources, initializing_resources, ready_resources, is_current, suspended, resources_of,
  reconcile_resources,
}
use shopware_operator.Manager.Resources.Touching.{
  Touches, Touches-nothing, Touches-within, Touches-and_then,
}
use shopware_operator.Manager.Resources.Kinds.{
  Typed, allowed, Touches-services, Touches-secret, Touches-ingress, Touches-route, Touches-pdb,
}
use shopware_operator.Manager.Resources.Workloads.{
  Touches-deployment, Touches-scaled, Touches-hpa, Touches-setup_job, Touches-migration_job,
  Touches-task,
}

module _ (w : World) (types : Typed w) (b : Base) where
  Touches-migration :
      (s : Store) (test : Kind → Bool)
      → test Kind.job ≡ true
      → test Kind.cron_job ≡ true
      → Touches test (migration_resources w b s)
  Touches-migration s test e f =
      Touches-and_then w test _ _
        (Touches-within w test _ _ (Touches-migration_job w types b test s e))
        (Touches-within w test _ _ (Touches-task w types b test (suspended s) f))

  Touches-initializing :
      (s : Store) (test : Kind → Bool)
      → test Kind.deployment ≡ true
      → test Kind.scaled_object ≡ true
      → Touches test (initializing_resources w b s)
  Touches-initializing s test e f =
      Touches-and_then w test _ _
        (Touches-within w test _ _ (Touches-deployment w types b test s e))
        (Touches-within w test _ _ (Touches-scaled w types b test s f))

  Touches-ready :
      (s : Store) (current : Bool)
      → is_current s ≡ current
      → Touches (allowed ready current) (ready_resources w b s)
  Touches-ready s false c =
      let test = allowed ready false in
      rw c (Touches-within w test _ _ (Touches-migration_job w types b test s refl))
  Touches-ready s true c =
      let test = allowed ready true in
      rw c (
        Touches-and_then w test _ _
          (Touches-within w test _ _ (Touches-deployment w types b test s refl))
          (Touches-and_then w test _ _
            (Touches-within w test _ _ (Touches-scaled w types b test s refl))
            (Touches-and_then w test _ _
              (Touches-within w test _ _ (Touches-services w types b test s refl))
              (Touches-and_then w test _ _
                (Touches-within w test _ _ (Touches-task w types b test s refl))
                (Touches-within w test _ _ (Touches-hpa w types b test s refl))))))

  Touches-secrets_and :
      (s : Store) (test : Kind → Bool) (rest : Effects)
      → test Kind.secret ≡ true
      → Touches test rest
      → Touches test (within "app secrets" (ensure_app_secrets w s) and_then rest)
  Touches-secrets_and s test rest e h =
      Touches-and_then w test _ _ (Touches-within w test _ _ (Touches-secret w types b test s e)) h

  -- The part of ReconcileResources after the first resources, in a state.
  Touches-state :
      (s : Store) (state : AppState)
      → let test = allowed state (is_current s) in
        Touches test (
          if is_one_of state (empty ∷ wait ∷ [])
          then nothing
          else within "app secrets" (ensure_app_secrets w s) and_then resources_of state w b s)
  Touches-state s empty = Touches-nothing w _
  Touches-state s wait = Touches-nothing w _
  Touches-state s setup =
      let test = allowed setup (is_current s) in
      Touches-secrets_and s test _ refl
        (Touches-within w test _ _ (Touches-setup_job w types b test s refl))
  Touches-state s setup_error =
      let test = allowed setup_error (is_current s) in
      Touches-secrets_and s test _ refl
        (Touches-within w test _ _ (Touches-setup_job w types b test s refl))
  Touches-state s initializing =
      let test = allowed initializing (is_current s) in
      Touches-secrets_and s test _ refl (Touches-initializing s test refl refl)
  Touches-state s migration =
      let test = allowed migration (is_current s) in
      Touches-secrets_and s test _ refl (Touches-migration s test refl refl)
  Touches-state s migration_error =
      let test = allowed migration_error (is_current s) in
      Touches-secrets_and s test _ refl (Touches-migration s test refl refl)
  Touches-state s (other t) =
      let test = allowed (other t) (is_current s) in
      Touches-secrets_and s test _ refl (Touches-nothing w test)
  Touches-state s ready = by_image (is_current s) refl
    where
      by_image :
          (current : Bool)
          → is_current s ≡ current
          → Touches
              (allowed ready current)
              (within "app secrets" (ensure_app_secrets w s) and_then ready_resources w b s)
      by_image true c = Touches-secrets_and s (allowed ready true) _ refl (Touches-ready s true c)
      by_image false c =
          Touches-secrets_and s (allowed ready false) _ refl (Touches-ready s false c)

  -- If the built and the listed objects have the types that they are declared with, each request of
  -- ReconcileResources is about an ingress, a route, a disruption budget or an object of a type that
  -- belongs to the state of the store: nothing else in the empty and the waiting state; the secret and a
  -- job during the setup; the secret, a job and the scheduled task during a migration; the secret,
  -- deployments and scaled objects during the initialization; in the ready state the secret and a job
  -- while another image runs, and the secret, deployments, scaled objects, services, the scheduled task
  -- and the autoscaler otherwise.
  pub reconcile_resources_confined :
      (s : Store) → Touches (allowed s.status.state (is_current s)) (reconcile_resources w b s)
  unfolding reconcile_resources
  reconcile_resources_confined s =
      let test = allowed s.status.state (is_current s) in
      Touches-and_then w test _ _
        (Touches-and_then w test _ _
          (Touches-within w test _ _ (Touches-ingress w types b test s refl))
          (Touches-and_then w test _ _
            (Touches-within w test _ _ (Touches-route w types b test s refl))
            (Touches-within w test _ _ (Touches-pdb w types b test s refl))))
        (Touches-state s s.status.state)
