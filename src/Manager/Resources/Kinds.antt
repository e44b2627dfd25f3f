-- ===== src/Manager/Resources/Kinds.antt =====
-- Which types of objects a reconcile touches in which state of the store.
use shopware_operator.Prelude.{
  String, ◌≡◌, refl, ap, ◌∙◌, Bool, true, false, not, ◌||◌, none, List, [], ◌∷◌, inl, inr,
  Bool-cases, All,
}
use shopware_operator.Kube.{Result, ok, err}
use shopware_operator.Api.State.{
  AppState, empty, wait, setup, setup_error, initializing, migration, migration_error, ready, other,
}
use shopware_operator.Api.Store.{Store}
use shopware_operator.Cluster.{Kind, Object}
use shopware_operator.Cluster.Requests.{ensure_object_with_hash}
use shopware_operator.Manager.Base.{Base}
use shopware_operator.Manager.Resources.Steps.{World}
use shopware_operator.Manager.Resources.Parts.{
  ensured_secret, ensure_app_secrets, reconcile_services, reconcile_ingress, reconcile_http_route,
  reconcile_pdb, obsolete, is_named,
}
use shopware_operator.Manager.Resources.Touching.{
  OfKind, Touches, sent_kinds, Touches-fails, Touches-within, Touches-with_events, Touches-if,
  Touches-delete_if_there, Touches-and_then, Touches-reconcile_object, Touches-reconcile_objects,
  Touches-delete_found,
}

abbrev AllOf : Kind → List Object → Type 0
AllOf k os = All (λ o. o.kind ≡ k) os

-- What Go's types say: each builder and each list yields objects of its type.
pub record Typed (w : World) : Type 0 where
  pub secret : (s : Store) (o : Object) → w.build.store_secret s ≡ ok o → o.kind ≡ Kind.secret
  pub services :
      (s : Store) → AllOf Kind.service (w.build.storefront_service s ∷ w.build.admin_service s ∷ [])
  pub ingress : (s : Store) → (w.build.store_ingress s).kind ≡ Kind.ingress
  pub route : (s : Store) → (w.build.store_http_route s).kind ≡ Kind.http_route
  pub budgets :
      (s : Store)
      → AllOf Kind.disruption_budget
          (w.build.admin_pdb s ∷ w.build.storefront_pdb s ∷ w.build.worker_pdb s ∷ [])
  pub storefront : (s : Store) → (w.build.storefront_deployment s).kind ≡ Kind.deployment
  pub admin : (s : Store) → (w.build.admin_deployment s).kind ≡ Kind.deployment
  pub workers :
      (s : Store) (os : List Object)
      → w.build.worker_deployments s ≡ ok os
      → AllOf Kind.deployment os
  pub listed :
      (s : Store) (os : List Object)
      → w.list_worker_deployments s ≡ ok os
      → AllOf Kind.deployment os
  pub scaled :
      (s : Store) (os : List (Object × String))
      → w.build.worker_scaled_objects s ≡ ok os
      → All (λ e. e.0.kind ≡ Kind.scaled_object) os
  pub listed_scaled :
      (s : Store) (os : List Object) → w.list_scaled_objects s ≡ ok os → AllOf Kind.scaled_object os
  pub autoscaler : (s : Store) → (w.build.store_hpa s).kind ≡ Kind.autoscaler
  pub setup_job : (s : Store) → (w.build.setup_job s).kind ≡ Kind.job
  pub migration_job : (s : Store) → (w.build.migration_job s).kind ≡ Kind.job
  pub task : (s : Store) → (w.build.scheduled_task_job s).kind ≡ Kind.cron_job

abbrev same_kind : Kind → Kind → Bool
same_kind Kind.deployment Kind.deployment = true
same_kind Kind.service Kind.service = true
same_kind Kind.job Kind.job = true
same_kind Kind.cron_job Kind.cron_job = true
same_kind Kind.secret Kind.secret = true
same_kind Kind.ingress Kind.ingress = true
same_kind Kind.http_route Kind.http_route = true
same_kind Kind.disruption_budget Kind.disruption_budget = true
same_kind Kind.autoscaler Kind.autoscaler = true
same_kind Kind.scaled_object Kind.scaled_object = true
same_kind _ _ = false

abbrev is_among : List Kind → Kind → Bool
is_among [] k = false
is_among (j ∷ js) k = same_kind j k || is_among js k

-- The types that belong to a state, by whether the image that runs is the one that the store names.
abbrev kinds_of : AppState → Bool → List Kind
kinds_of empty current = []
kinds_of wait current = []
kinds_of setup current = Kind.secret ∷ Kind.job ∷ []
kinds_of setup_error current = Kind.secret ∷ Kind.job ∷ []
kinds_of initializing current = Kind.secret ∷ Kind.deployment ∷ Kind.scaled_object ∷ []
kinds_of migration current = Kind.secret ∷ Kind.job ∷ Kind.cron_job ∷ []
kinds_of migration_error current = Kind.secret ∷ Kind.job ∷ Kind.cron_job ∷ []
kinds_of ready false = Kind.secret ∷ Kind.job ∷ []
kinds_of ready true =
    Kind.secret ∷ Kind.deployment ∷ Kind.scaled_object ∷ Kind.service ∷ Kind.cron_job
    ∷ Kind.autoscaler ∷ []
kinds_of (other s) current = Kind.secret ∷ []

abbrev pub allowed : AppState → Bool → Kind → Bool
allowed state current =
    is_among (Kind.ingress ∷ Kind.http_route ∷ Kind.disruption_budget ∷ kinds_of state current)

pub OfKind-All :
    (test : Kind → Bool) (k : Kind) (os : List Object)
    → test k ≡ true
    → AllOf k os
    → All (OfKind test) os
unfolding OfKind
OfKind-All test k [] e h = tt
OfKind-All test k (o ∷ os) e h = (ap test h.0 ∙ e, OfKind-All test k os e h.1)

pub AllOf-obsolete :
    (k : Kind) (desired os : List Object) → AllOf k os → AllOf k (obsolete desired os)
AllOf-obsolete k desired [] h = tt
AllOf-obsolete k desired (o ∷ os) h = elim (Bool-cases (is_named o.name desired)) [
  | inl kept ↦ rw kept (AllOf-obsolete k desired os h.1)
  | inr gone ↦ rw gone (h.0, AllOf-obsolete k desired os h.1)
]

module _ (w : World) (types : Typed w) (b : Base) (test : Kind → Bool) where
  pub Touches-services :
      (s : Store) → test Kind.service ≡ true → Touches test (reconcile_services w b s)
  Touches-services s e =
      let os = w.build.storefront_service s ∷ w.build.admin_service s ∷ [] in
      Touches-reconcile_objects w test _ s Kind.service _ _ os
        (OfKind-All test Kind.service os e (types.services s))

  pub Touches-secret : (s : Store) → test Kind.secret ≡ true → Touches test (ensure_app_secrets w s)
  unfolding OfKind
  Touches-secret s e = by_result (w.build.store_secret s) refl
    where
      by_result :
          (r : Result Object) → w.build.store_secret s ≡ r → Touches test (ensured_secret w r)
      by_result (err t) h = Touches-fails w test _
      by_result (ok o) h = Touches-within w test _ _ (
          Touches-with_events w test [] (ensure_object_with_hash w.api none o)
            (sent_kinds w.api test none o (ap test (types.secret s o h) ∙ e)))

  pub Touches-ingress :
      (s : Store) → test Kind.ingress ≡ true → Touches test (reconcile_ingress w b s)
  unfolding OfKind
  Touches-ingress s e =
      Touches-if w test (not s.spec.network.enabled_ingress) _ _
        (λ off. Touches-delete_found w test Kind.ingress _ _ e)
        (λ on.
          Touches-reconcile_object w test _ s Kind.deployment _ _ (w.build.store_ingress s)
            (ap test (types.ingress s) ∙ e))

  pub Touches-route :
      (s : Store) → test Kind.http_route ≡ true → Touches test (reconcile_http_route w b s)
  unfolding OfKind
  Touches-route s e =
      Touches-if w test (not s.spec.network.enabled_gateway) _ _
        (λ off. Touches-delete_found w test Kind.http_route _ _ e)
        (λ on.
          Touches-reconcile_object w test _ s Kind.http_route _ _ (w.build.store_http_route s)
            (ap test (types.route s) ∙ e))

  pub Touches-pdb :
      (s : Store) → test Kind.disruption_budget ≡ true → Touches test (reconcile_pdb w b s)
  Touches-pdb s e =
      let (admin, (storefront, (worker, _))) =
        OfKind-All test Kind.disruption_budget
          (w.build.admin_pdb s ∷ w.build.storefront_pdb s ∷ w.build.worker_pdb s ∷ []) e
          (types.budgets s) in
      Touches-if w test s.spec.worker.enable_keda_scaling _ _
        (λ keda.
          Touches-and_then w test _ _
            (Touches-delete_if_there w test _ (w.build.worker_pdb s) worker)
            (Touches-reconcile_objects w test _ s Kind.disruption_budget _ _
              (w.build.admin_pdb s ∷ w.build.storefront_pdb s ∷ []) (admin, (storefront, tt))))
        (λ plain.
          Touches-reconcile_objects w test _ s Kind.disruption_budget _ _
            (w.build.admin_pdb s ∷ w.build.storefront_pdb s ∷ w.build.worker_pdb s ∷ [])
            (admin, (storefront, (worker, tt))))
