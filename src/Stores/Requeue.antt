-- ===== src/Stores/Requeue.antt =====
-- When a store is looked at again.
use shopware_operator.Prelude.{
  String, ◌≡◌, refl, sym, ap, ◌∙◌, ◌≢◌, ◌↔◌, Bool, true, false, not, ◌||◌, none, List, [], ◌∷◌,
  if◌then◌else◌, inl, inr, Bool-cases, Option-cases,
}
use shopware_operator.Prelude.Int.{ℤ, eqb_ℤ}
use shopware_operator.Kube.{Reply, found, absent, failed, Env}
use shopware_operator.Api.State.{
  AppState, empty, wait, setup, setup_error, initializing, migration, migration_error, ready, other,
  same_state, DeploymentState, running, not_found, same_deployment_state,
}
use shopware_operator.Api.Store.{Store, QueueTransportStats, store_is_state}
use shopware_operator.Trigger.{NamespacedName, Recorder}
use shopware_operator.Manager.Base.{Base}
use shopware_operator.Manager.Resources.{reconcile_resources}
use shopware_operator.Manager.Resources.Steps.{World}
use shopware_operator.Stores.{
  QueueStats, short_requeue, long_requeue, is_empty, schedule, is_deleted, reconcile_status,
  reconcile,
}

ready_test : (s : AppState) → (same_state ready s || false ≡ true) ↔ (s ≡ ready)
ready_test ready = (λ h. refl, λ h. refl)
ready_test empty = (λ h. cc, λ h. cc)
ready_test wait = (λ h. cc, λ h. cc)
ready_test setup = (λ h. cc, λ h. cc)
ready_test setup_error = (λ h. cc, λ h. cc)
ready_test initializing = (λ h. cc, λ h. cc)
ready_test migration = (λ h. cc, λ h. cc)
ready_test migration_error = (λ h. cc, λ h. cc)
ready_test (other t) = (λ h. cc, λ h. cc)

not_found_test :
    (d : DeploymentState) → (same_deployment_state d not_found ≡ false) ↔ (d ≢ not_found)
not_found_test DeploymentState.unknown = (λ h e. cc, λ h. refl)
not_found_test DeploymentState.error = (λ h e. cc, λ h. refl)
not_found_test not_found = (λ h e. cc, λ h. absurd (h refl))
not_found_test running = (λ h e. cc, λ h. refl)
not_found_test DeploymentState.scaling = (λ h e. cc, λ h. refl)

filled_test : (ts : List QueueTransportStats) → (is_empty ts ≡ false) ↔ (ts ≢ [])
filled_test [] = (λ h e. cc, λ h. absurd (h refl))
filled_test (t ∷ ts) = (λ h e. cc, λ h. refl)

-- The interval by the three tests
interval : Bool → Bool → Bool → ℤ
interval is_ready drained missing =
    if not is_ready
    then short_requeue
    else if drained
    then short_requeue
    else if missing
    then short_requeue
    else long_requeue

schedule-interval :
    (s : Store)
    → (schedule s).requeue_after
      ≡ interval
          (store_is_state s (ready ∷ []))
          (is_empty s.status.queue_state.transports)
          (same_deployment_state s.status.worker_state.state not_found)
unfolding interval
schedule-interval s = elim (Bool-cases (store_is_state s (ready ∷ []))) [
  | inr a ↦ rw a refl
  | inl a ↦ elim (Bool-cases (is_empty s.status.queue_state.transports)) [
    | inl b ↦ rw (a, b) refl
    | inr b ↦ elim (Bool-cases (same_deployment_state s.status.worker_state.state not_found)) [
      | inl c ↦ rw (a, b, c) refl
      | inr c ↦ rw (a, b, c) refl
    ]
  ]
]

clash : false ≡ true → ⊥
clash e = cc

not_long : short_requeue ≢ long_requeue
not_long e = clash (ap (λ z. eqb_ℤ z long_requeue) e)

long_interval :
    (a b c : Bool) → (interval a b c ≡ long_requeue) ↔ ((a ≡ true) × (b ≡ false) × (c ≡ false))
unfolding interval
long_interval false b c = (λ h. absurd (not_long h), λ h. absurd (clash h.0))
long_interval true true c = (λ h. absurd (not_long h), λ (p, q, r). absurd (clash (sym q)))
long_interval true false true = (λ h. absurd (not_long h), λ (p, q, r). absurd (clash (sym r)))
long_interval true false false = (λ h. (refl, refl, refl), λ h. refl)

schedule_long_iff :
    (s : Store)
    → ((schedule s).requeue_after ≡ long_requeue) ↔ (
        (s.status.state ≡ ready)
        × (s.status.queue_state.transports ≢ [])
        × (s.status.worker_state.state ≢ not_found))
schedule_long_iff s =
    let tests =
      long_interval (store_is_state s (ready ∷ [])) (is_empty s.status.queue_state.transports)
        (same_deployment_state s.status.worker_state.state not_found) in
    (
      λ h.
          let (a, b, c) = tests.0 (sym (schedule-interval s) ∙ h) in
          (
            (ready_test s.status.state).0 a,
            (filled_test s.status.queue_state.transports).0 b,
            (not_found_test s.status.worker_state.state).0 c,
          ),
      λ (a, b, c).
          schedule-interval s
          ∙ tests.1 (
            (ready_test s.status.state).1 a,
            (filled_test s.status.queue_state.transports).1 b,
            (not_found_test s.status.worker_state.state).1 c,
          ),
    )

module _ (show_duration : ℤ → String) (w : World) (b : Base) (env : Env) (stats : QueueStats)
    (key : NamespacedName) (r : Recorder) where
  -- A reconcile calls for the next one after the long interval exactly when the API server has the
  -- store, the store is not being deleted, its resources were reconciled without an error, and with the
  -- new status it is ready, its transports are known and its worker deployments are there.
  pub long_requeue_iff :
      (reply : Reply Store)
      → ((reconcile show_duration w b env stats key reply r).0.requeue_after ≡ long_requeue) ↔ (
          (s : Store) × (reply ≡ found s)
          × (s.deletion_timestamp ≡ none)
          × ((reconcile_resources w b s).error ≡ none)
          × (let t = reconcile_status b env stats none s in
              (t.status.state ≡ ready)
              × (t.status.queue_state.transports ≢ [])
              × (t.status.worker_state.state ≢ not_found)))
  unfolding reconcile
  long_requeue_iff (absent e) =
      (λ h. absurd (clash (ap (λ z. eqb_ℤ z long_requeue) h)), λ (s, e, alive, fine, rest). cc)
  long_requeue_iff (failed e) =
      (λ h. absurd (clash (ap (λ z. eqb_ℤ z long_requeue) h)), λ (s, e, alive, fine, rest). cc)
  long_requeue_iff (found s) = (
    λ h. elim (Option-cases s.deletion_timestamp) [
      | inr (t, gone) ↦ absurd (not_long (rw (ap is_deleted gone) at h))
      | inl alive ↦ elim (Option-cases (reconcile_resources w b s).error) [
        | inr (e, failing) ↦ absurd (not_long (rw (ap is_deleted alive, failing) at h))
        | inl fine ↦ (
          s,
          refl,
          alive,
          fine,
          (schedule_long_iff (reconcile_status b env stats none s)).0
              (rw (ap is_deleted alive, fine) at h),
        )
      ]
    ],
    λ (t, e, alive, fine, rest).
        let same = eq_of_found e in
        rw
          (
            ap (λ x. is_deleted x.deletion_timestamp) same ∙ ap is_deleted alive,
            ap (λ x. (reconcile_resources w b x).error) same ∙ fine,
          )
          (ap (λ x. (schedule (reconcile_status b env stats none x)).requeue_after) same
            ∙ (schedule_long_iff (reconcile_status b env stats none t)).1 rest),
  )
    where
      eq_of_found : {x y : Store} → found x ≡ found y → x ≡ y
      eq_of_found e = cc
