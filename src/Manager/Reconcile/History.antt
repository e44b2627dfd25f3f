-- ===== src/Manager/Reconcile/History.antt =====
-- What a reconcile does to the conditions in the status of a store.
use shopware_operator.Prelude.{
  String, Bool, true, false, ◌||◌, [], ◌∷◌, inl, inr, ◌==◌, eq_iff, Bool-cases,
}
use shopware_operator.Kube.{Reply, found, absent, failed, Env, Result}
use shopware_operator.Api.State.{
  AppState, empty, wait, setup, setup_error, initializing, migration, migration_error, ready, other,
}
use shopware_operator.Api.Store.{StoreCondition, Store, store_add_condition, store_is_state}
use shopware_operator.Api.Conditions.History.{IsWellFormed, add_condition-IsWellFormed}
use shopware_operator.Deployments.{get_store_deployment_image}
use shopware_operator.Manager.Base.{Base, refresh_deployment_states, all_deployments_available}
use shopware_operator.Manager.Wait.{
  state_handler, run_checks, run_check, check_condition, check_database, check_s3, check_fastly,
  check_opensearch, database_enabled, s3_enabled, fastly_enabled, opensearch_enabled,
}
use shopware_operator.Manager.Jobs.{
  Progress, setup_handler, migration_progress, migrated, migration_handler, set_image,
}
use shopware_operator.Manager.Serving.{initializing_handler, ready_handler, reply_ready, watch}
use shopware_operator.Manager.Reconcile.{managers, run, reconcile_state}

abbrev IsKept : Store → Type 0
IsKept s = IsWellFormed ◌==◌ s.status.conditions

store_add_condition-IsKept :
    (c : StoreCondition) (s : Store) → IsKept s → IsKept (store_add_condition c s)
unfolding store_add_condition
store_add_condition-IsKept c s w =
    add_condition-IsWellFormed ◌==◌ (λ a b. (eq_iff a b).0) c s.status.conditions w

run_check-IsKept :
    (enabled : Bool) (env : Env) (message : String) (r : Result String) (p : Store × AppState)
    → IsKept p.0
    → IsKept (run_check enabled env.now message r p).0
run_check-IsKept false env message r p w = w
run_check-IsKept true env message r p w =
    store_add_condition-IsKept (check_condition env.now message r) p.0 w

run_checks-IsKept : (env : Env) (s : Store) → IsKept s → IsKept (run_checks env s).0
unfolding run_checks
run_checks-IsKept env s w =
    let database =
      run_check-IsKept (database_enabled s) env "Waiting for database connection"
        (check_database env s) (s, setup) w in
    let s3 =
      run_check-IsKept (s3_enabled s) env "Waiting for s3 connection" (check_s3 env s) _ database in
    let fastly =
      run_check-IsKept (fastly_enabled s) env "Waiting for fastly secret" (check_fastly env s) _
        s3 in
    run_check-IsKept (opensearch_enabled s) env "Waiting for Opensearch ref"
      (check_opensearch env s) _ fastly

state_handler-IsKept :
    (base : Base) (env : Env) (s : Store) → IsKept s → IsKept (state_handler base env s).store
unfolding state_handler
state_handler-IsKept base env s w =
    elim (Bool-cases (base.disable_service_checks || s.spec.disable_checks)) [
      | inl disabled ↦ rw disabled w
      | inr enabled ↦ elim (Bool-cases (store_is_state s (empty ∷ []))) [
        | inl new ↦ rw (enabled, new) w
        | inr old ↦ rw (enabled, old) (run_checks-IsKept env s w)
      ]
    ]

migrated-IsKept : (p : Progress) (s : Store) → IsKept s → IsKept (migrated p s)
migrated-IsKept (Progress.finished j) s w = w
migrated-IsKept _ s w = w

watch-IsKept :
    (env : Env) (image : String) (s : Store) → IsKept s → IsKept (watch env image s).store
unfolding refresh_deployment_states
watch-IsKept env image s w = elim (Bool-cases (image == s.spec.container.image)) [
  | inr differs ↦ rw differs (store_add_condition-IsKept _ _ w)
  | inl same ↦
      elim (Bool-cases
        (all_deployments_available (refresh_deployment_states env (set_image image s)))) [
          | inl available ↦ rw (same, available) (store_add_condition-IsKept _ _ w)
          | inr lost ↦ rw (same, lost) (store_add_condition-IsKept _ _ w)
        ]
]

reply_ready-IsKept :
    (env : Env) (s : Store) (r : Reply String) → IsKept s → IsKept (reply_ready env s r).store
reply_ready-IsKept env s (absent e) w = store_add_condition-IsKept _ s w
reply_ready-IsKept env s (failed e) w = store_add_condition-IsKept _ s w
reply_ready-IsKept env s (found image) w = watch-IsKept env image s w

run-IsKept :
    (from : AppState) (base : Base) (env : Env) (s : Store)
    → IsKept s
    → IsKept (run (managers from) base env s).store
unfolding managers setup_handler migration_handler initializing_handler ready_handler
    refresh_deployment_states
run-IsKept empty base env s w = state_handler-IsKept base env s w
run-IsKept wait base env s w = state_handler-IsKept base env s w
run-IsKept setup base env s w = store_add_condition-IsKept _ s w
run-IsKept setup_error base env s w = store_add_condition-IsKept _ s w
run-IsKept initializing base env s w = store_add_condition-IsKept _ _ w
run-IsKept migration base env s w =
    store_add_condition-IsKept _ _ (migrated-IsKept (migration_progress env s) s w)
run-IsKept migration_error base env s w =
    store_add_condition-IsKept _ _ (migrated-IsKept (migration_progress env s) s w)
run-IsKept ready base env s w = reply_ready-IsKept env s (get_store_deployment_image env s) w
run-IsKept (other t) base env s w = w

-- The status of a store has at most six conditions, no two neighbours of which have one type, after a
-- reconcile if it had before, in every state and whatever the cluster answers.
pub reconcile_state-IsWellFormed :
    (base : Base) (env : Env) (s : Store)
    → IsWellFormed ◌==◌ s.status.conditions
    → IsWellFormed ◌==◌ (reconcile_state base env s).store.status.conditions
unfolding reconcile_state
reconcile_state-IsWellFormed base env s w = run-IsKept s.status.state base env s w
