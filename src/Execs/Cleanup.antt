-- ===== src/Execs/Cleanup.antt =====
-- internal/controller/storeexec_controller.go: what the controller does with a command, and the removal
-- of a finished one.
pub mod Deletion
use shopware_operator.Prelude.{
  ℕ, ◌+◌, ◌-◌, ◌*◌, ◌^◌, ◌≤◌, String, ◌≡◌, ◌≢◌, refl, ap, ◌↔◌, ◌⊎◌, inl, inr, Bool, true, false,
  not, ◌||◌, Option, none, some, List, [], ◌∷◌, arith, ltb, eqb, ◌==◌, eq_iff, if◌then◌else◌,
  Bool-cases, Option-cases,
}
use shopware_operator.Prelude.Int.{ℤ, pos, negsuc, is_pos}
use shopware_operator.Kube.{Reply, found, absent, failed}
use shopware_operator.Api.State.{ready}
use shopware_operator.Api.Store.{Store, store_is_state}
use shopware_operator.Execs.{
  ExecState, empty, wait, running, done, error, other, ExecCondition, StoreExec, exec_is_state,
}

abbrev pub positive : ℤ → Option ℕ
positive (pos n) = if ltb 0 n then some n else none
positive (negsuc n) = none

abbrev pub period_of : StoreExec → ExecState → Option ℕ
period_of ex done = positive ex.spec.cleanup_period_successful_exec
period_of ex error = positive ex.spec.cleanup_period_error_exec
period_of ex _ = none

abbrev pub is_set {ℓ} : {A : Type ℓ} → Option A → Bool
is_set none = false
is_set (some a) = true

-- cleanupPeriodFor: the period if it is positive, in nanoseconds
unfoldable pub cleanup_period_for : StoreExec → Option ℕ
cleanup_period_for ex =
    if is_set ex.deletion_timestamp || not (ex.spec.cron_schedule == "")
    then none
    else period_of ex ex.status.state

-- The last transition time that is set, from the newest condition back
abbrev pub last_transition : List ExecCondition → Option ℕ
last_transition [] = none
last_transition (c ∷ cs) =
    let later = last_transition cs in
    elim later [
      | some t ↦ some t
      | none ↦ if eqb c.last_transition_time 0 then none else some c.last_transition_time
    ]

-- storeExecFinishedAt
unfoldable pub store_exec_finished_at : StoreExec → Option ℕ
store_exec_finished_at ex =
    if not (exec_is_state ex (done ∷ error ∷ []))
    then none
    else last_transition ex.status.conditions

-- What reconcileStoreExecCleanup decides: to go on with the reconcile, to come back after some time, or
-- to delete the exec.
pub data Cleanup : Type 0 where
  goes_on : Cleanup
  returns_after : ℕ → Cleanup
  deletes : Cleanup

abbrev due : ℕ → ℕ → ℕ → Cleanup
due now finished period =
    if ltb now (finished + period) then returns_after (finished + period - now) else deletes

abbrev pub cleanup_at : ℕ → Option ℕ → Option ℕ → Cleanup
cleanup_at now none finished = goes_on
cleanup_at now (some period) none = goes_on
cleanup_at now (some period) (some finished) = due now finished period

-- reconcileStoreExecCleanup, before the result of the request to delete
unfoldable pub reconcile_store_exec_cleanup : ℕ → StoreExec → Cleanup
reconcile_store_exec_cleanup now ex =
    cleanup_at now (cleanup_period_for ex) (store_exec_finished_at ex)

abbrev seconds : ℕ → ℤ
seconds n = pos (n * 10 ^ 9)

-- What a reconcile makes sure that the cluster has.
pub data Ensures : Type 0 where
  nothing : Ensures
  job : Ensures
  cron_job : Ensures
  deletion : Ensures

-- What a reconcile does: the request that it makes, whether it updates the status after that and with
-- which store, and after which time it is called again, by the success of the request.
pub record ExecPlan : Type 0 where
  pub ensures : Ensures
  pub updates_status : Bool → Bool
  pub store : Option Store
  pub requeue_after : Bool → ℤ

abbrev pub leaves : Option Store → ℤ → ExecPlan
leaves store after = record {
  ensures = nothing;
  updates_status = λ ok. true;
  store = store;
  requeue_after = λ ok. after;
}

abbrev pub makes : Ensures → Store → ExecPlan
makes what store = record {
  ensures = what;
  updates_status = λ ok. true;
  store = some store;
  requeue_after = λ ok. if ok then seconds 20 else seconds 10;
}

-- The reconcile of an exec of a store that is there.
abbrev plan_for : StoreExec → Store → ExecPlan
plan_for ex store =
    if not (store_is_state store (ready ∷ [])) || exec_is_state ex (empty ∷ [])
    then leaves (some store) (seconds 10)
    else if not (ex.spec.cron_schedule == "")
    then makes cron_job store
    else if exec_is_state ex (done ∷ error ∷ [])
    then leaves (some store) (pos 0)
    else makes job store

abbrev pub plan_with : StoreExec → Reply Store → ExecPlan
plan_with ex (absent e) = leaves none (seconds 10)
plan_with ex (failed e) = leaves none (seconds 10)
plan_with ex (found store) = plan_for ex store

abbrev pub plan_after : Cleanup → StoreExec → Reply Store → ExecPlan
plan_after goes_on ex store = plan_with ex store
plan_after (returns_after t) ex store = record {
  ensures = nothing;
  updates_status = λ ok. false;
  store = none;
  requeue_after = λ ok. pos t;
}
plan_after deletes ex store = record {
  ensures = deletion;
  updates_status = λ ok. false;
  store = none;
  requeue_after = λ ok. if ok then pos 0 else seconds 10;
}

-- Reconcile, on the exec that the API server gives and on what it answers for the store. Where it has
-- no exec, there is no status to update.
unfoldable pub exec_plan : ℕ → StoreExec → Reply Store → ExecPlan
unfolding reconcile_store_exec_cleanup
exec_plan now ex store = plan_after (reconcile_store_exec_cleanup now ex) ex store
