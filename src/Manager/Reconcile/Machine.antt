-- ===== src/Manager/Reconcile/Machine.antt =====
-- The state machine of a store: which state can follow which, and when.
use shopware_operator.Prelude.{String, ◌≡◌, refl, ◌⊎◌, inl, inr, [], arith}
use shopware_operator.Kube.{Env, Result, ok, err}
use shopware_operator.Api.State.{
  AppState, empty, wait, setup, setup_error, initializing, migration, migration_error, ready, other,
}
use shopware_operator.Api.Store.{Store}
use shopware_operator.Manager.Base.{Base}
use shopware_operator.Manager.Wait.{state_handler, run_checks, verdict}
use shopware_operator.Manager.Jobs.{
  Progress, setup_progress, setup_next, setup_handler, migration_progress, migration_next,
  migration_handler,
}
use shopware_operator.Manager.Serving.{initializing_handler, ready_handler}
use shopware_operator.Manager.Reconcile.{managers, run, reconcile_state}

infix 40 ◌⟶◌
pub data ◌⟶◌ : AppState → AppState → Type 0 where
  begin : empty ⟶ wait
  begin_unchecked : empty ⟶ setup
  still_waiting : wait ⟶ wait
  services_ready : wait ⟶ setup
  setting_up : setup ⟶ setup
  setup_fails : setup ⟶ setup_error
  setup_done : setup ⟶ initializing
  setup_again : setup_error ⟶ setup
  setup_still_fails : setup_error ⟶ setup_error
  setup_recovers : setup_error ⟶ initializing
  starting : initializing ⟶ initializing
  started : initializing ⟶ ready
  serving : ready ⟶ ready
  image_changed : ready ⟶ migration
  deployments_lost : ready ⟶ initializing
  migrating : migration ⟶ migration
  migration_fails : migration ⟶ migration_error
  migration_done : migration ⟶ initializing
  migration_again : migration_error ⟶ migration
  migration_still_fails : migration_error ⟶ migration_error
  migration_recovers : migration_error ⟶ initializing

ruleset edges = (
  begin, begin_unchecked, still_waiting, services_ready, setting_up, setup_fails, setup_done,
  setup_again, setup_still_fails, setup_recovers, starting, started, serving, image_changed,
  deployments_lost, migrating, migration_fails, migration_done, migration_again,
  migration_still_fails, migration_recovers,
)

verdict_cases :
    (r : Result String) (next : AppState) → (verdict r next ≡ next) ⊎ (verdict r next ≡ wait)
verdict_cases (ok v) next = inl refl
verdict_cases (err e) next = inr refl

module _ (base : Base) (env : Env) (s : Store) where
  run_checks-next : ((run_checks env s).1 ≡ wait) ⊎ ((run_checks env s).1 ≡ setup)
  unfolding run_checks
  run_checks-next = ground arith

  -- A waiting store goes on waiting or is set up.
  wait-next : ((state_handler base env s).next ≡ wait) ⊎ ((state_handler base env s).next ≡ setup)
  unfolding state_handler
  wait-next = ground (arith, run_checks-next)

  ready-next :
      ((ready_handler base env s).next ≡ ready)
      ⊎ ((ready_handler base env s).next ≡ migration)
      ⊎ ((ready_handler base env s).next ≡ initializing)
  unfolding ready_handler
  ready-next = ground arith

  initializing-next :
      ((initializing_handler base env s).next ≡ ready)
      ⊎ ((initializing_handler base env s).next ≡ initializing)
  unfolding initializing_handler
  initializing-next = ground arith

setup_edge : (p : Progress) → (setup ⟶ setup_next p) × (setup_error ⟶ setup_next p)
setup_edge Progress.missing = search edges
setup_edge (Progress.unreadable e) = search edges
setup_edge (Progress.broken j code) = search edges
setup_edge (Progress.finished j) = search edges
setup_edge (Progress.waiting j) = search edges

migration_edge :
    (p : Progress) → (migration ⟶ migration_next p) × (migration_error ⟶ migration_next p)
migration_edge Progress.missing = search edges
migration_edge (Progress.unreadable e) = search edges
migration_edge (Progress.broken j code) = search edges
migration_edge (Progress.finished j) = search edges
migration_edge (Progress.waiting j) = search edges

run-⟶ :
    (from : AppState) (base : Base) (env : Env) (s : Store)
    → (run (managers from) base env s).outcome ≡ ok tt
    → from ⟶ (run (managers from) base env s).store.status.state
unfolding managers setup_handler migration_handler
run-⟶ empty base env s e = elim (wait-next base env s) [
  | inl h ↦ rw h begin
  | inr h ↦ rw h begin_unchecked
]
run-⟶ wait base env s e = elim (wait-next base env s) [
  | inl h ↦ rw h still_waiting
  | inr h ↦ rw h services_ready
]
run-⟶ setup base env s e = (setup_edge (setup_progress env s)).0
run-⟶ setup_error base env s e = (setup_edge (setup_progress env s)).1
run-⟶ initializing base env s e = elim (initializing-next base env s) [
  | inl h ↦ rw h started
  | inr h ↦ rw h starting
]
run-⟶ migration base env s e = (migration_edge (migration_progress env s)).0
run-⟶ migration_error base env s e = (migration_edge (migration_progress env s)).1
run-⟶ ready base env s e = elim (ready-next base env s) [
  | inl h ↦ rw h serving
  | inr (inl h) ↦ rw h image_changed
  | inr (inr h) ↦ rw h deployments_lost
]
run-⟶ (other t) base env s e = cc

-- Whatever the cluster answers, a reconcile that returns no error moves a store along an edge of the
-- state machine.
pub reconcile-⟶ :
    (base : Base) (env : Env) (s : Store)
    → (reconcile_state base env s).outcome ≡ ok tt
    → s.status.state ⟶ (reconcile_state base env s).store.status.state
unfolding reconcile_state
reconcile-⟶ base env s e = run-⟶ s.status.state base env s e

run_error :
    (from : AppState) (base : Base) (env : Env) (s : Store) {e : String}
    → (run (managers from) base env s).outcome ≡ err e
    → ((t : String) × (from ≡ other t))
      × ((run (managers from) base env s).store ≡ s)
      × ((run (managers from) base env s).events ≡ [])
unfolding managers
run_error (other t) base env s h = ((t, refl), refl, refl)
run_error _ base env s h = cc

-- A reconcile that returns an error has met a state that is none of the eight known ones; it has left
-- the store as it was and recorded no event.
pub reconcile_unregistered :
    (base : Base) (env : Env) (s : Store) {e : String}
    → (reconcile_state base env s).outcome ≡ err e
    → ((t : String) × (s.status.state ≡ other t))
      × ((reconcile_state base env s).store ≡ s)
      × ((reconcile_state base env s).events ≡ [])
unfolding reconcile_state
reconcile_unregistered base env s h = run_error s.status.state base env s h
