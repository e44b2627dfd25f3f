-- ===== src/Manager/Reconcile.antt =====
-- internal/manager/manager.go: the manager of each state, and the step that a reconcile takes.
pub mod Machine
pub mod Guards
pub mod History
pub mod Path
use shopware_operator.Prelude.{String, Option, none, some, List, [], ◌∷◌}
use shopware_operator.Prelude.Text.{concat}
use shopware_operator.Kube.{Env, Result, ok, err}
use shopware_operator.Api.State.{
  AppState, empty, wait, setup, setup_error, initializing, migration, migration_error, ready, other,
  state_text,
}
use shopware_operator.Api.Store.{Store}
use shopware_operator.Manager.Base.{Base, RecordedEvent, Handled}
use shopware_operator.Manager.Wait.{state_handler}
use shopware_operator.Manager.Jobs.{setup_handler, migration_handler}
use shopware_operator.Manager.Serving.{initializing_handler, ready_handler}

-- NewStoreStateManager: the map `managers`, read at a state. A manager is its state handler.
unfoldable pub managers : AppState → Option (Base → Env → Store → Handled)
managers empty = some state_handler
managers wait = some state_handler
managers setup = some setup_handler
managers setup_error = some setup_handler
managers initializing = some initializing_handler
managers migration = some migration_handler
managers migration_error = some migration_handler
managers ready = some ready_handler
managers (other s) = none

-- `store.Status.State = next`
abbrev set_state : AppState → Store → Store
set_state next s = record s { status = record s.status { state = next } }

-- What ReconcileState leaves: the store, the recorded events and the error.
pub record Step : Type 0 where
  pub store : Store
  pub events : List RecordedEvent
  pub outcome : Result (Unit {0})

abbrev pub step_to : Handled → Step
step_to h = record { store = set_state h.next h.store; events = h.events; outcome = ok tt }

abbrev unregistered : Env → AppState → String
unregistered env s =
    concat ("state " ∷ env.quote (state_text s) ∷ " is not registered in operator" ∷ [])

-- The rest of ReconcileState, at what the map has for the state of the store.
abbrev pub run : Option (Base → Env → Store → Handled) → Base → Env → Store → Step
run none base env s = record {
  store = s;
  events = [];
  outcome = err (unregistered env s.status.state);
}
run (some handler) base env s = step_to (handler base env s)

-- ReconcileState
unfoldable pub reconcile_state : Base → Env → Store → Step
unfolding managers
reconcile_state base env s = run (managers s.status.state) base env s
