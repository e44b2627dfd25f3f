-- ===== src/Manager/Base.antt =====
-- internal/manager/base/base.go: what the state managers share.
use shopware_operator.Prelude.{String, Bool, true, false, List, [], ◌∷◌, all}
use shopware_operator.Kube.{Env}
use shopware_operator.Api.State.{AppState, DeploymentState, running, scaling, same_deployment_state}
use shopware_operator.Api.Store.{Store}
use shopware_operator.Deployments.{
  get_admin_deployment_condition, get_storefront_deployment_condition,
}
use shopware_operator.Deployments.Workers.{get_worker_deployment_condition}

-- Base: its settings. `has_recorder` and `has_clients` tell that the recorder, or the clientset and
-- the REST configuration, are not nil.
pub record Base : Type 0 where
  pub disable_service_checks : Bool
  pub enable_keda : Bool
  pub has_recorder : Bool
  pub has_clients : Bool

-- An event that `Eventf` records for the store.
pub record RecordedEvent : Type 0 where
  pub reason : String
  pub message : String

-- Eventf
abbrev pub eventf : Base → String → String → List RecordedEvent
eventf b reason message = record_if b.has_recorder
  where
    record_if : Bool → List RecordedEvent
    record_if true = record { reason = reason; message = message } ∷ []
    record_if false = []

-- What a state handler leaves: the store, the next state and the events that it recorded.
pub record Handled : Type 0 where
  pub store : Store
  pub next : AppState
  pub events : List RecordedEvent

abbrev pub error_status : String
error_status = "Error"

abbrev pub ready_status : String
ready_status = "Ready"

-- refreshDeploymentStates, which writes the three conditions to the status. The three requests read
-- nothing that an earlier one of them writes.
unfoldable pub refresh_deployment_states : Env → Store → Store
refresh_deployment_states env s = record s {
  status = record s.status {
    admin_state = get_admin_deployment_condition env s;
    worker_state = get_worker_deployment_condition env s;
    storefront_state = get_storefront_deployment_condition env s;
  };
}

-- The states that refreshDeploymentStates returns
abbrev deployment_states : Store → List DeploymentState
deployment_states s =
    s.status.admin_state.state ∷ s.status.worker_state.state ∷ s.status.storefront_state.state ∷ []

abbrev pub is_running : DeploymentState → Bool
is_running s = same_deployment_state s running

abbrev is_available : DeploymentState → Bool
is_available running = true
is_available scaling = true
is_available _ = false

-- AllDeploymentsRunning and AllDeploymentsAvailable on the refreshed store
unfoldable pub all_deployments_running : Store → Bool
all_deployments_running s = all is_running (deployment_states s)

unfoldable pub all_deployments_available : Store → Bool
all_deployments_available s = all is_available (deployment_states s)
