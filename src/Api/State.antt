-- ===== src/Api/State.antt =====
-- api/v1/store_status.go: the states of a store and of a deployment. A Go string type that holds
-- one of a few constants is a data type; `other` stands for every text that is not a constant.
use shopware_operator.Prelude.{String, Bool, true, false, ◌||◌, List, [], ◌∷◌, ◌==◌}

pub data AppState : Type 0 where
  empty wait setup setup_error initializing migration migration_error ready : AppState
  other : String → AppState

pub data DeploymentState : Type 0 where
  unknown error not_found running scaling : DeploymentState

-- `string(state)`
unfoldable pub state_text : AppState → String
state_text empty = ""
state_text wait = "waiting"
state_text setup = "setup"
state_text setup_error = "setup_error"
state_text initializing = "initializing"
state_text migration = "migrating"
state_text migration_error = "migrating_error"
state_text ready = "ready"
state_text (other s) = s

-- `==` on states
abbrev pub same_state : AppState → AppState → Bool
same_state empty empty = true
same_state wait wait = true
same_state setup setup = true
same_state setup_error setup_error = true
same_state initializing initializing = true
same_state migration migration = true
same_state migration_error migration_error = true
same_state ready ready = true
same_state (other s) (other t) = s == t
same_state _ _ = false

-- `slices.Contains(states, s)`
abbrev pub is_one_of : AppState → List AppState → Bool
is_one_of s [] = false
is_one_of s (t ∷ ts) = same_state t s || is_one_of s ts

abbrev pub same_deployment_state : DeploymentState → DeploymentState → Bool
same_deployment_state unknown unknown = true
same_deployment_state error error = true
same_deployment_state not_found not_found = true
same_deployment_state running running = true
same_deployment_state scaling scaling = true
same_deployment_state _ _ = false
