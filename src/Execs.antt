-- ===== src/Execs.antt =====
-- api/v1/exec.go, api/v1/execstatus.go and internal/controller/storeexec_status.go: a command that is
-- run once in the environment of a store.
pub mod Cleanup
pub mod Machine
use shopware_operator.Prelude.{
  ℕ, String, Bool, true, false, ◌||◌, Option, none, some, List, [], ◌∷◌, ◌==◌, if◌then◌else◌,
}
use shopware_operator.Prelude.Int.{ℤ}
use shopware_operator.Prelude.Text.{concat, show}
use shopware_operator.Kube.{Env}
use shopware_operator.Api.Conditions.{Condition, add_condition}
use shopware_operator.Api.Store.{Store}
use shopware_operator.Manager.Base.{error_status, ready_status}
use shopware_operator.Manager.Jobs.{Progress, reply_progress, exit_reason}

-- StatefulState; `other` is every text that is no constant.
pub data ExecState : Type 0 where
  empty wait running done error : ExecState
  other : String → ExecState

-- `==` on states
abbrev same_exec_state : ExecState → ExecState → Bool
same_exec_state empty empty = true
same_exec_state wait wait = true
same_exec_state running running = true
same_exec_state done done = true
same_exec_state error error = true
same_exec_state (other s) (other t) = s == t
same_exec_state _ _ = false

abbrev pub ExecCondition : Type 0
ExecCondition = Condition ExecState

pub record StoreExecSpec : Type 0 where
  pub store_ref : String
  pub cron_schedule : String
  pub cleanup_period_successful_exec : ℤ
  pub cleanup_period_error_exec : ℤ

pub record StoreExecStatus : Type 0 where
  pub state : ExecState
  pub conditions : List ExecCondition

pub record StoreExec : Type 0 where
  pub namespace : String
  pub name : String
  pub deletion_timestamp : Option ℕ
  pub spec : StoreExecSpec
  pub status : StoreExecStatus

-- AddCondition
unfoldable pub exec_add_condition : ExecCondition → StoreExec → StoreExec
unfolding add_condition
exec_add_condition c ex = record ex {
  status = record ex.status { conditions = add_condition same_exec_state c ex.status.conditions };
}

-- IsState
abbrev pub exec_is_state : StoreExec → List ExecState → Bool
exec_is_state ex [] = false
exec_is_state ex (t ∷ ts) = same_exec_state t ex.status.state || exec_is_state ex ts

abbrev set_exec_state : ExecState → StoreExec → StoreExec
set_exec_state s ex = record ex { status = record ex.status { state = s } }

abbrev pub command_container : String
command_container = "shopware-command"

-- GetCommandJob, by CommandJobName and the namespace, and the state of its container
unfoldable pub command_progress : Env → StoreExec → Progress
command_progress env ex = reply_progress env command_container (env.get_job ex.namespace ex.name)

abbrev exec_condition : ExecState → ℕ → ℕ → String → String → String → ExecCondition
exec_condition type transition now message reason status = record {
  type = type;
  last_transition_time = transition;
  last_update_time = now;
  message = message;
  reason = reason;
  status = status;
}

-- The condition that the deferred call of stateRunning adds, ...
abbrev command_condition : ℕ → Progress → ExecCondition
command_condition now Progress.missing =
    exec_condition running 0 now "Waiting for command job to get started" "" "True"
command_condition now (Progress.unreadable e) =
    exec_condition running 0 now "Waiting for command job to get started" e error_status
command_condition now (Progress.broken j code) =
    exec_condition error now now "Command is Done but has Errors. Check logs for more details"
      (exit_reason code) error_status
command_condition now (Progress.finished j) =
    exec_condition done now now "Command finished" "" ready_status
command_condition now (Progress.waiting j) =
    exec_condition running 0 now
      (concat (
        "Waiting for command job to finish (Notice sidecars are counted). Active jobs: "
        ∷ show j.active
        ∷ ", Failed jobs: "
        ∷ show j.failed_pods
        ∷ []))
      "" "True"

-- ... and the state that it returns.
abbrev pub command_next : Progress → ExecState
command_next (Progress.broken j code) = error
command_next (Progress.finished j) = done
command_next _ = running

-- `ex.Status.State = r.stateRunning(…)`
unfoldable pub run_command : Env → StoreExec → StoreExec
run_command env ex =
    let p = command_progress env ex in
    set_exec_state (command_next p) (exec_add_condition (command_condition env.now p) ex)

-- The condition of an error of the reconcile
abbrev pub note_error : ℕ → Option String → StoreExec → StoreExec
note_error now none ex = ex
note_error now (some e) ex =
    exec_add_condition (exec_condition ex.status.state 0 now e "ReconcileError" error_status) ex

abbrev store_missing : ℕ → StoreExec → ExecCondition
store_missing now ex =
    exec_condition wait 0 now
      (concat (
        "StoreRef not found (stores/" ∷ ex.spec.store_ref ∷ "), waiting for store to be created"
        ∷ []))
      "StoreRef error" error_status

-- The state that the presence of the store leads to
abbrev pub admit : ℕ → Option Store → StoreExec → StoreExec
admit now none ex = exec_add_condition (store_missing now ex) (set_exec_state wait ex)
admit now (some store) ex =
    if exec_is_state ex (empty ∷ wait ∷ []) then set_exec_state running ex else ex

-- reconcileCRStatus: the status that it writes. stateRunning reads a store only through the name and
-- the namespace of the job, which are those of the exec.
unfoldable pub reconcile_exec_status : Env → Option Store → Option String → StoreExec → StoreExec
reconcile_exec_status env store reconcile_error ex =
    let admitted = admit env.now store (note_error env.now reconcile_error ex) in
    if exec_is_state admitted (running ∷ []) then run_command env admitted else admitted
