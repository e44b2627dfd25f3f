-- ===== src/Snapshots.antt =====
-- api/v1/storesnapshotcreate_types.go and internal/controller/storesnapshot_base_reconciler.go: a
-- snapshot of a store that is created or restored by a job.
pub mod Outcome
use shopware_operator.Prelude.{
  ℕ, String, Bool, true, false, not, ◌||◌, Option, none, some, List, [], ◌∷◌, ◌==◌, if◌then◌else◌,
}
use shopware_operator.Prelude.Int.{ℤ}
use shopware_operator.Prelude.Text.{concat, show}
use shopware_operator.Kube.{Reply, found, absent, failed, Job, Env, Result, ok, err}
use shopware_operator.Api.Conditions.{add_condition}
use shopware_operator.Api.Store.{StoreCondition, Store}
use shopware_operator.Jobs.{is_job_container_done}
use shopware_operator.Manager.Base.{error_status, ready_status}
use shopware_operator.Manager.Jobs.{Progress, progress_of}

-- SnapshotState; `other` is every text that is no constant.
pub data SnapshotState : Type 0 where
  empty pending running failed_snapshot succeeded : SnapshotState
  other : String → SnapshotState

abbrev snapshot_state_text : SnapshotState → String
snapshot_state_text empty = ""
snapshot_state_text pending = "pending"
snapshot_state_text running = "running"
snapshot_state_text failed_snapshot = "failed"
snapshot_state_text succeeded = "succeeded"
snapshot_state_text (other s) = s

-- `==` on states
abbrev same_snapshot_state : SnapshotState → SnapshotState → Bool
same_snapshot_state empty empty = true
same_snapshot_state pending pending = true
same_snapshot_state running running = true
same_snapshot_state failed_snapshot failed_snapshot = true
same_snapshot_state succeeded succeeded = true
same_snapshot_state (other s) (other t) = s == t
same_snapshot_state _ _ = false

-- StoreSnapshotStatus: the fields that the reconcile writes.
pub record SnapshotStatus : Type 0 where
  pub state : SnapshotState
  pub completed_at : ℕ
  pub message : String
  pub conditions : List StoreCondition

-- StoreSnapshotCreate or StoreSnapshotRestore: `sub_command` is "create" or "restore".
pub record Snapshot : Type 0 where
  pub namespace : String
  pub name : String
  pub sub_command : String
  pub store_name_ref : String
  pub status : SnapshotStatus

-- IsState
abbrev snapshot_is_state : SnapshotState → List SnapshotState → Bool
snapshot_is_state s [] = false
snapshot_is_state s (t ∷ ts) = same_snapshot_state t s || snapshot_is_state s ts

abbrev pub snapshot_container : String
snapshot_container = "operator-snapshot"

-- SnapshotJobName
abbrev pub snapshot_job_name : Snapshot → String
snapshot_job_name sn = concat ("snapshot-" ∷ sn.sub_command ∷ "-" ∷ sn.name ∷ [])

-- How far the job of a snapshot has come. The error of the request for the job and the error of the
-- check of its container lead to different states.
pub data SnapshotProgress : Type 0 where
  no_job : SnapshotProgress
  unreachable : String → SnapshotProgress
  checked : Job → Progress → SnapshotProgress

abbrev pub snapshot_reply : Env → Reply Job → SnapshotProgress
snapshot_reply env (absent e) = no_job
snapshot_reply env (failed e) = unreachable e
snapshot_reply env (found j) =
    checked j (progress_of j (is_job_container_done env (some j) snapshot_container))

unfoldable pub snapshot_progress : Env → Snapshot → SnapshotProgress
snapshot_progress env sn = snapshot_reply env (env.get_job sn.namespace (snapshot_job_name sn))

-- What a branch of reconcileCRStatus writes: the state, the message and the time of completion of the
-- status, and the status and the reason of the condition.
abbrev write_status :
    SnapshotState
    → String
    → ℕ
    → String
    → String
    → SnapshotStatus
    → SnapshotStatus × (String × String)
write_status state message completed status reason s =
    (record s { state = state; message = message; completed_at = completed }, (status, reason))

abbrev pub by_progress : ℕ → SnapshotProgress → SnapshotStatus → SnapshotStatus × (String × String)
by_progress now no_job s = (record s { state = pending }, ("", ""))
by_progress now (unreachable e) s =
    write_status pending "Error in getting snapshot job" s.completed_at error_status
      (concat ("InternalError: Error in getting snapshot job: " ∷ e ∷ [])) s
by_progress now (checked j (Progress.unreadable e)) s =
    write_status failed_snapshot "Error in getting snapshot state job" now error_status
      (concat ("InternalError: Error in getting snapshot state job: " ∷ e ∷ [])) s
by_progress now (checked j (Progress.broken k code)) s =
    write_status failed_snapshot
      (concat (
        "Snapshot is Done but has Errors. Check logs for more details. Exit code: "
        ∷ show code
        ∷ []))
      now error_status (concat ("error in Snapshot, exit code: " ∷ show code ∷ [])) s
by_progress now (checked j (Progress.finished k)) s =
    write_status succeeded "Snapshot is successfully run" now ready_status
      "Snapshot successfully created" s
by_progress now (checked j _) s =
    write_status running
      (concat (
        "Waiting for snapshot job to finish. Active jobs: "
        ∷ show j.active
        ∷ ", Failed jobs: "
        ∷ show j.failed_pods
        ∷ []))
      s.completed_at "" "Still running" s

-- `if status.IsState(v1.SnapshotStateEmpty) { status.State = v1.SnapshotStatePending }`
abbrev pub opened : SnapshotStatus → SnapshotStatus
opened s = if snapshot_is_state s.state (empty ∷ []) then record s { state = pending } else s

-- The deferred call: the condition of the new state, with a transition time if the state has changed.
abbrev close : ℕ → SnapshotState → SnapshotStatus × (String × String) → SnapshotStatus
close now previous (s, (status, reason)) = record s {
  conditions =
      add_condition ◌==◌
        (record {
          type = snapshot_state_text s.state;
          last_transition_time = if same_snapshot_state previous s.state then 0 else now;
          last_update_time = now;
          message = s.message;
          reason = reason;
          status = status;
        })
        s.conditions;
}

-- reconcileCRStatus
unfoldable pub reconcile_snapshot_status : Env → Snapshot → SnapshotStatus
unfolding add_condition
reconcile_snapshot_status env sn =
    let s = opened sn.status in
    close env.now s.state (by_progress env.now (snapshot_progress env sn) s)

-- What reconcileSnapshotResource does: with no store, or for a snapshot that has ended, nothing; else
-- it makes sure of the job, unless the snapshot runs, and then updates the status and writes it,
-- whether the job could be made or not.
pub record SnapshotPlan : Type 0 where
  pub ensures_job : Bool
  pub status : Option SnapshotStatus
  pub requeues : Bool

abbrev pub rests : Bool → SnapshotPlan
rests requeues = record { ensures_job = false; status = none; requeues = requeues }

abbrev plan_snapshot : Env → Snapshot → Reply Store → SnapshotPlan
plan_snapshot env sn (absent e) = rests true
plan_snapshot env sn (failed e) = rests true
plan_snapshot env sn (found store) =
    if snapshot_is_state sn.status.state (failed_snapshot ∷ succeeded ∷ [])
    then rests false
    else record {
      ensures_job = not (snapshot_is_state sn.status.state (running ∷ []));
      status = some (reconcile_snapshot_status env sn);
      requeues = true;
    }

-- reconcileSnapshotResource
unfoldable pub reconcile_snapshot_resource : Env → Snapshot → Reply Store → SnapshotPlan
reconcile_snapshot_resource env sn store = plan_snapshot env sn store
