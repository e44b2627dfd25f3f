-- ===== src/Snapshots/Outcome.antt =====
-- What the end of a snapshot means.
use shopware_operator.Prelude.{◌≡◌, refl, ◌⊎◌, inl, inr, false, arith}
use shopware_operator.Kube.{Reply, found, absent, failed, Job, Env}
use shopware_operator.Api.Store.{Store}
use shopware_operator.Manager.Jobs.{Progress}
use shopware_operator.Manager.Jobs.Evidence.{Backed, reply_finished}
use shopware_operator.Snapshots.{
  pending, running, failed_snapshot, succeeded, SnapshotStatus, Snapshot, snapshot_container,
  snapshot_job_name, SnapshotProgress, no_job, unreachable, checked, snapshot_reply,
  snapshot_progress, by_progress, opened, reconcile_snapshot_status, rests,
  reconcile_snapshot_resource,
}

-- A snapshot that has ended is left alone: no job is made, no status is written, and it is not asked
-- for again.
ended_snapshot :
    (env : Env) (sn : Snapshot) (store : Store)
    → (sn.status.state ≡ failed_snapshot) ⊎ (sn.status.state ≡ succeeded)
    → reconcile_snapshot_resource env sn (found store) ≡ rests false
unfolding reconcile_snapshot_resource
ended_snapshot env sn store (inl e) = ground arith
ended_snapshot env sn store (inr e) = ground arith

-- The state and the time of completion after a branch of the status update.
abbrev Ends : Env → Snapshot → SnapshotStatus → Type 0
Ends env sn s =
    ((s.state ≡ succeeded)
      × (s.completed_at ≡ env.now)
      × Backed env snapshot_container (env.get_job sn.namespace (snapshot_job_name sn)))
    ⊎ ((s.state ≡ failed_snapshot) × (s.completed_at ≡ env.now))
    ⊎ (((s.state ≡ pending) ⊎ (s.state ≡ running)) × (s.completed_at ≡ sn.status.completed_at))

completed-opened : (s : SnapshotStatus) → (opened s).completed_at ≡ s.completed_at
completed-opened s = ground arith

Backed-progress :
    (env : Env) (reply : Reply Job) (j k : Job)
    → snapshot_reply env reply ≡ checked j (Progress.finished k)
    → Backed env snapshot_container reply
Backed-progress env (absent e) j k h = cc
Backed-progress env (failed e) j k h = cc
Backed-progress env (found i) j k h =
    reply_finished env snapshot_container (found i) k (finished_of h)
  where
    finished_of : {p q : Progress} {a b : Job} → checked a p ≡ checked b q → p ≡ q
    finished_of e = cc

Ends-by :
    (env : Env) (sn : Snapshot) (p : SnapshotProgress)
    → snapshot_progress env sn ≡ p
    → Ends env sn (by_progress env.now p (opened sn.status)).0
unfolding snapshot_progress
Ends-by env sn no_job h = inr (inr (inl refl, completed-opened sn.status))
Ends-by env sn (unreachable e) h = inr (inr (inl refl, completed-opened sn.status))
Ends-by env sn (checked j (Progress.unreadable e)) h = inr (inl (refl, refl))
Ends-by env sn (checked j (Progress.broken k code)) h = inr (inl (refl, refl))
Ends-by env sn (checked j (Progress.finished k)) h =
    inl (refl, refl, Backed-progress env (env.get_job sn.namespace (snapshot_job_name sn)) j k h)
Ends-by env sn (checked j Progress.missing) h = inr (inr (inr refl, completed-opened sn.status))
Ends-by env sn (checked j (Progress.waiting k)) h = inr (inr (inr refl, completed-opened sn.status))

-- A status update leaves a snapshot succeeded, failed, pending or running. It is succeeded only if the
-- API server has its job and the job has succeeded, or its container has completed in one of the pods
-- of the job. The time of completion is set to the current time if it has succeeded or failed, and
-- stays as it was otherwise.
pub snapshot_ends :
    (env : Env) (sn : Snapshot)
    → let s = reconcile_snapshot_status env sn in
      ((s.state ≡ succeeded)
        × (s.completed_at ≡ env.now)
        × Backed env snapshot_container (env.get_job sn.namespace (snapshot_job_name sn)))
      ⊎ ((s.state ≡ failed_snapshot) × (s.completed_at ≡ env.now))
      ⊎ (((s.state ≡ pending) ⊎ (s.state ≡ running)) × (s.completed_at ≡ sn.status.completed_at))
unfolding reconcile_snapshot_status
snapshot_ends env sn = Ends-by env sn (snapshot_progress env sn) refl
