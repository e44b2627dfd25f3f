-- ===== src/Manager/Jobs/Evidence.antt =====
-- What stands behind a job whose container a handler takes for finished.
use shopware_operator.Prelude.{String, ◌≡◌, refl, ◌⊎◌, true, some, arith}
use shopware_operator.Prelude.Int.{is_pos}
use shopware_operator.Kube.{Reply, found, absent, failed, Job, Env, Result, ok, err}
use shopware_operator.Jobs.{JobState, is_job_container_done}
use shopware_operator.Jobs.Reports.{Completed, done_is_backed}
use shopware_operator.Manager.Jobs.{Progress, progress_of, reply_progress}

-- The job that `reply` gives has succeeded, or its container has completed in one of its pods.
abbrev pub Backed : Env → String → Reply Job → Type 0
Backed env container reply =
    (job : Job) × (reply ≡ found job)
    × ((is_pos job.succeeded ≡ true) ⊎ Completed env container job)

module _ (env : Env) where
  progress_finished :
      (container : String) (j k : Job) (r : Result JobState)
      → is_job_container_done env (some j) container ≡ r
      → progress_of j r ≡ Progress.finished k
      → (is_pos j.succeeded ≡ true) ⊎ Completed env container j
  progress_finished container j k (err e) q h = cc
  progress_finished container j k (ok st) q h =
      done_is_backed env container j st q (ground arith) (ground arith)

  pub reply_finished :
      (container : String) (reply : Reply Job) (k : Job)
      → reply_progress env container reply ≡ Progress.finished k
      → Backed env container reply
  reply_finished container (absent e) k h = cc
  reply_finished container (failed e) k h = cc
  reply_finished container (found j) k h = (
    j,
    refl,
    progress_finished container j k (is_job_container_done env (some j) container) refl h,
  )
