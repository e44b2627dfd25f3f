-- ===== src/Jobs.antt =====
-- internal/job/util.go: how far the container of a job has come.
mod Outcome
pub mod Reports
use shopware_operator.Prelude.{
  String, Bool, true, false, not, Option, none, some, List, [], ◌∷◌, ◌++◌, ◌==◌, if◌then◌else◌,
}
use shopware_operator.Prelude.Int.{ℤ, pos, negsuc, eqb_ℤ, is_pos}
use shopware_operator.Prelude.Text.{concat}
use shopware_operator.Kube.{
  Reply, found, absent, failed, PodPhase, pending, Terminated, ContainerStatus, Pod, Job, Env,
  Result, ok, err,
}

pub record JobState : Type 0 where
  pub exit_code : ℤ
  pub running : Bool

unfoldable pub has_errors : JobState → Bool
has_errors s = not (eqb_ℤ s.exit_code (pos 0))

unfoldable pub is_done : JobState → Bool
is_done s = not s.running

abbrev pub still_running : JobState
still_running = record { exit_code = negsuc 0; running = true }

abbrev pub completed : JobState
completed = record { exit_code = pos 0; running = false }

-- A loop of the function either returns from the function or goes on with `errorStates`.
pub data Scan : Type 0 where
  returns : JobState → Scan
  goes_on : List JobState → Scan

-- The body of the loop over `pod.Status.ContainerStatuses`, at a status of the container (`c.Name ==
-- containerName`) or of another one: what it returns, if it does, ...
abbrev pub terminated_returns : Bool → Option Terminated → Option JobState
terminated_returns false o = none
terminated_returns true none = some still_running
terminated_returns true (some t) = if t.reason == "Completed" then some completed else none

-- ... and what it appends to `errorStates`.
abbrev pub terminated_errors : Bool → Option Terminated → List JobState
terminated_errors false o = []
terminated_errors true none = []
terminated_errors true (some t) =
    if eqb_ℤ t.exit_code (pos 0)
    then []
    else record { exit_code = t.exit_code; running = false } ∷ []

abbrev pub status_returns : String → ContainerStatus → Option JobState
status_returns name c = terminated_returns (c.name == name) c.terminated

abbrev pub status_errors : String → ContainerStatus → List JobState
status_errors name c = terminated_errors (c.name == name) c.terminated

unfoldable pub scan_statuses : String → List JobState → List ContainerStatus → Scan
scan_statuses name errors [] = goes_on errors
scan_statuses name errors (c ∷ cs) =
    let rest = scan_statuses name (errors ++ status_errors name c) cs in
    elim (status_returns name c) [ some s ↦ returns s | none ↦ rest ]

abbrev pub is_pending : PodPhase → Bool
is_pending pending = true
is_pending _ = false

-- What follows a loop is a function of the errors that it has collected.
abbrev pub and_then : Scan → (List JobState → Scan) → Scan
and_then (returns s) rest = returns s
and_then (goes_on errors) rest = rest errors

-- The loop over `pods.Items`
unfoldable pub scan_pods : String → List Pod → List JobState → Scan
unfolding scan_statuses
scan_pods name [] errors = goes_on errors
scan_pods name (p ∷ ps) errors =
    if is_pending p.phase
    then returns still_running
    else and_then (scan_statuses name errors p.container_statuses) (scan_pods name ps)

-- One container of the job's template whose name is the one asked for: the pods are listed by the
-- job's selector and scanned.
abbrev pub scan_reply : String → List JobState → Reply (List Pod) → Result Scan
scan_reply name errors (absent e) = err (concat ("get pods: " ∷ e ∷ []))
scan_reply name errors (failed e) = err (concat ("get pods: " ∷ e ∷ []))
scan_reply name errors (found pods) = ok (scan_pods name pods errors)

abbrev pub scan_selected : Env → String → Job → List JobState → Reply String → Result Scan
scan_selected env name job errors (absent e) = err (concat ("convert selector: " ∷ e ∷ []))
scan_selected env name job errors (failed e) = err (concat ("convert selector: " ∷ e ∷ []))
scan_selected env name job errors (found selector) =
    scan_reply name errors (env.list_pods job.namespace selector)

unfoldable pub scan_job : Env → String → Job → List JobState → Result Scan
unfolding scan_pods
scan_job env name job errors = scan_selected env name job errors (env.as_selector job.selector)

abbrev pub and_try : Result Scan → (List JobState → Result Scan) → Result Scan
and_try (err e) rest = err e
and_try (ok (returns s)) rest = ok (returns s)
and_try (ok (goes_on errors)) rest = rest errors

-- The loop over `job.Spec.Template.Spec.Containers`
unfoldable pub scan_containers : Env → String → Job → List String → List JobState → Result Scan
unfolding scan_job
scan_containers env name job [] errors = ok (goes_on errors)
scan_containers env name job (c ∷ cs) errors =
    and_try (if c == name then scan_job env name job errors else ok (goes_on errors))
      (scan_containers env name job cs)

abbrev pub last_of : JobState → List JobState → JobState
last_of s [] = s
last_of s (t ∷ ts) = last_of t ts

-- What the function returns when no loop has returned.
abbrev pub fall_back_failed : Job → List JobState → JobState
fall_back_failed job (e ∷ es) = last_of e es
fall_back_failed job [] =
    if is_pos job.failed_pods
    then record { exit_code = negsuc 403; running = false }
    else record { exit_code = pos 0; running = true }

unfoldable pub fall_back : Job → List JobState → JobState
fall_back job errors = if is_pos job.succeeded then completed else fall_back_failed job errors

abbrev pub conclude : Job → Result Scan → Result JobState
conclude job (err e) = err e
conclude job (ok (returns s)) = ok s
conclude job (ok (goes_on errors)) = ok (fall_back job errors)

-- IsJobContainerDone; `none` is a nil job.
unfoldable pub is_job_container_done : Env → Option Job → String → Result JobState
unfolding scan_containers fall_back
is_job_container_done env none name = err "job to check is nil"
is_job_container_done env (some job) name =
    conclude job (scan_containers env name job job.containers [])
